-- ===== src/MbsSession/Subscriptions/Loops.antt =====
-- What each of the three loops of an update of a session's subscriptions sends and leaves.
use mathlib.Core.List.{append-nil, append_assoc}
use rt_5gc_service_consumers.Common.{
  ℕ, true, false, List, [], ◌∷◌, ◌++◌, Option, none, some, ◌==◌, if◌then◌else◌, has, Distinct,
  remove, ok, ◌≡◌, refl, ap, ◌≢◌, ◌∙◌, arith,
}
use rt_5gc_service_consumers.MbsSession.Subscriptions.{
  Subscription, Sent, create, update, delete, World, set_subscription, set_lists, deref, requests,
  send, create_changed, update_changed, delete_each,
}

abbrev pub Found : Type 0
Found = ℕ → Option Subscription

deref-some : (a : ℕ) (w : World) (x : Subscription) → w.subscription a ≡ some x → deref a w ≡ ok x
unfolding deref
deref-some a w x e = rw (e, deref) refl

-- Every subscription of the list is there.
abbrev pub Live : Found → List ℕ → Type 0
Live f [] = Unit {0}
Live f (a ∷ l) = ((x : Subscription) × (f a ≡ some x)) × Live f l

-- The requests for the changed subscriptions of the list, in its order.
abbrev pub request_if_changed : (ℕ → ℕ → Sent) → ℕ → Option Subscription → List Sent
request_if_changed kind a none = []
request_if_changed kind a (some x) = if x.changed then requests kind a x else []

abbrev pub changed_requests : (ℕ → ℕ → Sent) → List ℕ → Found → List Sent
changed_requests kind [] f = []
changed_requests kind (a ∷ l) f = request_if_changed kind a (f a) ++ changed_requests kind l f

abbrev pub settled : Option Subscription → Option Subscription
settled none = none
settled (some x) = some (record x { changed = false })

pub agree-changed_requests :
    (kind : ℕ → ℕ → Sent) (l : List ℕ) (f g : Found)
    → ((b : ℕ) → has b l ≡ true → f b ≡ g b)
    → changed_requests kind l f ≡ changed_requests kind l g
agree-changed_requests kind [] f g h = refl
agree-changed_requests kind (a ∷ l) f g h = rw (h a (ground arith)) (
    ap (λ t. request_if_changed kind a (g a) ++ t)
      (agree-changed_requests kind l f g (λ b k. h b (ground arith))))

pub agree-Live :
    (l : List ℕ) (f g : Found) → ((b : ℕ) → has b l ≡ true → f b ≡ g b) → Live f l → Live g l
agree-Live [] f g h k = tt
agree-Live (a ∷ l) f g h ((x, e), k) =
    ((x, ground (arith, h a)), agree-Live l f g (λ b m. h b (ground arith)) k)

-- The world after a loop over the list that settles its subscriptions.
pub record Visited (kind : ℕ → ℕ → Sent) (l : List ℕ) (w v : World) : Type 0 where
  pub there :
      (b : ℕ)
      → v.subscription b ≡ (if has b l then settled (w.subscription b) else w.subscription b)
  pub lists : (s : ℕ) → v.session s ≡ w.session s
  pub requested : v.sent ≡ w.sent ++ changed_requests kind l w.subscription

-- One round settles the head, so the rest sees what it saw.
round-Visited :
    (kind : ℕ → ℕ → Sent) (a : ℕ) (l : List ℕ) (w u v : World) (x : Subscription)
    → has a l ≡ false
    → w.subscription a ≡ some x
    → ((b : ℕ)
        → u.subscription b
          ≡ (if b == a then some (record x { changed = false }) else w.subscription b))
    → ((s : ℕ) → u.session s ≡ w.session s)
    → u.sent ≡ w.sent ++ request_if_changed kind a (some x)
    → Visited kind l u v
    → Visited kind (a ∷ l) w v
round-Visited kind a l w u v x apart e there lists sent vis = record {
  there = λ b. ground (arith, vis.there b, there b);
  lists = λ s. vis.lists s ∙ lists s;
  requested =
      rw
        (
          vis.requested,
          sent,
          agree-changed_requests kind l u.subscription w.subscription
              (λ b k. ground (arith, there b)),
          e,
        )
        (append_assoc w.sent _ _);
}

pub create_changed-Visited :
    (l : List ℕ) (w : World)
    → Distinct l
    → Live w.subscription l
    → (v : World) × (create_changed l w ≡ ok v) × Visited create l w v
unfolding create_changed
create_changed-Visited [] w d live =
    (w, refl, record { there = λ b. refl; lists = λ s. refl; requested = rw append-nil refl })
create_changed-Visited (a ∷ l) w d ((x, e), live) =
    let u =
      set_subscription a (some (record x { changed = false }))
        (if x.changed then send create a x w else w) in
    let sub : (b : ℕ)
        → u.subscription b
          ≡ (if b == a then some (record x { changed = false }) else w.subscription b) =
      λ b. ground arith in
    let (v, run, vis) =
      create_changed-Visited l u d.1
        (agree-Live l w.subscription u.subscription (λ b k. ground (arith, sub b)) live) in
    (
      v,
      rw (deref-some a w x e) run,
      round-Visited create a l w u v x d.0 e sub (λ s. ground arith)
          (ground (arith, append-nil w.sent)) vis,
    )

pub update_changed-Visited :
    (l : List ℕ) (w : World)
    → Distinct l
    → Live w.subscription l
    → (v : World) × (update_changed l w ≡ ok v) × Visited update l w v
unfolding update_changed
update_changed-Visited [] w d live =
    (w, refl, record { there = λ b. refl; lists = λ s. refl; requested = rw append-nil refl })
update_changed-Visited (a ∷ l) w d ((x, e), live) =
    let u =
      if x.changed
      then set_subscription a (some (record x { changed = false })) (send update a x w)
      else w in
    let sub : (b : ℕ)
        → u.subscription b
          ≡ (if b == a then some (record x { changed = false }) else w.subscription b) =
      λ b. ground arith in
    let (v, run, vis) =
      update_changed-Visited l u d.1
        (agree-Live l w.subscription u.subscription (λ b k. ground (arith, sub b)) live) in
    (
      v,
      rw (deref-some a w x e) run,
      round-Visited update a l w u v x d.0 e sub (λ s. ground arith)
          (ground (arith, append-nil w.sent)) vis,
    )

abbrev pub all_requests : (ℕ → ℕ → Sent) → List ℕ → Found → List Sent
all_requests kind [] f = []
all_requests kind (a ∷ l) f =
    elim (f a) [ none ↦ [] | some x ↦ requests kind a x ] ++ all_requests kind l f

pub agree-all_requests :
    (kind : ℕ → ℕ → Sent) (l : List ℕ) (f g : Found)
    → ((b : ℕ) → has b l ≡ true → f b ≡ g b)
    → all_requests kind l f ≡ all_requests kind l g
agree-all_requests kind [] f g h = refl
agree-all_requests kind (a ∷ l) f g h = rw (h a (ground arith)) (
    ap (λ t. elim (g a) [ none ↦ [] | some x ↦ requests kind a x ] ++ t)
      (agree-all_requests kind l f g (λ b k. h b (ground arith))))

-- The world after the deletion of what was scheduled for it.
pub record Emptied (s : ℕ) (l : List ℕ) (w v : World) : Type 0 where
  pub there : (b : ℕ) → v.subscription b ≡ (if has b l then none else w.subscription b)
  pub others : (t : ℕ) → t ≢ s → v.session t ≡ w.session t
  pub lists : v.session s ≡ record (w.session s) { deleted_subscriptions = [] }
  pub requested : v.sent ≡ w.sent ++ all_requests delete l w.subscription

pub delete_each-Emptied :
    (s : ℕ) (l : List ℕ) (w : World)
    → Distinct l
    → Live w.subscription l
    → (w.session s).deleted_subscriptions ≡ l
    → (v : World) × (delete_each s l w ≡ ok v) × Emptied s l w v
unfolding delete_each
delete_each-Emptied s [] w d live scheduled = (
  w,
  refl,
  record {
    there = λ b. refl;
    others = λ t h. refl;
    lists = ground (arith, scheduled);
    requested = rw append-nil refl;
  },
)
delete_each-Emptied s (a ∷ l) w d ((x, e), live) scheduled =
    let k = w.session s in
    let u = set_subscription a none (
      set_lists s (record k { deleted_subscriptions = remove a k.deleted_subscriptions })
        (send delete a x w)) in
    let left : (u.session s).deleted_subscriptions ≡ l = ground (arith, scheduled) in
    let (v, run, em) =
      delete_each-Emptied s l u d.1
        (agree-Live l w.subscription u.subscription (λ b m. ground arith) live) left in
    (
      v,
      rw (deref-some a w x e) run,
      record {
        there = λ b. ground (arith, em.there b);
        others = λ t h. ground (arith, em.others t);
        lists = ground (arith, em.lists);
        requested =
            rw
              (
                em.requested,
                agree-all_requests delete l u.subscription w.subscription (λ b m. ground arith),
                e,
              )
              (append_assoc w.sent _ _);
      },
    )
