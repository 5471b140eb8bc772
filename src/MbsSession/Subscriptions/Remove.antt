-- ===== src/MbsSession/Subscriptions/Remove.antt =====
-- The removal of a subscription, and what the next update of the session makes of it.
use rt_5gc_service_consumers.Common.{
  ℕ, true, false, List, [], ◌∷◌, ◌++◌, map, none, some, Str, ◌==◌, ==_self, if◌then◌else◌, has,
  has-append, Distinct, append-Distinct, Distinct-append, ok, ◌||◌, ◌≡◌, refl, ◌∙◌, arith,
  Bool-cases, inl, inr,
}
use mathlib.Core.List.{append_assoc}
use rt_5gc_service_consumers.MbsSession.Subscriptions.{
  Subscription, Sent, create, update, delete, World, deref, hash_remove, hash_get, schedule_delete,
  remove_subscription, find_active_subscription, subscriptions_update,
}
use rt_5gc_service_consumers.MbsSession.Subscriptions.Loops.{
  Found, Live, all_requests, changed_requests,
}
use rt_5gc_service_consumers.MbsSession.Subscriptions.Update.{
  WellFormed, Distinct-split, Updated, subscriptions_update-Updated,
}

-- The subscriptions of a table.
abbrev values : List (Str × ℕ) → List ℕ
values = map (λ e. e.1)

has-hash_remove :
    (i : Str) (m : List (Str × ℕ)) (b : ℕ)
    → has b (values m) ≡ false
    → has b (values (hash_remove i m)) ≡ false
unfolding hash_remove
has-hash_remove i [] b h = refl
has-hash_remove i (e ∷ m) b h = ground (arith, has-hash_remove i m b)

hash_remove-Distinct :
    (i : Str) (m : List (Str × ℕ)) → Distinct (values m) → Distinct (values (hash_remove i m))
unfolding hash_remove
hash_remove-Distinct i [] d = tt
hash_remove-Distinct i (e ∷ m) d =
    ground (arith, hash_remove-Distinct i m d.1, has-hash_remove i m e.1)

has-hash_get :
    (i : Str) (m : List (Str × ℕ)) (a : ℕ) → hash_get i m ≡ some a → has a (values m) ≡ true
unfolding hash_get
has-hash_get i [] a h = cc
has-hash_get i (e ∷ m) a h = ground (arith, has-hash_get i m a)

-- The subscription that the key finds is gone with it.
has-hash_remove_found :
    (i : Str) (m : List (Str × ℕ)) (a : ℕ)
    → Distinct (values m)
    → hash_get i m ≡ some a
    → has a (values (hash_remove i m)) ≡ false
unfolding hash_get hash_remove
has-hash_remove_found i [] a d h = cc
has-hash_remove_found i (e ∷ m) a d h =
    ground (arith, has-hash_remove_found i m a d.1, has-hash_remove i m e.1, has-hash_get i m a)

get-hash_remove : (i : Str) (m : List (Str × ℕ)) → hash_get i (hash_remove i m) ≡ none
unfolding hash_get hash_remove
get-hash_remove i [] = refl
get-hash_remove i (e ∷ m) = ground (arith, get-hash_remove i m)

Live-has :
    (f : Found) (l : List ℕ) (b : ℕ)
    → Live f l
    → has b l ≡ true
    → (x : Subscription) × (f b ≡ some x)
Live-has f [] b h k = cc
Live-has f (c ∷ l) b h k = elim (Bool-cases (c == b)) [
  | inl e ↦ let same : c ≡ b = ground (arith, e) in rw (← same) h.0
  | inr e ↦ Live-has f l b h.1 (ground (arith, e))
]

Live-of_has :
    (f : Found) (l : List ℕ)
    → ((b : ℕ) → has b l ≡ true → (x : Subscription) × (f b ≡ some x))
    → Live f l
Live-of_has f [] h = tt
Live-of_has f (c ∷ l) h =
    (h c (ground (arith, ==_self c)), Live-of_has f l (λ b k. h b (ground (arith, k))))

all_requests-append :
    (xs ys : List ℕ) (f : Found)
    → all_requests delete (xs ++ ys) f ≡ all_requests delete xs f ++ all_requests delete ys f
all_requests-append [] ys f = refl
all_requests-append (x ∷ xs) ys f = rw (all_requests-append xs ys f) (simp append_assoc)

module _ (s a : ℕ) (i : Str) (x : Subscription) (w : World) where
  abbrev scheduled : World
  scheduled = schedule_delete s a x i w

  lists-scheduled : scheduled.session s ≡ record (w.session s) {
    active_subscriptions = hash_remove i (w.session s).active_subscriptions;
    deleted_subscriptions = (w.session s).deleted_subscriptions ++ a ∷ [];
  }
  unfolding schedule_delete
  lists-scheduled = rw (==_self s) refl

  subscription-scheduled :
      (b : ℕ)
      → scheduled.subscription b
        ≡ (if b == a then some (record x { changed = true }) else w.subscription b)
  unfolding schedule_delete
  subscription-scheduled b = refl

  -- The removal of a subscription that the table has under its id keeps the session well-formed.
  scheduled-WellFormed :
      hash_get i (w.session s).active_subscriptions ≡ some a
      → WellFormed s w
      → WellFormed s scheduled
  scheduled-WellFormed found wf =
      let l = w.session s in
      let new = l.new_subscriptions in
      let m = l.active_subscriptions in
      let gone = l.deleted_subscriptions in
      let left = values (hash_remove i m) in
      let (d₁, d, apart₁) = Distinct-split new (values m ++ gone) wf.distinct in
      let (d₂, d₃, apart₂) = Distinct-split (values m) gone d in
      let away = has-hash_remove_found i m a d₂ found in
      let listed = has-hash_get i m a found in
      let split : (b : ℕ)
          → has b (left ++ (gone ++ a ∷ [])) ≡ (has b left || (has b gone || ((a == b) || false))) =
        λ b. ground (arith, has-append b left (gone ++ a ∷ []), has-append b gone (a ∷ [])) in
      let tail : Distinct (left ++ (gone ++ a ∷ [])) =
        Distinct-append left (gone ++ a ∷ []) (hash_remove-Distinct i m d₂)
          (append-Distinct a gone d₃ (apart₂ a listed))
          (λ b h.
            ground (arith, has-append b gone (a ∷ []), apart₂ b, has-hash_remove i m b, away)) in
      let old : (b : ℕ)
          → has b (new ++ (values m ++ gone)) ≡ (has b new || (has b (values m) || has b gone)) =
        λ b. ground (arith, has-append b new (values m ++ gone), has-append b (values m) gone) in
      let all : Distinct (new ++ (left ++ (gone ++ a ∷ []))) =
        Distinct-append new (left ++ (gone ++ a ∷ [])) d₁ tail (λ b h. ground (
          arith,
          split b,
          apart₁ b h,
          has-append b (values m) gone,
          has-hash_remove i m b,
          listed,
        )) in
      record {
        distinct = rw lists-scheduled all;
        live = rw lists-scheduled (
            Live-of_has scheduled.subscription (new ++ (left ++ (gone ++ a ∷ []))) (λ b h.
              elim (Bool-cases (b == a)) [
                | inl e ↦ (record x { changed = true }, rw (subscription-scheduled b, e) refl)
                | inr e ↦
                    let (y, k) = Live-has w.subscription (new ++ (values m ++ gone)) b wf.live (
                      ground (
                        arith,
                        old b,
                        split b,
                        has-append b new (left ++ (gone ++ a ∷ [])),
                        has-hash_remove i m b,
                      )) in
                    (y, rw (subscription-scheduled b, e) k)
              ]));
      }

  removed :
      (w.session s).deleted ≡ false
      → w.subscription a ≡ some x
      → x.session ≡ some s
      → x.id ≡ some i
      → remove_subscription s a w ≡ ok (scheduled, true)
  unfolding remove_subscription deref
  removed live there own id = ground (arith, live, there, own, id)

  not_found : (w.session s).deleted ≡ false → find_active_subscription s i scheduled ≡ none
  unfolding find_active_subscription
  not_found live = rw (lists-scheduled, live, get-hash_remove) refl

  -- The deletion of the subscription is the last request of the update that follows.
  last_request :
      x.session ≡ some s
      → (u : World) → Updated s scheduled u
      → (earlier : List Sent) × (u.sent ≡ earlier ++ delete s a ∷ [])
  last_request own u up =
      let l = w.session s in
      let gone = all_requests delete l.deleted_subscriptions scheduled.subscription in
      let new = changed_requests create l.new_subscriptions scheduled.subscription in
      let active =
        changed_requests update (values (hash_remove i l.active_subscriptions))
          scheduled.subscription in
      (
        scheduled.sent ++ (new ++ (active ++ gone)),
        up.requested ∙ rw (lists-scheduled, all_requests-append, one) (simp append_assoc),
      )
    where
      one : all_requests delete (a ∷ []) scheduled.subscription ≡ delete s a ∷ []
      one = rw (subscription-scheduled a, ==_self a, own) refl

-- In a well-formed session that is not deleted, remove a subscription of the session that its table
-- has under its id: this succeeds, and the id then finds nothing. The next update of the session's
-- subscriptions meets no freed one, sends the deletion of the subscription as its last request, and
-- frees the subscription, which is then in neither list.
pub remove_subscription-update :
    (s a : ℕ) (i : Str) (x : Subscription) (w : World)
    → WellFormed s w
    → (w.session s).deleted ≡ false
    → w.subscription a ≡ some x
    → x.session ≡ some s
    → x.id ≡ some i
    → hash_get i (w.session s).active_subscriptions ≡ some a
    → (v u : World) × (remove_subscription s a w ≡ ok (v, true))
      × (find_active_subscription s i v ≡ none)
      × (subscriptions_update s v ≡ ok u)
      × (u.subscription a ≡ none)
      × ((earlier : List Sent) × (u.sent ≡ earlier ++ delete s a ∷ []))
      × (has a (u.session s).new_subscriptions ≡ false)
      × (has a (u.session s).deleted_subscriptions ≡ false)
remove_subscription-update s a i x w wf live there own id found =
    let l = w.session s in
    let v = scheduled s a i x w in
    let lists = lists-scheduled s a i x w in
    let (u, run, up) = subscriptions_update-Updated s v (scheduled-WellFormed s a i x w found wf) in
    let (d₁, d, apart) =
      Distinct-split l.new_subscriptions (values l.active_subscriptions ++ l.deleted_subscriptions)
        wf.distinct in
    let listed = has-hash_get i l.active_subscriptions a found in
    (
      v,
      u,
      removed s a i x w live there own id,
      not_found s a i x w live,
      run,
      up.freed a
          (rw lists (ground (arith, has-append a l.deleted_subscriptions (a ∷ []), ==_self a))),
      last_request s a i x w own u up,
      rw (up.lists, lists)
          (ground (
            arith,
            apart a,
            has-append a (values l.active_subscriptions) l.deleted_subscriptions,
            listed,
          )),
      rw up.lists refl,
    )
