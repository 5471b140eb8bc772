-- ===== src/MbsSession/Subscriptions/Update.antt =====
-- What an update of a session's subscriptions sends and leaves.
use mathlib.Core.List.{append_assoc}
use rt_5gc_service_consumers.Common.{
  ℕ, true, false, ◌||◌, List, [], ◌∷◌, ◌++◌, map, none, if◌then◌else◌, has, has-append, Distinct,
  ok, ◌≡◌, refl, sym, ◌≢◌, ◌∙◌, arith,
}
use rt_5gc_service_consumers.MbsSession.Subscriptions.{
  Lists, create, update, delete, World, subscriptions_update,
}
use rt_5gc_service_consumers.MbsSession.Subscriptions.Loops.{
  Found, Live, agree-Live, changed_requests, agree-changed_requests, settled, all_requests,
  agree-all_requests, create_changed-Visited, update_changed-Visited, delete_each-Emptied,
}

pub Distinct-split :
    (xs ys : List ℕ)
    → Distinct (xs ++ ys)
    → Distinct xs × Distinct ys × ((a : ℕ) → has a xs ≡ true → has a ys ≡ false)
Distinct-split [] ys d = (tt, d, λ a h. cc)
Distinct-split (x ∷ xs) ys d =
    let (p, q, r) = Distinct-split xs ys d.1 in
    let e = has-append x xs ys in ((ground (arith, e), p), q, λ a h. ground (arith, e, r a))

Live-split : (f : Found) (xs ys : List ℕ) → Live f (xs ++ ys) → Live f xs × Live f ys
Live-split f [] ys h = (tt, h)
Live-split f (x ∷ xs) ys h = let (p, q) = Live-split f xs ys h.1 in ((h.0, p), q)

abbrev pub entries : Lists → List ℕ
entries l = map (λ e. e.1) l.active_subscriptions

-- No subscription stands twice in the session's lists and table, and none of them has been freed.
pub record WellFormed (s : ℕ) (w : World) : Type 0 where
  pub distinct : Distinct (
      (w.session s).new_subscriptions
      ++ (entries (w.session s) ++ (w.session s).deleted_subscriptions))
  pub live : Live w.subscription (
      (w.session s).new_subscriptions
      ++ (entries (w.session s) ++ (w.session s).deleted_subscriptions))

-- The world after an update of the subscriptions of the session.
pub record Updated (s : ℕ) (w v : World) : Type 0 where
  pub kept :
      (b : ℕ)
      → has b (w.session s).deleted_subscriptions ≡ false
      → v.subscription b ≡ (
          if has b (w.session s).new_subscriptions || has b (entries (w.session s))
          then settled (w.subscription b)
          else w.subscription b)
  pub freed : (b : ℕ) → has b (w.session s).deleted_subscriptions ≡ true → v.subscription b ≡ none
  pub others : (t : ℕ) → t ≢ s → v.session t ≡ w.session t
  pub lists : v.session s ≡ record (w.session s) { deleted_subscriptions = [] }
  pub requested :
      v.sent
      ≡ w.sent
        ++ (changed_requests create (w.session s).new_subscriptions w.subscription
            ++ (changed_requests update (entries (w.session s)) w.subscription
                ++ all_requests delete (w.session s).deleted_subscriptions w.subscription))

-- In a session whose lists and table name no subscription twice and none that has been freed, an
-- update of the subscriptions meets no freed one. It sends, in this order, a creation for each new
-- one that has changed, an update for each active one that has changed, and a deletion for each that
-- is to be deleted, where a subscription without a session sends nothing. Then the new and the
-- active ones are unchanged, those to be deleted are freed and their list is empty, and all else is
-- as it was.
pub subscriptions_update-Updated :
    (s : ℕ) (w : World)
    → WellFormed s w
    → (v : World) × (subscriptions_update s w ≡ ok v) × Updated s w v
unfolding subscriptions_update
subscriptions_update-Updated s w wf =
    let l = w.session s in
    let new = l.new_subscriptions in
    let gone = l.deleted_subscriptions in
    let (d₁, d, apart₁) = Distinct-split new (entries l ++ gone) wf.distinct in
    let (d₂, d₃, apart₂) = Distinct-split (entries l) gone d in
    let (p₁, p) = Live-split w.subscription new (entries l ++ gone) wf.live in
    let (p₂, p₃) = Live-split w.subscription (entries l) gone p in
    let h : (b : ℕ) → has b (entries l ++ gone) ≡ (has b (entries l) || has b gone) =
      λ b. has-append b (entries l) gone in
    let (w₁, e₁, v₁) = create_changed-Visited new w d₁ p₁ in
    let same₁ : (b : ℕ) → has b (entries l) ≡ true → w.subscription b ≡ w₁.subscription b =
      λ b k. ground (arith, v₁.there b, apart₁ b, h b) in
    let (w₂, e₂, v₂) =
      update_changed-Visited (entries l) w₁ d₂
        (agree-Live (entries l) w.subscription w₁.subscription same₁ p₂) in
    let same₂ : (b : ℕ) → has b gone ≡ true → w.subscription b ≡ w₂.subscription b =
      λ b k. ground (arith, v₁.there b, v₂.there b, apart₁ b, apart₂ b, h b) in
    let (w₃, e₃, v₃) =
      delete_each-Emptied s gone w₂ d₃ (agree-Live gone w.subscription w₂.subscription same₂ p₃)
        (rw (v₂.lists s, v₁.lists s) refl) in
    (
      w₃,
      rw (e₁, v₁.lists s, e₂, v₂.lists s, v₁.lists s) e₃,
      record {
        kept = λ b k. ground (arith, v₁.there b, v₂.there b, v₃.there b, apart₁ b, h b);
        freed = λ b k. ground (arith, v₃.there b);
        others = λ t ne. v₃.others t ne ∙ v₂.lists t ∙ v₁.lists t;
        lists = rw (v₃.lists, v₂.lists s, v₁.lists s) refl;
        requested =
            rw
              (
                v₃.requested,
                v₂.requested,
                v₁.requested,
                sym (agree-all_requests delete gone w.subscription w₂.subscription same₂),
                sym (
                    agree-changed_requests update (entries l) w.subscription w₁.subscription same₁),
              )
              (append_assoc (w.sent ++ changed_requests create new w.subscription) _ _
                ∙ append_assoc w.sent _ _);
      },
    )
