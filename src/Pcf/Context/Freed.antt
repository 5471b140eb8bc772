-- ===== src/Pcf/Context/Freed.antt =====
-- The end of a PCF session, with all its app sessions.
use mathlib.Core.List.{append_assoc, append-nil}
use rt_5gc_service_consumers.Common.{
  ℕ, true, false, List, [], ◌∷◌, ◌++◌, none, some, ◌==◌, if◌then◌else◌, ok, has, remove, Distinct,
  has-remove_of, ◌≡◌, refl, sym, ap, ◌∙◌, subst, arith, Bool-cases, inl, inr, ==_iff,
}
use rt_5gc_service_consumers.Pcf.Context.{
  AppSession, ChangeCall, PcfContext, listed_in, app_session_exists, change_call, remove_each,
  sess_remove_all, pcf_session_free,
}
use rt_5gc_service_consumers.Pcf.Context.Listed.{IsValid, view, has-listed_in, exists-owner}
use rt_5gc_service_consumers.Pcf.Context.Dropped.{
  Dropped-IsValid, view-Dropped, app_sess_remove-Dropped,
}

-- Each app session of the list is told that it ends, in order.
abbrev pub ends : (ℕ → AppSession) → List ℕ → List ChangeCall
ends app [] = []
ends app (a ∷ l) = change_call (app a) none ++ ends app l

-- The context without the app sessions of a list, which were told so.
pub record Ended (l : List ℕ) (c d : PcfContext) : Type 0 where
  pub valid : IsValid d
  pub sessions : d.pcf_sessions ≡ c.pcf_sessions
  pub records : d.app_session ≡ c.app_session
  pub views : (b : ℕ) → view d b ≡ (if has b l then none else view c b)
  pub calls : d.calls ≡ c.calls ++ ends c.app_session l

-- A view shows whether an address is listed.
exists-view :
    (b : ℕ) (c d : PcfContext)
    → view d b ≡ view c b
    → app_session_exists b c ≡ true
    → app_session_exists b d ≡ true
exists-view b c d e h = elim (Bool-cases (app_session_exists b d)) [
  | inl k ↦ k
  | inr k ↦
      let gone : view d b ≡ none = rw k refl in
      let there : view c b ≡ some (c.app_session b) = rw h refl in cc
]

remove_each-Ended :
    (l : List ℕ) (c : PcfContext)
    → IsValid c
    → Distinct l
    → ((b : ℕ) → has b l ≡ true → app_session_exists b c ≡ true)
    → (d : PcfContext) × (remove_each l c ≡ ok d) × Ended l c d
unfolding remove_each
remove_each-Ended [] c v n h = (
  c,
  refl,
  record {
    valid = v;
    sessions = refl;
    records = refl;
    views = λ b. refl;
    calls = sym (append-nil c.calls);
  },
)
remove_each-Ended (a ∷ l) c v n h =
    let (d, r, w, k) = app_sess_remove-Dropped a c v (h a (ground arith)) in
    let views = view-Dropped a c d v w in
    let apart : (b : ℕ) → has b l ≡ true → (b == a) ≡ false = λ b m. elim (Bool-cases (b == a)) [
      | inl q ↦ cc (sym n.0 ∙ subst (λ x. has x l ≡ true) ((==_iff b a).0 q) m)
      | inr q ↦ q
    ] in
    let (f, s, u) =
      remove_each-Ended l d (Dropped-IsValid a c d v w) n.1
        (λ b m. exists-view b c d (views b ∙ rw (apart b m) refl) (h b (ground (arith, m)))) in
    (
      f,
      rw r s,
      record {
        valid = u.valid;
        sessions = u.sessions ∙ w.sessions;
        records = u.records ∙ w.records;
        views = λ b. ground (arith, u.views b, views b);
        calls =
            u.calls
            ∙ ap (λ app. d.calls ++ ends app l) w.records
            ∙ ap (λ x. x ++ ends c.app_session l) k
            ∙ append_assoc c.calls (change_call (c.app_session a) none) (ends c.app_session l);
      },
    )

remove-listed :
    (f : ℕ → List ℕ) (p : ℕ) (l : List ℕ) (b : ℕ)
    → has b (f p) ≡ false
    → listed_in f (remove p l) b ≡ listed_in f l b
remove-listed f p [] b e = refl
remove-listed f p (q ∷ l) b e =
    let same : (q == p) ≡ true → has b (f q) ≡ has b (f p) =
      λ h. ap (λ x. has b (f x)) ((==_iff q p).0 h) in
    ground (arith, e, same, remove-listed f p l b e)

was_listed : (p q : ℕ) (l : List ℕ) → has q (remove p l) ≡ true → has q l ≡ true
was_listed p q l h = elim (Bool-cases (has q l)) [
  | inl e ↦ e
  | inr e ↦ cc (sym h ∙ has-remove_of p q l e)
]

emptied :
    (p : ℕ) (c d : PcfContext) (b : ℕ)
    → IsValid c
    → has p c.pcf_sessions ≡ true
    → Ended (c.pcf_app_sessions p) c d
    → has b (d.pcf_app_sessions p) ≡ false
unfolding app_session_exists
emptied p c d b v m u = elim (Bool-cases (has b (d.pcf_app_sessions p))) [
  | inr h ↦ h
  | inl h ↦
      let n : has p d.pcf_sessions ≡ true = subst (λ l. has p l ≡ true) (sym u.sessions) m in
      let there : listed_in d.pcf_app_sessions d.pcf_sessions b ≡ true =
        has-listed_in d.pcf_app_sessions d.pcf_sessions p b n h in
      let owner : (c.app_session b).pcf_session ≡ p =
        subst (λ (app : ℕ → AppSession). (app b).pcf_session ≡ p) u.records
          (u.valid.owned p b n h).1 in
      let seen : view d b ≡ some (d.app_session b) = rw there refl in
      elim (Bool-cases (has b (c.pcf_app_sessions p))) [
        | inl k ↦ let unseen : view d b ≡ none = u.views b ∙ rw k refl in cc
        | inr k ↦
            let same : view d b ≡ view c b = u.views b ∙ rw k refl in
            let e = exists-view b d c (sym same) there in
            let o = (exists-owner b c v e).1 in
            cc (sym k ∙ subst (λ q. has b (c.pcf_app_sessions q) ≡ true) owner o)
      ]
]

-- To free a PCF session of a valid context meets no freed app session. Each of its app sessions is
-- told its end once, in the order of the list, and is listed no more; all others are as they were,
-- and the context stays valid.
pub pcf_session_free-Ended :
    (p : ℕ) (c : PcfContext)
    → IsValid c
    → has p c.pcf_sessions ≡ true
    → (d : PcfContext) × (pcf_session_free p c ≡ ok d)
      × IsValid d
      × (d.pcf_sessions ≡ remove p c.pcf_sessions)
      × ((b : ℕ) → view d b ≡ (if has b (c.pcf_app_sessions p) then none else view c b))
      × (d.calls ≡ c.calls ++ ends c.app_session (c.pcf_app_sessions p))
unfolding pcf_session_free sess_remove_all app_session_exists
pcf_session_free-Ended p c v m =
    let (d, r, u) =
      remove_each-Ended (c.pcf_app_sessions p) c v (v.once p m)
        (λ b n. has-listed_in c.pcf_app_sessions c.pcf_sessions p b m n) in
    (
      record d { pcf_sessions = remove p d.pcf_sessions },
      rw r refl,
      record {
        owned = λ q a n. u.valid.owned q a (was_listed p q d.pcf_sessions n);
        once = λ q n. u.valid.once q (was_listed p q d.pcf_sessions n);
      },
      ap (remove p) u.sessions,
      λ b.
          ap (λ t. if t then some (d.app_session b) else none)
            (remove-listed d.pcf_app_sessions p d.pcf_sessions b (emptied p c d b v m u))
          ∙ u.views b,
      u.calls,
    )
