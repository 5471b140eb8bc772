-- ===== src/Pcf/Context/Dropped.antt =====
-- The context without one of its app sessions.
use rt_5gc_service_consumers.Common.{
  ℕ, true, false, List, ◌++◌, none, some, ◌==◌, if◌then◌else◌, ok, has, remove, Distinct, ◌≡◌, ◌≢◌,
  refl, sym, ap, ◌∙◌, subst, arith, Bool-cases, inl, inr, ==_iff, ==_self,
}
use rt_5gc_service_consumers.Pcf.Context.{
  PcfContext, set, deref_session, listed_in, app_session_exists, change_call, change_callback_call,
  unlink, app_session_free, app_sess_remove,
}
use rt_5gc_service_consumers.Pcf.Context.Listed.{
  IsValid, view, listed_in-has, listed_in-cong, exists-owner, Without, remove-Without,
  Without-again,
}

-- The second context has all that the first has but one app session.
pub record Dropped (a : ℕ) (c d : PcfContext) : Type 0 where
  pub sessions : d.pcf_sessions ≡ c.pcf_sessions
  pub records : d.app_session ≡ c.app_session
  pub memory : (b : ℕ) → d.live b ≡ (if b == a then false else c.live b)
  pub taken :
      Without a
        (c.pcf_app_sessions ((c.app_session a).pcf_session))
        (d.pcf_app_sessions ((c.app_session a).pcf_session))
  pub others :
      (q : ℕ) → q ≢ (c.app_session a).pcf_session → d.pcf_app_sessions q ≡ c.pcf_app_sessions q

module _ (a : ℕ) (c d : PcfContext) (v : IsValid c) (w : Dropped a c d) where
  -- What stands in a list afterwards stood there before, and is another app session.
  still :
      (q b : ℕ)
      → has q c.pcf_sessions ≡ true
      → has b (d.pcf_app_sessions q) ≡ true
      → (has b (c.pcf_app_sessions q) ≡ true) × ((b == a) ≡ false)
  still q b m n = elim (Bool-cases (q == (c.app_session a).pcf_session)) [
    | inl h ↦
        let e = (==_iff q ((c.app_session a).pcf_session)).0 h in
        let n' = subst (λ r. has b (d.pcf_app_sessions r) ≡ true) e n in
        let l : has b (c.pcf_app_sessions ((c.app_session a).pcf_session)) ≡ true =
          ground (arith, n', w.taken.1 b) in
        (
          subst (λ r. has b (c.pcf_app_sessions r) ≡ true) (sym e) l,
          ground (arith, n', w.taken.1 b),
        )
    | inr h ↦
        let apart : q ≢ (c.app_session a).pcf_session = λ e. ground (arith, h, e) in
        let n' = subst (λ l. has b l ≡ true) (w.others q apart) n in (n', owner_apart apart n')
  ]
    where
      owner_apart :
          q ≢ (c.app_session a).pcf_session → has b (c.pcf_app_sessions q) ≡ true → (b == a) ≡ false
      owner_apart apart n' = elim (Bool-cases (b == a)) [
        | inl h ↦ absurd (
            apart (
              sym (v.owned q b m n').1
              ∙ ap (λ x. (c.app_session x).pcf_session) ((==_iff b a).0 h)))
        | inr h ↦ h
      ]

  pub Dropped-IsValid : IsValid d
  Dropped-IsValid = record {
    owned = λ q b m n.
        let m' = subst (λ l. has q l ≡ true) w.sessions m in
        let (n', apart) = still q b m' n in
        let (alive, owner) = v.owned q b m' n' in
        (w.memory b ∙ rw apart alive, rw (w.records) owner);
    once = λ q m.
        let m' = subst (λ l. has q l ≡ true) w.sessions m in
        elim (Bool-cases (q == (c.app_session a).pcf_session)) [
          | inl h ↦ subst (λ r. Distinct (d.pcf_app_sessions r)) (sym ((==_iff q _).0 h)) w.taken.0
          | inr h ↦ subst Distinct (sym (w.others q (λ e. ground (arith, h, e)))) (v.once q m')
        ];
  }

  others_listed :
      (q b : ℕ) → (b == a) ≡ false → has b (d.pcf_app_sessions q) ≡ has b (c.pcf_app_sessions q)
  others_listed q b apart = elim (Bool-cases (q == (c.app_session a).pcf_session)) [
    | inl h ↦
        subst (λ r. has b (d.pcf_app_sessions r) ≡ has b (c.pcf_app_sessions r))
          (sym ((==_iff q _).0 h)) (w.taken.1 b ∙ ground (arith, apart))
    | inr h ↦ ap (has b) (w.others q (λ e. ground (arith, h, e)))
  ]

  gone : listed_in d.pcf_app_sessions d.pcf_sessions a ≡ false
  gone = elim (Bool-cases (listed_in d.pcf_app_sessions d.pcf_sessions a)) [
    | inl h ↦
        let (q, m, n) = listed_in-has d.pcf_app_sessions d.pcf_sessions a h in
        let apart = (still q a (subst (λ l. has q l ≡ true) w.sessions m) n).1 in
        ground (arith, apart, ==_self a)
    | inr h ↦ h
  ]

  pub view-Dropped : (b : ℕ) → view d b ≡ (if b == a then none else view c b)
  unfolding app_session_exists
  view-Dropped b = elim (Bool-cases (b == a)) [
    | inl h ↦ rw h (subst (λ x. view d x ≡ none) (sym ((==_iff b a).0 h)) (rw gone refl))
    | inr h ↦ rw h (
        rw (w.records) (
          ap (λ t. if t then some (c.app_session b) else none)
            (ap (λ l. listed_in d.pcf_app_sessions l b) w.sessions
              ∙ listed_in-cong d.pcf_app_sessions c.pcf_app_sessions c.pcf_sessions b
                  (λ q. others_listed q b h))))
  ]

app_session_free_lem :
    (a : ℕ) (c : PcfContext)
    → c.live a ≡ true
    → app_session_free a c
      ≡ ok (record (unlink (c.app_session a).pcf_session a c) { live = set a false c.live })
unfolding app_session_free deref_session
app_session_free_lem a c alive = rw alive refl

app_sess_remove_lem :
    (a : ℕ) (c : PcfContext)
    → c.live a ≡ true
    → app_sess_remove a c
      ≡ ok (record (unlink (c.app_session a).pcf_session a c) {
        live = set a false c.live;
        calls = c.calls ++ change_call (c.app_session a) none;
      })
unfolding app_sess_remove change_callback_call deref_session
app_sess_remove_lem a c alive = rw alive (
    app_session_free_lem a (record c { calls = c.calls ++ change_call (c.app_session a) none })
      alive)

-- What the removal of a listed app session gives, after its list was taken without it or not.
module _ (a : ℕ) (c : PcfContext) (v : IsValid c) (e : app_session_exists a c ≡ true) where
  abbrev owner : ℕ
  owner = (c.app_session a).pcf_session

  abbrev removed : (ℕ → List ℕ) → PcfContext
  removed lists = record c {
    pcf_app_sessions = lists;
    live = set a false c.live;
    calls = c.calls ++ change_call (c.app_session a) none;
  }

  Dropped-lists :
      (l : List ℕ)
      → Without a (c.pcf_app_sessions owner) l
      → Dropped a c (removed (set owner l c.pcf_app_sessions))
  Dropped-lists l w = record {
    sessions = refl;
    records = refl;
    memory = λ b. refl;
    taken = rw (==_self owner) w;
    others = λ q n. elim (Bool-cases (q == owner)) [
      | inl h ↦ absurd (n ((==_iff q owner).0 h))
      | inr h ↦ rw h refl
    ];
  }

  pub app_sess_remove-Dropped :
      (d : PcfContext) × (app_sess_remove a c ≡ ok d)
      × Dropped a c d
      × (d.calls ≡ c.calls ++ change_call (c.app_session a) none)
  app_sess_remove-Dropped =
      let (m, n, alive) = exists-owner a c v e in
      let l = remove a (c.pcf_app_sessions owner) in
      (
        _,
        app_sess_remove_lem a c alive,
        Dropped-lists l (remove-Without a (c.pcf_app_sessions owner) (v.once owner m)),
        refl,
      )

  -- The removal after the node has been unlinked.
  pub app_sess_remove-unlink :
      (d : PcfContext) × (app_sess_remove a (unlink owner a c) ≡ ok d)
      × Dropped a c d
      × (d.calls ≡ c.calls ++ change_call (c.app_session a) none)
  app_sess_remove-unlink =
      let (m, n, alive) = exists-owner a c v e in
      let once = remove a (c.pcf_app_sessions owner) in
      let without = remove-Without a (c.pcf_app_sessions owner) (v.once owner m) in
      (
        _,
        app_sess_remove_lem a (unlink owner a c) alive,
        record {
          sessions = refl;
          records = refl;
          memory = λ b. refl;
          taken = rw (==_self owner) (Without-again a (c.pcf_app_sessions owner) once without);
          others = λ q n. elim (Bool-cases (q == owner)) [
            | inl h ↦ absurd (n ((==_iff q owner).0 h))
            | inr h ↦ rw h refl
          ];
        },
        refl,
      )
