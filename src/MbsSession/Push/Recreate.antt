-- ===== src/MbsSession/Push/Recreate.antt =====
-- When a push creates the session at the MB-SMF, anew or again.
use rt_5gc_service_consumers.Common.{
  Bool, true, false, not, ◌&&◌, ◌||◌, List, [], ◌∷◌, Option, none, some, ◌≡◌, refl, arith, is_some,
  inl, inr, Option-cases, ◌==◌, str_eq,
}
use rt_5gc_service_consumers.Tmgi.Plmn.{PlmnOps}
use rt_5gc_service_consumers.MbsSession.Public.{
  Parts, Public, Ssm, ssm_equal, ssm_addr_equal, bool_eq, both, public_equal, presence_equal,
  contents_equal, flags_equal, termination_equal,
}
use rt_5gc_service_consumers.Tmgi.{Tmgi, tmgi_equal}
use rt_5gc_service_consumers.MbsSession.Push.{
  Session, Action, create, push_changed, push_previous, mbs_session_push_changes,
}

-- The action stands in the list.
abbrev pub creates : List Action → Bool
creates [] = false
creates (create ∷ rest) = true
creates (a ∷ rest) = creates rest

and_elim : (a b : Bool) → (a && b) ≡ true → (a ≡ true) × (b ≡ true)
and_elim a b h = ground arith

parts_of : (f p t c : Bool) → (f && (p && (t && c))) ≡ true → (p ≡ true) × (c ≡ true)
parts_of f p t c h = ground arith

module _ {Plmn : Type 0} (o : PlmnOps Plmn) (parts : Parts) where
  -- The SSM or the TMGI, by which the MB-SMF knows a session, differs from the accepted one.
  abbrev pub moved : Option (Public Plmn parts) → Public Plmn parts → Bool
  moved none c = true
  moved (some p) c = not (ssm_equal p.ssm c.ssm) || not (tmgi_equal o p.tmgi c.tmgi)

  ssm_equal_of :
      (a b : Option Ssm)
      → bool_eq (is_some a) (is_some b) ≡ true
      → both ssm_addr_equal a b ≡ true
      → ssm_equal a b ≡ true
  unfolding ssm_equal
  ssm_equal_of none none h k = refl
  ssm_equal_of none (some b) h k = cc
  ssm_equal_of (some a) none h k = cc
  ssm_equal_of (some a) (some b) h k = k

  none_equal : tmgi_equal o none none ≡ true
  unfolding tmgi_equal
  none_equal = refl

  tmgi_equal_of :
      (a b : Option (Tmgi Plmn))
      → bool_eq (is_some a) (is_some b) ≡ true
      → both (λ x y. tmgi_equal o (some x) (some y)) a b ≡ true
      → tmgi_equal o a b ≡ true
  tmgi_equal_of none none h k = none_equal
  tmgi_equal_of none (some b) h k = cc
  tmgi_equal_of (some a) none h k = cc
  tmgi_equal_of (some a) (some b) h k = k

  presence_facts :
      (p c : Public Plmn parts)
      → presence_equal parts p c ≡ true
      → (bool_eq (is_some p.ssm) (is_some c.ssm) ≡ true)
        × (bool_eq (is_some p.tmgi) (is_some c.tmgi) ≡ true)
  unfolding presence_equal
  presence_facts p c h =
      let (ps, rest) = and_elim (bool_eq (is_some p.ssm) (is_some c.ssm)) _ h in
      (ps, (and_elim (bool_eq (is_some p.tmgi) (is_some c.tmgi)) _ rest).0)

  contents_facts :
      (p c : Public Plmn parts)
      → contents_equal o parts p c ≡ true
      → (both ssm_addr_equal p.ssm c.ssm ≡ true)
        × (both (λ x y. tmgi_equal o (some x) (some y)) p.tmgi c.tmgi ≡ true)
  unfolding contents_equal
  contents_facts p c h =
      let c₁ = (and_elim (both ◌==◌ p.area_session_id c.area_session_id) _ h).1 in
      let c₂ = (and_elim (both ◌==◌ p.start_time c.start_time) _ c₁).1 in
      let c₃ = (and_elim (both str_eq p.dnn c.dnn) _ c₂).1 in
      let (cs, c₄) = and_elim (both ssm_addr_equal p.ssm c.ssm) _ c₃ in
      (cs, (and_elim (both (λ x y. tmgi_equal o (some x) (some y)) p.tmgi c.tmgi) _ c₄).0)

  public_equal-moved :
      (p c : Public Plmn parts) → public_equal o parts p c ≡ true → moved (some p) c ≡ false
  unfolding public_equal
  public_equal-moved p c h =
      let (pres, cont) =
        parts_of (flags_equal parts p c) (presence_equal parts p c) (termination_equal parts p c)
          (contents_equal o parts p c) h in
      let (ps, pt) = presence_facts p c pres in
      let (cs, ct) = contents_facts p c cont in
      rw (ssm_equal_of p.ssm c.ssm ps cs, tmgi_equal_of p.tmgi c.tmgi pt ct)

  -- A push creates the session exactly when it has not been deleted and either none was accepted
  -- before or the SSM or the TMGI differs from that of the accepted one.
  pub push_changes-creates :
      (s : Session Plmn parts)
      → creates (mbs_session_push_changes o parts s)
        ≡ (not s.deleted && moved s.previous_session s.session)
  unfolding mbs_session_push_changes push_previous push_changed
  push_changes-creates s = elim (Option-cases s.previous_session) [
    | inl e ↦ ground (arith, e)
    | inr (p, e) ↦ ground (arith, e, public_equal-moved p s.session)
  ]
