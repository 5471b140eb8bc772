-- ===== src/Tmgi/Handle.antt =====
-- What a response to an allocation does to the TMGIs of the context.
use rt_5gc_service_consumers.Common.{
  ℕ, ◌+◌, ◌≤◌, true, List, [], ◌∷◌, map, Option, some, ltb, ◌&&◌, opt_str_eq_iff, ◌==◌,
  if◌then◌else◌, has, Distinct, length, ◌≡◌, refl, arith, Bool-cases, Option-cases, inl, inr,
}
use rt_5gc_service_consumers.Tmgi.Plmn.{PlmnOps}
use rt_5gc_service_consumers.Tmgi.Request.{new_list}
use rt_5gc_service_consumers.Tmgi.Response.{store, assigned, allocate_one}
use rt_5gc_service_consumers.Tmgi.{
  Tmgi, ApiTmgi, tmgi_set_mbs_service_id, tmgi_set_plmn, tmgi_set_expiry_time, matches,
  tmgi_find_matching_openapi_type,
}

module _ {Plmn : Type 0} where
  abbrev pub addrs : List (Tmgi Plmn) → List ℕ
  addrs = map (λ t. t.addr)

  -- The TMGIs that wait for an allocation.
  abbrev pub pending : List (Tmgi Plmn) → ℕ
  pending ts = length (new_list ts)

module _ {Plmn : Type 0} (o : PlmnOps Plmn) where
  -- The PLMN id prints as the MB-SMF wrote it.
  abbrev pub PrintsAs : ApiTmgi → Plmn → Type 0
  PrintsAs api p = (o.mcc_string p ≡ api.mcc) × (o.mnc_string p ≡ api.mnc)

  -- The PLMN id after the answer: the one that is there if it has the numbers of the answer, and else
  -- one made of these, with two digits for an MNC below 100.
  abbrev pub stored_plmn : ApiTmgi → Tmgi Plmn → Plmn
  stored_plmn api t =
      if (o.mcc t.plmn == o.number api.mcc) && (o.mnc t.plmn == o.number api.mnc)
      then t.plmn
      else o.build (o.number api.mcc) (o.number api.mnc)
          (if ltb (o.number api.mnc) 100 then 2 else 3)

  module _ (api : ApiTmgi) (e : ℕ) where
    abbrev find : List (Tmgi Plmn) → Option (Tmgi Plmn)
    find = tmgi_find_matching_openapi_type o api

    find-has :
        (ts : List (Tmgi Plmn)) (t : Tmgi Plmn) → find ts ≡ some t → has t.addr (addrs ts) ≡ true
    unfolding tmgi_find_matching_openapi_type
    find-has [] t h = cc
    find-has (x ∷ ts) t h = ground (arith, find-has ts t)

    -- What `assigned` gives, whatever the TMGI held.
    pub assigned_fields :
        (t : Tmgi Plmn)
        → let u = assigned o api e t in
          (u.addr ≡ t.addr)
          × (u.allocated ≡ true)
          × (u.mbs_service_id ≡ api.mbs_service_id)
          × (u.expiry_time ≡ e)
    unfolding assigned tmgi_set_mbs_service_id tmgi_set_plmn tmgi_set_expiry_time
    assigned_fields t = ground (arith, opt_str_eq_iff t.mbs_service_id api.mbs_service_id)

    pending-store :
        (ts : List (Tmgi Plmn)) (t : Tmgi Plmn)
        → Distinct (addrs ts)
        → find ts ≡ some t
        → pending (store (assigned o api e t) ts) + (if t.allocated then 0 else 1) ≡ pending ts
    unfolding tmgi_find_matching_openapi_type store new_list
    pending-store [] t d h = cc
    pending-store (x ∷ ts) t d h = elim (Bool-cases (matches o api x)) [
      | inl k ↦
          let here : x ≡ t = ground (arith, k) in
          ground (arith, here, (assigned_fields t).0, (assigned_fields t).1)
      | inr k ↦
          let later : find ts ≡ some t = ground (arith, k) in
          ground (arith, find-has ts t later, (assigned_fields t).0, pending-store ts t d.1 later)
    ]

    addrs-store : (u : Tmgi Plmn) (ts : List (Tmgi Plmn)) → addrs (store u ts) ≡ addrs ts
    unfolding store
    addrs-store u [] = refl
    addrs-store u (t ∷ ts) = ground (arith, addrs-store u ts)

    pub addrs-allocate_one : (ts : List (Tmgi Plmn)) → addrs (allocate_one o api e ts).0 ≡ addrs ts
    unfolding allocate_one
    addrs-allocate_one ts = elim (Option-cases (find ts)) [
      | inl k ↦ rw (k, allocate_one)
      | inr (t, k) ↦ rw (k, allocate_one) (addrs-store (assigned o api e t) ts)
    ]

    pub pending-allocate_one :
        (ts : List (Tmgi Plmn))
        → Distinct (addrs ts)
        → (pending (allocate_one o api e ts).0 ≤ pending ts)
          × (pending ts ≤ pending (allocate_one o api e ts).0 + 1)
    unfolding allocate_one
    pending-allocate_one ts d = elim (Option-cases (find ts)) [
      | inl k ↦ rw (k, allocate_one) (omega arith)
      | inr (t, k) ↦ rw (k, allocate_one) (ground (arith, pending-store ts t d k))
    ]
