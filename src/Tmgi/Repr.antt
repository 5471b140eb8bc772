-- ===== src/Tmgi/Repr.antt =====
-- The cached text of a TMGI is never stale.
use rt_5gc_service_consumers.Common.{ℕ, Option, some, Str, ◌≡◌, refl, arith, Option-cases, inl, inr}
use rt_5gc_service_consumers.Tmgi.Plmn.{PlmnOps}
use rt_5gc_service_consumers.Tmgi.{
  Tmgi, tmgi_clear_repr, tmgi_set_mbs_service_id, tmgi_set_expiry_time, tmgi_set_plmn,
  tmgi_set_callback, render, tmgi_repr,
}

module _ {Plmn : Type 0} (o : PlmnOps Plmn) (where_at : Str) where
  -- The cache is empty or holds the text of the fields as they are now.
  abbrev pub IsCurrent : Tmgi Plmn → Type 0
  IsCurrent t = (text : Str) → t.repr ≡ some text → text ≡ render o where_at t

  pub data Setter : Type 0 where
    mbs_service_id : Option Str → Setter
    plmn : ℕ → ℕ → Setter
    expiry_time : ℕ → Setter
    callback : Option ℕ → ℕ → Setter

  abbrev pub set_field : Setter → Tmgi Plmn → Tmgi Plmn
  set_field (mbs_service_id id) t = tmgi_set_mbs_service_id t id
  set_field (plmn mcc mnc) t = tmgi_set_plmn o t mcc mnc
  set_field (expiry_time e) t = tmgi_set_expiry_time t e
  set_field (callback c d) t = tmgi_set_callback t c d

  set_field-IsCurrent : (f : Setter) (t : Tmgi Plmn) → IsCurrent t → IsCurrent (set_field f t)
  unfolding tmgi_set_mbs_service_id tmgi_set_plmn tmgi_set_expiry_time tmgi_set_callback render
  set_field-IsCurrent (mbs_service_id id) t h text e = ground (arith, h text)
  set_field-IsCurrent (plmn mcc mnc) t h text e = ground (arith, h text)
  set_field-IsCurrent (expiry_time x) t h text e = ground (arith, h text)
  set_field-IsCurrent (callback c d) t h text e = ground (arith, h text)

  -- The cache is no part of the text.
  render-repr :
      (t : Tmgi Plmn) (r : Option Str)
      → render o where_at (record t { repr = r }) ≡ render o where_at t
  unfolding render
  render-repr t r = refl

  tmgi_repr_lem :
      (t : Tmgi Plmn)
      → IsCurrent t
      → ((tmgi_repr o where_at t).1 ≡ render o where_at t)
        × (tmgi_clear_repr (tmgi_repr o where_at t).0 ≡ tmgi_clear_repr t)
        × IsCurrent (tmgi_repr o where_at t).0
  unfolding tmgi_repr tmgi_clear_repr
  tmgi_repr_lem t h = elim (Option-cases t.repr) [
    | inl e ↦ (
      ground (arith, e),
      ground (arith, e),
      λ text k. ground (arith, e, render-repr t (some (render o where_at t))),
    )
    | inr (own, e) ↦
        (ground (arith, e, h own), ground (arith, e), λ text k. ground (arith, e, h text))
  ]

  -- After any setter on a TMGI whose cached text is current, `_tmgi_repr` returns the text of the
  -- fields as they are then, changes no field but the cache, and leaves the cache current.
  pub tmgi_repr-set_field :
      (f : Setter) (t : Tmgi Plmn)
      → IsCurrent t
      → let u = set_field f t in
        ((tmgi_repr o where_at u).1 ≡ render o where_at u)
        × (tmgi_clear_repr (tmgi_repr o where_at u).0 ≡ tmgi_clear_repr u)
        × IsCurrent (tmgi_repr o where_at u).0
  tmgi_repr-set_field f t h = tmgi_repr_lem (set_field f t) (set_field-IsCurrent f t h)
