-- ===== src/Tmgi.antt =====
-- lib/mb-smf-service-consumer/tmgi.c and priv_tmgi.h: the Temporary Mobile Group Identities.
-- The PLMN id type and its functions are those of libogscore; the rest of a TMGI is here. The
-- context's list of TMGIs is a list of records, each with the address that names it.
pub mod Plmn
pub mod Request
pub mod Response
pub mod Repr
pub mod Select
pub mod Send
pub mod Handle
pub mod Pending
pub mod Removed
mod Examples
use rt_5gc_service_consumers.Common.{
  ℕ, ◌≤◌, Bool, true, false, ◌&&◌, ◌||◌, not, List, [], ◌∷◌, ◌++◌, Option, none, some, Str, bytes,
  opt_str_eq, str_eq, ◌==◌, leb, ltb, if◌then◌else◌, is_some,
}
use rt_5gc_service_consumers.SbiObject.{Ref}
use Plmn.{PlmnOps}

-- A callback is named by the address of its function; the data pointer goes with it.
pub record Tmgi (Plmn : Type 0) : Type 0 where
  pub addr : ℕ
  pub mbs_service_id : Option Str
  pub plmn : Plmn
  pub expiry_time : ℕ
  pub callback : Option ℕ
  pub callback_data : ℕ
  pub sbi_object : Option Ref
  pub repr : Option Str  -- `cache->repr`
  pub allocated : Bool

-- An `OpenAPI_tmgi_t` as the MB-SMF sends it.
pub record ApiTmgi : Type 0 where
  pub mbs_service_id : Option Str
  pub mcc : Str
  pub mnc : Str

module _ {Plmn : Type 0} where
  unfoldable pub tmgi_clear_repr : Tmgi Plmn → Tmgi Plmn
  tmgi_clear_repr t = record t { repr = none }

  -- An early return for the same pointer is the case of equal text.
  unfoldable pub tmgi_set_mbs_service_id : Tmgi Plmn → Option Str → Tmgi Plmn
  unfolding tmgi_clear_repr
  tmgi_set_mbs_service_id t id =
      let u = record t { allocated = true } in
      if opt_str_eq t.mbs_service_id id
      then u
      else tmgi_clear_repr (record u { mbs_service_id = id })

  unfoldable pub tmgi_set_expiry_time : Tmgi Plmn → ℕ → Tmgi Plmn
  unfolding tmgi_clear_repr
  tmgi_set_expiry_time t expiry_time =
      let u = record t { allocated = true } in
      if t.expiry_time == expiry_time
      then u
      else record (tmgi_clear_repr u) { expiry_time = expiry_time }

  unfoldable pub tmgi_set_callback : Tmgi Plmn → Option ℕ → ℕ → Tmgi Plmn
  tmgi_set_callback t callback callback_data = record t {
    callback = callback;
    callback_data = callback_data;
  }

  -- The tests of one round of the search, in the order of the `continue`s.
  unfoldable pub matches_service : Option Str → Tmgi Plmn → Bool
  matches_service (some id) t = elim t.mbs_service_id [
    | some own ↦ str_eq id own
    | none ↦ not t.allocated
  ]
  matches_service none t = not (is_some t.mbs_service_id)

module _ {Plmn : Type 0} (o : PlmnOps Plmn) where
  unfoldable pub tmgi_set_plmn : Tmgi Plmn → ℕ → ℕ → Tmgi Plmn
  unfolding tmgi_clear_repr
  tmgi_set_plmn t mcc mnc =
      let u = record t { allocated = true } in
      let mnc_len : ℕ = if ltb mnc 100 then 2 else 3 in
      if (o.mcc t.plmn == mcc) && (o.mnc t.plmn == mnc)
      then u
      else tmgi_clear_repr (record u { plmn = o.build mcc mnc mnc_len })

  -- The repr of the fields that are shown; `where_at` is what `%p (%p)` prints.
  unfoldable pub render : Str → Tmgi Plmn → Str
  render where_at t =
      bytes "TMGI["
      ++ (where_at
          ++ (bytes "]: plmn="
              ++ (o.to_string t.plmn
                  ++ (elim t.mbs_service_id [
                    | none ↦ []
                    | some id ↦ bytes ", mbs_service_id=\"" ++ (id ++ bytes "\"")
                  ]
                      ++ (if t.expiry_time == 0
                          then []
                          else bytes ", expiry_time=" ++ o.time_string t.expiry_time)))))

  -- `_tmgi_repr` fills the cache and returns it.
  unfoldable pub tmgi_repr : Str → Tmgi Plmn → Tmgi Plmn × Str
  unfolding render
  tmgi_repr where_at t = elim t.repr [
    | some text ↦ (t, text)
    | none ↦ (record t { repr = some (render where_at t) }, render where_at t)
  ]

  unfoldable pub tmgi_equal : Option (Tmgi Plmn) → Option (Tmgi Plmn) → Bool
  tmgi_equal none none = true
  tmgi_equal none (some b) = false
  tmgi_equal (some a) none = false
  tmgi_equal (some a) (some b) =
      if a.addr == b.addr
      then true
      else if opt_str_eq a.mbs_service_id b.mbs_service_id
      then o.equal a.plmn b.plmn
      else false

  unfoldable pub matches_plmn : Str → Str → Tmgi Plmn → Bool
  matches_plmn mcc mnc t =
      if t.allocated
      then str_eq mcc (o.mcc_string t.plmn) && str_eq mnc (o.mnc_string t.plmn)
      else true

  unfoldable pub matches : ApiTmgi → Tmgi Plmn → Bool
  unfolding matches_service matches_plmn
  matches api t = matches_service api.mbs_service_id t && matches_plmn api.mcc api.mnc t

  -- The first TMGI of the context that matches.
  unfoldable pub tmgi_find_matching_openapi_type : ApiTmgi → List (Tmgi Plmn) → Option (Tmgi Plmn)
  unfolding matches
  tmgi_find_matching_openapi_type api [] = none
  tmgi_find_matching_openapi_type api (t ∷ ts) =
      if matches api t then some t else tmgi_find_matching_openapi_type api ts
