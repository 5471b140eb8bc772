-- ===== src/Tmgi/Examples.antt =====
-- The theorems on TMGIs at a context of one waiting and one allocated TMGI.
use rt_5gc_service_consumers.Common.{
  true, false, List, [], ◌∷◌, ◌++◌, none, some, Distinct, ok, fault, str_eq, ◌==◌, if◌then◌else◌,
  ◌≡◌, ◌≢◌, ◌↔◌, refl, arith,
}
use rt_5gc_service_consumers.SbiObject.{Objects}
use rt_5gc_service_consumers.SbiObject.Counted.{Counted}
use rt_5gc_service_consumers.Tmgi.{
  Tmgi, ApiTmgi, tmgi_clear_repr, render, tmgi_repr, matches_service, matches_plmn,
  tmgi_find_matching_openapi_type,
}
use rt_5gc_service_consumers.Tmgi.Request.{
  Request, new_list, refresh_list, tmgi_list_send_allocate, tmgi_send_refresh_all,
  tmgi_send_allocate_and_refresh_all,
}
use rt_5gc_service_consumers.Tmgi.Response.{Message, nmbsmf_tmgi_allocated, nmbsmf_tmgi_deallocated}
use rt_5gc_service_consumers.Tmgi.Repr.{IsCurrent, expiry_time, set_field, tmgi_repr-set_field}
use rt_5gc_service_consumers.Tmgi.Select.{tmgi_send_allocate_and_refresh_all-eq}
use rt_5gc_service_consumers.Tmgi.Send.{
  objects, Sent, tmgi_list_send_allocate-Sent, NoneExpired, tmgi_send_refresh_all-fault_iff,
}
use rt_5gc_service_consumers.Tmgi.Handle.{PrintsAs, stored_plmn}
use rt_5gc_service_consumers.Tmgi.Removed.{Removals, nmbsmf_tmgi_deallocated-Removals}
use rt_5gc_service_consumers.Tmgi.Pending.{Kept, nmbsmf_tmgi_allocated-Kept}
use rt_5gc_service_consumers.Samples.{Plmn, ops, waiting, granted}

abbrev two : List (Tmgi Plmn)
two = waiting ∷ granted ∷ []

-- Object 0 is held once, by the allocated TMGI.
abbrev held_once : Objects
held_once = record { next = 1; ref_count = λ a. if a == 0 then 1 else 0 }

held_once-Counted : Counted (objects two ++ []) held_once
held_once-Counted = record { exact = λ a. ground arith; fresh = λ a h. ground arith }

tmgi_list_send_allocate-Sent_example :
    ((tmgi_list_send_allocate (some two) none held_once ≡ fault) ↔ (two ≡ []))
    × (two ≢ []
        → (us : List (Tmgi Plmn)) × (r : Request) × (t : Objects) × (tmgi_list_send_allocate
              (some two)
              none
              held_once
            ≡ ok (us, some r, t))
          × Sent two [] 1 us r t)
tmgi_list_send_allocate-Sent_example =
    tmgi_list_send_allocate-Sent two none [] held_once held_once-Counted

tmgi_send_refresh_all-fault_iff_example :
    (tmgi_send_refresh_all 60 two held_once ≡ fault) ↔ NoneExpired 60 two
tmgi_send_refresh_all-fault_iff_example = tmgi_send_refresh_all-fault_iff 60 two held_once

tmgi_send_allocate_and_refresh_all-eq_example :
    tmgi_send_allocate_and_refresh_all 60 two held_once
    ≡ tmgi_list_send_allocate (some (new_list two)) (some (refresh_list 60 two)) held_once
tmgi_send_allocate_and_refresh_all-eq_example =
    tmgi_send_allocate_and_refresh_all-eq 60 two held_once

-- MCC 234 and MNC 15.
abbrev answer : ApiTmgi
answer = record { mbs_service_id = some (98 ∷ []); mcc = 50 ∷ 51 ∷ 52 ∷ []; mnc = 49 ∷ 53 ∷ [] }

two-Distinct : Distinct (10 ∷ 11 ∷ [])
two-Distinct = ground arith

stored_prints : PrintsAs ops answer (stored_plmn ops answer waiting)
stored_prints = (refl, refl)

-- With MNC 005 the PLMN id comes to print as 05.
stored_differs :
    ¬ PrintsAs ops
      (record answer { mnc = 48 ∷ 48 ∷ 53 ∷ [] })
      (stored_plmn ops (record answer { mnc = 48 ∷ 48 ∷ 53 ∷ [] }) waiting)
stored_differs h = cc (h.1)

abbrev created : Message
created = record {
  res_status = 200;
  tmgi_allocated =
      some (record { tmgi_list = some (some answer ∷ []); expiration_time = some (80 ∷ []) });
  problem_details = false;
  request_tmgi_list = none;
}

nmbsmf_tmgi_allocated-Kept_example : Kept ops two (nmbsmf_tmgi_allocated ops created two).0 1
nmbsmf_tmgi_allocated-Kept_example = nmbsmf_tmgi_allocated-Kept ops created two two-Distinct

tmgi_repr-set_field_example :
    let u = set_field ops [] (expiry_time 70) granted in
    ((tmgi_repr ops [] u).1 ≡ render ops [] u)
    × (tmgi_clear_repr (tmgi_repr ops [] u).0 ≡ tmgi_clear_repr u)
    × IsCurrent ops [] (tmgi_repr ops [] u).0
tmgi_repr-set_field_example = tmgi_repr-set_field ops [] (expiry_time 70) granted (λ text h. cc)

-- The identity that the second TMGI has.
abbrev held : ApiTmgi
held = record { mbs_service_id = some (97 ∷ []); mcc = 48 ∷ 48 ∷ 49 ∷ []; mnc = 48 ∷ 50 ∷ [] }

abbrev refusal : Message
refusal = record {
  res_status = 404;
  tmgi_allocated = none;
  problem_details = true;
  request_tmgi_list = none;
}

-- The deallocation of two TMGIs was refused, and both are removed.
nmbsmf_tmgi_deallocated-Removals_example :
    let r = nmbsmf_tmgi_deallocated ops (some answer ∷ none ∷ some held ∷ []) refusal two in
    Removals ops (some answer ∷ none ∷ some held ∷ []) refusal two r.0 r.1
nmbsmf_tmgi_deallocated-Removals_example =
    nmbsmf_tmgi_deallocated-Removals ops (some answer ∷ none ∷ some held ∷ []) refusal two
      two-Distinct

both_removed :
    (nmbsmf_tmgi_deallocated ops (some answer ∷ none ∷ some held ∷ []) refusal two).0 ≡ []
unfolding nmbsmf_tmgi_deallocated tmgi_find_matching_openapi_type matches_service matches_plmn
    str_eq
both_removed = refl
