-- ===== src/Tmgi/Pending.antt =====
-- A response to an allocation keeps the TMGIs of the context and ends the wait of some.
use rt_5gc_service_consumers.Common.{
  ℕ, ◌+◌, ◌≤◌, Bool, List, [], ◌∷◌, Option, none, some, Distinct, length, ◌≡◌, refl, ◌∙◌, arith,
  Bool-cases, inl, inr,
}
use rt_5gc_service_consumers.Tmgi.Plmn.{PlmnOps}
use rt_5gc_service_consumers.Tmgi.Response.{
  Message, TmgiAllocated, is_success, expiry, allocated_list, allocated, not_allocated,
  allocate_one, allocate_each, nmbsmf_tmgi_allocated,
}
use rt_5gc_service_consumers.Tmgi.{Tmgi, ApiTmgi}
use rt_5gc_service_consumers.Tmgi.Handle.{addrs, pending, addrs-allocate_one, pending-allocate_one}

module _ {Plmn : Type 0} (o : PlmnOps Plmn) where
  pending-allocate_each :
      (apis : List (Option ApiTmgi)) (e : ℕ) (ts : List (Tmgi Plmn))
      → Distinct (addrs ts)
      → let us = (allocate_each o apis e ts).0 in
        (addrs us ≡ addrs ts) × (pending us ≤ pending ts) × (pending ts ≤ pending us + length apis)
  unfolding allocate_each
  pending-allocate_each [] e ts d = (refl, omega arith, omega arith)
  pending-allocate_each (none ∷ apis) e ts d = (refl, omega arith, omega arith)
  pending-allocate_each (some api ∷ apis) e ts d =
      let same = addrs-allocate_one o api e ts in
      let first = pending-allocate_one o api e ts d in
      let (a, b, c) = pending-allocate_each apis e (allocate_one o api e ts).0 (rw same d) in
      (a ∙ same, omega (arith, first, b), omega (arith, first, c))

  abbrev entries_of : Option (List (Option ApiTmgi)) → ℕ
  entries_of none = 0
  entries_of (some apis) = length apis

  -- The entries of the list in a response.
  abbrev pub entries : Option TmgiAllocated → ℕ
  entries none = 0
  entries (some a) = entries_of a.tmgi_list

  -- The context after a response with so many entries, against the context before.
  pub record Kept (ts us : List (Tmgi Plmn)) (n : ℕ) : Type 0 where
    pub same_addrs : addrs us ≡ addrs ts
    pub none_added : pending us ≤ pending ts
    pub at_most : pending ts ≤ pending us + n

  Kept-refl : (ts : List (Tmgi Plmn)) (n : ℕ) → Kept ts ts n
  Kept-refl ts n = record { same_addrs = refl; none_added = omega arith; at_most = omega arith }

  allocated_list-Kept :
      (l : Option (List (Option ApiTmgi))) (e : ℕ) (ts : List (Tmgi Plmn))
      → Distinct (addrs ts)
      → Kept ts (allocated_list o l e ts).0 (entries_of l)
  unfolding allocated_list
  allocated_list-Kept none e ts d = Kept-refl ts 0
  allocated_list-Kept (some []) e ts d = Kept-refl ts 0
  allocated_list-Kept (some (a ∷ apis)) e ts d =
      let (p, q, r) = pending-allocate_each (a ∷ apis) e ts d in
      record { same_addrs = p; none_added = q; at_most = r }

  allocated-Kept :
      (a : Option TmgiAllocated) (ts : List (Tmgi Plmn))
      → Distinct (addrs ts)
      → Kept ts (allocated o a ts).0 (entries a)
  unfolding allocated
  allocated-Kept none ts d = Kept-refl ts 0
  allocated-Kept (some a) ts d = allocated_list-Kept a.tmgi_list (expiry o a.expiration_time) ts d

  not_allocated-Kept :
      (l : Option (List (Option ApiTmgi))) (b : Bool) (ts : List (Tmgi Plmn)) (n : ℕ)
      → Kept ts (not_allocated o l b ts).0 n
  unfolding not_allocated
  not_allocated-Kept none b ts n = Kept-refl ts n
  not_allocated-Kept (some l) b ts n = Kept-refl ts n

  -- A response to an allocation, of any status and content, neither adds, removes nor reorders
  -- TMGIs; it leaves no more of them pending than before, and ends the wait of at most as many as it
  -- has entries. Addresses are distinct.
  pub nmbsmf_tmgi_allocated-Kept :
      (m : Message) (ts : List (Tmgi Plmn))
      → Distinct (addrs ts)
      → Kept ts (nmbsmf_tmgi_allocated o m ts).0 (entries m.tmgi_allocated)
  unfolding nmbsmf_tmgi_allocated
  nmbsmf_tmgi_allocated-Kept m ts d = elim (Bool-cases (is_success m.res_status)) [
    | inl e ↦ rw e (allocated-Kept m.tmgi_allocated ts d)
    | inr e ↦
        rw e
          (not_allocated-Kept m.request_tmgi_list m.problem_details ts (entries m.tmgi_allocated))
  ]
