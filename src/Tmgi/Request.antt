-- ===== src/Tmgi/Request.antt =====
-- The requests of tmgi.c: which TMGIs of the context they name, and the sending of them.
use rt_5gc_service_consumers.Common.{
  ℕ, Bool, true, false, ◌&&◌, not, List, [], ◌∷◌, ◌++◌, map, Option, none, some, ◌==◌, leb,
  if◌then◌else◌, length, Run, ok, fault, ◌>>=◌,
}
use rt_5gc_service_consumers.SbiObject.{
  Ref, Objects, ref_count_sbi_object_new, ref_count_sbi_object_ref, ref_count_sbi_object_unref,
}
use rt_5gc_service_consumers.Tmgi.{Tmgi}

-- A POST to the TMGI service: the SBI object it goes by, whether an MB-SMF is to be discovered,
-- the number of TMGIs to allocate and those to refresh (`_nmbsmf_tmgi_build_create`).
pub record Request : Type 0 where
  pub sbi_object : Option Ref
  pub discovery : Bool
  pub tmgi_number : ℕ
  pub refresh : List ℕ

module _ {Plmn : Type 0} where
  -- `tmgi->tmgi.expiry_time && tmgi->tmgi.expiry_time <= now`
  abbrev pub has_expired : ℕ → Tmgi Plmn → Bool
  has_expired now t = not (t.expiry_time == 0) && leb t.expiry_time now

  -- The loop of `_tmgi_send_allocate_all`.
  unfoldable pub new_list : List (Tmgi Plmn) → List (Tmgi Plmn)
  new_list [] = []
  new_list (t ∷ ts) = if t.allocated then new_list ts else t ∷ new_list ts

  -- The loop of `_tmgi_send_refresh_all`.
  unfoldable pub refresh_list : ℕ → List (Tmgi Plmn) → List (Tmgi Plmn)
  refresh_list now [] = []
  refresh_list now (t ∷ ts) =
      let rest = refresh_list now ts in if t.allocated && has_expired now t then t ∷ rest else rest

  -- The loop of `_tmgi_send_allocate_and_refresh_all`, which fills both lists.
  unfoldable pub both_lists :
      ℕ
      → List (Tmgi Plmn)
      → List (Tmgi Plmn)
      → List (Tmgi Plmn)
      → List (Tmgi Plmn) × List (Tmgi Plmn)
  both_lists now [] new refresh = (new, refresh)
  both_lists now (t ∷ ts) new refresh =
      both_lists now ts (if t.allocated then new else new ++ t ∷ [])
        (if t.allocated && has_expired now t then refresh ++ t ∷ [] else refresh)

module _ {Plmn : Type 0} where
  -- `if (node->sbi_object) unref(node->sbi_object); node->sbi_object = ref(object);` for each node.
  unfoldable pub share : Ref → List (Tmgi Plmn) → Objects → Run (List (Tmgi Plmn) × Objects)
  share object [] s = ok ([], s)
  share object (t ∷ ts) s = do
    s₁ ← ref_count_sbi_object_unref t.sbi_object s
    s₂ ← ref_count_sbi_object_ref (some object) s₁
    rest ← share object ts s₂
    ok (record t { sbi_object = some object } ∷ rest.0, rest.1)

  abbrev pub addresses : Option (List (Tmgi Plmn)) → List ℕ
  addresses none = []
  addresses (some ts) = map (λ t. t.addr) ts

  -- With a list of new TMGIs the request goes by an object of its own, which they come to share: it
  -- is used by `ogs_sbi_xact_add` after the first reference to it has been dropped.
  send_new :
      List (Tmgi Plmn)
      → Option (List (Tmgi Plmn))
      → Objects
      → Run (List (Tmgi Plmn) × Option Request × Objects)
  unfolding share
  send_new new refresh s = do
    let (object, s₀) = ref_count_sbi_object_new s
    shared ← share object new s₀
    s₁ ← ref_count_sbi_object_unref (some object) shared.1
    (if s₁.ref_count object == 0
        then fault
        else ok (
          shared.0,
          some (record {
            sbi_object = some object;
            discovery = true;
            tmgi_number = length new;
            refresh = addresses refresh;
          }),
          s₁,
        ))

  -- Without one it goes by the object of the first TMGI to refresh. `ogs_list_first` of an empty list
  -- is NULL, which is read through.
  send_refresh_only : List (Tmgi Plmn) → Objects → Run (List (Tmgi Plmn) × Option Request × Objects)
  send_refresh_only [] s = fault
  send_refresh_only (t ∷ ts) s = ok (
    [],
    some (record {
      sbi_object = t.sbi_object;
      discovery = false;
      tmgi_number = 0;
      refresh = addresses (some (t ∷ ts));
    }),
    s,
  )

  -- The new TMGIs as they are afterwards, the request that is sent, and the SBI objects.
  unfoldable pub tmgi_list_send_allocate :
      Option (List (Tmgi Plmn))
      → Option (List (Tmgi Plmn))
      → Objects
      → Run (List (Tmgi Plmn) × Option Request × Objects)
  unfolding send_new send_refresh_only
  tmgi_list_send_allocate none none s = ok ([], none, s)
  tmgi_list_send_allocate none (some refresh) s = send_refresh_only refresh s
  tmgi_list_send_allocate (some new) refresh s = send_new new refresh s

  unfoldable pub tmgi_send_allocate :
      Tmgi Plmn → Objects → Run (List (Tmgi Plmn) × Option Request × Objects)
  unfolding tmgi_list_send_allocate
  tmgi_send_allocate t s = tmgi_list_send_allocate (some (t ∷ [])) none s

  unfoldable pub tmgi_send_refresh :
      Tmgi Plmn → Objects → Run (List (Tmgi Plmn) × Option Request × Objects)
  unfolding tmgi_list_send_allocate
  tmgi_send_refresh t s = tmgi_list_send_allocate none (some (t ∷ [])) s

  unfoldable pub tmgi_send_allocate_all :
      List (Tmgi Plmn) → Objects → Run (List (Tmgi Plmn) × Option Request × Objects)
  unfolding tmgi_list_send_allocate new_list
  tmgi_send_allocate_all ts s = tmgi_list_send_allocate (some (new_list ts)) none s

  unfoldable pub tmgi_send_refresh_all :
      ℕ → List (Tmgi Plmn) → Objects → Run (List (Tmgi Plmn) × Option Request × Objects)
  unfolding tmgi_list_send_allocate refresh_list
  tmgi_send_refresh_all now ts s = tmgi_list_send_allocate none (some (refresh_list now ts)) s

  unfoldable pub tmgi_send_allocate_and_refresh_all :
      ℕ → List (Tmgi Plmn) → Objects → Run (List (Tmgi Plmn) × Option Request × Objects)
  unfolding tmgi_list_send_allocate both_lists
  tmgi_send_allocate_and_refresh_all now ts s =
      let (new, refresh) = both_lists now ts [] [] in
      tmgi_list_send_allocate (some new) (some refresh) s
