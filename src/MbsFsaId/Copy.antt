-- ===== src/MbsFsaId/Copy.antt =====
-- mbs-fsa-id.c: making, freeing and copying area ids. A heap says which addresses are objects; to
-- read or to free one that is not is a fault. `calloc` gives the address `fresh`.
use rt_5gc_service_consumers.Common.{
  ℕ, ◌+◌, Bool, true, false, List, [], ◌∷◌, ◌++◌, Option, none, some, ◌==◌, if◌then◌else◌, Run, ok,
  fault, ◌>>=◌,
}

pub record Heap : Type 0 where
  pub live : ℕ → Bool
  pub id : ℕ → ℕ
  pub fresh : ℕ

abbrev pub set {ℓ} : {A : Type ℓ} → ℕ → A → (ℕ → A) → ℕ → A
set a v f b = if b == a then v else f b

unfoldable pub mbs_fsa_id_new : Heap → Heap × ℕ
mbs_fsa_id_new h = (
  record { live = set h.fresh true h.live; id = set h.fresh 0 h.id; fresh = h.fresh + 1 },
  h.fresh,
)

unfoldable pub mbs_fsa_id_free : Option ℕ → Heap → Run Heap
mbs_fsa_id_free none h = ok h
mbs_fsa_id_free (some a) h = if h.live a then ok (record h { live = set a false h.live }) else fault

-- `fsa_id->id = id`
unfoldable pub set_fsa_id : ℕ → ℕ → Heap → Run Heap
set_fsa_id a id h = if h.live a then ok (record h { id = set a id h.id }) else fault

unfoldable pub get_id : ℕ → Heap → Run ℕ
get_id a h = if h.live a then ok (h.id a) else fault

unfoldable pub mbs_fsa_id_clear : Option ℕ → Heap → Run Heap
unfolding set_fsa_id
mbs_fsa_id_clear none h = ok h
mbs_fsa_id_clear (some a) h = set_fsa_id a 0 h

-- Where a copy goes: what is there is cleared, and NULL is replaced by a new object.
unfoldable pub fsa_id_destination : Option ℕ → Heap → Run (Heap × ℕ)
unfolding mbs_fsa_id_new mbs_fsa_id_clear
fsa_id_destination none h = ok (mbs_fsa_id_new h)
fsa_id_destination (some a) h = do cleared ← mbs_fsa_id_clear (some a) h; ok (cleared, a)

unfoldable pub mbs_fsa_id_copy : Option ℕ → Option ℕ → Heap → Run (Heap × Option ℕ)
unfolding mbs_fsa_id_free fsa_id_destination get_id set_fsa_id
mbs_fsa_id_copy dst none h = do freed ← mbs_fsa_id_free dst h; ok (freed, none)
mbs_fsa_id_copy dst (some src) h = do
  to ← fsa_id_destination dst h
  id ← get_id src to.0
  set_to ← set_fsa_id to.1 id to.0
  ok (set_to, some to.1)

-- Each object is unlinked and freed.
unfoldable pub mbs_fsa_ids_clear : List ℕ → Heap → Run Heap
unfolding mbs_fsa_id_free
mbs_fsa_ids_clear [] h = ok h
mbs_fsa_ids_clear (x ∷ l) h = do freed ← mbs_fsa_id_free (some x) h; mbs_fsa_ids_clear l freed

abbrev add : List ℕ → Option ℕ → List ℕ
add l none = l
add l (some a) = l ++ a ∷ []

unfoldable pub copy_each : List ℕ → List ℕ → Heap → Run (Heap × List ℕ)
unfolding mbs_fsa_id_copy
copy_each dst [] h = ok (h, dst)
copy_each dst (x ∷ src) h = do
  copy ← mbs_fsa_id_copy none (some x) h
  copy_each (add dst copy.1) src copy.0

-- The list that `dst` is then.
unfoldable pub mbs_fsa_ids_copy : List ℕ → List ℕ → Heap → Run (Heap × List ℕ)
unfolding mbs_fsa_ids_clear copy_each
mbs_fsa_ids_copy dst src h = do cleared ← mbs_fsa_ids_clear dst h; copy_each [] src cleared
