-- ===== src/Areas/Bounds.antt =====
-- The numbers that the setters store, and their text in the OpenAPI objects.
use rt_5gc_service_consumers.Common.{
  ℕ, ◌%◌, ◌^◌, ◌≤◌, ◌<◌, Option, none, some, Str, length, read_hex, read_hex-to_hex_string,
  length-to_hex_string_between, to_hex_string, uint32_to_hex_str, uint64_to_hex_str, ◌≡◌, refl,
  arith,
}
use rt_5gc_service_consumers.Tmgi.Plmn.{PlmnOps}
use rt_5gc_service_consumers.Areas.Tai.{
  Tai, nid_text, tai_new, tai_create, tai_set_plmn_id, tai_set_tac, tai_set_network_id,
  tai_to_openapi,
}
use rt_5gc_service_consumers.Areas.Ncgi.{ncgi_new, ncgi_set_nid, ncgi_new_values, ncgi_to_openapi}

-- A text of between `least` and `most` upper case hexadecimal digits for a number.
abbrev pub Hex : Str → ℕ → ℕ → ℕ → Type 0
Hex s least most n = (read_hex s ≡ some n) × (least ≤ length s) × (length s ≤ most)

-- The text of an optional network id: eleven digits for its low 44 bits.
abbrev pub NidHex : Option Str → Option ℕ → Type 0
NidHex (some s) (some n) = Hex s 11 11 (n % 2 ^ 44)
NidHex none none = Unit {0}
NidHex _ _ = ⊥

hex : (v least most : ℕ) → v < 16 ^ most → least ≤ most → Hex (to_hex_string v least) least most v
hex v least most h le =
    let between = length-to_hex_string_between v least most h le in
    (read_hex-to_hex_string v least, between.0, between.1)

tac-Hex : (tac : ℕ) → Hex (uint32_to_hex_str (tac % 2 ^ 24) 4 6) 4 6 (tac % 2 ^ 24)
unfolding uint32_to_hex_str
tac-Hex tac =
    let stored : tac % 2 ^ 24 % 2 ^ 24 ≡ tac % 2 ^ 24 = omega arith in
    rw stored (hex (tac % 2 ^ 24) 4 6 (omega arith) (omega arith))

nid-Hex : (nid : ℕ) → Hex (uint64_to_hex_str nid 11 11) 11 11 (nid % 2 ^ 44)
unfolding uint64_to_hex_str
nid-Hex nid = hex (nid % 2 ^ 44) 11 11 (omega arith) (omega arith)

cell-Hex : (cell : ℕ) → Hex (uint64_to_hex_str (cell % 2 ^ 36) 9 9) 9 9 (cell % 2 ^ 36)
unfolding uint64_to_hex_str
cell-Hex cell =
    let stored : cell % 2 ^ 36 % 2 ^ 36 ≡ cell % 2 ^ 36 = omega arith in
    rw stored (hex (cell % 2 ^ 36) 9 9 (omega arith) (omega arith))

stored_nid-Hex : (nid : ℕ) → Hex (uint64_to_hex_str (nid % 2 ^ 44) 11 11) 11 11 (nid % 2 ^ 44)
stored_nid-Hex nid =
    let stored : nid % 2 ^ 44 % 2 ^ 44 ≡ nid % 2 ^ 44 = omega arith in
    rw stored at (nid-Hex (nid % 2 ^ 44))

module _ {Plmn : Type 0} (o : PlmnOps Plmn) where
  -- A new TAI, whatever numbers it is made of, has an OpenAPI object whose TAC is four to six upper
  -- case hexadecimal digits that read back as the low 24 bits of the number given, and whose network
  -- id, present when one was given, is eleven such digits for its low 44 bits.
  pub tai_new-Hex :
      (plmn_id : Option Plmn) (tac : ℕ) (nid : Option ℕ)
      → (t : Tai Plmn) × (tai_new o plmn_id tac nid ≡ some t)
        × Hex (tai_to_openapi t).tac 4 6 (tac % 2 ^ 24)
        × NidHex (tai_to_openapi t).nid nid
  unfolding tai_new tai_create tai_set_plmn_id tai_set_tac tai_set_network_id tai_to_openapi
      nid_text
  tai_new-Hex none tac none = (_, refl, tac-Hex tac, tt)
  tai_new-Hex none tac (some nid) = (_, refl, tac-Hex tac, stored_nid-Hex nid)
  tai_new-Hex (some p) tac none = (_, refl, tac-Hex tac, tt)
  tai_new-Hex (some p) tac (some nid) = (_, refl, tac-Hex tac, stored_nid-Hex nid)

  -- The same of a new cell: nine digits for the low 36 bits of its cell id.
  pub ncgi_new_values-Hex :
      (mcc mnc cell : ℕ) (nid : Option ℕ)
      → let n = ncgi_to_openapi (ncgi_new_values o mcc mnc cell nid) in
        Hex n.nr_cell_id 9 9 (cell % 2 ^ 36) × NidHex n.nid nid
  unfolding ncgi_new_values ncgi_new ncgi_set_nid ncgi_to_openapi nid_text uint64_to_hex_str
  ncgi_new_values-Hex mcc mnc cell none = (cell-Hex cell, tt)
  ncgi_new_values-Hex mcc mnc cell (some nid) = (cell-Hex cell, nid-Hex nid)
