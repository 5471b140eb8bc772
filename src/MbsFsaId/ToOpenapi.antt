-- ===== src/MbsFsaId/ToOpenapi.antt =====
-- The text of an area id: six upper case hexadecimal digits that read back as its low 24 bits.
use rt_5gc_service_consumers.Common.{
  ◌%◌, ◌^◌, some, Str, ◌≡◌, arith, length, read_hex, uint32_to_hex_str, to_hex_string,
  read_hex-to_hex_string, length-to_hex_string,
}
use rt_5gc_service_consumers.MbsFsaId.{Store, Ptr, mbs_fsa_id_to_openapi}

-- The text of a set area id has exactly six digits and reads back, as upper case hexadecimal, as
-- the id's low 24 bits.
pub mbs_fsa_id_to_openapi-read_hex :
    (s : Store) (a : Ptr)
    → (t : Str) × (mbs_fsa_id_to_openapi s (some a) ≡ some t)
      × (length t ≡ 6)
      × (read_hex t ≡ some (s.fsa_id a % 2 ^ 24))
unfolding mbs_fsa_id_to_openapi uint32_to_hex_str
mbs_fsa_id_to_openapi-read_hex s a = (
  to_hex_string (s.fsa_id a % 2 ^ 24) 6,
  ground arith,
  length-to_hex_string (s.fsa_id a % 2 ^ 24) 6 (omega arith),
  read_hex-to_hex_string (s.fsa_id a % 2 ^ 24) 6,
)
