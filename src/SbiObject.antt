-- ===== src/SbiObject.antt =====
-- lib/mb-smf-service-consumer/ref_count_sbi_object.h: SBI objects shared by TMGIs and MBS Sessions
-- under a reference count. An object is an address; a count of 0 is an object that has been freed,
-- and a use of such an object is a fault. Counts do not reach 2 ^ 64.
pub mod Counted
mod Examples
use rt_5gc_service_consumers.Common.{
  ℕ, ◌+◌, ◌-◌, Option, none, some, ◌==◌, if◌then◌else◌, Run, ok, fault, ◌>>=◌,
}

abbrev pub Ref : Type 0
Ref = ℕ

pub record Objects : Type 0 where
  pub ref_count : Ref → ℕ
  pub next : Ref  -- what the next `ogs_calloc` returns

abbrev pub set_count : Objects → Ref → ℕ → Objects
set_count s a n = record s { ref_count = λ b. if b == a then n else s.ref_count b }

unfoldable pub ref_count_sbi_object_new : Objects → Ref × Objects
ref_count_sbi_object_new s = (
  s.next,
  record s { ref_count = λ b. if b == s.next then 1 else s.ref_count b; next = s.next + 1 },
)

unfoldable pub ref_count_sbi_object_ref : Option Ref → Objects → Run Objects
ref_count_sbi_object_ref none s = ok s
ref_count_sbi_object_ref (some a) s =
    if s.ref_count a == 0 then fault else ok (set_count s a (s.ref_count a + 1))

unfoldable pub ref_count_sbi_object_unref : Option Ref → Objects → Run Objects
ref_count_sbi_object_unref none s = ok s
ref_count_sbi_object_unref (some a) s =
    if s.ref_count a == 0 then fault else ok (set_count s a (s.ref_count a - 1))
