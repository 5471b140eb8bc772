-- ===== src/SbiObject/Examples.antt =====
-- The reference counts at one object with two holders.
use rt_5gc_service_consumers.Common.{[], ◌∷◌, some, none, ◌==◌, if◌then◌else◌, arith}
use rt_5gc_service_consumers.SbiObject.{Objects}
use rt_5gc_service_consumers.SbiObject.Counted.{Counted}

abbrev shared : Objects
shared = record { ref_count = λ b. if b == 0 then 2 else 0; next = 1 }

shared-Counted : Counted (some 0 ∷ some 0 ∷ none ∷ []) shared
shared-Counted = record { exact = λ a. ground arith; fresh = λ a h. ground arith }
