-- ===== src/MbsSession/Public/Examples.antt =====
-- The copy of an MBS Session at a concrete session.
use rt_5gc_service_consumers.Common.{ℕ, true, Option, none, some, ◌≡◌, ◌↔◌}
use rt_5gc_service_consumers.MbsSession.Public.{public_copy, public_equal}
use rt_5gc_service_consumers.MbsSession.Public.Copied.{PartsEqual, public_equal-copy_iff}
use rt_5gc_service_consumers.Samples.{ops, ops-ComparesBytes, parts, session}

no_time : Option ℕ
no_time = none

public_equal-copy_iff_example :
    (public_equal ops parts (public_copy parts 20 none session) session ≡ true)
    ↔ ((no_time ≡ some 100) × PartsEqual parts none session)
unfolding no_time
public_equal-copy_iff_example =
    public_equal-copy_iff ops ops-ComparesBytes parts 20 none session tt tt
