-- ===== src/MbsSession/Subscriptions/Respond.antt =====
-- What the response to the creation of a subscription changes.
use rt_5gc_service_consumers.Common.{ℕ, false, some, Str, str_eq, has, ◌≡◌}
use rt_5gc_service_consumers.MbsSession.Subscriptions.{
  Subscription, World, find_active_subscription,
}

-- The new subscription has become an active one.
pub record Established (s : ℕ) (i : Str) (a : ℕ) (w v : World) : Type 0 where
  pub active : find_active_subscription s i v ≡ some a
  pub others :
      (j : Str)
      → str_eq j i ≡ false
      → find_active_subscription s j v ≡ find_active_subscription s j w
  pub no_longer_new : has a (v.session s).new_subscriptions ≡ false
  pub identified : (x : Subscription) × (v.subscription a ≡ some x) × (x.id ≡ some i)
