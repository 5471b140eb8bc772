-- ===== src/MbsSession/Subscriptions/Examples.antt =====
-- The subscriptions of one session: 1 is new, 2 is active and changed, 3 is to be deleted.
use rt_5gc_service_consumers.Common.{
  List, Str, ◌++◌, has, true, false, [], ◌∷◌, none, some, str_eq, ok, fault, ◌≡◌, refl, ◌==◌,
  if◌then◌else◌,
}
use rt_5gc_service_consumers.MbsSession.Subscriptions.{
  Subscription, Lists, World, Sent, delete, deref, hash_get, find_active_subscription,
  subscriptions_update, remove_subscription,
}
use rt_5gc_service_consumers.MbsSession.Subscriptions.Update.{
  WellFormed, Updated, subscriptions_update-Updated,
}
use rt_5gc_service_consumers.MbsSession.Subscriptions.Remove.{remove_subscription-update}

abbrev fresh : Subscription
fresh = record { correlation_id = some (120 ∷ []); id = none; session = some 0; changed = true }

abbrev known : Subscription
known = record { correlation_id = none; id = some (97 ∷ []); session = some 0; changed = true }

abbrev lists : Lists
lists = record {
  new_subscriptions = 1 ∷ [];
  active_subscriptions = (97 ∷ [], 2) ∷ [];
  deleted_subscriptions = 3 ∷ [];
  deleted = false;
}

abbrev three : World
three = record {
  subscription = λ a. if a == 1 then some fresh else some known;
  session = λ s. lists;
  sent = [];
}

three-WellFormed : WellFormed 0 three
three-WellFormed = record {
  distinct = (refl, (refl, (refl, tt)));
  live = ((fresh, refl), ((known, refl), ((known, refl), tt)));
}

subscriptions_update-Updated_example :
    (v : World) × (subscriptions_update 0 three ≡ ok v) × Updated 0 three v
subscriptions_update-Updated_example = subscriptions_update-Updated 0 three three-WellFormed

known_found : hash_get (97 ∷ []) ((97 ∷ [], 2) ∷ []) ≡ some 2
unfolding hash_get str_eq
known_found = refl

remove_subscription-update_example :
    (v u : World) × (remove_subscription 0 2 three ≡ ok (v, true))
    × (find_active_subscription 0 (97 ∷ []) v ≡ none)
    × (subscriptions_update 0 v ≡ ok u)
    × (u.subscription 2 ≡ none)
    × ((earlier : List Sent) × (u.sent ≡ earlier ++ delete 0 2 ∷ []))
    × (has 2 (u.session 0).new_subscriptions ≡ false)
    × (has 2 (u.session 0).deleted_subscriptions ≡ false)
remove_subscription-update_example =
    remove_subscription-update 0 2 (97 ∷ []) known three three-WellFormed refl refl refl refl
      known_found

-- A new subscription is written to after it has been freed.
remove_new_fault : remove_subscription 0 1 three ≡ fault
unfolding remove_subscription deref
remove_new_fault = refl

abbrev as_is : Str → Str
as_is text = text
