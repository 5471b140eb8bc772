-- ===== src/Bsf/Once.antt =====
-- Each retrieval is answered once, until the library needs the cache after a binding was cached.
use rt_5gc_service_consumers.Common.{ℕ, ◌+◌, true, List, [], ◌∷◌, ◌++◌, Str, ok, fault, ◌≡◌, ◌≢◌}
use rt_5gc_service_consumers.Bsf.{Context}
use rt_5gc_service_consumers.Bsf.Counts.{Event, run, asked, settled}
use rt_5gc_service_consumers.Bsf.Steps.{needs_cache}

module _ {Binding : Type 0} (hash : Str → ℕ) where
  -- The events run without a fault, and for each user data the calls of callbacks and the retrievals
  -- that wait have grown together by the retrievals made.
  abbrev pub Settles : List (Event Binding) → Context Binding → Context Binding → Type 0
  Settles es c v = (run hash es c ≡ ok v) × ((d : ℕ) → settled d v ≡ settled d c + asked d es)

  -- The event that needs a cache which is not empty, and those before it, which settle.
  pub record Breaks (es : List (Event Binding)) (c : Context Binding) : Type 0 where
    pub before : List (Event Binding)
    pub event : Event Binding
    pub after : List (Event Binding)
    pub reached : Context Binding
    pub in_order : es ≡ before ++ event ∷ after
    pub settles : Settles before c reached
    pub cached : reached.pcf_bindings_cache ≢ []
    pub needs : needs_cache event reached ≡ true
    pub faults : run hash es c ≡ fault
