-- ===== src/Pcf/Events/Masks.antt =====
-- The three ways from events to a mask, and back.
use rt_5gc_service_consumers.Common.{
  ℕ, Bool, true, false, ◌&&◌, ◌||◌, List, [], ◌∷◌, some, ◌==◌, ltb, has, ◌≡◌, refl, sym, ◌∙◌, arith,
  Bool-cases, inl, inr, ==_iff,
}
use rt_5gc_service_consumers.Pcf.Events.{
  NpcfAfEvent, other, NpcfAfEvent-discrete, same_event, AfEventSubscription, Mask, none_set, bit,
  mask_or, npcf_af_event_to_event_mask, events_map, subscriptions_of, events_subsc_create,
  row_events, rows_events, pcf_app_session_evts, masks_from, subscribed,
  events_subsc_req_data_to_events_mask,
}

-- One of the events has the bit.
any_event : List NpcfAfEvent → Mask
any_event [] k = false
any_event (e ∷ l) k = npcf_af_event_to_event_mask e k || any_event l k

masks_from_lem :
    (l : List NpcfAfEvent) (events : Mask) (k : ℕ)
    → masks_from l events k ≡ (events k || any_event l k)
unfolding any_event
masks_from_lem [] events k = ground arith
masks_from_lem (e ∷ l) events k =
    ground (arith, masks_from_lem l (mask_or events (npcf_af_event_to_event_mask e)) k)

any_same : NpcfAfEvent → List AfEventSubscription → Bool
any_same e [] = false
any_same e (x ∷ l) = same_event x.event e || any_same e l

any_row : List (ℕ × NpcfAfEvent) → List AfEventSubscription → Mask
unfolding any_same
any_row [] l k = false
any_row ((i, e) ∷ rows) l k = (any_same e l && k == i) || any_row rows l k

row_events_lem :
    (i : ℕ) (e : NpcfAfEvent) (l : List AfEventSubscription) (events : Mask) (k : ℕ)
    → row_events i e l events k ≡ (events k || (any_same e l && k == i))
unfolding row_events any_same
row_events_lem i e [] events k = ground arith
row_events_lem i e (x ∷ l) events k = elim (Bool-cases (same_event x.event e)) [
  | inl s ↦ rw s (row_events_lem i e l (mask_or events (bit i)) k ∙ ground arith)
  | inr s ↦ rw s (row_events_lem i e l events k)
]

rows_events_lem :
    (rows : List (ℕ × NpcfAfEvent)) (l : List AfEventSubscription) (events : Mask) (k : ℕ)
    → rows_events rows l events k ≡ (events k || any_row rows l k)
unfolding rows_events any_row
rows_events_lem [] l events k = ground arith
rows_events_lem ((i, e) ∷ rows) l events k =
    rows_events_lem rows l (row_events i e l events) k
    ∙ ground (arith, row_events_lem i e l events k)

any_row-cons :
    (rows : List (ℕ × NpcfAfEvent)) (x : AfEventSubscription) (l : List AfEventSubscription) (k : ℕ)
    → any_row rows (x ∷ l) k ≡ (any_row rows (x ∷ []) k || any_row rows l k)
unfolding any_row any_same
any_row-cons [] x l k = refl
any_row-cons ((i, e) ∷ rows) x l k = ground (arith, any_row-cons rows x l k)

any_row-nil : (rows : List (ℕ × NpcfAfEvent)) (k : ℕ) → any_row rows [] k ≡ false
unfolding any_row any_same
any_row-nil [] k = refl
any_row-nil ((i, e) ∷ rows) k = any_row-nil rows k

-- Each event has its row in the table.
any_row-one :
    (e : NpcfAfEvent) (x : AfEventSubscription) (k : ℕ)
    → x.event ≡ e
    → any_row events_map (x ∷ []) k ≡ npcf_af_event_to_event_mask e k
unfolding any_row any_same NpcfAfEvent-discrete npcf_af_event_to_event_mask
any_row-one (other n) x k p = rw p refl
any_row-one e x k p = rw p (ground arith)

any_row-events :
    (l : List AfEventSubscription) (k : ℕ) → any_row events_map l k ≡ any_event (subscribed l) k
unfolding any_event
any_row-events [] k = any_row-nil events_map k
any_row-events (x ∷ l) k =
    ground (arith, any_row-cons events_map x l k, any_row-one x.event x k refl, any_row-events l k)

evts_lem :
    (l : List AfEventSubscription) (k : ℕ) → pcf_app_session_evts l k ≡ any_event (subscribed l) k
unfolding pcf_app_session_evts
evts_lem l k = rows_events_lem events_map l none_set k ∙ any_row-events l k

-- The two functions from the events of a subscription to a mask agree on every bit.
pub pcf_app_session_evts-events_subsc_req_data_to_events_mask :
    (l : List AfEventSubscription) (k : ℕ)
    → pcf_app_session_evts l k ≡ events_subsc_req_data_to_events_mask (some l) k
unfolding events_subsc_req_data_to_events_mask
pcf_app_session_evts-events_subsc_req_data_to_events_mask l k =
    evts_lem l k ∙ sym (masks_from_lem (subscribed l) none_set k)

-- A row's event has the row's bit.
abbrev Rows : List (ℕ × NpcfAfEvent) → Type 0
Rows [] = Unit {0}
Rows ((i, e) ∷ rows) = (npcf_af_event_to_event_mask e ≡ bit i) × Rows rows

abbrev bits : List (ℕ × NpcfAfEvent) → List ℕ
bits [] = []
bits ((i, e) ∷ rows) = i ∷ bits rows

subscriptions_of-bits :
    (m : Mask) (rows : List (ℕ × NpcfAfEvent)) (k : ℕ)
    → Rows rows
    → any_event (subscribed (subscriptions_of m rows)) k ≡ (m k && has k (bits rows))
unfolding any_event subscriptions_of
subscriptions_of-bits m [] k r = ground arith
subscriptions_of-bits m ((i, e) ∷ rows) k r =
    let here : npcf_af_event_to_event_mask e k ≡ (k == i) = rw (r.0) refl in
    let same : (k == i) ≡ true → m k ≡ m i = λ h. rw ((==_iff k i).0 h) refl in
    elim (Bool-cases (m i)) [
      | inl s ↦ ground (arith, here, same, subscriptions_of-bits m rows k r.1)
      | inr s ↦ ground (arith, same, subscriptions_of-bits m rows k r.1)
    ]

events_map-Rows : Rows events_map
unfolding npcf_af_event_to_event_mask
events_map-Rows = search tt

bits-ltb : (k : ℕ) → has k (bits events_map) ≡ ltb k 20
bits-ltb k = ground arith

-- The events created for a mask give back the mask's 20 events, in whatever order the table has them.
pub pcf_app_session_evts-events_subsc_create :
    (m : Mask) (k : ℕ) → pcf_app_session_evts (events_subsc_create m) k ≡ (m k && ltb k 20)
unfolding events_subsc_create
pcf_app_session_evts-events_subsc_create m k =
    evts_lem (subscriptions_of m events_map) k
    ∙ subscriptions_of-bits m events_map k events_map-Rows
    ∙ rw (bits-ltb k) refl
