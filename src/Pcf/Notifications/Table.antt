-- ===== src/Pcf/Notifications/Table.antt =====
-- The list of callbacks against a table that has, for each event, who is called for it.
use mathlib.Core.List.{append-nil}
use rt_5gc_service_consumers.Common.{
  ℕ, zero, suc, ◌<◌, Bool, true, false, ◌&&◌, List, [], ◌∷◌, ◌++◌, Option, none, some, ◌==◌, ltb,
  if◌then◌else◌, ◌≡◌, refl, ap, ◌∙◌, arith, Bool-cases, inl, inr,
}
use rt_5gc_service_consumers.Pcf.Events.{
  NpcfAfEvent, Mask, bit, mask_without, any_below, width, intersects, npcf_af_event_to_event_mask,
  events_notification_to_events_mask,
}
use rt_5gc_service_consumers.Pcf.Notifications.{
  EventNotification, add_event_notification, names_callback, remove_event_notification, called_for,
  notifications_callback_call,
}

pub data Change : Type 0 where
  add remove : Mask → Option ℕ → Option ℕ → Change

-- The code: one change after the other.
abbrev pub callbacks_after : List Change → List EventNotification → List EventNotification
callbacks_after [] l = l
callbacks_after (add m f d ∷ cs) l = callbacks_after cs (add_event_notification m f d l).0
callbacks_after (remove m f d ∷ cs) l = callbacks_after cs (remove_event_notification m f d l)

-- For each event, whom a notification of it calls, in order.
abbrev pub Table : Type 0
Table = ℕ → List (ℕ × Option ℕ)

-- Without the callbacks that a removal names: all for NULL, else those of a function, and of a datum
-- if one is given.
abbrev pub without : Option ℕ → Option ℕ → List (ℕ × Option ℕ) → List (ℕ × Option ℕ)
without none d l = []
without (some f) d [] = []
without (some f) none ((g, e) ∷ l) =
    let rest = without (some f) none l in if g == f then rest else (g, e) ∷ rest
without (some f) (some d) ((g, none) ∷ l) = (g, none) ∷ without (some f) (some d) l
without (some f) (some d) ((g, some e) ∷ l) =
    let rest = without (some f) (some d) l in if g == f && e == d then rest else (g, some e) ∷ rest

abbrev pub table_change : Change → Table → Table
table_change (add m none d) t k = t k
table_change (add m (some f) d) t k = if m k then t k ++ (f, d) ∷ [] else t k
table_change (remove m f d) t k = if m k then without f d (t k) else t k

abbrev pub table_changed : List Change → Table → Table
table_changed [] t = t
table_changed (c ∷ cs) t = table_changed cs (table_change c t)

-- The table that a list of callbacks stands for.
abbrev pub table_of : List EventNotification → Table
table_of l k = called_for (bit k) l

any_below-bit : (w k : ℕ) (m : Mask) → any_below w (λ j. m j && bit k j) ≡ (ltb k w && m k)
unfolding any_below
any_below-bit zero k m = ground arith
any_below-bit (suc w) k m =
    let same : (w == k) ≡ true → m w ≡ m k = λ h. ap m (ground (arith, h)) in
    ground (arith, any_below-bit w k m, same)

intersects-bit : (k : ℕ) (m : Mask) → k < width → intersects m (bit k) ≡ m k
unfolding intersects
intersects-bit k m h = any_below-bit width k m ∙ ground (arith, h)

any_below-of : (w k : ℕ) (m : Mask) → k < w → any_below w m ≡ false → m k ≡ false
unfolding any_below
any_below-of zero k m h e = absurd (omega arith)
any_below-of (suc w) k m h e =
    let same : (w == k) ≡ true → m w ≡ m k = λ h. ap m (ground (arith, h)) in
    ground (arith, any_below-of w k m, same)

called_for-append :
    (m : Mask) (l n : List EventNotification)
    → called_for m (l ++ n) ≡ called_for m l ++ called_for m n
unfolding called_for
called_for-append m [] n = refl
called_for-append m (x ∷ l) n = ground (arith, called_for-append m l n)

called_for-nil : (k : ℕ) → called_for (bit k) [] ≡ []
unfolding called_for
called_for-nil k = refl

add-table :
    (m : Mask) (f d : Option ℕ) (l : List EventNotification) (k : ℕ)
    → k < width
    → table_of (add_event_notification m f d l).0 k ≡ table_change (add m f d) (table_of l) k
unfolding add_event_notification called_for
add-table m none d l k h = refl
add-table m (some f) d l k h =
    let node : EventNotification = record { callback = f; events = m; user_data = d } in
    called_for-append (bit k) l (node ∷ [])
    ∙ rw (intersects-bit k m h)
        (elim (Bool-cases (m k)) [ inl e ↦ rw e refl | inr e ↦ rw e (append-nil _) ])

without-names_callback :
    (f d : Option ℕ) (g : ℕ) (e : Option ℕ) (l : List (ℕ × Option ℕ))
    → without f d ((g, e) ∷ l)
      ≡ (if names_callback f d g e then without f d l else (g, e) ∷ without f d l)
unfolding names_callback
without-names_callback none d g e l = refl
without-names_callback (some f) none g e l = ground arith
without-names_callback (some f) (some d) g none l = ground arith
without-names_callback (some f) (some d) g (some e) l = ground arith

without-nil : (f d : Option ℕ) → without f d [] ≡ []
without-nil none d = refl
without-nil (some f) d = refl

-- The event of `k` is one that a node has left exactly when it had it and it is not removed.
remove-table :
    (m : Mask) (f d : Option ℕ) (l : List EventNotification) (k : ℕ)
    → k < width
    → table_of (remove_event_notification m f d l) k ≡ table_change (remove m f d) (table_of l) k
unfolding remove_event_notification called_for
remove-table m f d [] k h = ground (arith, without-nil f d)
remove-table m f d (x ∷ l) k h =
    let left = mask_without x.events m in
    ground (
      arith,
      remove-table m f d l k h,
      without-names_callback f d x.callback x.user_data (called_for (bit k) l),
      intersects-bit k x.events h,
      intersects-bit k left h,
      any_below-of width k left h,
    )

table_changed-cong :
    (cs : List Change) (t u : Table) (k : ℕ)
    → t k ≡ u k
    → table_changed cs t k ≡ table_changed cs u k
table_changed-cong [] t u k e = e
table_changed-cong (add m none d ∷ cs) t u k e = table_changed-cong cs _ _ k e
table_changed-cong (add m (some f) d ∷ cs) t u k e = table_changed-cong cs _ _ k (rw e refl)
table_changed-cong (remove m f d ∷ cs) t u k e = table_changed-cong cs _ _ k (rw e refl)

callbacks_after-table :
    (cs : List Change) (l : List EventNotification) (k : ℕ)
    → k < width
    → table_of (callbacks_after cs l) k ≡ table_changed cs (table_of l) k
callbacks_after-table [] l k h = refl
callbacks_after-table (add m f d ∷ cs) l k h =
    callbacks_after-table cs _ k h ∙ table_changed-cong cs _ _ k (add-table m f d l k h)
callbacks_after-table (remove m f d ∷ cs) l k h =
    callbacks_after-table cs _ k h ∙ table_changed-cong cs _ _ k (remove-table m f d l k h)

-- After any additions and removals of callbacks, a notification of one event calls those that a
-- table has for the event, in order. In the table an addition puts a callback that is not NULL last
-- at each event of its mask, and a removal takes from each event of its mask the callbacks that it
-- names.
pub notifications_callback_call-table :
    (cs : List Change) (answer : ℕ → Option ℕ → Bool) (e : NpcfAfEvent) (k : ℕ)
    → npcf_af_event_to_event_mask e ≡ bit k
    → k < width
    → (notifications_callback_call answer (some (e ∷ [])) (callbacks_after cs [])).0
      ≡ table_changed cs (λ j. []) k
unfolding notifications_callback_call events_notification_to_events_mask
notifications_callback_call-table cs answer e k b h =
    ap (λ m. called_for m (callbacks_after cs [])) b
    ∙ callbacks_after-table cs [] k h
    ∙ table_changed-cong cs _ _ k (called_for-nil k)
