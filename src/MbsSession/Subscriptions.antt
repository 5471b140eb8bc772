-- ===== src/MbsSession/Subscriptions.antt =====
-- The status subscriptions of the MBS Sessions: mbs-session.c, mbs-status-subscription.c and
-- nmbsmf-mbs-session-handle.c. Sessions and subscriptions are addresses. A subscription that has
-- been freed is `none` in the world, and a use of it a fault. A node is one entry of one list: a
-- second addition of a node, which the code does not test for, is outside the model. A table that is
-- NULL stands for an empty one; `ogs_hash_do` visits the entries in the order of the list.
pub mod Loops
pub mod Update
pub mod Remove
pub mod Respond
mod Examples
use rt_5gc_service_consumers.Common.{
  ℕ, Bool, true, false, not, ◌&&◌, ◌||◌, List, [], ◌∷◌, ◌++◌, map, Option, none, some, Str, str_eq,
  opt_str_eq, ◌==◌, if◌then◌else◌, has, remove, Run, ok, fault, ◌>>=◌,
}

pub record Subscription : Type 0 where
  pub correlation_id : Option Str
  pub id : Option Str
  pub session : Option ℕ
  pub changed : Bool

pub record Lists : Type 0 where
  pub new_subscriptions : List ℕ
  pub active_subscriptions : List (Str × ℕ)
  pub deleted_subscriptions : List ℕ
  pub deleted : Bool

-- A request to the MB-SMF: the session and the subscription.
pub data Sent : Type 0 where
  create update delete : ℕ → ℕ → Sent

pub record World : Type 0 where
  pub subscription : ℕ → Option Subscription
  pub session : ℕ → Lists
  pub sent : List Sent

abbrev pub set_subscription : ℕ → Option Subscription → World → World
set_subscription a x w = record w { subscription = λ b. if b == a then x else w.subscription b }

abbrev pub set_lists : ℕ → Lists → World → World
set_lists s l w = record w { session = λ b. if b == s then l else w.session b }

unfoldable pub deref : ℕ → World → Run Subscription
deref a w = elim (w.subscription a) [ none ↦ fault | some x ↦ ok x ]

-- `ogs_hash_set` of NULL, `ogs_hash_set` and `ogs_hash_get` with string keys.
unfoldable pub hash_remove : Str → List (Str × ℕ) → List (Str × ℕ)
hash_remove k [] = []
hash_remove k (e ∷ m) = let rest = hash_remove k m in if str_eq k e.0 then rest else e ∷ rest

unfoldable pub hash_set : Str → ℕ → List (Str × ℕ) → List (Str × ℕ)
unfolding hash_remove
hash_set k v m = hash_remove k m ++ (k, v) ∷ []

unfoldable pub hash_get : Str → List (Str × ℕ) → Option ℕ
hash_get k [] = none
hash_get k (e ∷ m) = if str_eq k e.0 then some e.1 else hash_get k m

-- The requests go to the session that the subscription points at, if any.
abbrev pub requests : (ℕ → ℕ → Sent) → ℕ → Subscription → List Sent
requests kind a x = elim x.session [ none ↦ [] | some s ↦ kind s a ∷ [] ]

abbrev pub send : (ℕ → ℕ → Sent) → ℕ → Subscription → World → World
send kind a x w = record w { sent = w.sent ++ requests kind a x }

-- `if (subsc->id)` of the addition: out of the table of the session it was in.
detach : ℕ → Subscription → World → Run World
unfolding hash_remove
detach a x w = elim x.id [
  | none ↦ ok w
  | some i ↦ elim x.session [
    | none ↦ fault
    | some t ↦
        let l = w.session t in
        ok (
          send delete a x (
            set_lists t (record l { active_subscriptions = hash_remove i l.active_subscriptions })
              w))
  ]
]

-- For a session and a subscription that are not NULL.
unfoldable pub add_subscription : ℕ → ℕ → World → Run (World × Bool)
unfolding detach
add_subscription s a w = if (w.session s).deleted then ok (w, false) else do
  x ← deref a w
  w₁ ← detach a x w
  let l = w₁.session s
  ok (
    set_subscription a (some (record x { id = none; session = some s; changed = true }))
        (set_lists s (record l { new_subscriptions = l.new_subscriptions ++ a ∷ [] }) w₁),
    true,
  )

abbrev pub same_session : Option ℕ → ℕ → Bool
same_session none s = false
same_session (some t) s = t == s

-- The branch of a subscription with an id.
unfoldable pub schedule_delete : ℕ → ℕ → Subscription → Str → World → World
unfolding hash_remove
schedule_delete s a x i w =
    let l = w.session s in
    set_subscription a (some (record x { changed = true })) (
      set_lists s
        (record l {
          active_subscriptions = hash_remove i l.active_subscriptions;
          deleted_subscriptions = l.deleted_subscriptions ++ a ∷ [];
        })
        w)

-- The branch of a new one: after it has been freed, `subsc->changed = true` writes to it.
unfoldable pub remove_new : ℕ → ℕ → World → Run World
remove_new s a w =
    let l = w.session s in
    let w₁ =
      set_subscription a none
        (set_lists s (record l { new_subscriptions = remove a l.new_subscriptions }) w) in
    if has a l.new_subscriptions
    then (deref a w₁ >>= λ x. ok (set_subscription a (some (record x { changed = true })) w₁))
    else ok w

unfoldable pub remove_subscription : ℕ → ℕ → World → Run (World × Bool)
unfolding schedule_delete remove_new
remove_subscription s a w = if (w.session s).deleted then ok (w, false) else do
  x ← deref a w
  (if not (same_session x.session s) then ok (w, false) else elim x.id [
    | some i ↦ ok (schedule_delete s a x i w, true)
    | none ↦ (remove_new s a w >>= λ w₁. ok (w₁, true))
  ])

-- The three loops of `_mbs_session_subscriptions_update`.
pub create_changed : List ℕ → World → Run World
create_changed [] w = ok w
create_changed (a ∷ l) w = do
  x ← deref a w
  create_changed l (
      set_subscription a (some (record x { changed = false }))
        (if x.changed then send create a x w else w))

pub update_changed : List ℕ → World → Run World
update_changed [] w = ok w
update_changed (a ∷ l) w = do
  x ← deref a w
  update_changed l (
      if x.changed
      then set_subscription a (some (record x { changed = false })) (send update a x w)
      else w)

pub delete_each : ℕ → List ℕ → World → Run World
delete_each s [] w = ok w
delete_each s (a ∷ l) w = do
  x ← deref a w
  let k = w.session s
  delete_each s l (
      set_subscription a none (
        set_lists s (record k { deleted_subscriptions = remove a k.deleted_subscriptions })
          (send delete a x w)))

unfoldable pub subscriptions_update : ℕ → World → Run World
unfolding create_changed update_changed delete_each
subscriptions_update s w = do
  w₁ ← create_changed (w.session s).new_subscriptions w
  w₂ ← update_changed (map (λ e. e.1) (w₁.session s).active_subscriptions) w₁
  delete_each s (w₂.session s).deleted_subscriptions w₂

unfoldable pub find_active_subscription : ℕ → Str → World → Option ℕ
unfolding hash_get
find_active_subscription s i w =
    if (w.session s).deleted then none else hash_get i (w.session s).active_subscriptions

-- The first of the list with the correlation id.
unfoldable pub find_in : Option Str → World → List ℕ → Run (Option ℕ)
find_in c w [] = ok none
find_in c w (a ∷ l) = do
  x ← deref a w
  let rest = find_in c w l
  if opt_str_eq c x.correlation_id then ok (some a) else rest

unfoldable pub find_subscription : ℕ → Option Str → World → Run (Option ℕ)
unfolding find_in
find_subscription s c w = if (w.session s).deleted then ok none else do
  found ← find_in c w (w.session s).new_subscriptions
  elim found [
    | some a ↦ ok (some a)
    | none ↦ find_in c w (map (λ e. e.1) (w.session s).active_subscriptions)
  ]

-- The subscription gets its id, and a new one moves to the table.
unfoldable pub establish : ℕ → Str → ℕ → World → Run World
unfolding hash_set
establish s i a w = do
  x ← deref a w
  let l = w.session s
  let w₁ = set_subscription a (some (record x { id = some i })) w
  ok (
      if has a l.new_subscriptions
      then set_lists s
          (record l {
            new_subscriptions = remove a l.new_subscriptions;
            active_subscriptions = hash_set i a l.active_subscriptions;
          })
          w₁
      else w₁)

-- What stands behind the last `/` of a text, or the text where it has none.
behind_last : Str → Str → Str
behind_last current [] = current
behind_last current (c ∷ rest) = behind_last (if c == 47 then rest else current) rest

-- `_nmbsmf_mbs_session_subscription_response` up to the reports: `correlation_id` is that of the
-- body, which is `none` where it is not understood. `strrchr` reads the location, also where it is
-- NULL. `decode` is `ogs_sbi_url_decode`.
unfoldable pub subscription_response :
    (Str → Str) → ℕ → Bool → Option (Option Str) → Option Str → World → Run World
unfolding find_subscription establish behind_last
subscription_response decode s success correlation_id location w =
    if not success then ok w else elim correlation_id [
      | none ↦ ok w
      | some c ↦ do
        found ← find_subscription s c w
        elim found [
          | none ↦ ok w
          | some a ↦ elim location [
            | none ↦ fault
            | some l ↦ establish s (decode (behind_last l l)) a w
          ]
        ]
    ]
