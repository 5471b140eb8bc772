-- ===== src/MbsSession/Callbacks.antt =====
-- The result callbacks of an MBS Session and the data that goes with them (mbs-session.c). Three
-- slots may share one datum; the datum is freed when the last slot lets go of it. The functions
-- return the slots and the calls of the free functions, `(function, datum)`, in order.
pub mod Freed
mod Examples
use rt_5gc_service_consumers.Common.{
  ℕ, Bool, true, false, ◌&&◌, not, List, [], ◌∷◌, ◌++◌, Option, none, some, ◌==◌, if◌then◌else◌,
}

-- `none` is NULL.
pub record Slots : Type 0 where
  pub create_result_cb : Option ℕ
  pub update_result_cb : Option ℕ
  pub delete_result_cb : Option ℕ
  pub create_result_cb_data : Option ℕ
  pub update_result_cb_data : Option ℕ
  pub delete_result_cb_data : Option ℕ
  pub create_cb_data_free : Option ℕ
  pub update_cb_data_free : Option ℕ
  pub delete_cb_data_free : Option ℕ

-- `a == b` on pointers
abbrev pub same : Option ℕ → Option ℕ → Bool
same none none = true
same none (some b) = false
same (some a) none = false
same (some a) (some b) = a == b

-- `if (free && data != other && data != another) free(data);` for data that is not NULL.
abbrev free_unless_shared : Option ℕ → ℕ → Option ℕ → Option ℕ → List (ℕ × ℕ)
free_unless_shared none d other another = []
free_unless_shared (some f) d other another =
    if not (same (some d) other) && not (same (some d) another) then (f, d) ∷ [] else []

abbrev freed_by : Option ℕ → Option ℕ → Option ℕ → Option ℕ → List (ℕ × ℕ)
freed_by free none other another = []
freed_by free (some d) other another = free_unless_shared free d other another

unfoldable pub release_create_callback_data : Slots → Slots × List (ℕ × ℕ)
release_create_callback_data s = (
  record s { create_result_cb_data = none },
  freed_by s.create_cb_data_free s.create_result_cb_data s.delete_result_cb_data
      s.update_result_cb_data,
)

unfoldable pub release_update_callback_data : Slots → Slots × List (ℕ × ℕ)
release_update_callback_data s = (
  record s { update_result_cb_data = none },
  freed_by s.update_cb_data_free s.update_result_cb_data s.create_result_cb_data
      s.delete_result_cb_data,
)

unfoldable pub release_delete_callback_data : Slots → Slots × List (ℕ × ℕ)
release_delete_callback_data s = (
  record s { delete_result_cb_data = none },
  freed_by s.delete_cb_data_free s.delete_result_cb_data s.create_result_cb_data
      s.update_result_cb_data,
)

unfoldable pub release_callback_data : Slots → Slots × List (ℕ × ℕ)
unfolding release_create_callback_data release_update_callback_data release_delete_callback_data
release_callback_data s =
    let (s₁, f₁) = release_create_callback_data s in
    let (s₂, f₂) = release_update_callback_data s₁ in
    let (s₃, f₃) = release_delete_callback_data s₂ in (s₃, f₁ ++ (f₂ ++ f₃))

unfoldable pub set_create_callback_freefn :
    Slots → Option ℕ → Option ℕ → Option ℕ → Slots × List (ℕ × ℕ)
unfolding release_create_callback_data
set_create_callback_freefn s callback user_data data_free =
    let (t, freed) =
      if same s.create_result_cb_data user_data then (s, []) else release_create_callback_data s in
    (
      record t {
        create_result_cb = callback;
        create_result_cb_data = user_data;
        create_cb_data_free = data_free;
      },
      freed,
    )

unfoldable pub set_update_callback_freefn :
    Slots → Option ℕ → Option ℕ → Option ℕ → Slots × List (ℕ × ℕ)
unfolding release_update_callback_data
set_update_callback_freefn s callback user_data data_free =
    let (t, freed) =
      if same s.update_result_cb_data user_data then (s, []) else release_update_callback_data s in
    (
      record t {
        update_result_cb = callback;
        update_result_cb_data = user_data;
        update_cb_data_free = data_free;
      },
      freed,
    )

unfoldable pub set_delete_callback_freefn :
    Slots → Option ℕ → Option ℕ → Option ℕ → Slots × List (ℕ × ℕ)
unfolding release_delete_callback_data
set_delete_callback_freefn s callback user_data data_free =
    let (t, freed) =
      if same s.delete_result_cb_data user_data then (s, []) else release_delete_callback_data s in
    (
      record t {
        delete_result_cb = callback;
        delete_result_cb_data = user_data;
        delete_cb_data_free = data_free;
      },
      freed,
    )

-- The three setters in turn, for a session that is not NULL and not deleted.
unfoldable pub set_callback_freefn : Slots → Option ℕ → Option ℕ → Option ℕ → Slots × List (ℕ × ℕ)
unfolding set_create_callback_freefn set_update_callback_freefn set_delete_callback_freefn
set_callback_freefn s callback user_data data_free =
    let (s₁, f₁) = set_create_callback_freefn s callback user_data data_free in
    let (s₂, f₂) = set_update_callback_freefn s₁ callback user_data data_free in
    let (s₃, f₃) = set_delete_callback_freefn s₂ callback user_data data_free in
    (s₃, f₁ ++ (f₂ ++ f₃))
