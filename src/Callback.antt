-- ===== src/Callback.antt =====
-- The result codes of libogscore and the calls of application callbacks, as the handlers make them.
use rt_5gc_service_consumers.Common.{ℕ, Bool, Option, none, some, List, [], ◌∷◌}

pub data ResultCode : Type 0 where
  ogs_ok ogs_error ogs_done ogs_etimedout : ResultCode

-- `callback(object, result, problem_details, callback_data)`: the object by its address, and
-- whether the details of a problem are passed.
pub record Call : Type 0 where
  pub function : ℕ
  pub object : ℕ
  pub result : ResultCode
  pub problem_details : Bool
  pub callback_data : ℕ

-- `if (x->callback) x->callback(x, result, problem_details, x->callback_data)`
unfoldable pub notify : Option ℕ → ℕ → ResultCode → Bool → ℕ → List Call
notify none object result problem_details callback_data = []
notify (some f) object result problem_details callback_data =
    record {
      function = f;
      object = object;
      result = result;
      problem_details = problem_details;
      callback_data = callback_data;
    }
    ∷ []
