-- ===== src/Observer.antt =====
-- The observer of tool calls: `ToolCallRecord`, `notify_observer` (src/wenchang/observer.py) and the
-- wrapper `_observed` (src/wenchang/tools.py) of a call whose arguments Python has bound. Arguments
-- are the adopter's values; a record keeps them as they are.
pub mod Transparent
use wenchang.Base.{ℕ, ◌-◌, Bool, true, false, Option, none, some, List}
use wenchang.Base.Result.{Result, ok, err}
use wenchang.Base.Exec.{Exec}
use wenchang.Json.{Json}
use wenchang.Text.{Str}
use wenchang.Dict.{Dict}
use wenchang.Errors.{Error}
use wenchang.Tools.Render.Failure.{render_error}

pub record ToolCallRecord (Arguments : Type 0) : Type 0 where
  pub tool : Str
  pub arguments : Arguments
  pub result : Dict Json
  pub is_error : Bool
  pub request_id : Option Str
  pub duration : ℕ

-- What surrounds a tool call: the monotonic clock, and the observer, which may raise anything.
pub record Surroundings (Arguments : Type 0) : Type 1 where
  pub World : Type 0
  pub monotonic : World → ℕ × World
  pub on_call : Option (ToolCallRecord Arguments → World → Result Error (Unit {0}) × World)
  -- `_logger.error`
  pub log_failure : Str → World → World

module _ {Arguments : Type 0} (E : Surroundings Arguments) where
  unfoldable pub swallowed : Str → Result Error (Unit {0}) × E.World → E.World
  swallowed tool (ok u, w) = w
  swallowed tool (err e, w) = E.log_failure tool w

  -- `notify_observer`
  unfoldable pub notify_observer :
      (ToolCallRecord Arguments → E.World → Result Error (Unit {0}) × E.World)
      → ToolCallRecord Arguments
      → E.World
      → E.World
  unfolding swallowed
  notify_observer on_call entry w = swallowed entry.tool (on_call entry w)

  -- The payload of an outcome, and whether it is an error: `render` is `render_result`, which may fail.
  unfoldable pub payload :
      {A : Type 0}
      → (Error → Str)
      → (A → Result Error (Dict Json))
      → Result Error A
      → Dict Json × Bool
  payload message render (err error) = (render_error message error, true)
  payload message render (ok value) = elim (render value) [
    | ok fields ↦ (fields, false)
    | err failure ↦ (render_error message failure, true)
  ]

  module _ {S A : Type 0} (message : Error → Str) (render : A → Result Error (Dict Json)) where
    unfoldable pub watched :
        Option (ToolCallRecord Arguments → E.World → Result Error (Unit {0}) × E.World)
        → Str
        → Arguments
        → Exec Error S A
        → Exec Error (S × E.World) A
    unfolding notify_observer payload
    watched none tool arguments method (s, w) = let (r, s') = method s in (r, (s', w))
    watched (some on_call) tool arguments method (s, w) =
        let (started, w₁) = E.monotonic w in
        let (r, s') = method s in
        let (stopped, w₂) = E.monotonic w₁ in
        let (result, is_error) = payload message render r in
        let entry : ToolCallRecord Arguments = record {
          tool = tool;
          arguments = arguments;
          result = result;
          is_error = is_error;
          request_id = none;
          duration = stopped - started;
        } in
        (r, (s', notify_observer on_call entry w₂))

    -- `_observed`
    unfoldable pub observed : Str → Arguments → Exec Error S A → Exec Error (S × E.World) A
    unfolding watched
    observed = watched E.on_call
