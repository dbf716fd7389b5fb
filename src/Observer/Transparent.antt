-- ===== src/Observer/Transparent.antt =====
-- Observing a tool changes nothing of the tool (src/wenchang/observer.py, src/wenchang/tools.py).
use wenchang.Base.{Option, none, some, ◌≡◌, refl}
use wenchang.Base.Result.{Result}
use wenchang.Base.Exec.{Exec}
use wenchang.Json.{Json}
use wenchang.Text.{Str}
use wenchang.Dict.{Dict}
use wenchang.Errors.{Error}
use wenchang.Observer.{ToolCallRecord, Surroundings, watched, observed}

module _ {Arguments : Type 0} (E : Surroundings Arguments) {S A : Type 0} (message : Error → Str)
    (render : A → Result Error (Dict Json)) where
  watched-same :
      (on_call : Option (ToolCallRecord Arguments → E.World → Result Error (Unit {0}) × E.World))
      (tool : Str) (arguments : Arguments) (method : Exec Error S A) (s : S) (w : E.World)
      → ((watched E message render on_call tool arguments method (s, w)).0 ≡ (method s).0)
        × ((watched E message render on_call tool arguments method (s, w)).1.0 ≡ (method s).1)
  unfolding watched
  watched-same none tool arguments method s w = (refl, refl)
  watched-same (some on_call) tool arguments method s w = (refl, refl)

  -- Whatever the observer does, and also if it or the rendering fails, an observed tool returns or
  -- raises what the tool does, and leaves the client in the state in which the tool leaves it.
  observed-same :
      (tool : Str) (arguments : Arguments) (method : Exec Error S A) (s : S) (w : E.World)
      → ((observed E message render tool arguments method (s, w)).0 ≡ (method s).0)
        × ((observed E message render tool arguments method (s, w)).1.0 ≡ (method s).1)
  unfolding observed
  observed-same tool arguments method s w = watched-same E.on_call tool arguments method s w
