-- ===== src/Api/Paths/Sent.antt =====
-- frontend/src/api/live-api.ts: which parameters a query sends.
use Prim.Native.String.{[], ◌∷◌}
use mathlib.Core.List.{List, [], ◌∷◌}
use federated_iot_platform.Prelude.{Option, none, some, String, ◌===◌, ◌≡◌, if◌then◌else◌}
use federated_iot_platform.Js.{Value, text, Fields, end, field, lookup}
use federated_iot_platform.Api.Paths.{is_sent}

pub lookup_parameter : String → List (String × String) → Option String
lookup_parameter k [] = none
lookup_parameter k ((j, v) ∷ ps) = if j === k then some v else lookup_parameter k ps

-- No name twice, as in every object.
abbrev pub IsObject : Fields → Type 0
IsObject end = Unit
IsObject (field k v fs) = (lookup k fs ≡ none) × IsObject fs

-- The value that is sent of an entry.
abbrev pub sent_text : Option Value → Option String → Option String
sent_text none old = old
sent_text (some v) old = if is_sent v then some (text v) else old
