-- ===== src/Parameters/Merged.antt =====
-- frontend/src/ui.ts: the value of each parameter after a merge.
use federated_iot_platform.Prelude.{Bool, true, not, ◌&&◌, Option, none, some, is_some}
use federated_iot_platform.Js.{Value, Fields, end, field, lookup, or_undefined}
use federated_iot_platform.Parameters.{combine}

-- No two properties have the same name, as in every object.
unfoldable pub distinct : Fields → Bool
distinct end = true
distinct (field k v fs) = not (is_some (lookup k fs)) && distinct fs

abbrev pub overridden : Option Value → Option Value → Option Value
overridden base none = base
overridden base (some v) = some (combine (or_undefined base) v)
