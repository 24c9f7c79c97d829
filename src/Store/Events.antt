-- ===== src/Store/Events.antt =====
-- frontend/src/state/simulation-store.ts: event ids and the projection of a stream event.
use federated_iot_platform.Prelude.{
  Bool, true, false, not, ◌&&◌, ◌||◌, none, some, String, ◌===◌, if◌then◌else◌,
}
use federated_iot_platform.Prelude.Int.{ltb_ℤ}
use federated_iot_platform.Js.{
  Value, null, undefined, num, str, int, get, has, text, number, finite?, max_ℤ, truthy, is_nullish,
  strict_eq, ◌or◌,
}
use federated_iot_platform.Js.Objects.{spread, with_field}

-- `v === null || v === undefined || v === ""`.
abbrev pub is_absent : Value → Bool
is_absent undefined = true
is_absent null = true
is_absent (str s) = s === ""
is_absent _ = false

unfoldable pub monotonic_event_id : Value → Value → Value
monotonic_event_id previous candidate =
    if is_absent previous && is_absent candidate
    then null
    else if is_absent previous
    then candidate
    else if is_absent candidate
    then previous
    else elim (finite? (number previous)) [
      | none ↦ candidate
      | some p ↦ elim (finite? (number candidate)) [
        | none ↦ candidate
        | some c ↦ num (int (max_ℤ p c))
      ]
    ]

unfoldable pub is_newer_event_id : Value → Value → Bool
is_newer_event_id previous candidate =
    if is_absent candidate || is_absent previous
    then true
    else let differs = not (text candidate === text previous) in
      elim (finite? (number previous)) [
        | none ↦ differs
        | some p ↦ elim (finite? (number candidate)) [ none ↦ differs | some c ↦ ltb_ℤ p c ]
      ]

-- `...(has(k) ? { k: data[k] } : {})`.
abbrev copy_field : String → Value → Value → Value
copy_field k source target = if has k source then with_field k (get k source) target else target

unfoldable pub project_sse_event : Value → String → Value → Value
project_sse_event detail run_id event =
    let source = get "data" event or undefined in
    let named = get "run_id" source in
    if not (truthy detail) || (truthy named && not (strict_eq named (str run_id)))
    then detail
    else let staged = copy_field "queue_position" source (
        copy_field "current_stage" source (copy_field "status" source (spread detail undefined))) in
      let id = get "id" event in
      if is_nullish id then staged else with_field "latest_event_id" id staged
