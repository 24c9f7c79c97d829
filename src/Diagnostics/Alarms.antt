-- ===== src/Diagnostics/Alarms.antt =====
-- frontend/src/ui.ts: what the alarm timeline shows of an alarm. The times of alarms are texts; their
-- form in the local time zone is the browser's.
pub mod Withheld
use Prim.Native.Char.{Char, code}
use Prim.Native.String.{[], ◌∷◌}
use mathlib.Core.List.{List, [], ◌∷◌}
use federated_iot_platform.Prelude.{
  ℕ, zero, suc, ◌+◌, Bool, true, false, not, ◌&&◌, ◌||◌, Option, none, some, String, ◌==◌, ◌===◌,
  if◌then◌else◌, leb, map, filter,
}
use federated_iot_platform.Js.{
  Value, undefined, null, str, obj, arr, Items, nil, Fields, end, field, get, is_nullish, is_record,
  is_array, items, text, text_or_empty, upper, lower, trim, contains, begins_with, includes, ◌or◌,
  upper_text, is_blank,
}
use federated_iot_platform.Js
use federated_iot_platform.Api.{joined}

-- The key of `alarmLevelLabel`.
unfoldable pub alarm_level_key : Value → String
alarm_level_key value =
    let s = lower (text_or_empty value) in
    if contains s "notice"
    then "alarm.notice"
    else if contains s "warning"
    then "alarm.warning"
    else if contains s "alarm"
    then "alarm.alarm"
    else if s === "none" || s === "normal"
    then "alarm.none"
    else "alarm.unknown"

abbrev pub is_token_char : Char → Bool
is_token_char c =
    (leb b'A' (code c) && leb (code c) b'Z') || (leb b'0' (code c) && leb (code c) b'9')

-- `replace(/[^A-Z0-9]+/g, "_")`; `pending` says that the character before was replaced.
unfoldable pub token_from : Bool → String → String
token_from pending [] = []
token_from pending (c ∷ s) =
    let kept : String = c ∷ token_from false s in
    let skipped = token_from true s in
    if is_token_char c then kept else if pending then skipped else "_" ∷ skipped

unfoldable pub alarm_token : Value → String
unfolding token_from
alarm_token value = token_from false (upper (trim (text_or_empty value)))

-- The key of `alarmTypeLabel`.
unfoldable pub alarm_type_key : Value → String
unfolding alarm_token
alarm_type_key value =
    let t = alarm_token value in
    if t === "LOAD_IMBALANCE"
    then "alarm.type.loadImbalance"
    else if t === "HEAVY_LOAD"
    then "alarm.type.heavyLoad"
    else if t === "LIGHT_LOAD" || t === "LIGHT_LOAD_PERSISTED"
    then "alarm.type.lightLoad"
    else if t === "ABOVE_FUSED_UPPER_BOUND"
    then "alarm.type.upperBound"
    else if t === "OVERALL"
    then "alarm.type.overall"
    else "alarm.unknownType"

-- `alarmTypePresentation`: the key of the label, and the token that is shown beside it.
unfoldable pub alarm_type : Value → String × String
unfolding alarm_token alarm_type_key
alarm_type value = (alarm_type_key (str (alarm_token value)), alarm_token value)

abbrev pub is_letter : Char → Bool
is_letter c = (leb b'A' (code c) && leb (code c) b'Z') || (leb b'a' (code c) && leb (code c) b'z')

-- `[A-Za-z]:[\\/]` at the start of a text, and anywhere in it.
unfoldable pub starts_with_drive : String → Bool
starts_with_drive (c ∷ d ∷ e ∷ s) =
    is_letter c && code d == b':' && (code e == 92 || code e == b'/')
starts_with_drive _ = false

unfoldable pub has_drive : String → Bool
unfolding starts_with_drive
has_drive [] = false
has_drive (c ∷ s) = starts_with_drive (c ∷ s) || has_drive s

-- `(?:^|\s)\/`: whether a slash stands at the start or after a blank.
unfoldable pub has_rooted : Bool → String → Bool
has_rooted start [] = false
has_rooted start (c ∷ s) = (start && code c == b'/') || has_rooted (is_blank c) s

abbrev pub is_word_char : Char → Bool
is_word_char c = is_letter c || (leb b'0' (code c) && leb (code c) b'9') || code c == b'_'

-- What follows one of the words at the start of a text, in any case of its letters; the text is in
-- lower case.
unfoldable pub after_word : List String → String → List String
after_word [] s = []
after_word (w ∷ ws) s = elim (Js.without_prefix s w) [
  | none ↦ after_word ws s
  | some r ↦ r ∷ after_word ws s
]

abbrev pub ends_word : String → Bool
ends_word [] = true
ends_word (c ∷ s) = not (is_word_char c)

unfoldable pub any_ends_word : List String → Bool
any_ends_word [] = false
any_ends_word (r ∷ rs) = ends_word r || any_ends_word rs

abbrev pub withheld_words : List String
withheld_words =
    "select" ∷ "insert" ∷ "update" ∷ "delete" ∷ "leasetoken" ∷ "lease_token" ∷ "lease token"
    ∷ "lease-token" ∷ []

-- `\b(?:select|...)\b`: `start` says that no word character stands before.
unfoldable pub has_word : Bool → String → Bool
unfolding after_word any_ends_word
has_word start [] = false
has_word start (c ∷ s) =
    (start && any_ends_word (after_word withheld_words (c ∷ s)))
    || has_word (not (is_word_char c)) s

-- The pattern that withholds a text.
unfoldable pub is_withheld : String → Bool
unfolding has_drive has_rooted has_word
is_withheld s = has_drive s || has_rooted true s || has_word true (lower s)

-- `alarmScalar`.
unfoldable pub alarm_scalar : Value → String
unfolding is_withheld
alarm_scalar value =
    if is_nullish value || is_record value || is_array value
    then "—"
    else let raw = trim (text value) in
      if not (raw === "") && not (is_withheld raw) then raw else "—"

abbrev pub locator_of : Value → Value
locator_of alarm =
    if is_record (get "result_locator" alarm) then get "result_locator" alarm else obj end

-- `alarmLocator`: the agent and the point.
unfoldable pub alarm_locator : Value → String × String
unfolding alarm_scalar
alarm_locator alarm =
    let locator = locator_of alarm in
    (
      alarm_scalar (get "Agent" alarm or (get "agent" alarm or get "agent" locator)),
      alarm_scalar (
          get "OriginalRunningIndex" alarm
          or (get "original_running_index" alarm
              or (get "original_running_index" locator or get "point" locator))),
    )

-- The text of `alarmTimeValue` before it is written in the local time zone.
unfoldable pub alarm_time : Value → String
unfolding alarm_scalar
alarm_time alarm = alarm_scalar (get "Time" alarm or (get "time" alarm or get "timestamp" alarm))

unfoldable pub alarm_reasons : Value → List String
unfolding alarm_scalar
alarm_reasons alarm =
    let values =
      get "reasons" alarm or (get "reason_codes" alarm or (get "reason" alarm or arr nil)) in
    filter (λ r. not (r === "—"))
      (map alarm_scalar (if is_array values then items values else values ∷ []))

-- The texts that the timeline and `renderAlarmDetailDialog` take from an alarm, beside its level and
-- its type: the time, the agent, the point and the reasons.
unfoldable pub alarm_texts : Value → List String
unfolding alarm_time alarm_locator alarm_reasons
alarm_texts alarm =
    let (agent, point) = alarm_locator alarm in
    alarm_time alarm ∷ agent ∷ point ∷ alarm_reasons alarm
