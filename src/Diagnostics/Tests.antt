-- ===== src/Diagnostics/Tests.antt =====
-- frontend/src/ui.ts: a selected point among two points that come in the wrong order.
use Prim.Native.String.{◌∷◌}
use federated_iot_platform.Prelude.{length, filter}
use federated_iot_platform.Prelude.{All}
use federated_iot_platform.Js.{lookup, str}
use federated_iot_platform.Diagnostics.Loads.{load_distribution, authority}
use federated_iot_platform.Diagnostics.Loads.Counted.{
  IsCounted, has_state, load_distribution-IsCounted,
}
use federated_iot_platform.Diagnostics.Alarms.{alarm_texts}
use federated_iot_platform.Diagnostics.Alarms.Withheld.{HidesPaths, alarm_texts-HidesPaths}
use federated_iot_platform.Prelude.{some, List, [], ◌∷◌, ◌≡◌, refl}
use federated_iot_platform.Js.{
  Value, null, nat, obj, arr, cons, nil, end, field, get, number, strict_eq, items, integer_text,
}
use federated_iot_platform.Diagnostics.{
  point_asked, diagnostic_selection, point_locator, point_sequence, insert_point, resource_items,
}

abbrev point_of : Value → Value
point_of n = obj (field "OriginalRunningIndex" n end)

abbrev points : List Value
points = point_of (nat 7) ∷ point_of (nat 3) ∷ []

abbrev summary : Value
summary = obj (
    field "chart"
      (obj (field "points" (arr (cons (point_of (nat 7)) (cons (point_of (nat 3)) nil))) end)) end)

second_found :
    (diagnostic_selection summary null null (point_asked 1)).point ≡ some (point_of (nat 3))
unfolding diagnostic_selection point_locator get items strict_eq point_sequence resource_items
    insert_point number integer_text
second_found = refl

abbrev states : Value
states = obj (
    field "chart"
      (obj (
        field "points"
          (arr (cons (obj (field "LoadStatus" (str "Heavy load") end)) (cons (obj end) nil))) end))
      end)

load_distribution-IsCounted_example :
    IsCounted
      (length (filter has_state (items (get "points" (get "chart" states)))))
      (load_distribution states)
unfolding authority get lookup
load_distribution-IsCounted_example = load_distribution-IsCounted states refl

abbrev alarm : Value
alarm = obj (
    field "Time" (str "C:\\x")
      (field "agent" (nat 2) (field "reasons" (arr (cons (str "at /srv") nil)) end)))

alarm_texts-HidesPaths_example : All (HidesPaths "see " "x" "C" " ") (alarm_texts alarm)
alarm_texts-HidesPaths_example = alarm_texts-HidesPaths alarm "see " "x" "C" " " refl refl
