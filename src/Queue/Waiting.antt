-- ===== src/Queue/Waiting.antt =====
-- frontend/src/ui.ts: what the queue page shows of the queue: the active run, the waiting runs in their
-- order, and the notes of events.
use federated_iot_platform.Prelude.{
  ℕ, Bool, true, false, ◌&&◌, Option, none, some, List, [], ◌∷◌, ◌++◌, String, ◌==◌, ◌===◌,
  if◌then◌else◌, filter, take_last,
}
use federated_iot_platform.Prelude.Int.{ℤ, ltb_ℤ}
use federated_iot_platform.Js.{
  Value, null, nat, Num, int, get, is_nullish, number, finite?, text, truthy, upper, ◌or◌, items,
  strict_eq,
}
use federated_iot_platform.Queue.{Queue, queue_waiting_count, queue_active_run, run_is_cancellable}
use federated_iot_platform.Js.Objects.{spread}

-- `Number.MAX_SAFE_INTEGER`, the place of a run that has none.
abbrev pub last_place : ℕ
last_place = 9007199254740991

abbrev pub place : Value → Num
place run = number (get "queue_position" run or nat last_place)

-- `left - right > 0`; a difference that is no number counts as none.
abbrev pub stands_after : Num → Num → Bool
stands_after (int m) (int n) = ltb_ℤ n m
stands_after _ _ = false

unfoldable pub insert_waiting : Value → List Value → List Value
insert_waiting run [] = run ∷ []
insert_waiting run (other ∷ runs) =
    let rest = insert_waiting run runs in
    if stands_after (place run) (place other) then other ∷ rest else run ∷ other ∷ runs

unfoldable pub sort_waiting : List Value → List Value
unfolding insert_waiting
sort_waiting [] = []
sort_waiting (run ∷ runs) = insert_waiting run (sort_waiting runs)

-- `String(item.status).toUpperCase() === "QUEUED"`.
abbrev pub is_queued : Value → Bool
is_queued run = upper (text (get "status" run)) === "QUEUED"

unfoldable pub waiting_runs : List Value → List Value
unfolding sort_waiting
waiting_runs runs = sort_waiting (filter is_queued runs)

abbrev pub is_nil : List Value → Bool
is_nil [] = true
is_nil (v ∷ vs) = false

abbrev pub is_none : Option Value → Bool
is_none none = true
is_none (some v) = false

-- What `queueView` draws: the slot of the active run, the waiting runs, their number, and whether the
-- queue is shown as empty.
pub record QueueView : Type 0 where
  pub active : Option Value
  pub waiting : List Value
  pub waiting_count : ℕ
  pub is_empty : Bool

unfoldable pub queue_view : Queue → Value → Value → QueueView
unfolding waiting_runs
queue_view q detail task_run_id =
    let active = queue_active_run q.items detail task_run_id in
    record {
      active = active;
      waiting = waiting_runs q.items;
      waiting_count = queue_waiting_count q;
      is_empty = is_none active && is_nil (waiting_runs q.items) && queue_waiting_count q == 0;
    }

-- What `patchQueueDynamicState` draws anew: there a queue with a waiting count but no run is empty.
unfoldable pub patched_view : Queue → Value → Value → QueueView
unfolding waiting_runs
patched_view q detail task_run_id =
    let active = queue_active_run q.items detail task_run_id in
    record {
      active = active;
      waiting = waiting_runs q.items;
      waiting_count = queue_waiting_count q;
      is_empty = is_none active && is_nil (waiting_runs q.items);
    }

-- `queueActiveTask`: the detail counts for the active run alone.
abbrev pub detail_for : Value → Value → Value
detail_for detail active =
    if strict_eq (get "run_id" detail) (get "run_id" active) then detail else null

unfoldable pub active_can_cancel : Value → Value → Bool
active_can_cancel active detail = run_is_cancellable (spread active (detail_for detail active))

unfoldable pub active_event_id : Value → Value → Value
active_event_id active detail =
    get "latest_event_id" (detail_for detail active) or (get "latest_event_id" active or null)

-- `eventStateText`: the parts of the text, each a key with its variables, or a status.
pub data Note : Type 0 where
  status_note : String → Note
  stage_note : String → Note
  position_note : ℤ → Note
  waiting_note : ℤ → Note

abbrev pub note_if : Bool → Note → List Note
note_if true n = n ∷ []
note_if false n = []

abbrev pub number_note : (ℤ → Note) → Value → List Note
number_note note v =
    if is_nullish v then [] else elim (finite? (number v)) [ none ↦ [] | some n ↦ note n ∷ [] ]

unfoldable pub event_notes : Value → List Note
event_notes event =
    let content = get "data" event in
    note_if (truthy (get "status" content)) (status_note (text (get "status" content)))
    ++ (note_if (truthy (get "current_stage" content))
          (stage_note (text (get "current_stage" content)))
        ++ (number_note position_note (get "queue_position" content)
            ++ number_note waiting_note (get "queued_count" content)))

-- The events that `taskEventRows` lists: the last twelve, the newest first.
abbrev pub reversed_onto : List Value → List Value → List Value
reversed_onto [] acc = acc
reversed_onto (v ∷ vs) acc = reversed_onto vs (v ∷ acc)

unfoldable pub recent_events : Value → List Value
recent_events events = reversed_onto (take_last 12 (items events)) []
