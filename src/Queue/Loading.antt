-- ===== src/Queue/Loading.antt =====
-- frontend/src/ui.ts: `loadQueue` and `cancelQueuedSimulation`, which change the queue before and
-- after each answer of the API. Notifications and renderings are left out.
use federated_iot_platform.Prelude.{
  ℕ, Bool, true, false, not, ◌&&◌, ◌||◌, Option, none, some, List, [], ◌∷◌, ◌++◌, String, ◌===◌,
  if◌then◌else◌, filter, find?, take, map,
}
use federated_iot_platform.Js.{
  Value, null, nat, str, obj, end, get, truthy, strict_eq, includes, is_record, is_array,
}
use federated_iot_platform.Js.Objects.{spread, with_field}
use federated_iot_platform.Queue.{
  Queue, status_of, has_run_id, strict_cancellable, run_is_cancellable, cancel_is_pending,
  page_items, page_meta, reconcile_items, waiting_items,
}

-- `loadQueue` up to its request; `none` where it returns at once.
unfoldable pub begin_load : Bool → Queue → Option Queue
begin_load has_list q =
    if q.loading || not has_list then none else some (record q { loading = true; error = null })

abbrev pub page_limit : ℕ
page_limit = 11

-- The `try` block, with the details that `reconcileQueueItems` found.
unfoldable pub finish_load : Value → List Value → Queue → Queue
finish_load response details q =
    let runs = reconcile_items (take page_limit (page_items response)) details in
    record q {
      items = runs;
      waiting_count = nat (waiting_items runs);
      loading = false;
      error = null;
      next_cursor = (page_meta response).next_cursor;
      has_more = (page_meta response).has_more;
      total = (page_meta response).total;
    }

unfoldable pub fail_load : Value → Queue → Queue
fail_load error q = record q { loading = false; error = error }

-- The run that `loadQueue` selects, if any. `current` is the selected run, null for none.
unfoldable pub next_selection : String → Value → Value → Queue → Option Value
next_selection view current detail q =
    let selected_ends =
      includes ("COMPLETED" ∷ "FAILED" ∷ "FAILED_RECOVERABLE" ∷ "CANCELLED" ∷ [])
        (status_of detail) in
    let may_select = not (view === "history") && not (view === "replay") in
    let wants = not (truthy current) || (view === "queue" && selected_ends) in
    elim (find? (λ run. includes ("RUNNING" ∷ "CANCELLING" ∷ "QUEUED" ∷ []) (status_of run))
      q.items) [
        | none ↦ none
        | some next ↦
            let id = get "run_id" next in
            if may_select && wants && truthy id && not (strict_eq current id) then some id else none
      ]

-- How a call of the API ends.
pub data Result : Type 0 where
  ok : Value → Result
  err : Value → Result

-- What the API answers along one cancellation: the run before it, the cancellation, the run after
-- it, and the reload of the queue with its details (`none` where it is not started).
pub record Answers : Type 0 where
  pub before : Result
  pub cancelled : Result
  pub after : Result
  pub reload : Result
  pub details : List Value

pub record Cancelled : Type 0 where
  pub queue : Queue
  pub success : Bool
  pub called : Bool

unfoldable pub add_pending : String → Queue → Queue
add_pending id q = record q {
  cancelling = if includes q.cancelling id then q.cancelling else q.cancelling ++ id ∷ [];
  error = null;
}

-- The `finally` block.
unfoldable pub end_pending : String → Queue → Queue
end_pending id q = record q { cancelling = filter (λ other. not (other === id)) q.cancelling }

abbrev pub not_cancellable : Value
not_cancellable = str "RUN_NOT_CANCELLABLE"

-- The run that is asked about: the listed item under what the API says of it.
abbrev pub asked_run : String → Value → Value → Value
asked_run id item before =
    spread item (if strict_eq (get "run_id" before) (str id) then before else obj end)

unfoldable pub update_cancelled : String → Value → Queue → Queue
update_cancelled id after q =
    if is_record after || is_array after
    then record q {
      items =
          map
            (λ item.
              if has_run_id id item
              then with_field "cancellable" (strict_cancellable after) (spread item after)
              else item)
            q.items;
    }
    else q

abbrev pub reload_with : Result → List Value → Queue → Queue
reload_with (ok response) details q = finish_load response details q
reload_with (err e) details q = fail_load e q

unfoldable pub reload_queue : Answers → Queue → Queue
reload_queue a q = elim (begin_load true q) [
  | none ↦ q
  | some started ↦ reload_with a.reload a.details started
]

-- After the cancellation was sent.
unfoldable pub finish_cancel : String → Answers → Queue → Cancelled
finish_cancel id a q = elim a.cancelled [
  | err e ↦ record { queue = record q { error = e }; success = false; called = true }
  | ok run ↦ elim a.after [
    | err e ↦ record { queue = record q { error = e }; success = false; called = true }
    | ok after ↦ record {
      queue = reload_queue a (update_cancelled id after q);
      success = true;
      called = true;
    }
  ]
]

unfoldable pub try_cancel : String → Value → Answers → Queue → Cancelled
try_cancel id item a q = elim a.before [
  | err e ↦ record { queue = record q { error = e }; success = false; called = false }
  | ok before ↦
      let finished = finish_cancel id a q in
      if run_is_cancellable (asked_run id item before)
      then finished
      else record { queue = record q { error = not_cancellable }; success = false; called = false }
]

-- `cancelQueuedSimulation` where nothing else changes the queue while it awaits.
unfoldable pub cancel_queued : String → Value → Answers → Queue → Cancelled
cancel_queued id item a q =
    if id === "" || cancel_is_pending id q
    then record { queue = q; success = false; called = false }
    else let tried = try_cancel id item a (add_pending id q) in
      record tried { queue = end_pending id tried.queue }
