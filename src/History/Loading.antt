-- ===== src/History/Loading.antt =====
-- frontend/src/ui.ts: `loadHistory` and `updateHistoryFilters`. A load is split at its requests; an
-- answer finds the history as it is then.
use federated_iot_platform.Prelude.{
  ℕ, suc, Bool, true, false, not, ◌&&◌, ◌||◌, Option, none, some, List, [], ◌∷◌, ◌++◌, String, ◌==◌,
  ◌===◌, if◌then◌else◌, filter, any,
}
use federated_iot_platform.Js.{Value, null, num, int, obj, Fields, end, get, text, truthy}
use federated_iot_platform.Js.Objects.{spread, insert}
use federated_iot_platform.Queue.{page_items, page_meta}
use federated_iot_platform.History.{History, is_terminal_run, same_run, aggregate_fused_rmse}

-- A load that awaits its answer: what it captured when it began.
pub record Load : Type 0 where
  pub epoch : ℕ
  pub appends : Bool
  pub prior : List Value
  pub prior_metrics : Value

abbrev pub prior_items : Bool → List Value → List Value
prior_items appends runs = if appends then runs else []

-- Up to the request; `none` where it returns at once.
unfoldable pub begin_load : Bool → Bool → History → Option (History × Load)
begin_load has_list appends h =
    if h.loading || not has_list || (appends && (not h.has_more || not (truthy h.next_cursor)))
    then none
    else some (
      record h {
        items = prior_items appends h.items;
        list_epoch = suc h.list_epoch;
        loading = true;
        error = null;
        next_cursor = if appends then h.next_cursor else null;
        has_more = if appends then h.has_more else false;
        total = if appends then h.total else null;
      },
      record {
        epoch = suc h.list_epoch;
        appends = appends;
        prior = prior_items appends h.items;
        prior_metrics = h.aggregate_metrics;
      },
    )

-- The runs of a page that are not listed yet.
unfoldable pub new_items : List Value → List Value → List Value
new_items prior page = filter (λ next. not (any (λ previous. same_run previous next) prior)) page

unfoldable pub loaded_items : Load → Value → List Value
loaded_items l response =
    let page = filter is_terminal_run (page_items response) in
    if l.appends then l.prior ++ new_items l.prior page else page

-- `loadHistoryAggregateMetrics`, over the summaries that were found for the runs of the page.
unfoldable pub metric_fields : List Value → List (Option Value) → Fields
metric_fields [] summaries = end
metric_fields (run ∷ runs) [] = end
metric_fields (run ∷ runs) (none ∷ summaries) = metric_fields runs summaries
metric_fields (run ∷ runs) (some summary ∷ summaries) = elim (aggregate_fused_rmse summary) [
  | none ↦ metric_fields runs summaries
  | some n ↦ insert (text (get "run_id" run)) (num (int n)) (metric_fields runs summaries)
]

-- The `try` block after the request. The epoch is tested once; the state is read again after the
-- summaries, so a history that is newer by then is `late`, and takes the answer nonetheless.
unfoldable pub finish_load : Load → Value → List (Option Value) → History → History
finish_load l response summaries late =
    let page = filter is_terminal_run (page_items response) in
    record late {
      items = loaded_items l response;
      aggregate_metrics =
          spread (if l.appends then l.prior_metrics else obj end)
            (obj (metric_fields page summaries));
      loading = false;
      error = null;
      next_cursor = (page_meta response).next_cursor;
      has_more = (page_meta response).has_more;
      total = (page_meta response).total;
    }

-- The answer to the request, where the summaries come before anything else happens.
unfoldable pub answer_load : Load → Value → List (Option Value) → History → History
answer_load l response summaries h =
    let finished = finish_load l response summaries h in
    if not (h.list_epoch == l.epoch) then h else finished

unfoldable pub fail_load : Load → Value → History → History
fail_load l error h =
    if h.list_epoch == l.epoch then record h { loading = false; error = error } else h

-- `updateHistoryFilters` with all three filters given, before the load that it starts.
unfoldable pub update_filters : String → String → String → History → History
update_filters query status mode h =
    if h.query === query && h.status === status && h.mode === mode then h else record h {
      query = query;
      status = status;
      mode = mode;
      items = [];
      next_cursor = null;
      has_more = false;
      total = null;
      loading = false;
      error = null;
      list_epoch = suc h.list_epoch;
    }
