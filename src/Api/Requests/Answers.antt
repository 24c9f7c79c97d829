-- ===== src/Api/Requests/Answers.antt =====
-- frontend/src/api/live-api.ts: what becomes of an answer, and what the history page makes of a list
-- of simulations.
use federated_iot_platform.Prelude.{true, false, Option, List, ◌==◌, ◌≡◌, refl, arith, ap, filter}
use federated_iot_platform.Js.{
  Value, undefined, null, bool, nat, str, obj, arr, Fields, end, get, text, truthy, ◌or◌, items,
  items_of, lookup,
}
use federated_iot_platform.Js.Objects.{with_field, get_with, list_of-items_of}
use federated_iot_platform.Contract.{ApiError, api_error, new_api_error}
use federated_iot_platform.Queue.{page_items, page_meta}
use federated_iot_platform.History.{History, is_terminal_run}
use federated_iot_platform.History.Loading.{Load, answer_load, finish_load, loaded_items}
use federated_iot_platform.Api.Requests.{
  ok, failed, Response, responded, Envelope, payload, response_request_id, response_error,
  response_envelope, request_envelope, request, simulation_page, list_simulations,
}

-- What the answer says of its error.
abbrev pub error_item : Response → Value
error_item r = get "error" (payload r) or obj end

or_again : (v w : Value) → ((v or (v or w)) or null) ≡ ((v or w) or null)
or_again undefined w = refl
or_again null w = refl
or_again v w = refl

or_null_twice : (v : Value) → ((v or null) or (v or null)) ≡ (v or null)
or_null_twice undefined = refl
or_null_twice null = refl
or_null_twice v = refl

or_false_twice : (v : Value) → ((v or bool false) or (v or bool false)) ≡ (v or bool false)
or_false_twice undefined = refl
or_false_twice null = refl
or_false_twice v = refl

-- A response that is not ok ends its request in an `ApiError` with the response's status, the run of
-- the answer, and the code, field and recoverability of its error, `INTERNAL_ERROR` without a code.
pub request-not_ok :
    (r : Response)
    → r.is_ok ≡ false
    → (e : ApiError) × (request (responded r) ≡ failed (api_error e))
      × (e.code ≡ text (get "code" (error_item r) or str "INTERNAL_ERROR"))
      × (e.status ≡ nat r.status)
      × (e.run_id ≡ (get "run_id" (payload r) or null))
      × (e.field_name ≡ (get "field" (error_item r) or null))
      × (e.recoverable ≡ truthy (get "recoverable" (error_item r)))
      × (e.request_id ≡ (response_request_id r or null))
unfolding request request_envelope response_error new_api_error response_request_id
request-not_ok r h =
    let item = error_item r in
    let run = get "run_id" (payload r) in
    let inner = with_field "runId" run item in
    let options = with_field "status" (nat r.status) inner in
    (
      new_api_error (text (get "code" item or str "INTERNAL_ERROR"))
          (get "request_id" (payload r) or response_request_id r) options,
      rw h refl,
      refl,
      rw (get_with "status" "status" (nat r.status) inner) refl,
      rw (get_with "status" "runId" (nat r.status) inner, get_with "runId" "runId" run item) refl,
      rw (get_with "status" "field" (nat r.status) inner, get_with "runId" "field" run item) refl,
      rw
          (
            get_with "status" "recoverable" (nat r.status) inner,
            get_with "runId" "recoverable" run item,
          )
          refl,
      or_again (get "request_id" (payload r)) _,
    )

-- The page that an array of runs with its meta becomes.
abbrev listing : List Value → Fields → Envelope
listing runs meta = record { content = arr (items_of runs); meta = obj meta }

page_items-listing :
    (runs : List Value) (meta : Fields) → page_items (simulation_page (listing runs meta)) ≡ runs
unfolding simulation_page
page_items-listing runs meta = simp get_with (unfold get lookup items in list_of-items_of runs)

-- What the page says of its continuation.
page_meta-listing :
    (runs : List Value) (meta : Fields)
    → let m = page_meta (simulation_page (listing runs meta)) in
      (m.next_cursor ≡ (get "next_cursor" (obj meta) or null))
      × (m.has_more ≡ truthy (get "has_more" (obj meta) or bool false))
      × (m.total ≡ (get "total" (obj meta) or null))
unfolding simulation_page
page_meta-listing runs meta = (
  simp get_with (unfold get lookup in or_null_twice (get "next_cursor" (obj meta))),
  simp get_with (unfold get lookup in ap truthy (or_false_twice (get "has_more" (obj meta)))),
  simp get_with (unfold get lookup in or_null_twice (get "total" (obj meta))),
)

-- A response whose payload is an envelope of runs and of the meta that says how the list goes on.
pub record IsListing (r : Response) (runs : List Value) (meta : Fields) : Type 0 where
  pub is_ok : r.is_ok ≡ true
  pub runs_are : get "data" (payload r) ≡ arr (items_of runs)
  pub meta_is : get "meta" (payload r) ≡ obj meta

list_simulations-IsListing :
    (r : Response) (runs : List Value) (meta : Fields)
    → IsListing r runs meta
    → list_simulations (responded r) ≡ ok (simulation_page (listing runs meta))
unfolding list_simulations request_envelope response_envelope
list_simulations-IsListing r runs meta h = rw (h.is_ok, h.runs_are, h.meta_is) refl

-- The first page that the history asks for: from the answer of the API to what is shown. The list is
-- the answer's runs that have ended, and the meta of the answer says how it goes on.
pub answer_load-list_simulations :
    (r : Response) (runs : List Value) (meta : Fields) (l : Load) (summaries : List (Option Value))
    (h : History)
    → IsListing r runs meta
    → l.appends ≡ false
    → h.list_epoch ≡ l.epoch
    → (page : Value) × (list_simulations (responded r) ≡ ok page)
      × ((answer_load l page summaries h).items ≡ filter is_terminal_run runs)
      × ((answer_load l page summaries h).next_cursor ≡ (get "next_cursor" (obj meta) or null))
      × ((answer_load l page summaries h).has_more
          ≡ truthy (get "has_more" (obj meta) or bool false))
      × ((answer_load l page summaries h).total ≡ (get "total" (obj meta) or null))
unfolding answer_load finish_load loaded_items
answer_load-list_simulations r runs meta l summaries h listed first same =
    let (cursor, more, total) = page_meta-listing runs meta in
    let current : (h.list_epoch == l.epoch) ≡ true = ground arith in
    (
      simulation_page (listing runs meta),
      list_simulations-IsListing r runs meta listed,
      rw (current, first) (ap (filter is_terminal_run) (page_items-listing runs meta)),
      rw current cursor,
      rw current more,
      rw current total,
    )
