-- ===== src/Api/Tests.antt =====
-- frontend/src/api/live-api.ts: a stream of one event that is cut inside a line end, the requests of
-- one list, and a path with a slash in an identifier.
use mathlib.Core.List.{[], ◌∷◌}
use federated_iot_platform.Prelude.{
  Bool, true, false, Option, some, none, List, String, ◌+◌, ◌≡◌, refl, filter,
}
use federated_iot_platform.Js.{
  Value, null, nat, str, bool, obj, arr, Fields, end, field, get, lookup, truthy, ◌or◌, items_of,
}
use federated_iot_platform.Api.{
  feed, feed_all, first_frame, after_blank_line, after_line_end, joined, split_frames, text_length,
}
use federated_iot_platform.Api.Chunks.{whole}
use federated_iot_platform.Api.Session.{
  Notice, opened, disconnected, accepted, chunk, ended, close, new_session, run_session,
}
use federated_iot_platform.Api.Session.Shape.{IsProtocol, run_session-IsProtocol}
use federated_iot_platform.Api.Session.Whole.{chunks_then_end, whole_notices, run_session-whole}
use federated_iot_platform.Api.Paths.{encode_component, utf8, percent_before}
use federated_iot_platform.Api.Requests.{Response, responded, ok, payload, list_simulations}
use federated_iot_platform.Api.Requests.Answers.{IsListing, answer_load-list_simulations}
use federated_iot_platform.Api.Requests.{get_summary, call_of}
use federated_iot_platform.Api.Requests.Addressed.{slashes, call_of-written}
use federated_iot_platform.History.{empty_history, is_terminal_run}
use federated_iot_platform.History.Loading.{Load, answer_load}

abbrev chunks : List String
chunks = "id: 7\nevent: log\n" ∷ "data: x\n" ∷ "\n" ∷ []

abbrev parse : String → Option Value
parse s = some (str s)

abbrev stays : Notice → Bool
stays n = false

abbrev calm : Notice → Option Value
calm n = none

-- A handler of the end that throws unless it is given an error.
abbrev strict : Notice → Option Value
strict (disconnected none) = some (str "unexpected end")
strict n = none

ended_twice :
    (run_session parse null null stays strict new_session (accepted ∷ ended ∷ [])).1
    ≡ opened ∷ disconnected none ∷ disconnected (some (str "unexpected end")) ∷ []
unfolding run_session
ended_twice = refl

run_session-whole_example :
    (run_session parse null null stays calm new_session
      (accepted ∷ chunks_then_end parse null null stays calm chunks)).1
    ≡ whole_notices parse null null stays calm null (whole chunks)
run_session-whole_example =
    run_session-whole parse null null stays calm (λ n. refl) (λ n. refl) chunks

run_session-IsProtocol_example :
    IsProtocol calm
      (run_session parse null null stays calm new_session
        (accepted ∷ chunk "event: a\ndata: 1\n\n" ∷ close ∷ ended ∷ [])).1
run_session-IsProtocol_example =
    run_session-IsProtocol parse null null stays calm
      (accepted ∷ chunk "event: a\ndata: 1\n\n" ∷ close ∷ ended ∷ [])

abbrev run_of : String → String → Value
run_of id status = obj (field "run_id" (str id) (field "status" (str status) end))

abbrev runs : List Value
runs = run_of "run_1" "RUNNING" ∷ run_of "run_2" "COMPLETED" ∷ []

abbrev meta : Fields
meta = field "next_cursor" (str "c2") (field "has_more" (bool true) end)

abbrev answer : Response
answer = record {
  is_ok = true;
  status = 200;
  json = some (obj (field "data" (arr (items_of runs)) (field "meta" (obj meta) end)));
  request_id_header = null;
}

abbrev first_load : Load
first_load = record { epoch = 0; appends = false; prior = []; prior_metrics = null }

answer-IsListing : IsListing answer runs meta
unfolding payload get lookup
answer-IsListing = record { is_ok = refl; runs_are = refl; meta_is = refl }

answer_load-list_simulations_example :
    (page : Value) × (list_simulations (responded answer) ≡ ok page)
    × ((answer_load first_load page [] empty_history).items ≡ filter is_terminal_run runs)
    × ((answer_load first_load page [] empty_history).next_cursor
        ≡ (get "next_cursor" (obj meta) or null))
    × ((answer_load first_load page [] empty_history).has_more
        ≡ truthy (get "has_more" (obj meta) or bool false))
    × ((answer_load first_load page [] empty_history).total ≡ (get "total" (obj meta) or null))
answer_load-list_simulations_example =
    answer_load-list_simulations answer runs meta first_load [] empty_history answer-IsListing refl
      refl

one_frame :
    feed_all "" ("id: 7\r\nevent: log\r" ∷ "\n\r\nid: 8" ∷ [])
    ≡ ("id: 7\r\nevent: log" ∷ [], "id: 8")
unfolding feed_all feed split_frames text_length joined first_frame after_blank_line after_line_end
one_frame = refl

slash_encoded : encode_component "a/ü" ≡ "a%2F%C3%BC"
unfolding encode_component utf8 percent_before
slash_encoded = refl

call_of-written_example :
    slashes (call_of "/api/v1" (get_summary "../run_2" (str "2/3"))).url ≡ slashes "/api/v1" + 3
call_of-written_example = call_of-written "/api/v1" (get_summary "../run_2" (str "2/3"))

abbrev list_query : Fields
list_query = field "status" (str "") (field "limit" (nat 20) (field "cursor" null end))
