-- ===== src/Store/Tests.antt =====
-- frontend/src/state/simulation-store.ts: runs of the store.
use federated_iot_platform.Prelude.{
  ℕ, true, false, none, some, [], ◌∷◌, ◌≡◌, refl, map, String, List, ◌⊎◌, inl, inr,
}
use federated_iot_platform.Prelude.Int.{pos}
use federated_iot_platform.Js.{
  Value, null, str, nat, obj, end, field, get, lookup, strict_eq, number,
}
use federated_iot_platform.Store.{
  Store, Stream, Refresh, at_detail, new_store, initial_state, select_run, begin_refresh,
  cleared_for_run, emit, close_run_subscription, connect,
}
use federated_iot_platform.Store.Loaded.{
  aborted, is_current, apply_refresh, Parts, fulfilled, rejected,
}
use federated_iot_platform.Store.Steps.{
  failed_answer, detail_answer, parts_answer, on_event, Event, selects, answers, closes, step, run,
  answer, answer_detail,
}
use federated_iot_platform.Poller.{remove_at}
use federated_iot_platform.Store.Invariant.{IsCoherent, AllFit, run-new_store-IsCoherent}
use federated_iot_platform.Store.Order.{rank, on_event_again, select_twice_leaks}

-- Two runs, each with its summary, and an answer to the first that comes late.
abbrev of_run : String → Value
of_run id = obj (field "run_id" (str id) end)

abbrev IsOfRun : String → Value → Type 0
IsOfRun id v = (v ≡ null) ⊎ (get "run_id" v ≡ str id)

abbrev parts_of : String → Parts
parts_of id = record {
  summary = fulfilled (of_run id);
  results = fulfilled (of_run id);
  alarms = rejected (str "RESULT_NOT_READY");
  artifacts = fulfilled (of_run id);
}

abbrev completed : Value
completed = obj (field "status" (str "COMPLETED") end)

abbrev two_selections : List Event
two_selections =
    selects "run_1"
    ∷ answers 0 (detail_answer completed)
    ∷ selects "run_2"
    ∷ answers 0 (detail_answer completed)
    ∷ answers 1 (parts_answer (parts_of "run_1"))
    ∷ answers 0 (parts_answer (parts_of "run_2"))
    ∷ []

two_selections-AllFit :
    AllFit (λ id n. IsOfRun id) IsOfRun (λ id n. inl refl) (λ id. inl refl) two_selections new_store
unfolding step new_store select_run cleared_for_run emit close_run_subscription begin_refresh answer
    answer_detail strict_eq get lookup remove_at initial_state connect apply_refresh is_current
two_selections-AllFit = (
  tt,
  (
    tt,
    (
      tt,
      (
        tt,
        ((inr refl, inr refl, inl refl, inr refl), ((inr refl, inr refl, inl refl, inr refl), tt)),
      ),
    ),
  ),
)

run-new_store-IsCoherent_example :
    IsCoherent
      (λ id n. IsOfRun id)
      IsOfRun
      (λ id n. inl refl)
      (λ id. inl refl)
      (run two_selections new_store).state
run-new_store-IsCoherent_example =
    run-new_store-IsCoherent (λ id n. IsOfRun id) IsOfRun (λ id n. inl refl) (λ id. inl refl)
      two_selections two_selections-AllFit

-- The fifth event of a run.
abbrev fifth : Value
fifth = obj (field "id" (nat 5) (field "type" (str "log") end))

abbrev selected : Store
selected = select_run "run_1" new_store

fifth-rank : rank (get "id" fifth) ≡ some (pos 5)
unfolding rank get lookup number
fifth-rank = refl

fifth_type : strict_eq (get "type" fifth) (str "stream.reset") ≡ false
unfolding strict_eq get lookup
fifth_type = refl

on_event_again_example :
    on_event "run_1" fifth (on_event "run_1" fifth selected) ≡ on_event "run_1" fifth selected
on_event_again_example = on_event_again "run_1" fifth selected (pos 5) fifth-rank fifth_type

-- The refresh that the first of two selections began.
abbrev first_refresh : Refresh
first_refresh = record { run_id = "run_1"; agent = 1; stage = at_detail; connects = true }

abbrev reselected : Store
reselected = select_run "run_2" selected

first_is_past : is_current first_refresh reselected.state ≡ false
unfolding is_current select_run new_store initial_state begin_refresh cleared_for_run emit
    close_run_subscription
first_is_past = refl

ranked : (n : ℕ) → rank (nat n) ≡ some (pos n)
unfolding rank number
ranked n = refl

select_twice_leaks_example :
    let s =
      run
        (selects "run_1"
          ∷ selects "run_2"
          ∷ answers 1 (failed_answer aborted)
          ∷ answers 0 (failed_answer aborted)
          ∷ closes
          ∷ [])
        new_store in
    (map (λ (t : Stream). t.run_id) s.streams ≡ "run_2" ∷ []) × (s.subscription ≡ none)
select_twice_leaks_example = select_twice_leaks "run_1" "run_2" aborted refl refl
