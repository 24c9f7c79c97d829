-- ===== src/Mock/Tests.antt =====
-- frontend/src/testing/mock-api.ts and frontend/src/ui.ts: three runs in pages of two.
use federated_iot_platform.Prelude.{
  false, Option, List, [], ◌∷◌, String, ◌≡◌, refl, arith, filter, length,
}
use federated_iot_platform.Js.{Value, str, obj, end, field, get, lookup, strict_eq}
use federated_iot_platform.History.{empty_history, is_terminal_run}
use federated_iot_platform.Mock.Rounds.{round, rounds}
use federated_iot_platform.Mock.Whole.{rounds-round}

abbrev run_of : String → String → Value
run_of id status = obj (field "run_id" (str id) (field "status" (str status) end))

abbrev three_runs : List Value
three_runs = run_of "run_3" "COMPLETED" ∷ run_of "run_2" "FAILED" ∷ run_of "run_1" "COMPLETED" ∷ []

abbrev no_summaries : Value → List (Option Value)
no_summaries page = []

rounds-round_example :
    let done =
      rounds no_summaries 2 three_runs
        (length three_runs)
        (round no_summaries 2 three_runs false empty_history) in
    (done.items ≡ filter is_terminal_run three_runs)
    × (done.has_more ≡ false)
    × (done.loading ≡ false)
unfolding get lookup strict_eq
rounds-round_example = rounds-round no_summaries 2 three_runs empty_history refl (omega arith) refl
