-- ===== src/Poller/Tests.antt =====
-- frontend/src/state/dataset-poller.ts: runs of the poller on one queued dataset.
use federated_iot_platform.Prelude.{true, none, some, [], ◌∷◌, ◌≡◌, refl}
use federated_iot_platform.Js.{Value, str, obj, end, field, get, lookup, text, includes, upper}
use federated_iot_platform.Poller.{
  World, Request, loaded, watches, fires, settles, start, run, step, watch, stop, begin_poll,
  launch, watched_id, needs_polling, remove_at,
}
use federated_iot_platform.Poller.Invariant.{Inv, run-start-Inv}
use federated_iot_platform.Poller.Safety.{polling-Continues, stop_silent, Continues}

abbrev queued : Value
queued = obj (field "dataset_id" (str "ds_1") (field "status" (str "VALIDATING") end))

abbrev valid : Value
valid = obj (field "dataset_id" (str "ds_1") (field "status" (str "VALID") end))

abbrev request : Request
request = record { generation = 1; dataset_id = "ds_1"; controller = 0 }

-- The object after `watch(queued)`.
abbrev watching : World
watching = record {
  poller = record {
    timer = none;
    controller = some 0;
    dataset_id = some "ds_1";
    generation = 1;
    request_active = true;
  };
  next_controller = 1;
  pending = request ∷ [];
  notices = [];
}

watch_test : run (watches queued ∷ []) start ≡ watching
unfolding run step watch stop begin_poll launch watched_id needs_polling get lookup text includes
    upper
watch_test = refl

watching-Inv : Inv watching
unfolding run step watch stop begin_poll launch watched_id needs_polling get lookup text includes
    upper
watching-Inv = run-start-Inv (watches queued ∷ [])

run-start-Inv_example : Inv (run (watches queued ∷ settles 0 (loaded queued) ∷ fires ∷ []) start)
run-start-Inv_example = run-start-Inv (watches queued ∷ settles 0 (loaded queued) ∷ fires ∷ [])

-- Watched again, the first request is a past one.
abbrev watching_again : World
watching_again = record watching {
  poller = record {
    timer = none;
    controller = some 1;
    dataset_id = some "ds_2";
    generation = 2;
    request_active = true;
  };
}

queued-Continues : Continues (loaded queued)
unfolding needs_polling get lookup text includes upper
queued-Continues = refl

polling-Continues_example :
    (step fires (step (settles 0 (loaded queued)) watching)).pending
    ≡ record { generation = 1; dataset_id = "ds_1"; controller = 1 } ∷ remove_at 0 watching.pending
polling-Continues_example =
    polling-Continues watching 0 request (loaded queued) watching-Inv refl refl queued-Continues

stop_silent_example :
    ((run (settles 0 (loaded valid) ∷ fires ∷ []) (stop watching)).notices ≡ [])
    × ((run (settles 0 (loaded valid) ∷ fires ∷ []) (stop watching)).poller.dataset_id ≡ none)
stop_silent_example =
    stop_silent watching (settles 0 (loaded valid) ∷ fires ∷ []) watching-Inv (tt, (tt, tt))
