-- ===== src/Dataset.antt =====
-- frontend/src/ui.ts: the dataset of the page. `loadDataset` and `uploadFile` are split at their
-- requests, and the handlers that `startApplication` gives to the dataset poller run on each of the
-- poller's notices. Renderings are left out.
mod Tests
pub mod Details
pub mod Preflight
pub mod Watched
pub mod Alone
use federated_iot_platform.Prelude.{
  ℕ, suc, ◌+◌, Bool, true, false, not, ◌&&◌, Option, none, some, List, [], ◌∷◌, String, ◌==◌,
  if◌then◌else◌,
}
use federated_iot_platform.Js.{Value, null, nat, get, strict_eq, str}
use federated_iot_platform.Poller
use federated_iot_platform.Poller.{Notice, on_dataset, on_error, World, start, stop, watch}

pub record Upload : Type 0 where
  pub percent : Value
  pub error : Value
  pub file_name : Option String

pub record Shown : Type 0 where
  pub dataset : Value
  pub epoch : ℕ
  pub upload : Upload
  pub poller : World

abbrev pub nothing_shown : Shown
nothing_shown = record {
  dataset = null;
  epoch = 0;
  upload = record { percent = null; error = null; file_name = none };
  poller = start;
}

-- `loadDataset` up to its request, which carries the new epoch.
unfoldable pub begin_open : Shown → Shown
begin_open s = record s { epoch = suc s.epoch; poller = stop s.poller }

-- `uploadFile` up to its request.
unfoldable pub begin_upload : String → Shown → Shown
begin_upload name s = record s {
  epoch = suc s.epoch;
  poller = stop s.poller;
  dataset = null;
  upload = record { percent = nat 0; error = null; file_name = some name };
}

unfoldable pub progress : ℕ → ℕ → Shown → Shown
progress epoch percent s =
    if epoch == s.epoch then record s { upload = record s.upload { percent = nat percent } } else s

-- The answer to either request, and its error.
unfoldable pub answer : ℕ → Value → Shown → Shown
answer epoch dataset s =
    if epoch == s.epoch
    then record s {
      dataset = dataset;
      upload = record s.upload { percent = null; error = null };
      poller = watch dataset s.poller;
    }
    else s

unfoldable pub fail : ℕ → Value → Shown → Shown
fail epoch error s =
    if epoch == s.epoch
    then record s { upload = record s.upload { percent = null; error = error } }
    else s

-- `onDataset` and `onError`.
unfoldable pub on_notice : Notice → Shown → Shown
on_notice (on_dataset dataset) s =
    if strict_eq (get "dataset_id" s.dataset) (get "dataset_id" dataset)
    then record s { dataset = dataset; upload = record s.upload { percent = null; error = null } }
    else s
on_notice (on_error id error) s =
    if strict_eq (get "dataset_id" s.dataset) (str id)
    then record s { upload = record s.upload { percent = null; error = error } }
    else s

unfoldable pub on_notices : List Notice → Shown → Shown
on_notices [] s = s
on_notices (n ∷ ns) s = on_notice n (on_notices ns s)

-- One event of the poller, and the handlers on what it tells.
unfoldable pub poll : Poller.Event → Shown → Shown
poll e s =
    let after = Poller.step e (record s.poller { notices = [] }) in
    on_notices after.notices (record s { poller = after })

pub data Event : Type 0 where
  opens : Event
  uploads : String → Event
  progresses : ℕ → ℕ → Event
  answers : ℕ → Value → Event
  fails : ℕ → Value → Event
  timer_fires : Event
  poll_settles : ℕ → Poller.Outcome → Event

unfoldable pub step : Event → Shown → Shown
step opens s = begin_open s
step (uploads name) s = begin_upload name s
step (progresses epoch percent) s = progress epoch percent s
step (answers epoch dataset) s = answer epoch dataset s
step (fails epoch error) s = fail epoch error s
step timer_fires s = poll Poller.fires s
step (poll_settles i outcome) s = poll (Poller.settles i outcome) s

unfoldable pub run : List Event → Shown → Shown
run [] s = s
run (e ∷ es) s = run es (step e s)
