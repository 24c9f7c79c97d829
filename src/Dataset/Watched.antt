-- ===== src/Dataset/Watched.antt =====
-- frontend/src/ui.ts: what the poller watches beside the dataset that is shown.
use federated_iot_platform.Prelude.{
  some, List, [], ◌∷◌, String, ◌==◌, ◌≡◌, refl, arith, Bool-cases, inl, inr, ap, ◌∙◌, sym,
}
use federated_iot_platform.Js.{str, get, strict_eq}
use federated_iot_platform.Js.Equality.{str-strict_eq}
use federated_iot_platform.Poller
use federated_iot_platform.Poller.{
  Notice, on_dataset, on_error, World, stop, watch, watched_id, begin_poll, launch, resume, fire,
  Request, Outcome, loaded, aborted, failed, needs_polling, remove_at,
}
use federated_iot_platform.Poller.Watched.{fire-watched, settle-watched, watch-watched}
use federated_iot_platform.Dataset.{
  Shown, nothing_shown, begin_open, begin_upload, progress, answer, fail, on_notice, on_notices,
  poll, Event, opens, uploads, progresses, answers, fails, timer_fires, poll_settles, step, run,
}

-- The poller watches nothing, or the dataset that is shown.
pub WatchesShown : Shown → Type 0
WatchesShown s =
    (id : String) → s.poller.poller.dataset_id ≡ some id → get "dataset_id" s.dataset ≡ str id

on_notice-poller : (n : Notice) (s : Shown) → (on_notice n s).poller ≡ s.poller
unfolding on_notice
on_notice-poller (on_dataset d) s = ground arith
on_notice-poller (on_error id error) s = ground arith

on_notices-poller : (ns : List Notice) (s : Shown) → (on_notices ns s).poller ≡ s.poller
unfolding on_notices
on_notices-poller [] s = refl
on_notices-poller (n ∷ ns) s = on_notice-poller n (on_notices ns s) ∙ on_notices-poller ns s

on_notice-id :
    (n : Notice) (s : Shown) (id : String)
    → get "dataset_id" s.dataset ≡ str id
    → get "dataset_id" (on_notice n s).dataset ≡ str id
unfolding on_notice
on_notice-id (on_dataset d) s id e =
    elim (Bool-cases (strict_eq (get "dataset_id" s.dataset) (get "dataset_id" d))) [
      | inl q ↦
          rw (on_notice, q)
            (str-strict_eq (get "dataset_id" d) id
              (ap (λ v. strict_eq v (get "dataset_id" d)) (sym e) ∙ q))
      | inr q ↦ rw (on_notice, q) e
    ]
on_notice-id (on_error other error) s id e = ground (arith, e)

on_notices-id :
    (ns : List Notice) (s : Shown) (id : String)
    → get "dataset_id" s.dataset ≡ str id
    → get "dataset_id" (on_notices ns s).dataset ≡ str id
unfolding on_notices
on_notices-id [] s id e = e
on_notices-id (n ∷ ns) s id e = on_notice-id n (on_notices ns s) id (on_notices-id ns s id e)

poll-WatchesShown :
    (e : Poller.Event) (s : Shown)
    → ((id : String)
        → (Poller.step e (record s.poller { notices = [] })).poller.dataset_id ≡ some id
        → s.poller.poller.dataset_id ≡ some id)
    → WatchesShown s
    → WatchesShown (poll e s)
unfolding WatchesShown poll
poll-WatchesShown e s keeps v id h =
    let after = Poller.step e (record s.poller { notices = [] }) in
    on_notices-id after.notices (record s { poller = after }) id
      (v id (
        keeps id (
          ap (λ p. p.poller.dataset_id)
            (sym (on_notices-poller after.notices (record s { poller = after })))
          ∙ h)))

step-WatchesShown : (e : Event) (s : Shown) → WatchesShown s → WatchesShown (step e s)
unfolding step WatchesShown begin_open begin_upload progress answer fail stop Poller.step fire
step-WatchesShown opens s v id h = ground (arith, h, v id)
step-WatchesShown (uploads name) s v id h = ground (arith, h, v id)
step-WatchesShown (progresses epoch percent) s v id h = ground (arith, h, v id)
step-WatchesShown (answers epoch dataset) s v id h = elim (Bool-cases (epoch == s.epoch)) [
  | inl q ↦ ground (arith, q, watch-watched dataset s.poller id (ground (arith, q, h)))
  | inr q ↦ ground (arith, q, h, v id)
]
step-WatchesShown (fails epoch error) s v id h = ground (arith, h, v id)
step-WatchesShown timer_fires s v id h =
    poll-WatchesShown Poller.fires s (λ id'. fire-watched (record s.poller { notices = [] }) id') v
      id h
step-WatchesShown (poll_settles i outcome) s v id h =
    poll-WatchesShown (Poller.settles i outcome) s
      (λ id'. settle-watched i outcome (record s.poller { notices = [] }) id') v id h

run-WatchesShown : (es : List Event) (s : Shown) → WatchesShown s → WatchesShown (run es s)
unfolding run
run-WatchesShown [] s v = v
run-WatchesShown (e ∷ es) s v = run-WatchesShown es (step e s) (step-WatchesShown e s v)

start-WatchesShown : WatchesShown nothing_shown
unfolding WatchesShown
start-WatchesShown id h = ground (arith, h)

-- Whatever was opened and uploaded, and in whatever order answers and polls end, a dataset that the
-- poller watches is the one that the page shows.
pub run-nothing_shown-WatchesShown : (es : List Event) → WatchesShown (run es nothing_shown)
run-nothing_shown-WatchesShown es = run-WatchesShown es nothing_shown start-WatchesShown
