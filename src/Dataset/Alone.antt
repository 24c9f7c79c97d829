-- ===== src/Dataset/Alone.antt =====
-- frontend/src/ui.ts: what happens between an upload and its own answer.
use federated_iot_platform.Prelude.{
  ℕ, suc, false, none, List, [], ◌∷◌, String, ◌==◌, ◌≡◌, refl, All, ap, ◌∙◌, Bool-cases, inl, inr,
}
use federated_iot_platform.Js.{null}
use federated_iot_platform.Poller
use federated_iot_platform.Poller.{World, stop}
use federated_iot_platform.Poller.Invariant.{Inv, stop-Inv, step-Inv}
use federated_iot_platform.Poller.Safety.{IsQuiet, IsNoWatch, step-IsQuiet}
use federated_iot_platform.Dataset.{
  Shown, begin_upload, progress, answer, fail, on_notices, poll, Event, opens, uploads, progresses,
  answers, fails, timer_fires, poll_settles, step, run,
}

-- An event that is neither a new request nor of the request of an epoch.
abbrev pub IsForeign : ℕ → Event → Type 0
IsForeign epoch opens = ⊥
IsForeign epoch (uploads name) = ⊥
IsForeign epoch (progresses other percent) = Unit
IsForeign epoch (answers other dataset) = (other == epoch) ≡ false
IsForeign epoch (fails other error) = Unit
IsForeign epoch timer_fires = Unit
IsForeign epoch (poll_settles i outcome) = Unit

-- The upload of an epoch waits: no dataset is shown, and none is watched.
record IsWaiting (epoch : ℕ) (s : Shown) : Type 0 where
  current : s.epoch ≡ epoch
  empty : s.dataset ≡ null
  quiet : IsQuiet s.poller

IsQuiet-cleared : (w : World) → IsQuiet w → IsQuiet (record w { notices = [] })
IsQuiet-cleared w q = record {
  inv = record {
    fits = q.inv.fits;
    single = q.inv.single;
    timed = q.inv.timed;
    resting = q.inv.resting;
    aimed = q.inv.aimed;
  };
  unaimed = q.unaimed;
  resting = q.resting;
}

poll-IsWaiting :
    (epoch : ℕ) (e : Poller.Event) (s : Shown)
    → IsNoWatch e
    → IsWaiting epoch s
    → IsWaiting epoch (poll e s)
unfolding poll Poller.step
poll-IsWaiting epoch e s n v =
    let cleared = record s.poller { notices = [] } in
    let q = IsQuiet-cleared s.poller v.quiet in
    let (silent, unaimed, resting) = step-IsQuiet e cleared n q in
    let next : IsQuiet (Poller.step e cleared) = record {
      inv = step-Inv e cleared q.inv;
      unaimed = unaimed;
      resting = resting;
    } in
    rw silent (unfold on_notices in record { current = v.current; empty = v.empty; quiet = next })

step-IsWaiting :
    (epoch : ℕ) (e : Event) (s : Shown)
    → IsForeign epoch e
    → IsWaiting epoch s
    → IsWaiting epoch (step e s)
unfolding step progress answer fail
step-IsWaiting epoch opens s f v = absurd f
step-IsWaiting epoch (uploads name) s f v = absurd f
step-IsWaiting epoch (progresses other percent) s f v = elim (Bool-cases (other == s.epoch)) [
  | inl q ↦ rw (progress, q) (record { current = v.current; empty = v.empty; quiet = v.quiet })
  | inr q ↦ rw (progress, q) v
]
step-IsWaiting epoch (answers other dataset) s f v =
    let late : (other == s.epoch) ≡ false = ap (λ n. other == n) v.current ∙ f in
    rw (answer, late) v
step-IsWaiting epoch (fails other error) s f v = elim (Bool-cases (other == s.epoch)) [
  | inl q ↦ rw (fail, q) (record { current = v.current; empty = v.empty; quiet = v.quiet })
  | inr q ↦ rw (fail, q) v
]
step-IsWaiting epoch timer_fires s f v = poll-IsWaiting epoch Poller.fires s tt v
step-IsWaiting epoch (poll_settles i outcome) s f v =
    poll-IsWaiting epoch (Poller.settles i outcome) s tt v

run-IsWaiting :
    (epoch : ℕ) (es : List Event) (s : Shown)
    → All (IsForeign epoch) es
    → IsWaiting epoch s
    → IsWaiting epoch (run es s)
unfolding run
run-IsWaiting epoch [] s f v = v
run-IsWaiting epoch (e ∷ es) s (f, g) v =
    run-IsWaiting epoch es (step e s) g (step-IsWaiting epoch e s f v)

begin_upload-IsWaiting :
    (name : String) (s : Shown) → Inv s.poller → IsWaiting (suc s.epoch) (begin_upload name s)
unfolding begin_upload stop
begin_upload-IsWaiting name s v = record {
  current = refl;
  empty = refl;
  quiet = record { inv = stop-Inv s.poller v; unaimed = refl; resting = refl };
}

-- Where the poller satisfies its invariant: from the start of an upload to its own answer or the next
-- request, no dataset is shown and none is watched, whatever answers, errors and polls of earlier
-- requests still end.
pub run-begin_upload :
    (es : List Event) (name : String) (s : Shown)
    → Inv s.poller
    → All (IsForeign (suc s.epoch)) es
    → ((run es (begin_upload name s)).dataset ≡ null)
      × ((run es (begin_upload name s)).poller.poller.dataset_id ≡ none)
run-begin_upload es name s v f =
    let waiting =
      run-IsWaiting (suc s.epoch) es (begin_upload name s) f (begin_upload-IsWaiting name s v) in
    (waiting.empty, waiting.quiet.unaimed)
