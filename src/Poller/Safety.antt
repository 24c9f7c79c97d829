-- ===== src/Poller/Safety.antt =====
-- frontend/src/state/dataset-poller.ts: how requests settle, and a poller after `stop`.
use federated_iot_platform.Prelude.{
  ℕ, ◌≡◌, refl, ◌≢◌, true, false, none, some, List, [], ◌∷◌, arith, String, ◌==◌, get_elem?, All,
  inl, inr, Bool-cases, Option-cases, ◌∙◌,
}
use federated_iot_platform.Poller.{
  Request, Poller, World, Outcome, loaded, aborted, failed, Event, watches, stops, fires, settles,
  begin_poll, stop, fire, step, run, remove_at, needs_polling,
}
use federated_iot_platform.Poller.Invariant.{
  Inv, settled, told, resume-Awaited, resume_past, taken, step-Inv, stop-Inv,
}

-- An answer to a request of another generation is taken off the requests in flight, and changes
-- neither the object nor what the handlers were told.
pub settle_past :
    (w : World) (i : ℕ) (r : Request) (o : Outcome)
    → get_elem? w.pending i ≡ some r
    → r.generation ≢ w.poller.generation
    → step (settles i o) w ≡ record w { pending = remove_at i w.pending }
unfolding step
settle_past w i r o e g =
    rw (e, step) (resume_past r o (record w { pending = remove_at i w.pending }) g)

-- The answer to the request of the current generation is handed on, and then either the timer is
-- set (another round is needed, or an error came) or the dataset is let go (a final status).
pub settle_awaited :
    (w : World) (i : ℕ) (r : Request) (o : Outcome)
    → Inv w
    → get_elem? w.pending i ≡ some r
    → r.generation ≡ w.poller.generation
    → step (settles i o) w ≡ record w {
      poller = settled o w.poller;
      pending = remove_at i w.pending;
      notices = told r o w.notices;
    }
unfolding step
settle_awaited w i r o v e g =
    rw (e, step)
      (resume-Awaited r o (record w { pending = remove_at i w.pending }) (taken w i r v e g))

-- Another round: an error that is no abort, or a dataset whose work goes on.
abbrev pub Continues : Outcome → Type 0
Continues (loaded d) = needs_polling d ≡ true
Continues aborted = ⊥
Continues (failed e) = Unit

settled-Continues :
    (o : Outcome) (p : Poller)
    → Continues o
    → settled o p
      ≡ record p { timer = some p.generation; controller = none; request_active = false }
settled-Continues (loaded d) p c = rw c
settled-Continues aborted p c = absurd c
settled-Continues (failed e) p c = refl

fire_timed :
    (w : World) (id : String)
    → w.poller.timer ≡ some w.poller.generation
    → w.poller.dataset_id ≡ some id
    → w.poller.request_active ≡ false
    → (step fires w).pending
      ≡ record { generation = w.poller.generation; dataset_id = id; controller = w.next_controller }
        ∷ w.pending
unfolding step
fire_timed w id t d a = rw (t, fire) (rw (d, begin_poll) (ground arith))

-- Polling goes on: after such an answer the timer's round sends a new request for the same dataset.
pub polling-Continues :
    (w : World) (i : ℕ) (r : Request) (o : Outcome)
    → Inv w
    → get_elem? w.pending i ≡ some r
    → r.generation ≡ w.poller.generation
    → Continues o
    → (step fires (step (settles i o) w)).pending
      ≡ record {
        generation = w.poller.generation;
        dataset_id = r.dataset_id;
        controller = w.next_controller;
      }
        ∷ remove_at i w.pending
polling-Continues w i r o v e g c =
    rw (settle_awaited w i r o v e g, settled-Continues o w.poller c)
      (fire_timed _ r.dataset_id refl ((taken w i r v e g).watched) refl)

abbrev pub IsNoWatch : Event → Type 0
IsNoWatch (watches d) = ⊥
IsNoWatch stops = Unit
IsNoWatch fires = Unit
IsNoWatch (settles i o) = Unit

pub record IsQuiet (w : World) : Type 0 where
  pub inv : Inv w
  pub unaimed : w.poller.dataset_id ≡ none
  pub resting : w.poller.request_active ≡ false

pub step-IsQuiet :
    (e : Event) (w : World)
    → IsNoWatch e
    → IsQuiet w
    → ((step e w).notices ≡ w.notices)
      × ((step e w).poller.dataset_id ≡ none)
      × ((step e w).poller.request_active ≡ false)
unfolding step
step-IsQuiet (watches d) w n q = absurd n
step-IsQuiet stops w n q = unfold stop in (refl, refl, refl)
step-IsQuiet fires w n q = elim (Option-cases w.poller.timer) [
  | inl t ↦ rw (t, fire) (refl, q.unaimed, q.resting)
  | inr (k, t) ↦ absurd (q.inv.aimed k t q.unaimed)
]
step-IsQuiet (settles i o) w n q = elim (Option-cases (get_elem? w.pending i)) [
  | inl e ↦ rw (e, step) (refl, q.unaimed, q.resting)
  | inr (r, e) ↦ elim (Bool-cases (r.generation == w.poller.generation)) [
    | inl g ↦ absurd (cc (q.resting, (taken w i r q.inv e (ground arith)).active))
    | inr g ↦ rw (settle_past w i r o e (ground arith)) (refl, q.unaimed, q.resting)
  ]
]

run_silent :
    (es : List Event) (w : World)
    → All IsNoWatch es
    → IsQuiet w
    → ((run es w).notices ≡ w.notices) × ((run es w).poller.dataset_id ≡ none)
unfolding run
run_silent [] w h q = (refl, q.unaimed)
run_silent (e ∷ es) w (n, h) q =
    let (same, unaimed, resting) = step-IsQuiet e w n q in
    let next : IsQuiet (step e w) = record {
      inv = step-Inv e w q.inv;
      unaimed = unaimed;
      resting = resting;
    } in
    let (told_none, off) = run_silent es (step e w) h next in (told_none ∙ same, off)

-- After `stop` or `close`, until `watch` is called again, no handler is called, whatever timers and
-- answers are still to come, and the object watches nothing.
pub stop_silent :
    (w : World) (es : List Event)
    → Inv w
    → All IsNoWatch es
    → ((run es (stop w)).notices ≡ w.notices) × ((run es (stop w)).poller.dataset_id ≡ none)
unfolding stop
stop_silent w es v h =
    run_silent es (stop w) h (record { inv = stop-Inv w v; unaimed = refl; resting = refl })
