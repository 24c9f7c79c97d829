-- ===== src/Poller/Invariant.antt =====
-- frontend/src/state/dataset-poller.ts: the invariant of a `DatasetPoller` between two events, step by
-- step.
use federated_iot_platform.Prelude.{
  ℕ, ◌≡◌, refl, ◌≢◌, true, false, none, some, List, [], ◌∷◌, arith, String, ◌==◌, if◌then◌else◌,
  get_elem?, All, inl, inr, Bool-cases, Option-cases, eq_refl,
}
use federated_iot_platform.Js.{Value}
use federated_iot_platform.Poller.{
  Request, Poller, World, Outcome, loaded, aborted, failed, Notice, on_dataset, on_error, Event,
  watches, stops, fires, settles, start, launch, begin_poll, stop, watch, resume, fire, step, run,
  remove_at, needs_polling, watched_id,
}
use federated_iot_platform.Poller.Requests.{
  current, Fits, All-get_elem?, All-remove_at, current-remove_at, current_next, All-Fits_next,
  All-Fits_free,
}

pub record Inv (w : World) : Type 0 where
  pub fits : All (Fits w.poller) w.pending
  pub single : current w.poller.generation w.pending ≡ (if w.poller.request_active then 1 else 0)
  pub timed : (g : ℕ) → w.poller.timer ≡ some g → g ≡ w.poller.generation
  pub resting : (g : ℕ) → w.poller.timer ≡ some g → w.poller.request_active ≡ false
  pub aimed : (g : ℕ) → w.poller.timer ≡ some g → w.poller.dataset_id ≢ none

start-Inv : Inv start
unfolding current
start-Inv = record {
  fits = tt;
  single = refl;
  timed = λ g e. cc;
  resting = λ g e. cc;
  aimed = λ g e. cc;
}

pub stop-Inv : (w : World) → Inv w → Inv (stop w)
unfolding stop
stop-Inv w v = record {
  fits = All-Fits_next w.poller _ w.pending refl v.fits;
  single = current_next w.poller w.pending v.fits;
  timed = λ g e. cc;
  resting = λ g e. cc;
  aimed = λ g e. cc;
}

stop_resting : (w : World) → (stop w).poller.request_active ≡ false
unfolding stop
stop_resting w = refl

stop_untimed : (w : World) → (stop w).poller.timer ≡ none
unfolding stop
stop_untimed w = refl

launch-Inv :
    (g : ℕ) (id : String) (w : World)
    → Inv w
    → w.poller.timer ≡ none
    → w.poller.request_active ≡ false
    → g ≡ w.poller.generation
    → w.poller.dataset_id ≡ some id
    → Inv (launch g id w)
unfolding launch current
launch-Inv g id w v t a e d =
    let free : current w.poller.generation w.pending ≡ 0 = ground (arith, v.single) in
    record {
      fits = (
        record { past = omega arith; watched = λ _. d; held = λ _. refl },
        All-Fits_free w.poller _ w.pending refl free v.fits,
      );
      single = ground arith;
      timed = λ k h. cc;
      resting = λ k h. cc;
      aimed = λ k h. cc;
    }

begin_poll-Inv : (g : ℕ) (w : World) → Inv w → w.poller.timer ≡ none → Inv (begin_poll g w)
unfolding begin_poll
begin_poll-Inv g w v t = elim (Option-cases w.poller.dataset_id) [
  | inl e ↦ rw (e, begin_poll) v
  | inr (id, e) ↦ rw (e, begin_poll) (ground (arith, launch-Inv g id w v t))
]

-- While no request of the generation is in flight the object may aim elsewhere.
rest-Inv :
    (w : World) (q : Poller) (ns : List Notice)
    → All (Fits w.poller) w.pending
    → current w.poller.generation w.pending ≡ 0
    → q.generation ≡ w.poller.generation
    → q.request_active ≡ false
    → ((g : ℕ) → q.timer ≡ some g → (g ≡ q.generation) × (q.dataset_id ≢ none))
    → Inv (record w { poller = q; notices = ns })
rest-Inv w q ns fits free g b t = record {
  fits = All-Fits_free w.poller q w.pending g free fits;
  single = rw (g, b) free;
  timed = λ k h. (t k h).0;
  resting = λ k h. b;
  aimed = λ k h. (t k h).1;
}

free_of_resting :
    (w : World)
    → Inv w
    → w.poller.request_active ≡ false
    → current w.poller.generation w.pending ≡ 0
free_of_resting w v a = ground (arith, v.single)

aim-Inv :
    (g : ℕ) (w : World) (q : Poller)
    → Inv w
    → w.poller.request_active ≡ false
    → q.generation ≡ w.poller.generation
    → q.request_active ≡ false
    → q.timer ≡ none
    → Inv (begin_poll g (record w { poller = q }))
aim-Inv g w q v a same b t =
    begin_poll-Inv g (record w { poller = q })
      (rest-Inv w q w.notices v.fits (free_of_resting w v a) same b (λ k h. cc)) t

watch-Inv : (d : Value) (w : World) → Inv w → Inv (watch d w)
unfolding watch
watch-Inv d w v = elim (Option-cases (watched_id d)) [
  | inl e ↦ rw (e, watch) (stop-Inv w v)
  | inr (id, e) ↦ rw (e, watch) (ground (arith, stop-Inv w v, aimed id))
]
  where
    aimed :
        (id : String)
        → Inv (
            begin_poll
              (stop w).poller.generation
              (record (stop w) { poller = record (stop w).poller { dataset_id = some id } }))
    aimed id =
        aim-Inv (stop w).poller.generation (stop w)
          (record (stop w).poller { dataset_id = some id }) (stop-Inv w v) (stop_resting w) refl
          (stop_resting w) (stop_untimed w)

fire-Inv : (w : World) → Inv w → Inv (fire w)
unfolding fire
fire-Inv w v = elim (Option-cases w.poller.timer) [
  | inl e ↦ rw (e, fire) v
  | inr (g, e) ↦
      rw (e, fire)
        (aim-Inv g w (record w.poller { timer = none }) v (v.resting g e) refl (v.resting g e) refl)
]

-- The request that the object waits for, taken out of the list: nothing else is in flight.
pub record Awaited (r : Request) (w : World) : Type 0 where
  pub present : r.generation ≡ w.poller.generation
  pub active : w.poller.request_active ≡ true
  pub watched : w.poller.dataset_id ≡ some r.dataset_id
  pub held : w.poller.controller ≡ some r.controller
  pub alone : current w.poller.generation w.pending ≡ 0
  pub untimed : w.poller.timer ≡ none
  pub fits : All (Fits w.poller) w.pending

-- What the object is after the answer that it waits for.
abbrev pub settled : Outcome → Poller → Poller
settled (loaded d) p =
    if needs_polling d
    then record p { timer = some p.generation; controller = none; request_active = false }
    else record p { controller = none; dataset_id = none; request_active = false }
settled aborted p = record p { controller = none; request_active = false }
settled (failed e) p = record p {
  timer = some p.generation;
  controller = none;
  request_active = false;
}

abbrev pub told : Request → Outcome → List Notice → List Notice
told r (loaded d) ns = on_dataset d ∷ ns
told r aborted ns = ns
told r (failed e) ns = on_error r.dataset_id e ∷ ns

pub resume-Awaited :
    (r : Request) (o : Outcome) (w : World)
    → Awaited r w
    → resume r o w ≡ record w { poller = settled o w.poller; notices = told r o w.notices }
unfolding resume
resume-Awaited r (loaded d) w a = ground (arith, a.present, a.watched, a.held, eq_refl r.dataset_id)
resume-Awaited r o w a = ground (arith, a.present, a.watched, a.held, eq_refl r.dataset_id)

resume-Inv-Awaited : (r : Request) (o : Outcome) (w : World) → Awaited r w → Inv (resume r o w)
resume-Inv-Awaited r o w a = rw (resume-Awaited r o w a) (
    rest-Inv w (settled o w.poller) (told r o w.notices) a.fits a.alone (settled_generation o)
      (settled_resting o) (settled_timed o))
  where
    settled_generation : (o : Outcome) → (settled o w.poller).generation ≡ w.poller.generation
    settled_generation (loaded d) = ground arith
    settled_generation o = refl

    settled_resting : (o : Outcome) → (settled o w.poller).request_active ≡ false
    settled_resting (loaded d) = ground arith
    settled_resting o = refl

    settled_timed :
        (o : Outcome) (k : ℕ)
        → (settled o w.poller).timer ≡ some k
        → (k ≡ (settled o w.poller).generation) × ((settled o w.poller).dataset_id ≢ none)
    settled_timed (loaded d) k h = ground (arith, a.untimed, a.watched)
    settled_timed o k h = ground (arith, a.untimed, a.watched)

-- An answer to a request of an older generation is dropped.
pub resume_past :
    (r : Request) (o : Outcome) (w : World) → r.generation ≢ w.poller.generation → resume r o w ≡ w
unfolding resume
resume_past r (loaded d) w h = ground arith
resume_past r o w h = ground arith

-- Taking out a request keeps the invariant if the request is an old one, and else makes it awaited.
pub taken :
    (w : World) (i : ℕ) (r : Request)
    → Inv w
    → get_elem? w.pending i ≡ some r
    → r.generation ≡ w.poller.generation
    → Awaited r (record w { pending = remove_at i w.pending })
taken w i r v e g =
    let f = All-get_elem? (Fits w.poller) w.pending i r e v.fits in
    let c = current-remove_at w.poller.generation i w.pending r e in
    let busy : w.poller.request_active ≡ true = ground (arith, v.single, c) in
    record {
      present = g;
      active = busy;
      watched = f.watched g;
      held = f.held g;
      alone = ground (arith, v.single, c);
      untimed = elim (Option-cases w.poller.timer) [
        | inl t ↦ t
        | inr (k, t) ↦ cc (busy, v.resting k t)
      ];
      fits = All-remove_at (Fits w.poller) w.pending i v.fits;
    }

-- An old request can be taken out.
pub drop-Inv :
    (w : World) (i : ℕ) (r : Request)
    → Inv w
    → get_elem? w.pending i ≡ some r
    → r.generation ≢ w.poller.generation
    → Inv (record w { pending = remove_at i w.pending })
drop-Inv w i r v e g = record {
  fits = All-remove_at (Fits w.poller) w.pending i v.fits;
  single = ground (arith, v.single, current-remove_at w.poller.generation i w.pending r e);
  timed = v.timed;
  resting = v.resting;
  aimed = v.aimed;
}

pub settle-Inv : (i : ℕ) (o : Outcome) (w : World) → Inv w → Inv (step (settles i o) w)
unfolding step
settle-Inv i o w v = elim (Option-cases (get_elem? w.pending i)) [
  | inl e ↦ rw (e, step) v
  | inr (r, e) ↦
      rw (e, step)
        (elim (Bool-cases (r.generation == w.poller.generation)) [
          | inl g ↦
              resume-Inv-Awaited r o (record w { pending = remove_at i w.pending })
                (taken w i r v e (ground arith))
          | inr g ↦
              rw (resume_past r o (record w { pending = remove_at i w.pending }) (ground arith))
                (drop-Inv w i r v e (ground arith))
        ])
]

pub step-Inv : (e : Event) (w : World) → Inv w → Inv (step e w)
unfolding step
step-Inv (watches d) w v = watch-Inv d w v
step-Inv stops w v = stop-Inv w v
step-Inv fires w v = fire-Inv w v
step-Inv (settles i o) w v = settle-Inv i o w v

pub run-Inv : (es : List Event) (w : World) → Inv w → Inv (run es w)
unfolding run
run-Inv [] w v = v
run-Inv (e ∷ es) w v = run-Inv es (step e w) (step-Inv e w v)

-- After any history of calls, timer rounds and answers, in any order: at most one request of the
-- current generation is in flight, exactly when the object marks one active, it is for the watched
-- dataset and the held controller, and a timer runs only for a watched dataset between two requests.
pub run-start-Inv : (es : List Event) → Inv (run es start)
run-start-Inv es = run-Inv es start start-Inv
