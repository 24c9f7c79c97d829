-- ===== src/Poller/Watched.antt =====
-- frontend/src/state/dataset-poller.ts: which dataset the poller watches after each of its steps.
use federated_iot_platform.Prelude.{
  ℕ, suc, Bool, false, none, some, String, ◌≡◌, refl, arith, Option-cases, inl, inr, ◌∙◌, sym,
  get_elem?,
}
use federated_iot_platform.Js.{Value, str, get}
use federated_iot_platform.Poller.{
  World, Poller, Request, Outcome, loaded, aborted, failed, stop, watch, watched_id, begin_poll,
  launch, resume, fire, finish, schedule, step, settles, remove_at,
}

begin_poll-watched : (g : ℕ) (w : World) → (begin_poll g w).poller.dataset_id ≡ w.poller.dataset_id
unfolding begin_poll launch
begin_poll-watched g w = ground arith

id-str :
    (v : Value) (d : Value) (id : String)
    → get "dataset_id" d ≡ v
    → watched_id d ≡ some id
    → v ≡ str id
unfolding watched_id
id-str (str s) d id g e = ground (arith, g, e)
id-str v d id g e = ground (arith, g, e)

watched_id-str : (d : Value) (id : String) → watched_id d ≡ some id → get "dataset_id" d ≡ str id
watched_id-str d id e = id-str (get "dataset_id" d) d id refl e

pub watch-watched :
    (d : Value) (w : World) (id : String)
    → (watch d w).poller.dataset_id ≡ some id
    → get "dataset_id" d ≡ str id
unfolding watch stop
watch-watched d w id e = elim (Option-cases (watched_id d)) [
  | inl n ↦ ground (arith, n, e)
  | inr (other, n) ↦
      watched_id-str d id (ground (arith, n, e, begin_poll-watched (suc w.poller.generation)))
]

finish-watched : (r : Request) (b : Bool) (p : Poller) → (finish r b p).dataset_id ≡ p.dataset_id
unfolding finish schedule
finish-watched r b p = ground arith

pub resume-watched :
    (r : Request) (o : Outcome) (w : World) (id : String)
    → (resume r o w).poller.dataset_id ≡ some id
    → w.poller.dataset_id ≡ some id
unfolding resume
resume-watched r (loaded d) w id e = ground (arith, e, finish-watched r)
resume-watched r aborted w id e = sym (finish-watched r false w.poller) ∙ e
resume-watched r (failed d) w id e = ground (arith, e, finish-watched r)

pub fire-watched :
    (w : World) (id : String) → (fire w).poller.dataset_id ≡ some id → w.poller.dataset_id ≡ some id
unfolding fire
fire-watched w id e = elim (Option-cases w.poller.timer) [
  | inl t ↦ ground (arith, e, t)
  | inr (g, t) ↦
      ground
        (arith, e, t, begin_poll-watched g (record w { poller = record w.poller { timer = none } }))
]

pub settle-watched :
    (i : ℕ) (o : Outcome) (w : World) (id : String)
    → (step (settles i o) w).poller.dataset_id ≡ some id
    → w.poller.dataset_id ≡ some id
unfolding step
settle-watched i o w id e = elim (Option-cases (get_elem? w.pending i)) [
  | inl n ↦ ground (arith, e, n)
  | inr (r, n) ↦
      resume-watched r o (record w { pending = remove_at i w.pending }) id (ground (arith, e, n))
]
