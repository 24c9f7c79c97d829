-- ===== src/Queue/Ordered.antt =====
-- frontend/src/ui.ts: the waiting runs of the queue page are the queued runs, in order.
use mathlib.Core.List.{Perm}
use mathlib.Core.List.Perm
use federated_iot_platform.Prelude.{
  true, false, List, [], ◌∷◌, filter, All, ◌≡◌, arith, Bool-cases, inl, inr,
}
use federated_iot_platform.Prelude.Int.{ℤ}
use federated_iot_platform.Js.{Value, int}
use federated_iot_platform.Queue.{Queue}
use federated_iot_platform.Queue.Waiting.{
  place, stands_after, insert_waiting, sort_waiting, is_queued, waiting_runs, queue_view,
}

insert_waiting-perm :
    (run : Value) (runs : List Value) → Perm (insert_waiting run runs) (run ∷ runs)
unfolding insert_waiting
insert_waiting-perm run [] = Perm.refl (run ∷ [])
insert_waiting-perm run (other ∷ runs) =
    elim (Bool-cases (stands_after (place run) (place other))) [
      | inl c ↦
          rw c
            (Perm.trans (Perm.cons other (insert_waiting-perm run runs)) (Perm.swap run other runs))
      | inr c ↦ rw c (Perm.refl (run ∷ other ∷ runs))
    ]

sort_waiting-perm : (runs : List Value) → Perm (sort_waiting runs) runs
unfolding sort_waiting
sort_waiting-perm [] = Perm.refl []
sort_waiting-perm (run ∷ runs) =
    Perm.trans (insert_waiting-perm run (sort_waiting runs))
      (Perm.cons run (sort_waiting-perm runs))

-- A run whose place is a number.
abbrev pub HasPlace : Value → Type 0
HasPlace run = (n : ℤ) × (place run ≡ int n)

abbrev pub IsFirst : Value → List Value → Type 0
IsFirst run [] = Unit
IsFirst run (other ∷ runs) = stands_after (place run) (place other) ≡ false

-- No run stands after the next one.
abbrev pub IsInOrder : List Value → Type 0
IsInOrder [] = Unit
IsInOrder (run ∷ runs) = IsFirst run runs × IsInOrder runs

stands_after-asym :
    (m n : ℤ) → stands_after (int m) (int n) ≡ true → stands_after (int n) (int m) ≡ false
stands_after-asym m n h = ground arith

after-asym :
    (a b : Value)
    → HasPlace a
    → HasPlace b
    → stands_after (place a) (place b) ≡ true
    → stands_after (place b) (place a) ≡ false
after-asym a b (m, p) (n, q) h = rw (p, q) (stands_after-asym m n (rw (p, q) at h))

insert_waiting-IsFirst :
    (run other : Value) (runs : List Value)
    → IsFirst other runs
    → stands_after (place other) (place run) ≡ false
    → IsFirst other (insert_waiting run runs)
unfolding insert_waiting
insert_waiting-IsFirst run other [] f h = h
insert_waiting-IsFirst run other (next ∷ runs) f h =
    elim (Bool-cases (stands_after (place run) (place next))) [ inl c ↦ rw c f | inr c ↦ rw c h ]

insert_waiting-IsInOrder :
    (run : Value) (runs : List Value)
    → HasPlace run
    → All HasPlace runs
    → IsInOrder runs
    → IsInOrder (insert_waiting run runs)
unfolding insert_waiting
insert_waiting-IsInOrder run [] p ps o = (tt, tt)
insert_waiting-IsInOrder run (other ∷ runs) p (q, ps) (f, o) =
    elim (Bool-cases (stands_after (place run) (place other))) [
      | inl c ↦ rw c (
        insert_waiting-IsFirst run other runs f (after-asym run other p q c),
        insert_waiting-IsInOrder run runs p ps o,
      )
      | inr c ↦ rw c (c, (f, o))
    ]

insert_waiting-All :
    (run : Value) (runs : List Value)
    → HasPlace run
    → All HasPlace runs
    → All HasPlace (insert_waiting run runs)
unfolding insert_waiting
insert_waiting-All run [] p ps = (p, tt)
insert_waiting-All run (other ∷ runs) p (q, ps) =
    elim (Bool-cases (stands_after (place run) (place other))) [
      | inl c ↦ rw c (q, insert_waiting-All run runs p ps)
      | inr c ↦ rw c (p, (q, ps))
    ]

sort_waiting-IsInOrder :
    (runs : List Value)
    → All HasPlace runs
    → IsInOrder (sort_waiting runs) × All HasPlace (sort_waiting runs)
unfolding sort_waiting
sort_waiting-IsInOrder [] ps = (tt, tt)
sort_waiting-IsInOrder (run ∷ runs) (p, ps) =
    let (o, qs) = sort_waiting-IsInOrder runs ps in
    (
      insert_waiting-IsInOrder run (sort_waiting runs) p qs o,
      insert_waiting-All run (sort_waiting runs) p qs,
    )

-- The queue page lists as waiting exactly the queued runs of the queue, each as often as the queue has
-- it, and none stands after the next one, where the place of each is a number.
pub queue_view-waiting :
    (q : Queue) (detail task_run_id : Value)
    → All HasPlace (filter is_queued q.items)
    → let shown = (queue_view q detail task_run_id).waiting in
      Perm shown (filter is_queued q.items) × IsInOrder shown
unfolding queue_view waiting_runs
queue_view-waiting q detail task_run_id ps =
    (sort_waiting-perm (filter is_queued q.items), (sort_waiting-IsInOrder _ ps).0)
