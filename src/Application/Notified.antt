-- ===== src/Application/Notified.antt =====
-- frontend/src/ui.ts: a run that has ended moves from the queue to the history.
use federated_iot_platform.Prelude.{
  ℕ, Bool, true, false, ◌||◌, some, List, [], ◌∷◌, String, ◌===◌, any, find_idx?, get_elem?, set,
  ◌≡◌, refl, arith, Option-cases, inl, inr, suc, zero, eq_refl,
}
use federated_iot_platform.Js.{Value, get, str, strict_eq, text_or_empty, includes, null, text}
use federated_iot_platform.Queue
use federated_iot_platform.Queue.{has_run_id, synchronize_waiting_count}
use federated_iot_platform.Js.Objects.{get_with, get-spread, spread}
use federated_iot_platform.Queue.Projection.{projection-terminal, get→lookup}
use federated_iot_platform.History.{
  is_terminal_run, upsert_run, upsert_items, same_run, run_from_detail,
}
use federated_iot_platform.Application.{Lists, on_notification}

-- The item that `findIndex` finds is there.
find_idx-get_elem? {ℓ} :
    {A : Type ℓ} (p : A → Bool) (xs : List A) (i : ℕ)
    → find_idx? p xs ≡ some i
    → (x : A) × (get_elem? xs i ≡ some x)
find_idx-get_elem? p [] i h = cc
find_idx-get_elem? p (x ∷ xs) zero h = (x, refl)
find_idx-get_elem? p (x ∷ xs) (suc i) h =
    let later : find_idx? p xs ≡ some i = ground arith in find_idx-get_elem? p xs i later

or_true : (b : Bool) → (b || true) ≡ true
or_true true = refl
or_true false = refl

any-set {ℓ} :
    {A : Type ℓ} (p : A → Bool) (xs : List A) (i : ℕ) (x v : A)
    → get_elem? xs i ≡ some x
    → p v ≡ true
    → any p (set xs i v) ≡ true
any-set p [] i x v h e = cc
any-set p (y ∷ xs) zero x v h e = rw e refl
any-set p (y ∷ xs) (suc i) x v h e = rw (any-set p xs i x v h e) (or_true (p y))

run_id-run_from_detail :
    (id : String) (detail previous : Value)
    → get "run_id" detail ≡ str id
    → get "run_id" (run_from_detail detail previous) ≡ str id
unfolding run_from_detail
run_id-run_from_detail id detail previous h =
    let found : get "run_id" (spread previous detail) ≡ str id =
      rw (get-spread "run_id" previous detail, get→lookup "run_id" id detail h) refl in
    simp get_with found

has_run_id-run_from_detail :
    (id : String) (detail previous : Value)
    → get "run_id" detail ≡ str id
    → has_run_id id (run_from_detail detail previous) ≡ true
unfolding has_run_id strict_eq
has_run_id-run_from_detail id detail previous h =
    rw (run_id-run_from_detail id detail previous h) (eq_refl id)

upsert_items-any :
    (id : String) (detail : Value) (runs : List Value)
    → get "run_id" detail ≡ str id
    → any (has_run_id id) (upsert_items detail runs) ≡ true
unfolding upsert_items
upsert_items-any id detail runs h =
    elim (Option-cases (find_idx? (λ run. same_run run detail) runs)) [
      | inl e ↦
          let first : has_run_id id (run_from_detail detail null) ≡ true =
            has_run_id-run_from_detail id detail null h in
          let added : upsert_items detail runs ≡ run_from_detail detail null ∷ runs =
            rw (e, upsert_items) refl in
          rw (added, first) refl
      | inr (i, e) ↦
          let (previous, found) = find_idx-get_elem? (λ run. same_run run detail) runs i e in
          let replaced : upsert_items detail runs ≡ set runs i (run_from_detail detail previous) =
            rw (e, found, upsert_items) refl in
          rw replaced (
            any-set (has_run_id id) runs i previous (run_from_detail detail previous) found
              (has_run_id-run_from_detail id detail previous h))
    ]

ended_status :
    (detail : Value)
    → is_terminal_run detail ≡ true
    → includes Queue.terminal_statuses (Queue.status_of detail) ≡ true
unfolding is_terminal_run includes
ended_status detail h = ground arith

-- When the store says that a run with an id has ended, the run is no longer in the queue and stands in
-- the history, whatever both held and whatever events came with it.
pub on_notification-ended :
    (events : List Value) (detail : Value) (id : String) (l : Lists)
    → get "run_id" detail ≡ str id
    → (id === "") ≡ false
    → is_terminal_run detail ≡ true
    → let next = on_notification events detail l in
      (any (has_run_id id) next.queue.items ≡ false)
      × (any (has_run_id id) next.history.items ≡ true)
unfolding on_notification upsert_run
on_notification-ended events detail id l h n t =
    let id_text : text_or_empty (get "run_id" detail) ≡ id = unfold text in rw h refl in
    (
      rw (← id_text) (
          projection-terminal detail (synchronize_waiting_count events l.queue) (rw id_text n)
            (ended_status detail t)),
      rw t (upsert_items-any id detail l.history.items h),
    )
