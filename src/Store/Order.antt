-- ===== src/Store/Order.antt =====
-- frontend/src/state/simulation-store.ts: the order of stream events, answers that come late, and the
-- streams that two selections open.
use federated_iot_platform.Prelude.{
  ◌≡◌, refl, Bool, true, false, ◌||◌, Option, none, some, [], ◌∷◌, String, ◌===◌, if◌then◌else◌,
  arith, inl, inr, Bool-cases, Option-cases, map, eq_refl, ◌⊎◌, ap,
}
use federated_iot_platform.Prelude.Int.{ℤ, ◌≤ℤ◌}
use federated_iot_platform.Js.{
  is_nullish, Value, null, undefined, num, int, str, strict_eq, truthy, get, number, finite?, max_ℤ,
  ◌or◌,
}
use federated_iot_platform.Poller.{remove_at}
use federated_iot_platform.Contract.{is_terminal_status}
use federated_iot_platform.Store.{
  Store, Stream, Refresh, Stage, at_detail, at_parts, emit, begin_refresh, connect, select_run,
  cleared_for_run, close, close_run_subscription, new_store, initial_state, is_run,
}
use federated_iot_platform.Store.Loaded.{
  Parts, Failure, aborted, failure, fail_refresh, apply_refresh, is_current, ended, null_controller,
  null_detail, no_parts,
}
use federated_iot_platform.Store.Events.{is_absent, monotonic_event_id, is_newer_event_id}
use federated_iot_platform.Store.Steps.{
  Answer, detail_answer, parts_answer, failed_answer, answer, answer_detail, on_event, with_event,
  selects, answers, closes, step, run,
}
use federated_iot_platform.Store.Invariant.{begin_refresh_state, connect_state}

-- The number of an event id, where it has one.
unfoldable pub rank : Value → Option ℤ
rank v = if is_absent v then none else finite? (number v)

-- An id is a number or is left out.
abbrev pub IsEventId : Value → Type 0
IsEventId v = (is_absent v ≡ true) ⊎ ((n : ℤ) × (rank v ≡ some n))

max_ℤ-le : (m n : ℤ) → m ≤ℤ max_ℤ m n
max_ℤ-le m n = ground arith

le_refl_ℤ : (m : ℤ) → m ≤ℤ m
le_refl_ℤ m = omega arith

rank_num : (m : ℤ) → rank (num (int m)) ≡ some m
unfolding rank number
rank_num m = refl

rank→present :
    (v : Value) (n : ℤ) → rank v ≡ some n → (is_absent v ≡ false) × (finite? (number v) ≡ some n)
unfolding rank
rank→present v n h = elim (Bool-cases (is_absent v)) [
  | inl a ↦ absurd (none≢some (rw a at h))
  | inr a ↦ (a, rw a at h)
]
  where
    none≢some : ◌≡◌ {A = Option ℤ} none (some n) → ⊥
    none≢some e = cc

-- Where the id that was seen before is a number, and the new one is a number or left out, the last
-- event id that a refresh keeps is a number that is not below the one before.
pub monotonic_event_id-ge :
    (previous candidate : Value) (p : ℤ)
    → rank previous ≡ some p
    → IsEventId candidate
    → (q : ℤ) × (rank (monotonic_event_id previous candidate) ≡ some q) × (p ≤ℤ q)
unfolding monotonic_event_id
monotonic_event_id-ge previous candidate p h (inl a) =
    let (seen, _) = rank→present previous p h in (p, rw (seen, a) h, le_refl_ℤ p)
monotonic_event_id-ge previous candidate p h (inr (c, k)) =
    let (seen, fp) = rank→present previous p h in
    let (given, fc) = rank→present candidate c k in
    (max_ℤ p c, rw (seen, given, fp, fc, monotonic_event_id) (rank_num (max_ℤ p c)), max_ℤ-le p c)

ended_state : (r : Refresh) (s : Store) → (ended r s).state ≡ s.state
ended_state r s = elim (Bool-cases r.connects) [ inl c ↦ rw c (connect_state s) | inr c ↦ rw c ]

fail_refresh_stale :
    (r : Refresh) (f : Failure) (s : Store) → is_current r s.state ≡ false → fail_refresh r f s ≡ s
unfolding fail_refresh
fail_refresh_stale r aborted s h = refl
fail_refresh_stale r (failure e) s h = rw h

apply_refresh_stale :
    (r : Refresh) (d : Value) (parts : Parts) (s : Store)
    → is_current r s.state ≡ false
    → apply_refresh r d parts s ≡ s
unfolding apply_refresh
apply_refresh_stale r d parts s h = rw h

answer_detail_stale :
    (r : Refresh) (d : Value) (s : Store)
    → is_current r s.state ≡ false
    → (answer_detail r d s).state ≡ s.state
unfolding answer_detail
answer_detail_stale r d s h = elim (Bool-cases (is_nullish d)) [
  | inl n ↦ rw (n, fail_refresh_stale r (failure null_detail) s h, answer_detail) (ended_state r s)
  | inr n ↦ elim (Bool-cases (strict_eq (get "status" d) (str "COMPLETED"))) [
    | inr c ↦ rw (n, c, apply_refresh_stale r d no_parts s h) (ended_state r s)
    | inl c ↦ elim (Option-cases s.request_controller) [
      | inl k ↦
          rw (n, c, k, fail_refresh_stale r (failure null_controller) s h, answer_detail)
            (ended_state r s)
      | inr (m, k) ↦ rw (n, c, k, answer_detail) refl
    ]
  ]
]

-- An answer for a run or an agent that is no longer selected changes nothing that is shown.
pub answer_stale :
    (r : Refresh) (p : Stage) (a : Answer) (s : Store)
    → is_current r s.state ≡ false
    → (answer r p a s).state ≡ s.state
unfolding answer
answer_stale r at_detail (detail_answer d) s h = answer_detail_stale r d s h
answer_stale r at_detail (failed_answer f) s h = rw (fail_refresh_stale r f s h) (ended_state r s)
answer_stale r at_detail (parts_answer ps) s h = refl
answer_stale r (at_parts d) (detail_answer o) s h = refl
answer_stale r (at_parts d) (failed_answer f) s h =
    rw (fail_refresh_stale r f s h) (ended_state r s)
answer_stale r (at_parts d) (parts_answer ps) s h =
    rw (apply_refresh_stale r d ps s h) (ended_state r s)

or_present : (v w : Value) → is_absent v ≡ false → (v or w) ≡ v
or_present undefined w h = cc
or_present null w h = cc
or_present _ w h = refl

on_event_old :
    (id : String) (e : Value) (s : Store)
    → strict_eq (get "type" e) (str "stream.reset") ≡ false
    → is_newer_event_id s.state.last_event_id (get "id" e) ≡ false
    → on_event id e s ≡ s
unfolding on_event
on_event_old id e s t n = elim (Bool-cases (is_run s.state.run_id id)) [
  | inl r ↦ rw (r, t, n)
  | inr r ↦ rw r
]

newer_self : (v : Value) (n : ℤ) → rank v ≡ some n → is_newer_event_id v v ≡ false
unfolding is_newer_event_id
newer_self v n h =
    let (present, f) = rank→present v n h in rw (present, f, is_newer_event_id) (ground arith)

on_event_last :
    (id : String) (e : Value) (s : Store) (n : ℤ)
    → rank (get "id" e) ≡ some n
    → strict_eq (get "type" e) (str "stream.reset") ≡ false
    → is_run s.state.run_id id ≡ true
    → is_newer_event_id s.state.last_event_id (get "id" e) ≡ true
    → (on_event id e s).state.last_event_id ≡ get "id" e
unfolding on_event emit with_event
on_event_last id e s n h t r k =
    let (present, _) = rank→present (get "id" e) n h in
    rw (r, t, k) (last (truthy (status_of e) || is_terminal_status (status_of e)))
  where
    status_of : Value → Value
    status_of e = get "status" (get "data" e)

    noted : Store
    noted = emit (with_event id e s.state) "sse" s

    last :
        (b : Bool)
        → (if b then begin_refresh false noted else noted).state.last_event_id ≡ get "id" e
    last true =
        rw (begin_refresh_state false noted)
          (or_present (get "id" e) s.state.last_event_id (rank→present (get "id" e) n h).0)
    last false = or_present (get "id" e) s.state.last_event_id (rank→present (get "id" e) n h).0

-- An event with a number as its id that is no stream reset, delivered a second time, changes nothing.
pub on_event_again :
    (id : String) (e : Value) (s : Store) (n : ℤ)
    → rank (get "id" e) ≡ some n
    → strict_eq (get "type" e) (str "stream.reset") ≡ false
    → on_event id e (on_event id e s) ≡ on_event id e s
on_event_again id e s n h t =
    elim (Bool-cases (is_newer_event_id s.state.last_event_id (get "id" e))) [
      | inr k ↦ ap (on_event id e) (on_event_old id e s t k)
      | inl k ↦ elim (Bool-cases (is_run s.state.run_id id)) [
        | inr r ↦ ap (on_event id e) (unfold on_event in rw r)
        | inl r ↦
            on_event_old id e (on_event id e s) t
              (rw (on_event_last id e s n h t r k) (newer_self (get "id" e) n h))
      ]
    ]

-- Two selections in quick succession leave a stream open for good: when the requests of both fail
-- to show a detail, both selections go on to `connect`, the first stream is forgotten, and `close`
-- reaches only the second.
pub select_twice_leaks :
    (a b : String) (f : Failure)
    → (a === "") ≡ false
    → (b === "") ≡ false
    → let s =
        run
          (selects a
            ∷ selects b
            ∷ answers 1 (failed_answer aborted)
            ∷ answers 0 (failed_answer f)
            ∷ closes
            ∷ [])
          new_store in
      (map (λ (t : Stream). t.run_id) s.streams ≡ b ∷ []) × (s.subscription ≡ none)
unfolding run step select_run cleared_for_run emit close_run_subscription begin_refresh connect
    close answer fail_refresh is_current remove_at new_store initial_state
select_twice_leaks a b aborted ha hb = ground arith
select_twice_leaks a b (failure e) ha hb = ground (arith, eq_refl b)
