-- ===== src/Store/Invariant.antt =====
-- frontend/src/state/simulation-store.ts: the invariant of the store's state between two events.
use federated_iot_platform.Prelude.{
  ℕ, ◌-◌, ◌≤◌, ◌≡◌, refl, Bool, true, false, not, ◌&&◌, ◌||◌, Option, none, some, List, [], ◌∷◌,
  ◌++◌, String, ◌==◌, subst, ap, ◌∙◌, if◌then◌else◌, arith, length, length-drop, get_elem?, inl,
  inr, Bool-cases, Option-cases, eq_iff, take_last,
}
use federated_iot_platform.Js.{Value, null, nat, strict_eq, truthy, get, str, is_nullish}
use federated_iot_platform.Store.{
  Store, State, Refresh, Stage, at_detail, at_parts, emit, begin_refresh, connect, select_run,
  select_agent, close, new_store, cleared_for_run, cleared_for_agent, is_run, is_agent, connected,
  close_run_subscription, Timer, initial_state,
}
use federated_iot_platform.Store.Loaded.{
  Parts, Failure, aborted, failure, fail_refresh, apply_refresh, refreshed, mismatched, ended,
  value_of, selection_mismatch, is_current, no_parts, null_controller, null_detail,
}
use federated_iot_platform.Contract.{is_terminal_status}
use federated_iot_platform.Store.Events.{is_newer_event_id}
use federated_iot_platform.Store.Steps.{
  Answer, detail_answer, parts_answer, failed_answer, answer, answer_detail, on_open, on_event,
  with_event, on_disconnect, reconnect, refresh_readiness, start_readiness, answer_readiness,
  ReadinessAnswer, ready, not_ready, holds, event_record, max_events, Event, selects, selects_agent,
  asks_refresh, closes, answers, opens, delivers, drops, reconnects, starts_readiness,
  asks_readiness, answers_readiness, step, run,
}

pub begin_refresh_state : (c : Bool) (s : Store) → (begin_refresh c s).state ≡ s.state
unfolding begin_refresh
begin_refresh_state c s = ground arith

pub connect_state : (s : Store) → (connect s).state ≡ s.state
unfolding connect
connect_state s = ground arith

pub is_run→eq : (o : Option String) (id : String) → is_run o id ≡ true → o ≡ some id
is_run→eq none id h = cc
is_run→eq (some other) id h = ap some ((eq_iff other id).0 h)

owned :
    (b : Bool) (o : Option String) (id k : String)
    → o ≡ some id
    → (if b then some id else none) ≡ some k
    → o ≡ some k
owned true o id k e h = e ∙ h
owned false o id k e h = cc

is_current→eq :
    (r : Refresh) (t : State)
    → is_current r t ≡ true
    → (t.run_id ≡ some r.run_id) × (r.agent ≡ t.selected_agent)
unfolding is_current
is_current→eq r t h = (is_run→eq t.run_id r.run_id (ground arith), ground arith)

length-take_last : (n : ℕ) (xs : List Value) → length (take_last n xs) ≤ n
length-take_last n xs = omega (arith, length-drop (length xs - n) xs)

agent_range : (n : ℕ) → is_agent n ≡ true → (1 ≤ n) × (n ≤ 3)
agent_range n h = ground arith

-- `IsOf` says of what run and agent a summary, results or alarms are, and `HasArtifacts` of what run
-- artifacts are, as the API answers them; nothing is of every run.
module _ (IsOf : String → ℕ → Value → Type 0) (HasArtifacts : String → Value → Type 0)
    (null_is : (id : String) (n : ℕ) → IsOf id n null)
    (no_artifacts : (id : String) → HasArtifacts id null) where
  abbrev pub Owned : Option String → ℕ → Value → Type 0
  Owned none n v = v ≡ null
  Owned (some id) n v = IsOf id n v

  abbrev pub OwnedByRun : Option String → Value → Type 0
  OwnedByRun none v = v ≡ null
  OwnedByRun (some id) v = HasArtifacts id v

  Owned-null : (o : Option String) (n : ℕ) → Owned o n null
  Owned-null none n = refl
  Owned-null (some id) n = null_is id n

  -- The answers to the four requests of a refresh.
  abbrev pub AreOf : Refresh → Parts → Type 0
  AreOf r parts =
      IsOf r.run_id r.agent (value_of parts.summary)
      × IsOf r.run_id r.agent (value_of parts.results)
      × IsOf r.run_id r.agent (value_of parts.alarms)
      × HasArtifacts r.run_id (value_of parts.artifacts)

  nothing_of : (r : Refresh) → AreOf r no_parts
  nothing_of r = (
    null_is r.run_id r.agent,
    null_is r.run_id r.agent,
    null_is r.run_id r.agent,
    no_artifacts r.run_id,
  )

  abbrev pub FitsAnswer : Refresh → Answer → Type 0
  FitsAnswer r (parts_answer parts) = AreOf r parts
  FitsAnswer r (detail_answer d) = Unit
  FitsAnswer r (failed_answer f) = Unit

  -- Whether an event that answers a refresh answers it with what it asked for.
  abbrev pub Fits : Event → Store → Type 0
  Fits (answers i a) s = elim (get_elem? s.refreshes i) [ none ↦ Unit | some r ↦ FitsAnswer r a ]
  Fits _ s = Unit

  abbrev pub AllFit : List Event → Store → Type 0
  AllFit [] s = Unit
  AllFit (e ∷ es) s = Fits e s × AllFit es (step e s)

  pub record IsCoherent (t : State) : Type 0 where
    pub summary_run : (id : String) → t.summary_run_id ≡ some id → t.run_id ≡ some id
    pub results_run : (id : String) → t.results.run_id ≡ some id → t.run_id ≡ some id
    pub alarms_run : (id : String) → t.alarms.run_id ≡ some id → t.run_id ≡ some id
    pub artifacts_run : (id : String) → t.artifacts.run_id ≡ some id → t.run_id ≡ some id
    pub summary_agent : mismatched t.summary t.selected_agent ≡ false
    pub agent_low : 1 ≤ t.selected_agent
    pub agent_high : t.selected_agent ≤ 3
    pub recent : length t.events ≤ max_events
    pub summary_of : Owned t.run_id t.selected_agent t.summary
    pub results_of : Owned t.run_id t.selected_agent t.results.value
    pub alarms_of : Owned t.run_id t.selected_agent t.alarms.value
    pub artifacts_of : OwnedByRun t.run_id t.artifacts.value

  new_store-IsCoherent : IsCoherent (new_store).state
  unfolding new_store initial_state mismatched strict_eq get
  new_store-IsCoherent = record {
    summary_run = λ id e. cc;
    results_run = λ id e. cc;
    alarms_run = λ id e. cc;
    artifacts_run = λ id e. cc;
    summary_agent = refl;
    agent_low = omega arith;
    agent_high = omega arith;
    recent = omega arith;
    summary_of = refl;
    results_of = refl;
    alarms_of = refl;
    artifacts_of = refl;
  }

  cleared_for_run-IsCoherent : (id : String) (t : State) → IsCoherent (cleared_for_run id t)
  unfolding cleared_for_run mismatched strict_eq get
  cleared_for_run-IsCoherent id t = record {
    summary_run = λ id e. cc;
    results_run = λ id e. cc;
    alarms_run = λ id e. cc;
    artifacts_run = λ id e. cc;
    summary_agent = refl;
    agent_low = omega arith;
    agent_high = omega arith;
    recent = omega arith;
    summary_of = null_is id 1;
    results_of = null_is id 1;
    alarms_of = null_is id 1;
    artifacts_of = no_artifacts id;
  }

  refreshed-IsCoherent :
      (r : Refresh) (d : Value) (parts : Parts) (t : State)
      → IsCoherent t
      → t.run_id ≡ some r.run_id
      → r.agent ≡ t.selected_agent
      → mismatched (value_of parts.summary) r.agent ≡ false
      → AreOf r parts
      → IsCoherent (refreshed r d parts t)
  unfolding refreshed
  refreshed-IsCoherent r d parts t v e a f (s, rs, al, ar) = record {
    summary_run = λ id h. owned (truthy (value_of parts.summary)) t.run_id r.run_id id e h;
    results_run = λ id h. owned (truthy (value_of parts.results)) t.run_id r.run_id id e h;
    alarms_run = λ id h. owned (truthy (value_of parts.alarms)) t.run_id r.run_id id e h;
    artifacts_run = λ id h. owned (truthy (value_of parts.artifacts)) t.run_id r.run_id id e h;
    summary_agent = subst (λ n. mismatched (value_of parts.summary) n ≡ false) a f;
    agent_low = v.agent_low;
    agent_high = v.agent_high;
    recent = v.recent;
    summary_of = rw (e, ← a) s;
    results_of = rw (e, ← a) rs;
    alarms_of = rw (e, ← a) al;
    artifacts_of = rw e ar;
  }

  -- The fields that the invariant does not read may change.
  carried :
      (t u : State)
      → IsCoherent t
      → (u.run_id ≡ t.run_id)
        × (u.summary_run_id ≡ t.summary_run_id)
        × (u.results ≡ t.results)
        × (u.alarms ≡ t.alarms)
        × (u.artifacts ≡ t.artifacts)
        × (u.summary ≡ t.summary)
        × (u.selected_agent ≡ t.selected_agent)
      → length u.events ≤ max_events
      → IsCoherent u
  carried t u v (run, s, r, al, ar, sm, ag) n = record {
    summary_run = λ id h. rw run (v.summary_run id (rw s at h));
    results_run = λ id h. rw run (v.results_run id (rw r at h));
    alarms_run = λ id h. rw run (v.alarms_run id (rw al at h));
    artifacts_run = λ id h. rw run (v.artifacts_run id (rw ar at h));
    summary_agent = rw (sm, ag) v.summary_agent;
    agent_low = rw ag v.agent_low;
    agent_high = rw ag v.agent_high;
    recent = n;
    summary_of = rw (run, sm, ag) v.summary_of;
    results_of = rw (run, r, ag) v.results_of;
    alarms_of = rw (run, al, ag) v.alarms_of;
    artifacts_of = rw (run, ar) v.artifacts_of;
  }

  branch :
      (x y : Store) (b : Bool)
      → IsCoherent x.state
      → IsCoherent y.state
      → IsCoherent (if b then x else y).state
  branch x y true p q = p
  branch x y false p q = q

  fail_refresh-IsCoherent :
      (r : Refresh) (f : Failure) (s : Store)
      → IsCoherent s.state
      → IsCoherent (fail_refresh r f s).state
  unfolding fail_refresh emit
  fail_refresh-IsCoherent r aborted s v = v
  fail_refresh-IsCoherent r (failure e) s v =
      branch _ _ (is_current r s.state)
        (carried s.state _ v (refl, refl, refl, refl, refl, refl, refl) v.recent) v

  apply_refresh-IsCoherent :
      (r : Refresh) (d : Value) (parts : Parts) (s : Store)
      → IsCoherent s.state
      → AreOf r parts
      → IsCoherent (apply_refresh r d parts s).state
  unfolding apply_refresh emit
  apply_refresh-IsCoherent r d parts s v fits = elim (Bool-cases (is_current r s.state)) [
    | inr c ↦ rw (c, apply_refresh) v
    | inl c ↦ elim (Bool-cases (mismatched (value_of parts.summary) r.agent)) [
      | inl m ↦
          rw (c, m, apply_refresh) (fail_refresh-IsCoherent r (failure selection_mismatch) s v)
      | inr m ↦
          let (e, a) = is_current→eq r s.state c in
          rw (c, m, apply_refresh) (refreshed-IsCoherent r d parts s.state v e a m fits)
    ]
  ]

  on_open-IsCoherent :
      (id : String) (s : Store) → IsCoherent s.state → IsCoherent (on_open id s).state
  unfolding on_open emit
  on_open-IsCoherent id s v =
      branch _ _ (is_run s.state.run_id id)
        (carried s.state _ v (refl, refl, refl, refl, refl, refl, refl) v.recent) v

  with_event-IsCoherent :
      (id : String) (e : Value) (t : State) → IsCoherent t → IsCoherent (with_event id e t)
  unfolding with_event
  with_event-IsCoherent id e t v =
      carried t _ v (refl, refl, refl, refl, refl, refl, refl)
        (length-take_last max_events (t.events ++ event_record e ∷ []))

  begun : (b : Bool) (s : Store) → IsCoherent s.state → IsCoherent (begin_refresh b s).state
  begun b s v = rw (begin_refresh_state b s) v

  cleared_for_agent-IsCoherent :
      (n : ℕ) (t : State) → IsCoherent t → (1 ≤ n) × (n ≤ 3) → IsCoherent (cleared_for_agent n t)
  unfolding cleared_for_agent mismatched strict_eq get
  cleared_for_agent-IsCoherent n t v (low, high) = record {
    summary_run = λ id e. cc;
    results_run = λ id e. cc;
    alarms_run = λ id e. cc;
    artifacts_run = v.artifacts_run;
    summary_agent = refl;
    agent_low = low;
    agent_high = high;
    recent = v.recent;
    summary_of = Owned-null t.run_id n;
    results_of = Owned-null t.run_id n;
    alarms_of = Owned-null t.run_id n;
    artifacts_of = v.artifacts_of;
  }

  select_run-IsCoherent : (id : String) (s : Store) → IsCoherent (select_run id s).state
  unfolding select_run emit
  select_run-IsCoherent id s =
      begun true _ (cleared_for_run-IsCoherent id (close_run_subscription s).state)

  reconnect-IsCoherent :
      (t : Timer) (s : Store) → IsCoherent s.state → IsCoherent (reconnect t s).state
  unfolding reconnect
  reconnect-IsCoherent t s v = branch _ _ (is_run s.state.run_id t.run_id) (begun true s v) v

  on_event-IsCoherent :
      (id : String) (e : Value) (s : Store)
      → IsCoherent s.state
      → IsCoherent (on_event id e s).state
  unfolding on_event
  on_event-IsCoherent id e s v = branch _ _ (not (is_run s.state.run_id id)) v (
      branch _ _ (strict_eq (get "type" e) (str "stream.reset"))
        (begun false (emit (record s.state { connection = connected }) "sse" s) (open_now s v))
        (branch _ _ (not (is_newer_event_id s.state.last_event_id (get "id" e))) v (
          branch _ _ (truthy (status_of e) || is_terminal_status (status_of e))
            (begun false (emit (with_event id e s.state) "sse" s) (noted s v)) (noted s v))))
    where
      status_of : Value → Value
      status_of e = get "status" (get "data" e)

      open_now :
          (s : Store)
          → IsCoherent s.state
          → IsCoherent (emit (record s.state { connection = connected }) "sse" s).state
      open_now s v =
          unfold emit in (carried s.state _ v (refl, refl, refl, refl, refl, refl, refl) v.recent)

      noted :
          (s : Store)
          → IsCoherent s.state
          → IsCoherent (emit (with_event id e s.state) "sse" s).state
      noted s v = unfold emit in with_event-IsCoherent id e s.state v

  on_disconnect-IsCoherent :
      (id : String) (s : Store) → IsCoherent s.state → IsCoherent (on_disconnect id s).state
  unfolding on_disconnect emit
  on_disconnect-IsCoherent id s v =
      branch _ _ (not (is_run s.state.run_id id)) v
        (carried s.state _ v (refl, refl, refl, refl, refl, refl, refl) v.recent)

  refresh_readiness-IsCoherent :
      (b : Bool) (s : Store) → IsCoherent s.state → IsCoherent (refresh_readiness b s).state
  unfolding refresh_readiness emit
  refresh_readiness-IsCoherent b s v = branch _ _ s.state.readiness_loading v (
      branch _ _ (not b) (carried s.state _ v (refl, refl, refl, refl, refl, refl, refl) v.recent)
        (carried s.state _ v (refl, refl, refl, refl, refl, refl, refl) v.recent))

  answer_readiness-IsCoherent :
      (c : ℕ) (a : ReadinessAnswer) (s : Store)
      → IsCoherent s.state
      → IsCoherent (answer_readiness c a s).state
  unfolding answer_readiness emit
  answer_readiness-IsCoherent c (ready r) s v =
      branch _ _ (holds s.readiness_controller c)
        (carried s.state _ v (refl, refl, refl, refl, refl, refl, refl) v.recent) v
  answer_readiness-IsCoherent c (not_ready aborted) s v = v
  answer_readiness-IsCoherent c (not_ready (failure e)) s v =
      branch _ _ (holds s.readiness_controller c)
        (carried s.state _ v (refl, refl, refl, refl, refl, refl, refl) v.recent) v

  start_readiness-IsCoherent :
      (b : Bool) (s : Store) → IsCoherent s.state → IsCoherent (start_readiness b s).state
  unfolding start_readiness
  start_readiness-IsCoherent b s v =
      branch _ _ s.readiness_timer v (refresh_readiness-IsCoherent b s v)

  select_agent-IsCoherent :
      (n : ℕ) (s : Store) → IsCoherent s.state → IsCoherent (select_agent n s).state
  unfolding select_agent
  select_agent-IsCoherent n s v = elim (Bool-cases (is_agent n)) [
    | inr c ↦ rw c v
    | inl c ↦ rw c (
        branch _ _
          (s.state.selected_agent == n
            && strict_eq (get "agent" (get "selection" s.state.summary)) (nat n))
          v
          (begun false (emit (cleared_for_agent n s.state) "agent-selection" s)
            (unfold emit in cleared_for_agent-IsCoherent n s.state v (agent_range n c))))
  ]

  ended-IsCoherent : (r : Refresh) (s : Store) → IsCoherent s.state → IsCoherent (ended r s).state
  ended-IsCoherent r s v = branch _ _ r.connects (rw (connect_state s) v) v

  answer_detail-IsCoherent :
      (r : Refresh) (d : Value) (s : Store)
      → IsCoherent s.state
      → IsCoherent (answer_detail r d s).state
  unfolding answer_detail
  answer_detail-IsCoherent r d s v =
      branch _ _ (is_nullish d)
        (ended-IsCoherent r (fail_refresh r (failure null_detail) s)
          (fail_refresh-IsCoherent r (failure null_detail) s v))
        (branch _ _ (strict_eq (get "status" d) (str "COMPLETED"))
          (elim s.request_controller
            as (λ c.
              IsCoherent
                (elim c as (λ _. Store) [
                  | none ↦ ended r (fail_refresh r (failure null_controller) s)
                  | some _ ↦ record s { refreshes = record r { stage = at_parts d } ∷ s.refreshes }
                ]).state) [
                  | none ↦
                      ended-IsCoherent r (fail_refresh r (failure null_controller) s)
                        (fail_refresh-IsCoherent r (failure null_controller) s v)
                  | some c ↦ v
                ])
          (ended-IsCoherent r (apply_refresh r d no_parts s)
            (apply_refresh-IsCoherent r d no_parts s v (nothing_of r))))

  answer-IsCoherent :
      (r : Refresh) (p : Stage) (a : Answer) (s : Store)
      → IsCoherent s.state
      → FitsAnswer r a
      → IsCoherent (answer r p a s).state
  unfolding answer
  answer-IsCoherent r at_detail (detail_answer d) s v fits = answer_detail-IsCoherent r d s v
  answer-IsCoherent r at_detail (failed_answer f) s v fits =
      ended-IsCoherent r (fail_refresh r f s) (fail_refresh-IsCoherent r f s v)
  answer-IsCoherent r at_detail (parts_answer ps) s v fits = v
  answer-IsCoherent r (at_parts d) (parts_answer ps) s v fits =
      ended-IsCoherent r (apply_refresh r d ps s) (apply_refresh-IsCoherent r d ps s v fits)
  answer-IsCoherent r (at_parts d) (failed_answer f) s v fits =
      ended-IsCoherent r (fail_refresh r f s) (fail_refresh-IsCoherent r f s v)
  answer-IsCoherent r (at_parts d) (detail_answer o) s v fits = v

  pub step-IsCoherent :
      (e : Event) (s : Store) → IsCoherent s.state → Fits e s → IsCoherent (step e s).state
  unfolding step
  step-IsCoherent (selects id) s v fits = select_run-IsCoherent id s
  step-IsCoherent (selects_agent n) s v fits = select_agent-IsCoherent n s v
  step-IsCoherent asks_refresh s v fits = begun false s v
  step-IsCoherent closes s v fits = unfold close close_run_subscription in v
  step-IsCoherent (answers i a) s v fits = elim (Option-cases (get_elem? s.refreshes i)) [
    | inl e ↦ rw (e, step) v
    | inr (r, e) ↦ rw (e, step) (answer-IsCoherent r r.stage a _ v (rw (e, Fits) at fits))
  ]
  step-IsCoherent (opens id) s v fits = on_open-IsCoherent id s v
  step-IsCoherent (delivers id e) s v fits = on_event-IsCoherent id e s v
  step-IsCoherent (drops id) s v fits = on_disconnect-IsCoherent id s v
  step-IsCoherent (reconnects i) s v fits = elim (Option-cases (get_elem? s.timers i)) [
    | inl e ↦ rw (e, step) v
    | inr (t, e) ↦ rw (e, step) (reconnect-IsCoherent t _ v)
  ]
  step-IsCoherent (starts_readiness b) s v fits = start_readiness-IsCoherent b s v
  step-IsCoherent (asks_readiness b) s v fits = refresh_readiness-IsCoherent b s v
  step-IsCoherent (answers_readiness i a) s v fits =
      elim (Option-cases (get_elem? s.readiness_requests i)) [
        | inl e ↦ rw (e, step) v
        | inr (c, e) ↦ rw (e, step) (answer_readiness-IsCoherent c a _ v)
      ]

  run-IsCoherent :
      (es : List Event) (s : Store) → IsCoherent s.state → AllFit es s → IsCoherent (run es s).state
  unfolding run
  run-IsCoherent [] s v fits = v
  run-IsCoherent (e ∷ es) s v (fits, rest) =
      run-IsCoherent es (step e s) (step-IsCoherent e s v fits) rest

  -- After any history of calls, answers, stream events and timers, in any order, where the values that
  -- answer a request for a run and an agent are of that run and agent: the summary, the results and the
  -- alarms that the store holds are of its selected run and agent, the artifacts of its selected run,
  -- and without a run it holds none of them; each that is marked for a run is marked for the selected
  -- one; the summary declares no other agent than the selected one, that is 1, 2 or 3; and at most 100
  -- events are kept.
  pub run-new_store-IsCoherent :
      (es : List Event) → AllFit es new_store → IsCoherent (run es new_store).state
  run-new_store-IsCoherent es fits = run-IsCoherent es new_store new_store-IsCoherent fits
