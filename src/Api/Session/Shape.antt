-- ===== src/Api/Session/Shape.antt =====
-- frontend/src/api/live-api.ts: the order of the calls that `subscribeSimulationEvents` makes.
use federated_iot_platform.Prelude.{
  Bool, true, false, Option, none, some, List, [], ◌∷◌, ◌++◌, String, ◌≡◌, refl, arith, Bool-cases,
  inl, inr, Option-cases, ◌⊎◌, any, ◌||◌,
}
use federated_iot_platform.Js.{Value, obj, end}
use federated_iot_platform.Api.{feed}
use federated_iot_platform.Api.Frames.{next_id, fields_from, split_lines}
use federated_iot_platform.Api.Session.{
  Notice, opened, event, disconnected, Input, refused, accepted, chunk, ended, broken, close, Phase,
  connecting, reading, over, Session, new_session, finish, notices_of, next_read, after_calls,
  on_chunk, on_accepted, run_session,
}

-- Events alone.
abbrev pub IsEvents : List Notice → Type 0
IsEvents [] = Unit
IsEvents (event e ∷ ns) = IsEvents ns
IsEvents (opened ∷ ns) = ⊥
IsEvents (disconnected e ∷ ns) = ⊥

IsEvents-append : (ns ms : List Notice) → IsEvents ns → IsEvents ms → IsEvents (ns ++ ms)
IsEvents-append [] ms h k = k
IsEvents-append (event e ∷ ns) ms h k = IsEvents-append ns ms h k
IsEvents-append (opened ∷ ns) ms h k = elim h [ ]
IsEvents-append (disconnected e ∷ ns) ms h k = elim h [ ]

pub append-nil : (ns : List Notice) → ns ++ [] ≡ ns
append-nil [] = refl
append-nil (n ∷ ns) = ground (arith, append-nil ns)

module _ (throws : Notice → Option Value) where
  -- A report of the end that the handler throws out of is followed by one with what it threw.
  abbrev pub IsAfterEnd : Option Value → List Notice → Type 0
  IsAfterEnd none ns =
      (ns ≡ [])
      ⊎ ((e : Value) × (throws (disconnected none) ≡ some e) × (ns ≡ disconnected (some e) ∷ []))
  IsAfterEnd (some e) ns = ns ≡ []

  -- Events, then at most the end of the connection.
  abbrev pub IsTail : List Notice → Type 0
  IsTail [] = Unit
  IsTail (event e ∷ ns) = IsTail ns
  IsTail (opened ∷ ns) = ⊥
  IsTail (disconnected e ∷ ns) = IsAfterEnd e ns

  -- The opening before any event; with no opening, at most the end.
  abbrev pub IsProtocol : List Notice → Type 0
  IsProtocol [] = Unit
  IsProtocol (opened ∷ ns) = IsTail ns
  IsProtocol (disconnected e ∷ ns) = IsAfterEnd e ns
  IsProtocol (event e ∷ ns) = ⊥

  IsTail-append : (ns ms : List Notice) → IsEvents ns → IsTail ms → IsTail (ns ++ ms)
  IsTail-append [] ms h k = k
  IsTail-append (event e ∷ ns) ms h k = IsTail-append ns ms h k
  IsTail-append (opened ∷ ns) ms h k = elim h [ ]
  IsTail-append (disconnected e ∷ ns) ms h k = elim h [ ]

module _ (parse : String → Option Value) (syntax_error : Value) (last_event_id : Value)
    (closes : Notice → Bool) (throws : Notice → Option Value) where
  abbrev pub run_from : Session → List Input → Session × List Notice
  run_from = run_session parse syntax_error last_event_id closes throws

  abbrev ending : Bool → Option Value → Session × List Notice
  ending = finish parse syntax_error last_event_id closes throws

  notices_of-IsEvents :
      (id : Value) (fs : List String) → IsEvents (notices_of parse syntax_error throws id fs).0
  unfolding notices_of
  notices_of-IsEvents id [] = tt
  notices_of-IsEvents id (f ∷ fs) =
      let fields = obj (fields_from (split_lines f) end) in
      ground (arith, notices_of-IsEvents (next_id (λ _. syntax_error) id fields) fs)

  pub over_silent :
      (aborted : Bool) (is : List Input)
      → (run_from (record { phase = over; aborted = aborted }) is).1 ≡ []
  unfolding run_session
  over_silent aborted [] = refl
  over_silent aborted (close ∷ is) = over_silent true is
  over_silent aborted (refused e ∷ is) = over_silent aborted is
  over_silent aborted (accepted ∷ is) = over_silent aborted is
  over_silent aborted (chunk c ∷ is) = over_silent aborted is
  over_silent aborted (ended ∷ is) = over_silent aborted is
  over_silent aborted (broken e ∷ is) = over_silent aborted is

  abbrev IsRest : Bool → List Notice → Type 0
  IsRest true ns = IsEvents ns
  IsRest false ns = IsTail throws ns

  IsTail-of_IsEvents : (ns : List Notice) → IsEvents ns → IsTail throws ns
  IsTail-of_IsEvents ns h = rw (← append-nil ns) (IsTail-append throws ns [] h tt)

  IsRest-closed : (aborted : Bool) (ns : List Notice) → IsEvents ns → IsRest aborted ns
  IsRest-closed true ns h = h
  IsRest-closed false ns h = IsTail-of_IsEvents ns h

  IsRest-nil : (aborted : Bool) → IsRest aborted []
  IsRest-nil true = tt
  IsRest-nil false = tt

  IsRest-append :
      (aborted : Bool) (ns ms : List Notice)
      → IsEvents ns
      → IsRest aborted ms
      → IsRest aborted (ns ++ ms)
  IsRest-append true ns ms h k = IsEvents-append ns ms h k
  IsRest-append false ns ms h k = IsTail-append throws ns ms h k

  IsRest-weaken :
      (aborted more : Bool) (ns : List Notice) → IsRest (aborted || more) ns → IsRest aborted ns
  IsRest-weaken true more ns h = h
  IsRest-weaken false true ns h = IsTail-of_IsEvents ns h
  IsRest-weaken false false ns h = h

  finish-IsRest : (aborted : Bool) (error : Option Value) → IsRest aborted (ending aborted error).1
  unfolding finish
  finish-IsRest true none = tt
  finish-IsRest true (some e) = tt
  finish-IsRest false (some e) = refl
  finish-IsRest false none = elim (Option-cases (throws (disconnected none))) [
    | inl n ↦ rw n (inl refl)
    | inr (e, n) ↦ elim (Bool-cases (closes (disconnected none))) [
      | inl c ↦ rw (n, c) (inl refl)
      | inr c ↦ rw (n, c) (inr (e, refl, refl))
    ]
  ]

  finish_silent :
      (aborted : Bool) (error : Option Value) (is : List Input)
      → (run_from (ending aborted error).0 is).1 ≡ []
  unfolding finish
  finish_silent aborted none is = over_silent aborted is
  finish_silent aborted (some e) is = over_silent aborted is

  ends-IsRest :
      (aborted : Bool) (ns : List Notice) (error : Option Value) (is : List Input)
      → IsRest aborted ns
      → IsRest aborted (ns ++ (run_from (ending aborted error).0 is).1)
  ends-IsRest aborted ns error is h = rw (finish_silent aborted error is, append-nil ns) h

  next-IsRest :
      (closed : Bool) (b : String) (id : Value) (ns : List Notice) (is : List Input)
      → IsEvents ns
      → IsRest closed (run_from (record { phase = reading b id; aborted = closed }) is).1
      → IsRest closed (ns ++ (run_from (next_read closed b id) is).1)
  unfolding next_read
  next-IsRest true b id ns is h k = rw (over_silent true is, append-nil ns) h
  next-IsRest false b id ns is h k = IsTail-append throws ns _ h k

  calls-IsRest :
      (closed : Bool) (rest : String) (ns : List Notice) (last : Value) (error : Option Value)
      (is : List Input)
      → IsEvents ns
      → IsRest closed (run_from (record { phase = reading rest last; aborted = closed }) is).1
      → let (s, ms) =
          after_calls parse syntax_error last_event_id closes throws closed rest ns last error in
        IsRest closed (ms ++ (run_from s is).1)
  unfolding after_calls
  calls-IsRest closed rest ns last none is h k = next-IsRest closed rest last ns is h k
  calls-IsRest closed rest ns last (some e) is h k =
      ends-IsRest closed (ns ++ (ending closed (some e)).1) (some e) is
        (IsRest-append closed ns _ h (finish-IsRest closed (some e)))

  chunk-IsRest :
      (aborted : Bool) (b : String) (id : Value) (c : String) (is : List Input)
      → ((closed : Bool) (rest : String) (last : Value)
          → IsRest closed (run_from (record { phase = reading rest last; aborted = closed }) is).1)
      → let (s, ns) = on_chunk parse syntax_error last_event_id closes throws aborted b id c in
        IsRest aborted (ns ++ (run_from s is).1)
  unfolding on_chunk
  chunk-IsRest aborted b id c is later =
      let (frames, rest) = feed b c in
      let (ns, last, error) = notices_of parse syntax_error throws id frames in
      let closed = aborted || any closes ns in
      IsRest-weaken aborted (any closes ns) _ (
        calls-IsRest closed rest ns last error is (notices_of-IsEvents id frames)
          (later closed rest last))

  reading-IsRest :
      (aborted : Bool) (b : String) (id : Value) (is : List Input)
      → IsRest aborted (run_from (record { phase = reading b id; aborted = aborted }) is).1
  unfolding run_session
  reading-IsRest aborted b id [] = IsRest-nil aborted
  reading-IsRest aborted b id (close ∷ is) = IsRest-closed aborted _ (reading-IsRest true b id is)
  reading-IsRest aborted b id (refused e ∷ is) = reading-IsRest aborted b id is
  reading-IsRest aborted b id (accepted ∷ is) = reading-IsRest aborted b id is
  reading-IsRest aborted b id (chunk c ∷ is) =
      chunk-IsRest aborted b id c is (λ closed rest last. reading-IsRest closed rest last is)
  reading-IsRest aborted b id (ended ∷ is) =
      ends-IsRest aborted _ none is (finish-IsRest aborted none)
  reading-IsRest aborted b id (broken e ∷ is) =
      ends-IsRest aborted _ (some e) is (finish-IsRest aborted (some e))

  silent_start :
      (aborted : Bool) (is : List Input)
      → IsProtocol throws (run_from (record { phase = over; aborted = aborted }) is).1
  silent_start aborted is = rw (over_silent aborted is) tt

  opened-IsProtocol :
      (closed : Bool) (error : Option Value) (is : List Input)
      → let (s, ns) =
          after_calls parse syntax_error last_event_id closes throws closed ""
            (opened ∷ [])
            last_event_id
            error in
        IsProtocol throws (ns ++ (run_from s is).1)
  unfolding after_calls next_read
  opened-IsProtocol true none is = rw (over_silent true is) tt
  opened-IsProtocol false none is = reading-IsRest false "" last_event_id is
  opened-IsProtocol true (some e) is = unfold finish in rw (over_silent true is) tt
  opened-IsProtocol false (some e) is = unfold finish in over_silent false is

  connecting-IsProtocol :
      (aborted : Bool) (is : List Input)
      → IsProtocol throws (run_from (record { phase = connecting; aborted = aborted }) is).1
  unfolding run_session on_accepted
  connecting-IsProtocol aborted [] = tt
  connecting-IsProtocol aborted (close ∷ is) = connecting-IsProtocol true is
  connecting-IsProtocol true (refused e ∷ is) = silent_start true is
  connecting-IsProtocol false (refused e ∷ is) = over_silent false is
  connecting-IsProtocol true (accepted ∷ is) = silent_start true is
  connecting-IsProtocol false (accepted ∷ is) = opened-IsProtocol (closes opened) (throws opened) is
  connecting-IsProtocol aborted (chunk c ∷ is) = connecting-IsProtocol aborted is
  connecting-IsProtocol aborted (ended ∷ is) = connecting-IsProtocol aborted is
  connecting-IsProtocol aborted (broken e ∷ is) = connecting-IsProtocol aborted is

  -- Whatever the network does, and whatever the handlers close or throw, no event comes before the
  -- opening, the stream opens at most once, and the end of the connection is reported at most once and
  -- last, but for one case: a report without an error that its handler throws out of may be followed
  -- by one report with what the handler threw.
  pub run_session-IsProtocol : (is : List Input) → IsProtocol throws (run_from new_session is).1
  run_session-IsProtocol is = connecting-IsProtocol false is

  -- What may still be handed on from a phase.
  abbrev pub IsLastChunk : Phase → List Notice → Type 0
  IsLastChunk (reading b id) ns =
      (ns ≡ []) ⊎ ((c : String) × (ns ≡ (notices_of parse syntax_error throws id (feed b c).0).0))
  IsLastChunk connecting ns = ns ≡ []
  IsLastChunk over ns = ns ≡ []

  calls_last :
      (rest : String) (ns : List Notice) (last : Value) (error : Option Value) (is : List Input)
      → let (s, ms) =
          after_calls parse syntax_error last_event_id closes throws true rest ns last error in
        ms ++ (run_from s is).1 ≡ ns
  unfolding after_calls next_read finish
  calls_last rest ns last none is = rw (over_silent true is) (append-nil ns)
  calls_last rest ns last (some e) is =
      rw (over_silent true is, append-nil (ns ++ [])) (append-nil ns)

  chunk_last :
      (b : String) (id : Value) (c : String) (is : List Input)
      → let (s, ns) = on_chunk parse syntax_error last_event_id closes throws true b id c in
        ns ++ (run_from s is).1 ≡ (notices_of parse syntax_error throws id (feed b c).0).0
  unfolding on_chunk
  chunk_last b id c is =
      let (frames, rest) = feed b c in
      let (ns, last, error) = notices_of parse syntax_error throws id frames in
      calls_last rest ns last error is

  aborted_last :
      (phase : Phase) (is : List Input)
      → IsLastChunk phase (run_from (record { phase = phase; aborted = true }) is).1
  unfolding run_session
  aborted_last over is = over_silent true is
  aborted_last connecting [] = refl
  aborted_last connecting (close ∷ is) = aborted_last connecting is
  aborted_last connecting (refused e ∷ is) = over_silent true is
  aborted_last connecting (accepted ∷ is) = over_silent true is
  aborted_last connecting (chunk c ∷ is) = aborted_last connecting is
  aborted_last connecting (ended ∷ is) = aborted_last connecting is
  aborted_last connecting (broken e ∷ is) = aborted_last connecting is
  aborted_last (reading b id) [] = inl refl
  aborted_last (reading b id) (close ∷ is) = aborted_last (reading b id) is
  aborted_last (reading b id) (refused e ∷ is) = aborted_last (reading b id) is
  aborted_last (reading b id) (accepted ∷ is) = aborted_last (reading b id) is
  aborted_last (reading b id) (chunk c ∷ is) = inr (c, chunk_last b id c is)
  aborted_last (reading b id) (ended ∷ is) = inl (over_silent true is)
  aborted_last (reading b id) (broken e ∷ is) = inl (over_silent true is)

  IsEvents-of_last : (phase : Phase) (ns : List Notice) → IsLastChunk phase ns → IsEvents ns
  IsEvents-of_last connecting ns h = rw h tt
  IsEvents-of_last over ns h = rw h tt
  IsEvents-of_last (reading b id) ns (inl h) = rw h tt
  IsEvents-of_last (reading b id) ns (inr (c, h)) = rw h (notices_of-IsEvents id (feed b c).0)

  -- Once the stream is closed, only a chunk that was being read is still handed on, and neither
  -- the opening nor the end of the connection is reported.
  pub run_session-close :
      (s : Session) (is : List Input)
      → IsLastChunk s.phase (run_from s (close ∷ is)).1 × IsEvents (run_from s (close ∷ is)).1
  unfolding run_session
  run_session-close s is =
      (aborted_last s.phase is, IsEvents-of_last s.phase _ (aborted_last s.phase is))
