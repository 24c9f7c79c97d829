-- ===== src/Api/Session/Whole.antt =====
-- frontend/src/api/live-api.ts: a stream of `subscribeSimulationEvents` against what a reader of the
-- whole text would report at once.
use mathlib.Core.List.{[], ◌∷◌}
use federated_iot_platform.Prelude.{
  Bool, false, Option, none, some, List, ◌++◌, String, ◌≡◌, refl, map, Bool-cases, inl, inr, ◌&&◌,
  ◌∙◌, ap, sym, any, Option-cases,
}
use federated_iot_platform.Js.{Value, get, truthy, text, obj, end}
use federated_iot_platform.Api.{feed, feed_all}
use federated_iot_platform.Api.Chunks.{whole, feed_all-whole}
use federated_iot_platform.Api.Frames.{next_id, fields_from, split_lines}
use federated_iot_platform.Api.Session.Shape.{append-nil, over_silent}
use federated_iot_platform.Api.Session.{
  Notice, opened, disconnected, Input, accepted, chunk, ended, reading, Session, new_session,
  finish, notices_of, next_read, after_calls, on_chunk, on_accepted, run_session, event,
}

append_assoc : (a b c : List Notice) → (a ++ b) ++ c ≡ a ++ (b ++ c)
append_assoc [] b c = refl
append_assoc (n ∷ a) b c = ap (λ ns. n ∷ ns) (append_assoc a b c)

any-false :
    (closes : Notice → Bool)
    → ((n : Notice) → closes n ≡ false)
    → (ns : List Notice) → any closes ns ≡ false
any-false closes open_ [] = refl
any-false closes open_ (n ∷ ns) = rw (open_ n) (any-false closes open_ ns)

module _ (parse : String → Option Value) (syntax_error : Value) (last_event_id : Value)
    (closes : Notice → Bool) (throws : Notice → Option Value) where
  abbrev run_from : Session → List Input → Session × List Notice
  run_from = run_session parse syntax_error last_event_id closes throws

  abbrev pub chunks_then_end : List String → List Input
  chunks_then_end cs = map chunk cs ++ (ended ∷ [])

  abbrev notices : Value → List String → List Notice × Value × Option Value
  notices = notices_of parse syntax_error throws

  -- The calls for some frames, and the end of the connection after them.
  abbrev pub reported : List Notice × Value × Option Value → List Notice
  reported (ns, last, error) = ns ++ (disconnected error ∷ [])

  -- What a reader of a whole text reports.
  abbrev pub whole_notices : Value → String → List Notice
  whole_notices id t = opened ∷ reported (notices id (feed "" t).0)

  abbrev and_then : List Notice × Value × Option Value → List String → List Notice
  and_then (ns, last, none) gs = ns ++ reported (notices last gs)
  and_then (ns, last, some e) gs = reported (ns, last, some e)

  prepend_event :
      (n : Notice) (r q : List Notice × Value × Option Value) (gs : List String)
      → reported r ≡ and_then q gs
      → reported (n ∷ r.0, r.1, r.2) ≡ and_then (n ∷ q.0, q.1, q.2) gs
  prepend_event n r (ns, last, none) gs h = ap (λ ms. n ∷ ms) h
  prepend_event n r (ns, last, some e) gs h = ap (λ ms. n ∷ ms) h

  module _ (calm : (n : Notice) → throws n ≡ none) where
    reported-append :
        (id : Value) (fs gs : List String)
        → reported (notices id (fs ++ gs)) ≡ and_then (notices id fs) gs
    unfolding notices_of
    reported-append id [] gs = refl
    reported-append id (f ∷ fs) gs =
        let fields = obj (fields_from (split_lines f) end) in
        let next = next_id (λ _. syntax_error) id fields in
        let ih = reported-append next fs gs in
        elim (Bool-cases (truthy (get "event" fields) && truthy (get "data" fields))) [
          | inr e ↦ rw e ih
          | inl e ↦ elim (Option-cases (parse (text (get "data" fields)))) [
            | inl n ↦ rw (e, n) refl
            | inr (v, n) ↦
                let told =
                  event (record { id = next; kind = text (get "event" fields); content = v }) in
                rw (e, n, calm told)
                  (prepend_event told (notices next (fs ++ gs)) (notices next fs) gs ih)
          ]
        ]

    finish-reported :
        (is : List Input)
        → let (s, ns) = finish parse syntax_error last_event_id closes throws false none in
          ns ++ (run_from s is).1 ≡ disconnected none ∷ []
    unfolding finish
    finish-reported is =
        rw
          (
            calm (disconnected none),
            over_silent parse syntax_error last_event_id closes throws false is,
          )
          refl

    module _ (stays_open : (n : Notice) → closes n ≡ false) where
      calls-reported :
          (rest : String) (ns : List Notice) (last : Value) (error : Option Value)
          (cs : List String)
          → let (s, ms) =
              after_calls parse syntax_error last_event_id closes throws false rest ns last error in
            (run_from
                (record { phase = reading rest last; aborted = false })
                (chunks_then_end cs)).1
              ≡ reported (notices last (feed_all rest cs).0)
            → ms ++ (run_from s (chunks_then_end cs)).1
              ≡ and_then (ns, last, error) (feed_all rest cs).0
      unfolding after_calls next_read finish
      calls-reported rest ns last none cs later = ap (λ ms. ns ++ ms) later
      calls-reported rest ns last (some e) cs later =
          rw (over_silent parse syntax_error last_event_id closes throws false (chunks_then_end cs))
            (append-nil (ns ++ (disconnected (some e) ∷ [])))

      chunk-reported :
          (b : String) (id : Value) (c : String) (cs : List String)
          → let (frames, rest) = feed b c in
            let (s, ns) = on_chunk parse syntax_error last_event_id closes throws false b id c in
            (run_from
                (record { phase = reading rest (notices id frames).1; aborted = false })
                (chunks_then_end cs)).1
              ≡ reported (notices (notices id frames).1 (feed_all rest cs).0)
            → ns ++ (run_from s (chunks_then_end cs)).1
              ≡ and_then (notices id frames) (feed_all rest cs).0
      unfolding on_chunk
      chunk-reported b id c cs later =
          let (frames, rest) = feed b c in
          let (ns, last, error) = notices id frames in
          rw (any-false closes stays_open ns) (calls-reported rest ns last error cs later)

      reading-reported :
          (b : String) (id : Value) (cs : List String)
          → (run_from (record { phase = reading b id; aborted = false }) (chunks_then_end cs)).1
            ≡ reported (notices id (feed_all b cs).0)
      unfolding run_session feed_all
      reading-reported b id [] = unfold notices_of in finish-reported []
      reading-reported b id (c ∷ cs) =
          let (frames, rest) = feed b c in
          chunk-reported b id c cs (reading-reported rest (notices id frames).1 cs)
          ∙ sym (reported-append id frames (feed_all rest cs).0)

      -- However the text of a stream is cut into chunks, while no handler closes it or throws, the stream
      -- reports
      -- its opening, the events of the frames of the whole text up to the first that is no JSON, and the
      -- end of the connection, with an error exactly if there was such a frame.
      pub run_session-whole :
          (cs : List String)
          → (run_from new_session (accepted ∷ chunks_then_end cs)).1
            ≡ whole_notices last_event_id (whole cs)
      unfolding run_session on_accepted after_calls next_read
      run_session-whole cs =
          rw (stays_open opened, calm opened)
            (ap (λ ns. opened ∷ ns)
              (reading-reported "" last_event_id cs
                ∙ ap (λ x. reported (notices last_event_id x.0)) (feed_all-whole cs)))
