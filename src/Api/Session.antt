-- ===== src/Api/Session.antt =====
-- frontend/src/api/live-api.ts: the life of the stream that `subscribeSimulationEvents` opens, split
-- where it awaits the response and the next chunk. `parse` is `JSON.parse`, `none` where it throws;
-- `closes` says which calls of a handler close the stream themselves, and `throws` what a call of a
-- handler throws. What a handler throws out of the `catch` block is left unhandled by the source.
pub mod Shape
pub mod Whole
use federated_iot_platform.Prelude.{
  Bool, true, false, not, ◌&&◌, ◌||◌, Option, none, some, List, [], ◌∷◌, ◌++◌, String,
  if◌then◌else◌, any, map,
}
use federated_iot_platform.Js.{Value, get, truthy, text, obj, end}
use federated_iot_platform.Api.{feed}
use federated_iot_platform.Api.Frames.{StreamEvent, next_id, fields_from, split_lines}

-- The calls of the three handlers.
pub data Notice : Type 0 where
  opened : Notice
  event : StreamEvent → Notice
  disconnected : Option Value → Notice

-- Why a stream ends early: an answer that is no stream, what was thrown, a text that is no JSON.
pub data Input : Type 0 where
  refused : Value → Input
  accepted : Input
  chunk : String → Input
  ended : Input
  broken : Value → Input
  close : Input

pub data Phase : Type 0 where
  connecting : Phase
  reading : String → Value → Phase
  over : Phase

pub record Session : Type 0 where
  pub phase : Phase
  pub aborted : Bool

abbrev pub new_session : Session
new_session = record { phase = connecting; aborted = false }

abbrev pub then_notices : List Notice → Session × List Notice → Session × List Notice
then_notices ns (s, ms) = (s, ns ++ ms)

-- `while (!controller.signal.aborted)`: the next read, or the end.
unfoldable pub next_read : Bool → String → Value → Session
next_read aborted buffer id =
    if aborted
    then record { phase = over; aborted = true }
    else record { phase = reading buffer id; aborted = false }

module _ (parse : String → Option Value) (syntax_error : Value)
    (throws : Notice → Option Value) where
  -- The calls for the frames of a chunk, the last id, and what left the loop, if anything did: a text
  -- that is no JSON, or what a handler threw.
  unfoldable pub notices_of : Value → List String → List Notice × Value × Option Value
  notices_of id [] = ([], id, none)
  notices_of id (f ∷ fs) =
      let fields = obj (fields_from (split_lines f) end) in
      let next = next_id (λ _. syntax_error) id fields in
      let (later, last, error) = notices_of next fs in
      if truthy (get "event" fields) && truthy (get "data" fields)
      then elim (parse (text (get "data" fields))) [
        | none ↦ ([], next, some syntax_error)
        | some content ↦
            let told =
              event (record { id = next; kind = text (get "event" fields); content = content }) in
            elim (throws told) [
              | none ↦ (told ∷ later, last, error)
              | some e ↦ (told ∷ [], next, some e)
            ]
      ]
      else (later, last, error)

module _ (parse : String → Option Value) (syntax_error : Value) (last_event_id : Value)
    (closes : Notice → Bool) (throws : Notice → Option Value) where
  -- The end of `request`: inside the `try` block, whose report may throw and is then caught, and with an
  -- error that was caught.
  unfoldable pub finish : Bool → Option Value → Session × List Notice
  finish aborted none =
      let again : List Notice = elim (throws (disconnected none)) [
        | none ↦ []
        | some e ↦ if closes (disconnected none) then [] else disconnected (some e) ∷ []
      ] in
      (
        record { phase = over; aborted = aborted },
        if aborted then [] else disconnected none ∷ again,
      )
  finish aborted (some e) = (
    record { phase = over; aborted = aborted },
    if aborted then [] else disconnected (some e) ∷ [],
  )

  -- After the calls of an opening or of a chunk: the next read, or the `catch` block with what was thrown.
  unfoldable pub after_calls :
      Bool → String → List Notice → Value → Option Value → Session × List Notice
  unfolding next_read finish
  after_calls closed rest ns last none = (next_read closed rest last, ns)
  after_calls closed rest ns last (some e) = then_notices ns (finish closed (some e))

  -- A chunk that was read is handed on even where the stream was closed meanwhile.
  unfoldable pub on_chunk : Bool → String → Value → String → Session × List Notice
  unfolding notices_of after_calls
  on_chunk aborted buffer id c =
      let (frames, rest) = feed buffer c in
      let (ns, last, error) = notices_of parse syntax_error throws id frames in
      after_calls (aborted || any closes ns) rest ns last error

  unfoldable pub on_accepted : Session × List Notice
  unfolding after_calls
  on_accepted = after_calls (closes opened) "" (opened ∷ []) last_event_id (throws opened)

  unfoldable pub step_in : Phase → Bool → Input → Session × List Notice
  unfolding on_chunk on_accepted finish
  step_in phase aborted close = (record { phase = phase; aborted = true }, [])
  step_in connecting aborted (refused e) = finish aborted (some e)
  step_in connecting aborted accepted =
      if aborted then (record { phase = over; aborted = true }, []) else on_accepted
  step_in (reading buffer id) aborted (chunk c) = on_chunk aborted buffer id c
  step_in (reading buffer id) aborted ended = finish aborted none
  step_in (reading buffer id) aborted (broken e) = finish aborted (some e)
  step_in phase aborted input = (record { phase = phase; aborted = aborted }, [])

  unfoldable pub run_session : Session → List Input → Session × List Notice
  unfolding step_in
  run_session s [] = (s, [])
  run_session s (i ∷ is) =
      let (next, ns) = step_in s.phase s.aborted i in then_notices ns (run_session next is)
