-- ===== src/Api/Frames.antt =====
-- frontend/src/api/live-api.ts: the events of the frames in `subscribeSimulationEvents`. `parse` is
-- `JSON.parse` on the data of an event, where it succeeds.
use Prim.Native.Char.{Char, code}
use Prim.Native.String.{[], ◌∷◌}
use mathlib.Core.List.{List, [], ◌∷◌}
use federated_iot_platform.Prelude.{
  Bool, false, ◌&&◌, Option, none, some, String, ◌==◌, if◌then◌else◌, ◌++◌, ◌≡◌, refl, ap, ◌∙◌, sym,
}
use federated_iot_platform.Js.{
  Value, num, str, obj, Fields, end, get, number, truthy, text, trim_start,
}
use federated_iot_platform.Js.Objects.{insert}
use federated_iot_platform.Api.{is_cr, is_lf, feed, feed_all}
use federated_iot_platform.Api.Chunks.{whole, feed_all-whole}

abbrev pub starts_with_lf : String → Bool
starts_with_lf [] = false
starts_with_lf (c ∷ s) = is_lf c

abbrev pub onto_first : Char → List String → List String
onto_first c [] = []
onto_first c (l ∷ ls) = (c ∷ l) ∷ ls

-- `frame.split(/\r?\n/)`.
unfoldable pub split_lines : String → List String
split_lines [] = "" ∷ []
split_lines (c ∷ s) =
    let rest = split_lines s in
    if is_lf c then "" ∷ rest else if is_cr c && starts_with_lf s then rest else onto_first c rest

-- What is before and after the first colon of a line.
unfoldable pub cut_colon : String → Option (String × String)
cut_colon [] = none
cut_colon (c ∷ s) =
    let later = cut_colon s in
    if code c == b':'
    then some ([], s)
    else elim later [ none ↦ none | some (k, v) ↦ some (c ∷ k, v) ]

-- The fields of a frame; of two lines with one name the later counts.
unfoldable pub fields_from : List String → Fields → Fields
fields_from [] fs = fs
fields_from (l ∷ ls) fs = elim (cut_colon l) [
  | none ↦ fields_from ls fs
  | some (k, v) ↦ fields_from ls (insert k (str (trim_start v)) fs)
]

pub record StreamEvent : Type 0 where
  pub id : Value
  pub kind : String
  pub content : Value

module _ (parse : String → Value) where
  unfoldable pub next_id : Value → Value → Value
  next_id id fields = if truthy (get "id" fields) then num (number (get "id" fields)) else id

  unfoldable pub event_of : Value → Value → List StreamEvent
  event_of id fields =
      if truthy (get "event" fields) && truthy (get "data" fields)
      then record {
        id = id;
        kind = text (get "event" fields);
        content = parse (text (get "data" fields));
      }
        ∷ []
      else []

  -- The events of some frames, and the last event id after them.
  unfoldable pub handle : Value → List String → List StreamEvent × Value
  handle id [] = ([], id)
  handle id (f ∷ fs) =
      let fields = obj (fields_from (split_lines f) end) in
      let (events, last) = handle (next_id id fields) fs in
      (event_of (next_id id fields) fields ++ events, last)

  -- The loop of `request` over the chunks that the reader gives.
  unfoldable pub read_chunks : Value → String → List String → List StreamEvent × Value
  read_chunks id buffer [] = ([], id)
  read_chunks id buffer (chunk ∷ chunks) =
      let (frames, rest) = feed buffer chunk in
      let (events, next) = handle id frames in
      let (more, last) = read_chunks next rest chunks in (events ++ more, last)

  abbrev prepend : List StreamEvent → List StreamEvent × Value → List StreamEvent × Value
  prepend es (events, last) = (es ++ events, last)

  append_assoc : (a b c : List StreamEvent) → a ++ (b ++ c) ≡ (a ++ b) ++ c
  append_assoc [] b c = refl
  append_assoc (e ∷ a) b c = ap (λ es. e ∷ es) (append_assoc a b c)

  -- What a list of frames gives after another.
  abbrev and_then : List StreamEvent × Value → List String → List StreamEvent × Value
  and_then (events, next) fs = (events ++ (handle next fs).0, (handle next fs).1)

  handle-append :
      (id : Value) (fs gs : List String) → handle id (fs ++ gs) ≡ and_then (handle id fs) gs
  unfolding handle
  handle-append id [] gs = refl
  handle-append id (f ∷ fs) gs =
      let fields = obj (fields_from (split_lines f) end) in
      let next = next_id id fields in
      let events = event_of next fields in
      let before = handle next fs in
      ap (prepend events) (handle-append next fs gs)
      ∙ ap (λ es. (es, (handle before.1 gs).1))
          (append_assoc events before.0 (handle before.1 gs).0)

  read_chunks-feed_all :
      (id : Value) (b : String) (chunks : List String)
      → read_chunks id b chunks ≡ handle id (feed_all b chunks).0
  unfolding read_chunks feed_all
  read_chunks-feed_all id b [] = unfold handle in refl
  read_chunks-feed_all id b (chunk ∷ chunks) =
      let (frames, rest) = feed b chunk in
      let before = handle id frames in
      ap (prepend before.0) (read_chunks-feed_all before.1 rest chunks)
      ∙ sym (handle-append id frames (feed_all rest chunks).0)

  -- However the text of a stream is cut into chunks, the same events are handed on with the same ids as
  -- for the frames of the whole text.
  pub read_chunks-whole :
      (id : Value) (chunks : List String)
      → read_chunks id "" chunks ≡ handle id (feed "" (whole chunks)).0
  read_chunks-whole id chunks =
      read_chunks-feed_all id "" chunks ∙ ap (λ x. handle id x.0) (feed_all-whole chunks)
