-- ===== src/Api.antt =====
-- frontend/src/api/live-api.ts: the framing of the event stream in `subscribeSimulationEvents`. A
-- chunk is the text that the decoder makes of what the reader gave.
pub mod Chunks
pub mod Frames
pub mod Paths
pub mod Requests
pub mod Session
mod Tests
use Prim.Native.Char.{Char, code}
use Prim.Native.String.{[], ◌∷◌}
use mathlib.Core.List.{List, [], ◌∷◌}
use federated_iot_platform.Prelude.{
  ℕ, zero, suc, Bool, true, false, Option, none, some, String, ◌==◌, if◌then◌else◌, ◌++◌,
}

abbrev pub is_cr : Char → Bool
is_cr c = code c == 13

abbrev pub is_lf : Char → Bool
is_lf c = code c == 10

-- `s + t`.
unfoldable pub joined : String → String → String
joined [] t = t
joined (c ∷ s) t = c ∷ joined s t

-- What follows `\r?\n` at the start of a text.
unfoldable pub after_line_end : String → Option String
after_line_end [] = none
after_line_end (c ∷ []) = if is_lf c then some [] else none
after_line_end (c ∷ d ∷ s) =
    if is_lf c then some (d ∷ s) else if is_cr c then (if is_lf d then some s else none) else none

-- What follows `\r?\n\r?\n` at the start of a text.
unfoldable pub after_blank_line : String → Option String
after_blank_line s = elim (after_line_end s) [ none ↦ none | some r ↦ after_line_end r ]

-- The text before the first blank line, and what follows it.
unfoldable pub first_frame : String → Option (String × String)
first_frame [] = none
first_frame (c ∷ s) =
    let later = first_frame s in
    elim (after_blank_line (c ∷ s)) [
      | some r ↦ some ([], r)
      | none ↦ elim later [ none ↦ none | some (f, r) ↦ some (c ∷ f, r) ]
    ]

unfoldable pub text_length : String → ℕ
text_length [] = 0
text_length (c ∷ s) = suc (text_length s)

-- `buffer.split(/\r?\n\r?\n/)`: the frames, and the text after the last of them. A frame takes at
-- least two characters with it, so the length of the text is enough fuel.
unfoldable pub split_frames : ℕ → String → List String × String
split_frames zero s = ([], s)
split_frames (suc n) s = elim (first_frame s) [
  | none ↦ ([], s)
  | some (f, r) ↦ let (fs, b) = split_frames n r in (f ∷ fs, b)
]

-- The frames of a chunk after what the buffer holds, and the new buffer.
unfoldable pub feed : String → String → List String × String
feed buffer chunk = let all = joined buffer chunk in split_frames (text_length all) all

unfoldable pub feed_all : String → List String → List String × String
feed_all buffer [] = ([], buffer)
feed_all buffer (chunk ∷ chunks) =
    let (fs, b) = feed buffer chunk in let (gs, rest) = feed_all b chunks in (fs ++ gs, rest)
