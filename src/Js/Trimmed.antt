-- ===== src/Js/Trimmed.antt =====
-- `String.prototype.trim`: a text that was trimmed is not trimmed any more.
use Prim.Native.Char.{Char}
use Prim.Native.String.{[], ◌∷◌}
use federated_iot_platform.Prelude.{
  false, if◌then◌else◌, String, ◌≡◌, refl, ap, ◌∙◌, Bool-cases, inl, inr,
}
use federated_iot_platform.Js.{trim, trim_start, trim_end, is_blank}

-- A character before the end of a text.
abbrev onto : Char → String → String
onto c t = elim t [ [] ↦ if is_blank c then [] else c ∷ [] | d ∷ r ↦ c ∷ d ∷ r ]

onto-trimmed : (c : Char) (t : String) → trim_end t ≡ t → trim_end (onto c t) ≡ onto c t
unfolding trim_end
onto-trimmed c [] h = elim (Bool-cases (is_blank c)) [
  | inl e ↦ rw e refl
  | inr e ↦ rw e (rw e refl)
]
onto-trimmed c (d ∷ r) h = ap (onto c) h

trim_end-trim_end : (s : String) → trim_end (trim_end s) ≡ trim_end s
unfolding trim_end
trim_end-trim_end [] = refl
trim_end-trim_end (c ∷ s) = onto-trimmed c (trim_end s) (trim_end-trim_end s)

-- A character that is no blank stays in front.
onto-trim_start : (c : Char) (t : String) → is_blank c ≡ false → trim_start (onto c t) ≡ onto c t
unfolding trim_start
onto-trim_start c [] h = rw (h, h) refl
onto-trim_start c (d ∷ r) h = rw h refl

trim_start-trim : (s : String) → trim_start (trim_end (trim_start s)) ≡ trim_end (trim_start s)
unfolding trim_start trim_end
trim_start-trim [] = refl
trim_start-trim (c ∷ s) = elim (Bool-cases (is_blank c)) [
  | inl e ↦ rw e (trim_start-trim s)
  | inr e ↦ rw e (onto-trim_start c (trim_end s) e)
]

pub trim-trim : (s : String) → trim (trim s) ≡ trim s
unfolding trim
trim-trim s = ap trim_end (trim_start-trim s) ∙ trim_end-trim_end (trim_start s)
