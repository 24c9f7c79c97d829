-- ===== src/Api/Chunks.antt =====
-- frontend/src/api/live-api.ts: the frames of a stream whose text is cut into chunks.
use Prim.Native.Char.{Char}
use Prim.Native.String.{[], ◌∷◌}
use mathlib.Core.List.{List, [], ◌∷◌}
use federated_iot_platform.Prelude.{
  ℕ, zero, suc, ◌≤◌, none, some, String, ◌++◌, ◌≡◌, refl, arith, Option-cases, inl, inr, ap, ◌∙◌,
  sym,
}
use federated_iot_platform.Api.{
  joined, after_line_end, after_blank_line, first_frame, text_length, split_frames, feed, feed_all,
}

joined_empty : (r t : String) → r ≡ "" → joined r t ≡ t
unfolding joined
joined_empty r t e = ap (λ x. joined x t) e

joined_cons : (d : Char) (r s t : String) → r ≡ d ∷ s → joined r t ≡ d ∷ joined s t
unfolding joined
joined_cons d r s t e = ap (λ x. joined x t) e

joined_same : (r s t : String) → r ≡ s → joined r t ≡ joined s t
joined_same r s t e = ap (λ x. joined x t) e

after_line_end-joined :
    (s t r : String) → after_line_end s ≡ some r → after_line_end (joined s t) ≡ some (joined r t)
unfolding after_line_end joined
after_line_end-joined [] t r e = ground (arith, e)
after_line_end-joined (c ∷ []) [] r e = ground (arith, e, joined_empty r "")
after_line_end-joined (c ∷ []) (d ∷ t) r e = ground (arith, e, joined_empty r (d ∷ t))
after_line_end-joined (c ∷ d ∷ s) t r e = ground (arith, e, joined_cons d r s t, joined_same r s t)

after_blank_line-joined :
    (s t r : String)
    → after_blank_line s ≡ some r
    → after_blank_line (joined s t) ≡ some (joined r t)
unfolding after_blank_line
after_blank_line-joined s t r e = elim (Option-cases (after_line_end s)) [
  | inl n ↦ ground (arith, e, n)
  | inr (u, n) ↦ ground (arith, e, n, after_line_end-joined s t u n, after_line_end-joined u t r)
]

-- A frame that is found within a text is not found earlier once more text follows.
blank_line_closed :
    (c : Char) (s t : String) (f : String × String)
    → after_blank_line (c ∷ s) ≡ none
    → first_frame s ≡ some f
    → after_blank_line (joined (c ∷ s) t) ≡ none
unfolding after_blank_line after_line_end first_frame joined
blank_line_closed c [] t f e g = ground (arith, g)
blank_line_closed c (d ∷ []) t f e g = ground (arith, g)
blank_line_closed c (d ∷ d' ∷ []) [] f e g = ground (arith, e, g)
blank_line_closed c (d ∷ d' ∷ []) (x ∷ t) f e g = ground (arith, e, g)
blank_line_closed c (d ∷ d' ∷ d'' ∷ s) t f e g = ground (arith, e, g)

-- Text that comes after a frame does not change it.
first_frame-joined :
    (s t f r : String)
    → first_frame s ≡ some (f, r)
    → first_frame (joined s t) ≡ some (f, joined r t)
unfolding first_frame joined
first_frame-joined [] t f r e = ground (arith, e)
first_frame-joined (c ∷ s) t f r e = elim (Option-cases (after_blank_line (c ∷ s))) [
  | inr (u, b) ↦ ground (arith, e, b, after_blank_line-joined (c ∷ s) t u b, joined_same r u t)
  | inl b ↦ elim (Option-cases (first_frame s)) [
    | inl n ↦ ground (arith, e, b, n)
    | inr ((g, u), n) ↦ ground (
      arith,
      e,
      b,
      n,
      blank_line_closed c s t (g, u) b n,
      first_frame-joined s t g u n,
      joined_same r u t,
    )
  ]
]

same_length : (r s : String) → r ≡ s → text_length r ≡ text_length s
same_length r s e = ap text_length e

line_end_shorter : (s r : String) → after_line_end s ≡ some r → suc (text_length r) ≤ text_length s
unfolding after_line_end text_length
line_end_shorter [] r e = ground (arith, e)
line_end_shorter (c ∷ []) r e = ground (arith, e, same_length r "")
line_end_shorter (c ∷ d ∷ s) r e = ground (arith, e, same_length r (d ∷ s), same_length r s)

blank_line_shorter :
    (s r : String) → after_blank_line s ≡ some r → suc (text_length r) ≤ text_length s
unfolding after_blank_line
blank_line_shorter s r e = elim (Option-cases (after_line_end s)) [
  | inl n ↦ ground (arith, e, n)
  | inr (u, n) ↦ ground (arith, e, n, line_end_shorter s u n, line_end_shorter u r)
]

first_frame_shorter :
    (s f r : String) → first_frame s ≡ some (f, r) → suc (text_length r) ≤ text_length s
unfolding first_frame text_length
first_frame_shorter [] f r e = ground (arith, e)
first_frame_shorter (c ∷ s) f r e = elim (Option-cases (after_blank_line (c ∷ s))) [
  | inr (u, b) ↦ ground (arith, e, b, blank_line_shorter (c ∷ s) u b, same_length r u)
  | inl b ↦ elim (Option-cases (first_frame s)) [
    | inl n ↦ ground (arith, e, b, n)
    | inr ((g, u), n) ↦ ground (arith, e, b, n, first_frame_shorter s g u n, same_length r u)
  ]
]

abbrev with_frame : String → List String × String → List String × String
with_frame f (fs, b) = (f ∷ fs, b)

-- More fuel than the length of the text makes no difference.
split_frames_fuel :
    (n m : ℕ) (s : String)
    → text_length s ≤ n
    → text_length s ≤ m
    → split_frames n s ≡ split_frames m s
unfolding split_frames first_frame text_length
split_frames_fuel zero zero s p q = refl
split_frames_fuel zero (suc m) [] p q = refl
split_frames_fuel zero (suc m) (c ∷ s) p q = absurd (omega (arith, p))
split_frames_fuel (suc n) zero [] p q = refl
split_frames_fuel (suc n) zero (c ∷ s) p q = absurd (omega (arith, q))
split_frames_fuel (suc n) (suc m) s p q = elim (Option-cases (first_frame s)) [
  | inl e ↦ rw (split_frames, e) refl
  | inr ((f, r), e) ↦
      let less = first_frame_shorter s f r e in
      rw (split_frames, e)
        (ap (with_frame f)
          (split_frames_fuel n m r (omega (arith, p, less)) (omega (arith, q, less))))
]

frames : String → List String × String
frames s = split_frames (text_length s) s

frames-none : (s : String) → first_frame s ≡ none → frames s ≡ ([], s)
unfolding frames split_frames text_length
frames-none [] e = refl
frames-none (c ∷ s) e = rw (split_frames, e) refl

frames-some : (s f r : String) → first_frame s ≡ some (f, r) → frames s ≡ with_frame f (frames r)
unfolding frames split_frames text_length first_frame
frames-some [] f r e = ground (arith, e)
frames-some (c ∷ s) f r e =
    let less = first_frame_shorter (c ∷ s) f r e in
    rw (split_frames, e)
      (ap (with_frame f)
        (split_frames_fuel (text_length s) (text_length r) r (omega (arith, less)) (omega arith)))

abbrev with_frames : List String → List String × String → List String × String
with_frames fs (gs, b) = (fs ++ gs, b)

frames-joined :
    (n : ℕ) (s t : String)
    → text_length s ≤ n
    → frames (joined s t) ≡ with_frames (frames s).0 (frames (joined (frames s).1 t))
frames-joined zero s t p = elim (Option-cases (first_frame s)) [
  | inl e ↦ rw (frames-none s e) refl
  | inr ((f, r), e) ↦ absurd (omega (arith, p, first_frame_shorter s f r e))
]
frames-joined (suc n) s t p = elim (Option-cases (first_frame s)) [
  | inl e ↦ rw (frames-none s e) refl
  | inr ((f, r), e) ↦
      frames-some (joined s t) f (joined r t) (first_frame-joined s t f r e)
      ∙ ap (with_frame f) (frames-joined n r t (omega (arith, p, first_frame_shorter s f r e)))
      ∙ sym (ap (λ x. with_frames x.0 (frames (joined x.1 t))) (frames-some s f r e))
]

frames-rest : (n : ℕ) (s : String) → text_length s ≤ n → frames (frames s).1 ≡ ([], (frames s).1)
frames-rest zero s p = elim (Option-cases (first_frame s)) [
  | inl e ↦ rw (frames-none s e) (frames-none s e)
  | inr ((f, r), e) ↦ absurd (omega (arith, p, first_frame_shorter s f r e))
]
frames-rest (suc n) s p = elim (Option-cases (first_frame s)) [
  | inl e ↦ rw (frames-none s e) (frames-none s e)
  | inr ((f, r), e) ↦
      rw (frames-some s f r e) (frames-rest n r (omega (arith, p, first_frame_shorter s f r e)))
]

joined_assoc : (a b c : String) → joined (joined a b) c ≡ joined a (joined b c)
unfolding joined
joined_assoc [] b c = refl
joined_assoc (x ∷ a) b c = ap (λ s. x ∷ s) (joined_assoc a b c)

joined-none : (a : String) → joined a "" ≡ a
unfolding joined
joined-none [] = refl
joined-none (x ∷ a) = ap (λ s. x ∷ s) (joined-none a)

-- The text that is cut into chunks.
unfoldable pub whole : List String → String
whole [] = ""
whole (chunk ∷ chunks) = joined chunk (whole chunks)

feed_all-frames :
    (b : String) (chunks : List String)
    → frames b ≡ ([], b)
    → feed_all b chunks ≡ frames (joined b (whole chunks))
unfolding feed_all whole feed frames
feed_all-frames b [] e = sym (ap frames (joined-none b) ∙ e)
feed_all-frames b (chunk ∷ chunks) e =
    let s = joined b chunk in
    ap (with_frames (frames s).0)
      (feed_all-frames (frames s).1 chunks (frames-rest (text_length s) s (omega arith)))
    ∙ sym (frames-joined (text_length s) s (whole chunks) (omega arith))
    ∙ ap frames (joined_assoc b chunk (whole chunks))

-- However the text of a stream is cut into chunks, the frames that are read from it, and the text that
-- waits in the buffer, are those of the whole text.
pub feed_all-whole : (chunks : List String) → feed_all "" chunks ≡ feed "" (whole chunks)
unfolding feed joined frames split_frames text_length
feed_all-whole chunks = feed_all-frames "" chunks refl
