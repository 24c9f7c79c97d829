-- ===== src/Page/Escaped.antt =====
-- frontend/src/ui.ts: what `escapeHtml` leaves no room for.
use Prim.Native.Char.{Char, code}
use Prim.Native.String.{[], ◌∷◌}
use federated_iot_platform.Prelude.{
  Bool, true, false, not, ◌&&◌, Option, none, some, String, ◌==◌, if◌then◌else◌, ◌≡◌, refl, arith,
  Option-cases, inl, inr, subst,
}
use federated_iot_platform.Js.{Value, text_or_empty}
use federated_iot_platform.Api.{joined}
use federated_iot_platform.Page.{html_escape, escape_text, escape_html}

abbrev pub all_chars : (Char → Bool) → String → Bool
all_chars p [] = true
all_chars p (c ∷ s) = p c && all_chars p s

-- No sign that opens or closes a tag or an attribute's value.
abbrev pub is_inert : Char → Bool
is_inert c =
    not (code c == b'<') && not (code c == b'>') && not (code c == 34) && not (code c == 39)

all_chars-joined :
    (p : Char → Bool) (a b : String)
    → all_chars p a ≡ true
    → all_chars p b ≡ true
    → all_chars p (joined a b) ≡ true
unfolding joined
all_chars-joined p [] b h k = k
all_chars-joined p (c ∷ a) b h k = ground (arith, all_chars-joined p a b)

abbrev IsInert : Option String → Type 0
IsInert none = Unit
IsInert (some e) = all_chars is_inert e ≡ true

either-IsInert :
    (b : Bool) (x y : Option String) → IsInert x → IsInert y → IsInert (if b then x else y)
either-IsInert true x y h k = h
either-IsInert false x y h k = k

html_escape-IsInert : (c : Char) → IsInert (html_escape c)
unfolding html_escape
html_escape-IsInert c = either-IsInert (code c == b'&') _ _ refl (
    either-IsInert (code c == b'<') _ _ refl (
      either-IsInert (code c == b'>') _ _ refl
        (either-IsInert (code c == 34) _ _ refl (either-IsInert (code c == 39) _ none refl tt))))

html_escape-inert : (c : Char) (e : String) → html_escape c ≡ some e → all_chars is_inert e ≡ true
html_escape-inert c e h = subst IsInert h (html_escape-IsInert c)

html_escape-none : (c : Char) → html_escape c ≡ none → is_inert c ≡ true
unfolding html_escape
html_escape-none c h = ground arith

escape_text-inert : (s : String) → all_chars is_inert (escape_text s) ≡ true
unfolding escape_text
escape_text-inert [] = refl
escape_text-inert (c ∷ s) = elim (Option-cases (html_escape c)) [
  | inl n ↦ rw (n, html_escape-none c n) (escape_text-inert s)
  | inr (e, h) ↦
      rw h (
        all_chars-joined is_inert e (escape_text s) (html_escape-inert c e h) (escape_text-inert s))
]

-- An escaped text holds no `<`, `>` or quotation mark, whatever the value is.
pub escape_html-inert : (v : Value) → all_chars is_inert (escape_html v) ≡ true
unfolding escape_html
escape_html-inert v = escape_text-inert (text_or_empty v)
