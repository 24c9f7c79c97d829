-- ===== src/Mock/Cursor.antt =====
-- frontend/src/testing/mock-api.ts: the cursor `mock:n` of a page.
use Prim.Native.Char.{code}
use Prim.Native.String.{◌∷◌}
use federated_iot_platform.Prelude.{
  ℕ, zero, suc, ◌+◌, ◌-◌, ◌*◌, ◌/◌, ◌%◌, ◌<◌, true, Option, none, some, String, ◌==◌, ◌≡◌, refl,
  arith, Bool-cases, inl, inr, ◌∙◌, ap,
}
use federated_iot_platform.Js.{
  without_prefix, decimal, digits_from, digits_value, digit_char, is_digit,
}
use federated_iot_platform.Api.{joined}

-- `mock:${offset}`.
unfoldable pub cursor_text : ℕ → String
cursor_text n = joined "mock:" (decimal n)

abbrev pub or_zero : Option ℕ → ℕ
or_zero none = 0
or_zero (some n) = n

-- The offset of a text that is `mock:` and digits, 0 for any other.
unfoldable pub read_cursor : String → ℕ
read_cursor s = elim (without_prefix s "mock:") [ none ↦ 0 | some r ↦ or_zero (digits_value 0 r) ]

IsDigitOf : ℕ → Type 0
IsDigitOf n = (is_digit (digit_char n) ≡ true) × (code (digit_char n) - 48 ≡ n)

digit_char-IsDigitOf : (n : ℕ) → n < 10 → IsDigitOf n
unfolding IsDigitOf
digit_char-IsDigitOf zero h = (refl, refl)
digit_char-IsDigitOf (suc zero) h = (refl, refl)
digit_char-IsDigitOf (suc (suc zero)) h = (refl, refl)
digit_char-IsDigitOf (suc (suc (suc zero))) h = (refl, refl)
digit_char-IsDigitOf (suc (suc (suc (suc zero)))) h = (refl, refl)
digit_char-IsDigitOf (suc (suc (suc (suc (suc zero))))) h = (refl, refl)
digit_char-IsDigitOf (suc (suc (suc (suc (suc (suc zero)))))) h = (refl, refl)
digit_char-IsDigitOf (suc (suc (suc (suc (suc (suc (suc zero))))))) h = (refl, refl)
digit_char-IsDigitOf (suc (suc (suc (suc (suc (suc (suc (suc zero)))))))) h = (refl, refl)
digit_char-IsDigitOf (suc (suc (suc (suc (suc (suc (suc (suc (suc zero))))))))) h = (refl, refl)
digit_char-IsDigitOf (suc (suc (suc (suc (suc (suc (suc (suc (suc (suc n)))))))))) h =
    absurd (omega arith)

digits_value-digit :
    (m n : ℕ) (s : String)
    → n < 10
    → digits_value m (digit_char n ∷ s) ≡ digits_value (m * 10 + n) s
unfolding digits_value IsDigitOf
digits_value-digit m n s h = let (digit, value) = digit_char-IsDigitOf n h in rw (digit, value) refl

same_value : (m n : ℕ) (s : String) → m ≡ n → digits_value m s ≡ digits_value n s
same_value m n s h = ap (λ t. digits_value t s) h

digits_value-digits_from :
    (fuel n : ℕ) (s : String) → n < fuel → digits_value 0 (digits_from fuel n s) ≡ digits_value n s
unfolding digits_from
digits_value-digits_from zero n s h = elim h [ ]
digits_value-digits_from (suc fuel) n s h = elim (Bool-cases (n / 10 == 0)) [
  | inl e ↦
      let small : n % 10 ≡ n = ground arith in
      rw e (
        rw (digits_value-digit 0 (n % 10) s (omega arith))
          (same_value (0 * 10 + n % 10) n s (omega arith)))
  | inr e ↦ rw e (
      digits_value-digits_from fuel (n / 10) (digit_char (n % 10) ∷ s) (ground arith)
      ∙ (digits_value-digit (n / 10) (n % 10) s (omega arith)
          ∙ same_value (n / 10 * 10 + n % 10) n s (omega arith)))
]

-- The offset of a cursor is read back from its text.
pub read_cursor-cursor_text : (n : ℕ) → read_cursor (cursor_text n) ≡ n
unfolding read_cursor cursor_text joined without_prefix decimal
read_cursor-cursor_text n =
    rw (digits_value-digits_from (suc n) n "" (omega arith)) (unfold digits_value in refl)
