-- ===== src/Translations/Filled.antt =====
-- frontend/src/i18n.ts: a text without variables, and the message of an error whose code is unknown.
use Prim.Native.Char.{Char, code}
use Prim.Native.String.{[], ◌∷◌}
use package.text.Mathlib.TextEquality.{Char-path}
use federated_iot_platform.Prelude.{
  ℕ, zero, suc, true, Option, none, some, String, ◌==◌, if◌then◌else◌, ◌≡◌, refl, arith, ap, ◌∙◌,
  sym, Bool-cases, Option-cases, inl, inr, eq_refl,
}
use federated_iot_platform.Js.{obj, end, get, lookup, text, str, ◌or◌, ◌++◌, truthy}
use federated_iot_platform.Contract.{ApiError, api_error, error_key, format_api_error}
use federated_iot_platform.Api.{joined, text_length}
use federated_iot_platform.Translations.{
  text_of, resources, Language, en, zh_cn, take_name, closed, placeholder, in_braces, substitute,
  template, translate, is_name_char,
}
use federated_iot_platform.Translations.Complete.{text_of-resources}

joined_assoc : (a b c : String) → joined (joined a b) c ≡ joined a (joined b c)
unfolding joined
joined_assoc [] b c = refl
joined_assoc (d ∷ a) b c = ap (λ (s : String). d ∷ s) (joined_assoc a b c)

joined-take_name : (s : String) → joined (take_name s).0 (take_name s).1 ≡ s
unfolding take_name joined
joined-take_name [] = refl
joined-take_name (c ∷ s) = elim (Bool-cases (is_name_char c)) [
  | inl e ↦ rw e (ap (λ (t : String). c ∷ t) (joined-take_name s))
  | inr e ↦ rw e refl
]

-- What `closed` took apart.
closed-eq_some :
    (p : String × String) (name rest : String)
    → closed p ≡ some (name, rest)
    → joined p.0 p.1 ≡ joined name ("}" ∷ rest)
unfolding joined
closed-eq_some ([], r) name rest h = cc
closed-eq_some (c ∷ n, []) name rest h = cc
closed-eq_some (c ∷ n, d ∷ r) name rest h = elim (Bool-cases (code d == b'}')) [
  | inl e ↦
      let brace : d ≡ "}" = Char-path d "}" (ground arith) in
      let parts : ◌≡◌ {A = Option (String × String)} (some (c ∷ n, r)) (some (name, rest)) =
        rw e at h in
      cc
  | inr e ↦
      let absent : ◌≡◌ {A = Option (String × String)} none (some (name, rest)) = rw e at h in cc
]

joined-in_braces :
    (name rest : String) → joined (in_braces name) rest ≡ "{" ∷ joined name ("}" ∷ rest)
unfolding joined
joined-in_braces name rest = ap (λ (t : String). "{" ∷ t) (joined_assoc name ("}" ∷ []) rest)

placeholder-eq_some :
    (s name rest : String) → placeholder s ≡ some (name, rest) → joined name ("}" ∷ rest) ≡ s
unfolding placeholder
placeholder-eq_some s name rest h =
    sym (closed-eq_some (take_name s) name rest h) ∙ joined-take_name s

braces-kept :
    (c : Char) (s name rest filled : String)
    → (code c == b'{') ≡ true
    → placeholder s ≡ some (name, rest)
    → filled ≡ rest
    → joined (text (get name (obj end) or str (in_braces name))) filled ≡ c ∷ s
unfolding get lookup text
braces-kept c s name rest filled e p h =
    rw
      (
        h,
        joined-in_braces name rest,
        placeholder-eq_some s name rest p,
        Char-path c "{" (ground arith),
      )
      refl

-- Without variables every placeholder stays.
pub substitute-end : (n : ℕ) (s : String) → substitute n end s ≡ s
unfolding substitute
substitute-end zero s = refl
substitute-end (suc n) [] = refl
substitute-end (suc n) (c ∷ s) = elim (Bool-cases (code c == b'{')) [
  | inr e ↦ rw e (ap (λ (t : String). c ∷ t) (substitute-end n s))
  | inl e ↦ elim (Option-cases (placeholder s)) [
    | inl p ↦ rw (e, p) (ap (λ (t : String). c ∷ t) (substitute-end n s))
    | inr ((name, rest), p) ↦ rw (e, p) (braces-kept c s name rest _ e p (substitute-end n rest))
  ]
]

template-unknown : (l : Language) (k : String) → text_of k (resources en) ≡ none → template l k ≡ k
unfolding template
template-unknown en k h = rw h refl
template-unknown zh_cn k h = rw h (ground (arith, text_of-resources k))

translate-end : (l : Language) (k : String) → translate l k end ≡ template l k
unfolding translate
translate-end l k = substitute-end (text_length (template l k)) (template l k)

-- An error whose code has no text of its own is shown, in either language, as the unknown error, with
-- its code as the detail.
pub format_api_error-unknown :
    (l : Language) (e : ApiError)
    → text_of (error_key e.code) (resources en) ≡ none
    → let m = format_api_error (api_error e) (λ k. translate l k end) in
      (m.title ≡ template l "error.unknown")
      × (m.detail
          ≡ some (e.code ++ (if truthy e.request_id then " · " ++ text e.request_id else "")))
unfolding format_api_error
format_api_error-unknown l e h =
    let unknown : translate l (error_key e.code) end ≡ error_key e.code =
      translate-end l (error_key e.code) ∙ template-unknown l (error_key e.code) h in
    (rw (unknown, eq_refl (error_key e.code)) (translate-end l "error.unknown"), refl)
