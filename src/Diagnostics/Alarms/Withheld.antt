-- ===== src/Diagnostics/Alarms/Withheld.antt =====
-- frontend/src/ui.ts: what the alarm timeline never shows.
use Prim.Native.Char.{Char}
use Prim.Native.String.{[], ◌∷◌}
use mathlib.Core.List.{List, [], ◌∷◌}
use federated_iot_platform.Prelude.{
  Bool, true, false, not, ◌&&◌, ◌||◌, String, ◌===◌, if◌then◌else◌, ◌≡◌, ◌≢◌, refl, All, filter,
  map, Bool-cases, inl, inr,
}
use federated_iot_platform.Js.{
  Value, get, arr, nil, items, ◌or◌, is_nullish, is_record, is_array, text, trim, is_blank, lower,
  without_prefix,
}
use federated_iot_platform.Api.{joined}
use federated_iot_platform.Diagnostics.Alarms.{
  is_letter, starts_with_drive, has_drive, has_rooted, has_word, is_withheld, alarm_scalar,
  alarm_texts, alarm_time, alarm_locator, alarm_reasons,
}

or_true : (b : Bool) → (b || true) ≡ true
or_true true = refl
or_true false = refl

or_true_or : (a b : Bool) → ((a || true) || b) ≡ true
or_true_or true b = refl
or_true_or false b = refl

has_drive-joined :
    (a b : String) (c : Char)
    → is_letter c ≡ true
    → has_drive (joined a (c ∷ ":" ∷ "\\" ∷ b)) ≡ true
unfolding has_drive starts_with_drive joined
has_drive-joined [] b c h = rw h refl
has_drive-joined (d ∷ a) b c h = rw (has_drive-joined a b c h) (or_true _)

has_rooted-joined :
    (start : Bool) (a b : String) (c : Char)
    → is_blank c ≡ true
    → has_rooted start (joined a (c ∷ "/" ∷ b)) ≡ true
unfolding has_rooted joined
has_rooted-joined start [] b c h = rw h (or_true _)
has_rooted-joined start (d ∷ a) b c h = rw (has_rooted-joined (is_blank d) a b c h) (or_true _)

dash_shown : is_withheld "—" ≡ false
unfolding is_withheld has_drive starts_with_drive has_rooted has_word lower without_prefix
dash_shown = refl

chosen_shown :
    (dashed empty : Bool) (raw : String)
    → is_withheld
        (if dashed then "—" else (if not empty && not (is_withheld raw) then raw else "—"))
      ≡ false
chosen_shown true empty raw = dash_shown
chosen_shown false true raw = dash_shown
chosen_shown false false raw = elim (Bool-cases (is_withheld raw)) [
  | inl e ↦ rw e dash_shown
  | inr e ↦ rw (e, e) refl
]

is_withheld-alarm_scalar : (v : Value) → is_withheld (alarm_scalar v) ≡ false
unfolding alarm_scalar
is_withheld-alarm_scalar v =
    chosen_shown (is_nullish v || is_record v || is_array v) (trim (text v) === "") (trim (text v))

withheld_not_shown : (s : String) → is_withheld s ≡ true → is_withheld s ≡ false → ⊥
withheld_not_shown s h k = cc

drive_withheld :
    (a b : String) (c : Char)
    → is_letter c ≡ true
    → is_withheld (joined a (c ∷ ":" ∷ "\\" ∷ b)) ≡ true
unfolding is_withheld
drive_withheld a b c h = rw (has_drive-joined a b c h) refl

blank_withheld :
    (a b : String) (c : Char) → is_blank c ≡ true → is_withheld (joined a (c ∷ "/" ∷ b)) ≡ true
unfolding is_withheld
blank_withheld a b c h = rw (has_rooted-joined true a b c h) (or_true_or _ _)

root_withheld : (b : String) → is_withheld ("/" ∷ b) ≡ true
unfolding is_withheld
root_withheld b = unfold has_rooted in or_true_or _ _

-- A text that is none with a character, a colon and a backslash in it, none with a slash at its start,
-- and none with a slash after a certain character.
abbrev pub HidesPaths : String → String → Char → Char → String → Type 0
HidesPaths a b c d s =
    (s ≢ joined a (c ∷ ":" ∷ "\\" ∷ b)) × (s ≢ joined a (d ∷ "/" ∷ b)) × (s ≢ "/" ∷ b)

module _ (a b : String) (c d : Char) (letter : is_letter c ≡ true) (blank : is_blank d ≡ true) where
  alarm_scalar-HidesPaths : (v : Value) → HidesPaths a b c d (alarm_scalar v)
  alarm_scalar-HidesPaths v =
      let shown = is_withheld-alarm_scalar v in
      (
        λ e.
            withheld_not_shown (joined a (c ∷ ":" ∷ "\\" ∷ b)) (drive_withheld a b c letter)
              (rw e at shown),
        λ e.
            withheld_not_shown (joined a (d ∷ "/" ∷ b)) (blank_withheld a b d blank)
              (rw e at shown),
        λ e. withheld_not_shown ("/" ∷ b) (root_withheld b) (rw e at shown),
      )

  kept_scalars-HidesPaths :
      (p : String → Bool) (vs : List Value)
      → All (HidesPaths a b c d) (filter p (map alarm_scalar vs))
  kept_scalars-HidesPaths p [] = tt
  kept_scalars-HidesPaths p (v ∷ vs) = elim (Bool-cases (p (alarm_scalar v))) [
    | inl e ↦ rw e (alarm_scalar-HidesPaths v, kept_scalars-HidesPaths p vs)
    | inr e ↦ rw e (kept_scalars-HidesPaths p vs)
  ]

  alarm_reasons-HidesPaths : (alarm : Value) → All (HidesPaths a b c d) (alarm_reasons alarm)
  unfolding alarm_reasons
  alarm_reasons-HidesPaths alarm =
      let values =
        get "reasons" alarm or (get "reason_codes" alarm or (get "reason" alarm or arr nil)) in
      kept_scalars-HidesPaths (λ r. not (r === "—"))
        (if is_array values then items values else values ∷ [])

-- The time, before it is written in the local time zone, the agent, the point and the reasons that the
-- timeline and its dialog show of an alarm hold no letter followed by a colon and a backslash, no slash
-- at their start, and none after a blank.
pub alarm_texts-HidesPaths :
    (alarm : Value) (a b : String) (c d : Char)
    → is_letter c ≡ true
    → is_blank d ≡ true
    → All (HidesPaths a b c d) (alarm_texts alarm)
unfolding alarm_texts alarm_time alarm_locator
alarm_texts-HidesPaths alarm a b c d letter blank = (
  alarm_scalar-HidesPaths a b c d letter blank _,
  (
    alarm_scalar-HidesPaths a b c d letter blank _,
    (
      alarm_scalar-HidesPaths a b c d letter blank _,
      alarm_reasons-HidesPaths a b c d letter blank alarm,
    ),
  ),
)
