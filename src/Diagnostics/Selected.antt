-- ===== src/Diagnostics/Selected.antt =====
-- frontend/src/ui.ts: the selected point, and the sequence it is looked up in.
use mathlib.Core.List.{Perm}
use mathlib.Core.List.Perm
use federated_iot_platform.Prelude.{
  Bool, true, false, not, ◌&&◌, some, List, [], ◌∷◌, String, find?, ◌≡◌, refl, arith, eq_iff,
  Bool-cases, Option-cases, inl, inr, ◌∙◌, sym,
}
use federated_iot_platform.Js.{Value, Num, int, nan, infinity}
use federated_iot_platform.Diagnostics.{
  Asked, diagnostic_selection, point_locator, has_locator, point_sequence, insert_point,
  resource_items, chart_points, asked_value, comes_after, running_index,
}

find?-holds : (f : Value → Bool) (vs : List Value) (v : Value) → find? f vs ≡ some v → f v ≡ true
find?-holds f [] v e = ground (arith, e)
find?-holds f (w ∷ vs) v e = ground (arith, e, find?-holds f vs v)

located :
    (id : String) (point : Value) → has_locator id point ≡ true → point_locator point ≡ some id
located id point e = elim (Option-cases (point_locator point)) [
  | inl n ↦ ground (arith, e, n)
  | inr (other, n) ↦ ground (arith, e, n, eq_iff other id)
]

-- A point that is shown has the locator that was asked for.
pub diagnostic_selection-locator :
    (summary results alarms : Value) (asked : Asked) (point : Value)
    → (diagnostic_selection summary results alarms asked).point ≡ some point
    → point_locator point ≡ point_locator (asked_value summary alarms asked)
unfolding diagnostic_selection
diagnostic_selection-locator summary results alarms asked point e =
    elim (Option-cases (point_locator (asked_value summary alarms asked))) [
      | inl n ↦ ground (arith, e, n)
      | inr (id, n) ↦
          let first = find? (has_locator id) (point_sequence (resource_items results)) in
          located id point (elim (Option-cases first) [
            | inl f ↦
                find?-holds (has_locator id) (point_sequence (chart_points summary)) point
                  (ground (arith, e, n, f))
            | inr (p, f) ↦
                find?-holds (has_locator id) (point_sequence (resource_items results)) point
                  (ground (arith, e, n, f))
          ])
          ∙ sym n
    ]

insert_point-Perm : (p : Value) (ps : List Value) → Perm (insert_point p ps) (p ∷ ps)
unfolding insert_point
insert_point-Perm p [] = Perm.refl (p ∷ [])
insert_point-Perm p (q ∷ qs) = elim (Bool-cases (comes_after (running_index p) (running_index q))) [
  | inl c ↦ rw c (Perm.trans (Perm.cons q (insert_point-Perm p qs)) (Perm.swap p q qs))
  | inr c ↦ rw c (Perm.refl (p ∷ q ∷ qs))
]

point_sequence-Perm : (ps : List Value) → Perm (point_sequence ps) ps
unfolding point_sequence
point_sequence-Perm [] = Perm.refl []
point_sequence-Perm (p ∷ ps) =
    Perm.trans (insert_point-Perm p (point_sequence ps)) (Perm.cons p (point_sequence-Perm ps))

abbrev pub is_after : Value → Value → Bool
is_after p q = comes_after (running_index p) (running_index q)

-- No point comes after the next one.
unfoldable pub is_ordered : List Value → Bool
is_ordered [] = true
is_ordered (p ∷ []) = true
is_ordered (p ∷ q ∷ ps) = not (is_after p q) && is_ordered (q ∷ ps)

comes_after-asym : (m n : Num) → comes_after m n ≡ true → comes_after n m ≡ false
comes_after-asym (int m) (int n) e = ground (arith, e)
comes_after-asym nan n e = ground (arith, e)
comes_after-asym (infinity s) n e = ground (arith, e)
comes_after-asym (int m) n e = ground (arith, e)

insert_point-after :
    (p q : Value) (qs : List Value)
    → is_ordered (q ∷ qs) ≡ true
    → is_after p q ≡ true
    → is_ordered (q ∷ insert_point p qs) ≡ true
unfolding is_ordered insert_point
insert_point-after p q [] o c =
    ground (arith, comes_after-asym (running_index p) (running_index q) c)
insert_point-after p q (r ∷ rs) o c = elim (Bool-cases (is_after p r)) [
  | inl d ↦ rw d (ground (arith, o, insert_point-after p r rs (ground (arith, o)) d))
  | inr d ↦ rw d (ground (arith, o, d, comes_after-asym (running_index p) (running_index q) c))
]

insert_point-ordered :
    (p : Value) (ps : List Value) → is_ordered ps ≡ true → is_ordered (insert_point p ps) ≡ true
unfolding is_ordered insert_point
insert_point-ordered p [] o = refl
insert_point-ordered p (q ∷ qs) o = elim (Bool-cases (is_after p q)) [
  | inl d ↦ rw d (insert_point-after p q qs o d)
  | inr d ↦ rw d (ground (arith, o, d))
]

point_sequence-ordered : (ps : List Value) → is_ordered (point_sequence ps) ≡ true
unfolding is_ordered point_sequence
point_sequence-ordered [] = refl
point_sequence-ordered (p ∷ ps) =
    insert_point-ordered p (point_sequence ps) (point_sequence-ordered ps)

-- The points in sequence are the given points, none lost and none doubled, and none comes after the
-- next one.
pub point_sequence-sorts :
    (ps : List Value) → Perm (point_sequence ps) ps × (is_ordered (point_sequence ps) ≡ true)
point_sequence-sorts ps = (point_sequence-Perm ps, point_sequence-ordered ps)
