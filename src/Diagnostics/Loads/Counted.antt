-- ===== src/Diagnostics/Loads/Counted.antt =====
-- frontend/src/ui.ts: the distribution of load states that is counted from the points.
use federated_iot_platform.Prelude.{
  ℕ, zero, suc, ◌+◌, Bool, false, Option, none, some, List, [], ◌∷◌, if◌then◌else◌, length, filter,
  ◌≡◌, refl, arith, Option-cases, inl, inr, ltb, subst, is_some,
}
use federated_iot_platform.Prelude.Int.{pos, ◌+ℤ◌}
use federated_iot_platform.Js.{Value, get, is_record, items}
use federated_iot_platform.Diagnostics.Loads.{
  LoadState, normal, light, heavy, Counts, no_counts, add_count, count_points, point_state,
  any_positive, total, displayed, no_source, Distribution, authority, authoritative_counts,
  load_counts, if_some, load_distribution,
}

-- A point whose status names a load state.
abbrev pub has_state : Value → Bool
has_state p = is_some (point_state p)

-- Counts that are natural numbers with the sum n.
pub record SumsTo (n : ℕ) (c : Counts) : Type 0 where
  pub normals : ℕ
  pub lights : ℕ
  pub heavies : ℕ
  pub normal_is : c.normal_count ≡ pos normals
  pub light_is : c.light_count ≡ pos lights
  pub heavy_is : c.heavy_count ≡ pos heavies
  pub sum_is : normals + lights + heavies ≡ n

add_one : (n : ℕ) → pos n +ℤ pos 1 ≡ pos (n + 1)
unfolding ◌+ℤ◌
add_one n = ground arith

add_count-SumsTo :
    (l : LoadState) (n : ℕ) (c : Counts) → SumsTo n c → SumsTo (n + 1) (add_count l (pos 1) c)
unfolding add_count
add_count-SumsTo normal n c h = record {
  normals = h.normals + 1;
  lights = h.lights;
  heavies = h.heavies;
  normal_is = rw h.normal_is (add_one h.normals);
  light_is = h.light_is;
  heavy_is = h.heavy_is;
  sum_is = omega (arith, h.sum_is);
}
add_count-SumsTo light n c h = record {
  normals = h.normals;
  lights = h.lights + 1;
  heavies = h.heavies;
  normal_is = h.normal_is;
  light_is = rw h.light_is (add_one h.lights);
  heavy_is = h.heavy_is;
  sum_is = omega (arith, h.sum_is);
}
add_count-SumsTo heavy n c h = record {
  normals = h.normals;
  lights = h.lights;
  heavies = h.heavies + 1;
  normal_is = h.normal_is;
  light_is = h.light_is;
  heavy_is = rw h.heavy_is (add_one h.heavies);
  sum_is = omega (arith, h.sum_is);
}

count_points-SumsTo :
    (ps : List Value) (n : ℕ) (c : Counts)
    → SumsTo n c
    → SumsTo (n + length (filter has_state ps)) (count_points ps c)
unfolding count_points
count_points-SumsTo [] n c h = subst (λ m. SumsTo m c) (omega arith) h
count_points-SumsTo (p ∷ ps) n c h = elim (Option-cases (point_state p)) [
  | inl e ↦ rw e (count_points-SumsTo ps n c h)
  | inr (l, e) ↦ rw e (
      subst (λ m. SumsTo m (count_points ps (add_count l (pos 1) c))) (omega arith)
        (count_points-SumsTo ps (n + 1) (add_count l (pos 1) c) (add_count-SumsTo l n c h)))
]

total-SumsTo : (n : ℕ) (c : Counts) → SumsTo n c → total c ≡ pos n
unfolding total ◌+ℤ◌
total-SumsTo n c h = rw (h.normal_is, h.light_is, h.heavy_is) (ground (arith, h.sum_is))

any_positive-SumsTo : (n : ℕ) (c : Counts) → SumsTo n c → any_positive c ≡ ltb 0 n
any_positive-SumsTo n c h = rw (h.normal_is, h.light_is, h.heavy_is) (ground (arith, h.sum_is))

-- What is counted from the points alone.
abbrev from_points : List Value → Distribution
from_points ps =
    let shown = count_points ps no_counts in
    record { source = if any_positive shown then displayed else no_source; counts = shown }

load_counts-from_points :
    (summary : Value)
    → is_record (authority summary) ≡ false
    → load_counts summary ≡ from_points (items (get "points" (get "chart" summary)))
unfolding load_counts authoritative_counts
load_counts-from_points summary h = rw h refl

-- No distribution for no point, and one of n points that says that it was counted from them.
abbrev pub IsCounted : ℕ → Option Distribution → Type 0
IsCounted zero shown = shown ≡ none
IsCounted (suc n) shown =
    (d : Distribution) × (shown ≡ some d) × (d.source ≡ displayed) × (total d.counts ≡ pos (suc n))

from_points-IsCounted :
    (ps : List Value) (n : ℕ)
    → SumsTo n (count_points ps no_counts)
    → IsCounted n (if_some (total (from_points ps).counts) (from_points ps))
from_points-IsCounted ps zero h = rw (total-SumsTo 0 (count_points ps no_counts) h) refl
from_points-IsCounted ps (suc n) h =
    let shown = count_points ps no_counts in
    (
      from_points ps,
      rw (total-SumsTo (suc n) shown h) refl,
      rw (any_positive-SumsTo (suc n) shown h) (ground arith),
      total-SumsTo (suc n) shown h,
    )

no_counts-SumsTo : SumsTo 0 no_counts
no_counts-SumsTo = record {
  normals = 0;
  lights = 0;
  heavies = 0;
  normal_is = refl;
  light_is = refl;
  heavy_is = refl;
  sum_is = refl;
}

-- Where the summary gives no counts of its own, there is a distribution exactly if a point names a load
-- state; it says that it was counted from the points, and its counts add up to the number of those.
pub load_distribution-IsCounted :
    (summary : Value)
    → is_record (authority summary) ≡ false
    → let points = items (get "points" (get "chart" summary)) in
      IsCounted (length (filter has_state points)) (load_distribution summary)
unfolding load_distribution
load_distribution-IsCounted summary h =
    let ps = items (get "points" (get "chart" summary)) in
    let n = length (filter has_state ps) in
    rw (load_counts-from_points summary h) (
      from_points-IsCounted ps n (
        subst (λ m. SumsTo m (count_points ps no_counts)) (omega arith)
          (count_points-SumsTo ps 0 no_counts no_counts-SumsTo)))
