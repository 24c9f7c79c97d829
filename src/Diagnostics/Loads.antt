-- ===== src/Diagnostics/Loads.antt =====
-- frontend/src/ui.ts: the distribution of load states, without its percentages.
pub mod Counted
use federated_iot_platform.Prelude.{
  ℕ, zero, suc, ◌+◌, ◌≤◌, ◌<◌, Bool, true, false, not, ◌&&◌, ◌||◌, Option, none, some, List, [],
  ◌∷◌, String, ◌===◌, if◌then◌else◌, length, filter, ◌≡◌, refl, arith, Bool-cases, inl, inr,
}
use federated_iot_platform.Prelude.Int.{ℤ, pos, negsuc, ◌+ℤ◌, ltb_ℤ}
use federated_iot_platform.Js.{
  Value, Fields, end, field, get, number, finite?, is_record, items, lower, text_or_empty, contains,
  ◌or◌,
}
use federated_iot_platform.Js.Objects.{fields_of}

pub data LoadState : Type 0 where
  normal light heavy : LoadState

pub record Counts : Type 0 where
  pub normal_count : ℤ
  pub light_count : ℤ
  pub heavy_count : ℤ

abbrev pub no_counts : Counts
no_counts = record { normal_count = pos 0; light_count = pos 0; heavy_count = pos 0 }

unfoldable pub add_count : LoadState → ℤ → Counts → Counts
add_count normal n c = record c { normal_count = c.normal_count +ℤ n }
add_count light n c = record c { light_count = c.light_count +ℤ n }
add_count heavy n c = record c { heavy_count = c.heavy_count +ℤ n }

-- `labels.includes(normalized)`, and the first label that a status contains.
unfoldable pub named_state : String → Option LoadState
named_state s =
    if s === "normal"
    then some normal
    else if s === "light"
    then some light
    else if s === "heavy"
    then some heavy
    else none

unfoldable pub contained_state : String → Option LoadState
contained_state s =
    if contains s "normal"
    then some normal
    else if contains s "light"
    then some light
    else if contains s "heavy"
    then some heavy
    else none

abbrev pub counted : Option LoadState → Option ℤ → Counts → Counts
counted (some l) (some n) c = add_count l n c
counted none n c = c
counted (some l) none c = c

unfoldable pub count_entries : Fields → Counts → Counts
unfolding named_state add_count
count_entries end c = c
count_entries (field k v fs) c =
    count_entries fs (counted (named_state (lower k)) (finite? (number v)) c)

abbrev pub point_state : Value → Option LoadState
point_state point =
    contained_state (lower (text_or_empty (get "LoadStatus" point or get "load_status" point)))

unfoldable pub count_points : List Value → Counts → Counts
unfolding contained_state add_count
count_points [] c = c
count_points (p ∷ ps) c = count_points ps (counted (point_state p) (some (pos 1)) c)

-- `labels.some(key => counts[key] > 0)`, and the sum over the labels.
abbrev pub is_positive : ℤ → Bool
is_positive n = ltb_ℤ (pos 0) n

abbrev pub any_positive : Counts → Bool
any_positive c =
    is_positive c.normal_count || is_positive c.light_count || is_positive c.heavy_count

unfoldable pub total : Counts → ℤ
total c = (c.normal_count +ℤ c.light_count) +ℤ c.heavy_count

pub data LoadSource : Type 0 where
  authoritative displayed no_source : LoadSource

pub record Distribution : Type 0 where
  pub source : LoadSource
  pub counts : Counts

abbrev pub authority : Value → Value
authority summary =
    get "load_status_counts" summary
    or (get "load_status_summary" summary
        or get "load_status_counts" (get "diagnostic_summary" summary))

unfoldable pub authoritative_counts : Value → Counts
authoritative_counts summary =
    if is_record (authority summary)
    then count_entries (fields_of (authority summary)) no_counts
    else no_counts

-- Counts that were read from the summary and are not positive stay in the sums of the points.
unfoldable pub load_counts : Value → Distribution
unfolding authoritative_counts count_entries count_points
load_counts summary =
    let given = authoritative_counts summary in
    let shown = count_points (items (get "points" (get "chart" summary))) given in
    if any_positive given
    then record { source = authoritative; counts = given }
    else record { source = if any_positive shown then displayed else no_source; counts = shown }

-- `none` where the panel says that no distribution is available.
abbrev pub if_some : ℤ → Distribution → Option Distribution
if_some (pos zero) d = none
if_some (pos (suc n)) d = some d
if_some (negsuc n) d = some d

unfoldable pub load_distribution : Value → Option Distribution
unfolding load_counts total
load_distribution summary = let d = load_counts summary in if_some (total d.counts) d
