-- ===== src/Draft/Laws.antt =====
-- frontend/src/ui.ts: drafts, saves and edits of custom profiles.
use federated_iot_platform.Prelude.{
  ◌≤◌, Bool, true, false, not, none, some, List, [], ◌∷◌, String, ◌===◌, filter, ◌≡◌, refl, arith,
  eq_refl, Option-cases, inl, inr, ap, ◌∙◌, sym, subst,
}
use federated_iot_platform.Js.{
  Value, undefined, null, str, obj, end, get, trim, truthy, strict_eq, is_nullish, ◌or◌,
}
use federated_iot_platform.Draft.{
  Draft, create_draft, draft_is_dirty, validate_name, has_control, code_points, base_parameters,
}
use federated_iot_platform.Js.Trimmed.{trim-trim}
use federated_iot_platform.Draft.Json.{json_eq_list, json_eq_refl}
use federated_iot_platform.Draft.Saving.{
  Page, Payload, ignored, sent, begin_save, finish_save, reset_draft, restore_defaults,
  discard_draft, begin_draft, has_version, build_payload,
}

or_self : (v w : Value) → is_nullish v ≡ false → (v or w) ≡ v
or_self undefined w e = ground (arith, e)
or_self null w e = ground (arith, e)
or_self v w e = refl

parameters-same : (v : Value) → json_eq_list (v ∷ []) (v ∷ []) ≡ true
unfolding json_eq_list
parameters-same v = ground (arith, json_eq_refl v)

-- A draft that was just made from a profile with shared parameters has nothing to save.
pub create_draft-clean :
    (profile : Value)
    → is_nullish (get "shared_parameters" profile) ≡ false
    → draft_is_dirty (create_draft profile) ≡ false
unfolding create_draft draft_is_dirty json_eq_list trim
create_draft-clean profile e = ground (
  arith,
  or_self (get "shared_parameters" profile) (obj end) e,
  json_eq_refl (get "shared_parameters" profile),
  json_eq_refl (base_parameters profile 1),
  json_eq_refl (base_parameters profile 2),
  json_eq_refl (base_parameters profile 3),
)

abbrev pub IsGoodName : String → Type 0
IsGoodName s = (s === "" ≡ false) × (code_points s ≤ 128) × (has_control s ≡ false)

validate_name-good :
    (s : String) → (validate_name s).valid ≡ true → IsGoodName ((validate_name s).name)
unfolding validate_name
validate_name-good s e = ground (arith, e)

-- What a page with a pending save refuses.
abbrev pub IsLocked : Page → Type 0
IsLocked p =
    (begin_save p ≡ ignored)
    × (begin_draft p ≡ none)
    × (reset_draft p ≡ none)
    × (restore_defaults p ≡ none)
    × (discard_draft p ≡ none)

truthy-not_nullish : (v : Value) → truthy v ≡ true → is_nullish v ≡ false
truthy-not_nullish undefined h = cc
truthy-not_nullish null h = cc
truthy-not_nullish v h = refl

pending-IsLocked : (p : Page) → p.save.pending ≡ true → IsLocked p
unfolding begin_save begin_draft reset_draft restore_defaults discard_draft
pending-IsLocked p e = (
  elim (Option-cases p.draft) [ inl n ↦ ground (arith, n) | inr (d, s) ↦ ground (arith, s, e) ],
  ground (arith, e),
  elim (Option-cases p.draft) [ inl n ↦ ground (arith, n) | inr (d, s) ↦ ground (arith, s, e) ],
  elim (Option-cases p.draft) [ inl n ↦ ground (arith, n) | inr (d, s) ↦ ground (arith, s, e) ],
  ground (arith, e),
)

begin_save-pending :
    (p q : Page) (payload : Payload) → begin_save p ≡ sent q payload → q.save.pending ≡ true
unfolding begin_save
begin_save-pending p q payload e = ground (arith, e)

validate_name-trimmed : (s : String) → (validate_name s).name ≡ trim s
unfolding validate_name
validate_name-trimmed s = ground arith

-- The name and the base that a save sends are those of the draft that it leaves on the page.
abbrev pub IsSent : Draft → Payload → Type 0
IsSent d payload =
    (payload.display_name ≡ d.display_name)
    × (payload.base_version_id ≡ d.base_version_id)
    × IsGoodName payload.display_name
    × (truthy payload.base_version_id ≡ true)

build_payload-IsSent :
    (d : Draft)
    → IsGoodName d.display_name
    → trim d.display_name ≡ d.display_name
    → truthy d.base_version_id ≡ true
    → IsSent d (build_payload d)
unfolding build_payload
build_payload-IsSent d good same there =
    let base = or_self d.base_version_id null (truthy-not_nullish d.base_version_id there) in
    rw (same, base) (refl, refl, good, there)

begin_save-named :
    (p q : Page) (payload : Payload)
    → begin_save p ≡ sent q payload
    → (d : Draft) × (q.draft ≡ some d) × IsSent d payload
unfolding begin_save
begin_save-named p q payload e = elim (Option-cases p.draft) [
  | inl n ↦ ground (arith, n, e)
  | inr (d, s) ↦
      let named = record d { display_name = (validate_name d.display_name).name } in
      let good = validate_name-good d.display_name (ground (arith, s, e)) in
      let trimmed = validate_name-trimmed d.display_name in
      let same : trim named.display_name ≡ named.display_name =
        ap trim trimmed ∙ trim-trim d.display_name ∙ sym trimmed in
      let made : build_payload named ≡ payload = ground (arith, s, e) in
      (
        named,
        ground (arith, s, e),
        subst (IsSent named) made (build_payload-IsSent named good same (ground (arith, s, e))),
      )
]

-- A save that is sent carries a name that is not empty, has at most 128 characters and none of them a
-- control character, and a base version, both those of the draft on the page; and until it ends nothing
-- starts another save or replaces the draft by the page's own guards.
pub begin_save-sent :
    (p q : Page) (payload : Payload)
    → begin_save p ≡ sent q payload
    → IsLocked q × ((d : Draft) × (q.draft ≡ some d) × IsSent d payload)
begin_save-sent p q payload e =
    (pending-IsLocked q (begin_save-pending p q payload e), begin_save-named p q payload e)

filter-filter-not :
    (f : Value → Bool) (vs : List Value) → filter f (filter (λ x. not (f x)) vs) ≡ []
filter-filter-not f [] = refl
filter-filter-not f (v ∷ vs) = ground (arith, filter-filter-not f vs)

filter-twice : (f : Value → Bool) (vs : List Value) → filter f (filter f vs) ≡ filter f vs
filter-twice f [] = refl
filter-twice f (v ∷ vs) = ground (arith, filter-twice f vs)

has_version_refl :
    (made : Value) (v : String) → get "version_id" made ≡ str v → has_version (str v) made ≡ true
unfolding strict_eq
has_version_refl made v e = rw e (eq_refl v)

others : Value → List Value → List Value
others id profiles = filter (λ item. not (has_version id item)) profiles

none_of_version :
    (made : Value) (v : String) (profiles : List Value)
    → get "version_id" made ≡ str v
    → filter (has_version (str v)) (others (get "version_id" made) profiles) ≡ []
unfolding others
none_of_version made v profiles e =
    ap (λ id. filter (has_version (str v)) (others id profiles)) e
    ∙ filter-filter-not (has_version (str v)) profiles

other_versions :
    (made : Value) (v : String) (profiles : List Value)
    → get "version_id" made ≡ str v
    → others (str v) (others (get "version_id" made) profiles) ≡ others (str v) profiles
unfolding others
other_versions made v profiles e =
    ap (λ id. others (str v) (others id profiles)) e
    ∙ filter-twice (λ item. not (has_version (str v) item)) profiles

-- After a save the new profile is shown and listed first, no other listed profile has its version,
-- every other profile stays listed, and the draft is gone.
pub finish_save-listed :
    (made : Value) (v : String) (p : Page)
    → get "version_id" made ≡ str v
    → let q = finish_save made p in
      (q.custom_profile ≡ made)
      × (q.draft ≡ none)
      × (filter (has_version (str v)) q.custom_profiles ≡ made ∷ [])
      × (filter (λ item. not (has_version (str v) item)) q.custom_profiles
          ≡ filter (λ item. not (has_version (str v) item)) p.custom_profiles)
unfolding finish_save others
finish_save-listed made v p e = (
  refl,
  refl,
  rw (has_version_refl made v e)
      (ap (λ rest. made ∷ rest) (none_of_version made v p.custom_profiles e)),
  rw (has_version_refl made v e) (other_versions made v p.custom_profiles e),
)
