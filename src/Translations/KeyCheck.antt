-- ===== src/Translations/KeyCheck.antt =====
-- frontend/scripts/check-i18n.mjs: the comparison of the keys of both languages. The file with the
-- texts enters as its tables in their order, each with its name and the keys that stand in it.
pub mod Reported
use federated_iot_platform.Prelude.{
  ℕ, zero, suc, ◌+◌, ◌-◌, ◌≤◌, ◌<◌, Bool, true, false, not, ◌&&◌, ◌||◌, Option, none, some, List,
  [], ◌∷◌, ◌++◌, String, ◌==◌, ◌===◌, if◌then◌else◌, length, take, drop, get_elem?, filter, ◌≡◌,
  refl, arith, Bool-cases, inl, inr,
}
use federated_iot_platform.Js
use federated_iot_platform.Js.{includes}

pub record KeyTable : Type 0 where
  pub name : String
  pub keys : List String

-- `keyMatches`: every key of the file.
unfoldable pub key_matches : List KeyTable → List String
key_matches [] = []
key_matches (t ∷ ts) = t.keys ++ key_matches ts

-- The places of "nav.workspace".
unfoldable pub separators_from : ℕ → List String → List ℕ
separators_from i [] = []
separators_from i (k ∷ ks) =
    let rest = separators_from (i + 1) ks in if k === "nav.workspace" then i ∷ rest else rest

-- The keys of a table, `none` where the script throws.
unfoldable pub additional_keys : String → List KeyTable → Option (List String)
additional_keys name [] = none
additional_keys name (t ∷ ts) =
    let rest = additional_keys name ts in if t.name === name then some t.keys else rest

-- The keys of several tables, or the name of the first that is missing.
pub data Found : Type 0 where
  found : List String → Found
  missing_table : String → Found

unfoldable pub all_additional : List String → List KeyTable → Found
unfolding additional_keys
all_additional [] ts = found []
all_additional (n ∷ ns) ts = elim (additional_keys n ts) [
  | none ↦ missing_table n
  | some ks ↦ elim (all_additional ns ts) [
    | missing_table m ↦ missing_table m
    | found more ↦ found (ks ++ more)
  ]
]

-- `new Set(keys)`, each key once.
unfoldable pub distinct : List String → List String
distinct [] = []
distinct (k ∷ ks) = k ∷ filter (λ j. not (j === k)) (distinct ks)

-- `[...these].filter(key => !those.has(key))`.
unfoldable pub missing_in : List String → List String → List String
unfolding distinct
missing_in those these = filter (λ k. not (includes those k)) (distinct these)

abbrev pub english_tables : List String
english_tables =
    "additionalEnglishResources" ∷ "additionalCreateEnglishResources"
    ∷ "additionalDraftEnglishResources" ∷ "currentUiEnglishResources"
    ∷ "currentUiEnglishDataContractResources" ∷ []

abbrev pub chinese_tables : List String
chinese_tables =
    "additionalChineseResources" ∷ "additionalCreateChineseResources"
    ∷ "additionalDraftChineseResources" ∷ "currentUiChineseResources"
    ∷ "currentUiChineseDataContractResources" ∷ []

-- How the script ends: by one of its errors, or with the number of keys.
pub data KeyVerdict : Type 0 where
  wrong_blocks : KeyVerdict
  no_table : String → KeyVerdict
  mismatch : List String → List String → KeyVerdict
  verified : ℕ → KeyVerdict

-- The comparison, once both blocks and all tables are there.
unfoldable pub compare_keys : List String → List String → KeyVerdict
unfolding missing_in distinct
compare_keys english chinese =
    let missing_chinese = missing_in chinese english in
    let missing_english = missing_in english chinese in
    if length missing_chinese == 0 && length missing_english == 0
    then verified (length (distinct english))
    else mismatch missing_chinese missing_english

abbrev pub between : ℕ → ℕ → List String → List String
between i j ks = take (j - i) (drop i ks)

unfoldable pub with_tables : List String → List String → Found → Found → KeyVerdict
unfolding compare_keys
with_tables english chinese (missing_table n) more = no_table n
with_tables english chinese (found en) (missing_table n) = no_table n
with_tables english chinese (found en) (found zh) = compare_keys (english ++ en) (chinese ++ zh)

unfoldable pub on_separators : List ℕ → List KeyTable → KeyVerdict
unfolding key_matches all_additional with_tables
on_separators (i ∷ j ∷ []) ts =
    with_tables (between i j (key_matches ts)) (drop j (key_matches ts))
      (all_additional english_tables ts) (all_additional chinese_tables ts)
on_separators _ ts = wrong_blocks

unfoldable pub check_keys : List KeyTable → KeyVerdict
unfolding separators_from key_matches on_separators
check_keys ts = on_separators (separators_from 0 (key_matches ts)) ts

-- The keys that a verdict calls missing in Chinese.
unfoldable pub reported_missing : KeyVerdict → List String
reported_missing (mismatch chinese english) = chinese
reported_missing wrong_blocks = []
reported_missing (no_table n) = []
reported_missing (verified n) = []
