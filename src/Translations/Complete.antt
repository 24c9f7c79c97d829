-- ===== src/Translations/Complete.antt =====
-- frontend/src/i18n.ts: both languages have the same keys.
use mathlib.Core.List.{List, [], ◌∷◌, ◌++◌}
use federated_iot_platform.Prelude.{
  Bool, true, false, ◌||◌, String, ◌===◌, is_some, all, ◌≡◌, refl, arith, sym, ◌∙◌, eq_iff,
}
use federated_iot_platform.Js.{includes}
use federated_iot_platform.Translations.Tables.{
  base_english, base_chinese, additional_english, create_english, terminology_english,
  additional_chinese, create_chinese, terminology_chinese, draft_english, draft_chinese,
  current_english, contract_english, current_chinese, preflight_chinese, contract_chinese,
}
use federated_iot_platform.Translations.{
  Table, text_of, put, assign, assign_all, Language, en, zh_cn, added_tables, base_table, resources,
}

abbrev pub keys : Table → List String
keys [] = []
keys ((k, v) ∷ t) = k ∷ keys t

abbrev pub has : String → Table → Bool
has k t = includes (keys t) k

-- The keys of a language in the order of the file.
abbrev pub all_keys : List Table → List String
all_keys [] = []
all_keys (t ∷ ts) = keys t ++ all_keys ts

or_swap : (a b c : Bool) → ((a || b) || c) ≡ (b || (a || c))
or_swap true true c = refl
or_swap true false c = refl
or_swap false b c = refl

pub is_some-text_of : (k : String) (t : Table) → is_some (text_of k t) ≡ has k t
unfolding text_of includes
is_some-text_of k [] = refl
is_some-text_of k ((j, v) ∷ t) = ground (arith, is_some-text_of k t)

has-put : (j k v : String) (t : Table) → has j (put k v t) ≡ (k === j || has j t)
unfolding put includes
has-put j k v [] = refl
has-put j k v ((i, w) ∷ t) = ground (arith, has-put j k v t, eq_iff i k, eq_iff k j, eq_iff i j)

has-assign : (j : String) (t more : Table) → has j (assign t more) ≡ (has j t || has j more)
unfolding assign includes
has-assign j t [] = ground arith
has-assign j t ((k, v) ∷ more) = ground (arith, has-assign j (put k v t) more, has-put j k v t)

includes-append :
    (j : String) (a b : List String) → includes (a ++ b) j ≡ (includes a j || includes b j)
unfolding includes
includes-append j [] b = refl
includes-append j (s ∷ a) b = ground (arith, includes-append j a b)

has-assign_all :
    (j : String) (t : Table) (ts : List Table)
    → has j (assign_all t ts) ≡ (has j t || includes (all_keys ts) j)
unfolding assign_all
has-assign_all j t [] = unfold includes in ground arith
has-assign_all j t (more ∷ ts) = ground (
  arith,
  has-assign_all j (assign t more) ts,
  has-assign j t more,
  includes-append j (keys more) (all_keys ts),
)

abbrev pub language_keys : Language → List String
language_keys l = keys (base_table l) ++ all_keys (added_tables l)

pub has-resources : (j : String) (l : Language) → has j (resources l) ≡ includes (language_keys l) j
unfolding resources
has-resources j l =
    has-assign_all j (base_table l) (added_tables l)
    ∙ sym (includes-append j (keys (base_table l)) (all_keys (added_tables l)))

includes-all :
    (j : String) (ss ts : List String)
    → all (includes ts) ss ≡ true
    → includes ss j ≡ true
    → includes ts j ≡ true
unfolding includes
includes-all j [] ts h i = cc
includes-all j (s ∷ ss) ts h i = ground (arith, includes-all j ss ts, eq_iff s j)

english_in_chinese : all (includes (language_keys zh_cn)) (language_keys en) ≡ true
unfolding includes base_table added_tables base_english base_chinese additional_english
    create_english terminology_english additional_chinese create_chinese terminology_chinese
    draft_english draft_chinese current_english contract_english current_chinese preflight_chinese
    contract_chinese
english_in_chinese = refl

chinese_in_english : all (includes (language_keys en)) (language_keys zh_cn) ≡ true
unfolding includes base_table added_tables base_english base_chinese additional_english
    create_english terminology_english additional_chinese create_chinese terminology_chinese
    draft_english draft_chinese current_english contract_english current_chinese preflight_chinese
    contract_chinese
chinese_in_english = refl

-- A key has a Chinese text exactly if it has an English one, so that no known key is shown in English
-- on a Chinese page.
pub text_of-resources :
    (k : String) → is_some (text_of k (resources zh_cn)) ≡ is_some (text_of k (resources en))
text_of-resources k = ground (
  arith,
  is_some-text_of k (resources zh_cn),
  is_some-text_of k (resources en),
  has-resources k en,
  has-resources k zh_cn,
  includes-all k (language_keys en) (language_keys zh_cn) english_in_chinese,
  includes-all k (language_keys zh_cn) (language_keys en) chinese_in_english,
)
