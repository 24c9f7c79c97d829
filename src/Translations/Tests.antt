-- ===== src/Translations/Tests.antt =====
-- frontend/src/i18n.ts and frontend/scripts/check-i18n.mjs: a key of both languages, an error of an
-- unknown code, and a check of tables where an English key has no Chinese text.
use federated_iot_platform.Prelude.{
  false, List, [], ◌∷◌, ◌++◌, String, ◌≡◌, refl, is_some, length, arith,
}
use federated_iot_platform.Js.{includes}
use federated_iot_platform.Translations.{text_of, resources, en, zh_cn}
use federated_iot_platform.Translations.Complete.{text_of-resources}
use federated_iot_platform.Translations.KeyCheck.{
  KeyTable, key_matches, separators_from, check_keys, reported_missing,
}
use federated_iot_platform.Translations.KeyCheck.Reported.{check_keys-after}

text_of-resources_example :
    is_some (text_of "nav.workspace" (resources zh_cn))
    ≡ is_some (text_of "nav.workspace" (resources en))
text_of-resources_example = text_of-resources "nav.workspace"

abbrev table_of : String → List String → KeyTable
table_of name keys = record { name = name; keys = keys }

abbrev blocks : List KeyTable
blocks =
    table_of "en" ("nav.workspace" ∷ "a" ∷ []) ∷ table_of "zh-CN" ("nav.workspace" ∷ "a" ∷ []) ∷ []

abbrev english_only : KeyTable
english_only = table_of "currentUiEnglishResources" ("b" ∷ [])

abbrev later : List KeyTable
later = table_of "currentUiChineseResources" [] ∷ []

two_separators : separators_from 0 (key_matches (blocks ++ (english_only ∷ later))) ≡ 0 ∷ 2 ∷ []
unfolding separators_from key_matches
two_separators = refl

four_before : length (key_matches blocks) ≡ 4
unfolding key_matches
four_before = refl

check_keys-after_example :
    includes (reported_missing (check_keys (blocks ++ (english_only ∷ later)))) "b" ≡ false
unfolding includes key_matches
check_keys-after_example =
    check_keys-after blocks later english_only "b" 0 2 two_separators (omega arith) refl
