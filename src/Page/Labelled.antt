-- ===== src/Page/Labelled.antt =====
-- frontend/src/ui.ts and frontend/src/i18n.ts: the labels of the pages have texts.
use mathlib.Core.List.{List, [], ◌∷◌}
use federated_iot_platform.Prelude.{
  Bool, true, ◌&&◌, Option, none, some, String, is_some, ◌≡◌, refl, arith, ◌∙◌,
}
use federated_iot_platform.Js.{Value, includes, text_or_empty, upper}
use federated_iot_platform.Translations.Tables.{
  base_english, additional_english, create_english, terminology_english, draft_english,
  current_english, contract_english,
}
use federated_iot_platform.Translations.{
  text_of, Language, en, zh_cn, resources, base_table, added_tables,
}
use federated_iot_platform.Translations.Complete.{
  text_of-resources, language_keys, has-resources, is_some-text_of,
}
use federated_iot_platform.Page.{
  status_labels, group_labels, leaf_labels, label_of, with_underscores, spaced_words, or_unknown,
  status_key, group_label_key, translated, words, parameter_leaf_label,
}

-- Every label of a table is a key of the English texts.
all_known : List (String × String) → Bool
all_known [] = true
all_known ((k, v) ∷ t) = includes (language_keys en) v && all_known t

label_of-known :
    (k v : String) (t : List (String × String))
    → all_known t ≡ true
    → label_of k t ≡ some v
    → includes (language_keys en) v ≡ true
unfolding all_known label_of
label_of-known k v [] h e = cc
label_of-known k v ((j, w) ∷ t) h e = ground (arith, label_of-known k v t)

has_english_text :
    (k : String) → includes (language_keys en) k ≡ true → is_some (text_of k (resources en)) ≡ true
has_english_text k h = is_some-text_of k (resources en) ∙ has-resources k en ∙ h

has_text :
    (l : Language) (k : String)
    → includes (language_keys en) k ≡ true
    → is_some (text_of k (resources l)) ≡ true
has_text en k h = has_english_text k h
has_text zh_cn k h = text_of-resources k ∙ has_english_text k h

known_status : all_known status_labels ≡ true
unfolding all_known includes status_labels base_table added_tables base_english additional_english
    create_english terminology_english draft_english current_english contract_english
known_status = refl

known_unknown : includes (language_keys en) "status.unknown" ≡ true
unfolding includes base_table added_tables base_english additional_english create_english
    terminology_english draft_english current_english contract_english
known_unknown = refl

known_groups : all_known group_labels ≡ true
unfolding all_known includes group_labels base_table added_tables base_english additional_english
    create_english terminology_english draft_english current_english contract_english
known_groups = refl

known_leaves : all_known leaf_labels ≡ true
unfolding all_known includes leaf_labels base_table added_tables base_english additional_english
    create_english terminology_english draft_english current_english contract_english
known_leaves = refl

status_key_known :
    (o : Option String) (k : String)
    → label_of k status_labels ≡ o
    → includes (language_keys en) (or_unknown o) ≡ true
status_key_known none k e = known_unknown
status_key_known (some v) k e = label_of-known k v status_labels known_status e

leaf_label :
    (key k : String) (o : Option String)
    → elim o [ some j ↦ translated j | none ↦ words (spaced_words key) ] ≡ translated k
    → o ≡ some k
leaf_label key k (some j) e = ground (arith, e)
leaf_label key k none e = cc

-- In both languages, whatever a status is, its label has a text, and so has every label of a group and
-- of a parameter that is translated at all.
pub labels_known :
    (l : Language) (status : Value) (key k : String)
    → (is_some (text_of (status_key status) (resources l)) ≡ true)
      × (group_label_key key ≡ some k → is_some (text_of k (resources l)) ≡ true)
      × (parameter_leaf_label key ≡ translated k → is_some (text_of k (resources l)) ≡ true)
unfolding status_key group_label_key parameter_leaf_label
labels_known l status key k = (
  has_text l (status_key status)
      (status_key_known _ (with_underscores (upper (text_or_empty status))) refl),
  λ e. has_text l k (label_of-known key k group_labels known_groups e),
  λ e. has_text l k (label_of-known key k leaf_labels known_leaves (leaf_label key k _ e)),
)
