-- ===== src/Translations.antt =====
-- frontend/src/i18n.ts: the texts of the pages in two languages. A key that is the name of a property
-- of every object is not looked up.
pub mod Tables
pub mod Complete
pub mod KeyCheck
pub mod Filled
mod Tests
use Prim.Native.Char.{Char, code}
use Prim.Native.String.{[], ◌∷◌}
use mathlib.Core.List.{List, [], ◌∷◌}
use federated_iot_platform.Prelude.{
  ℕ, zero, suc, Bool, true, false, not, ◌&&◌, ◌||◌, Option, none, some, String, ◌==◌, ◌===◌,
  if◌then◌else◌, ◌or_else◌,
}
use federated_iot_platform.Js.{Value, str, obj, Fields, get, text, ◌or◌}
use federated_iot_platform.Api.{joined, text_length}
use federated_iot_platform.Api.Paths.{is_alphanumeric}
use federated_iot_platform.Translations.Tables.{
  base_english, base_chinese, additional_english, create_english, terminology_english,
  additional_chinese, create_chinese, terminology_chinese, draft_english, draft_chinese,
  current_english, contract_english, current_chinese, preflight_chinese, contract_chinese,
}

abbrev pub Table : Type 0
Table = List (String × String)

unfoldable pub text_of : String → Table → Option String
text_of k [] = none
text_of k ((j, v) ∷ t) = if j === k then some v else text_of k t

unfoldable pub put : String → String → Table → Table
put k v [] = (k, v) ∷ []
put k v ((j, w) ∷ t) = let rest = put k v t in if j === k then (k, v) ∷ t else (j, w) ∷ rest

-- `Object.assign(table, more)`.
unfoldable pub assign : Table → Table → Table
assign t [] = t
assign t ((k, v) ∷ more) = assign (put k v t) more

unfoldable pub assign_all : Table → List Table → Table
assign_all t [] = t
assign_all t (more ∷ rest) = assign_all (assign t more) rest

pub data Language : Type 0 where
  en zh_cn : Language

-- The tables that are assigned to those of a language, in their order.
unfoldable pub added_tables : Language → List Table
added_tables en =
    additional_english ∷ create_english ∷ draft_english ∷ terminology_english ∷ current_english
    ∷ contract_english ∷ []
added_tables zh_cn =
    additional_chinese ∷ create_chinese ∷ draft_chinese ∷ terminology_chinese ∷ current_chinese
    ∷ preflight_chinese ∷ contract_chinese ∷ []

unfoldable pub base_table : Language → Table
base_table en = base_english
base_table zh_cn = base_chinese

unfoldable pub resources : Language → Table
resources l = assign_all (base_table l) (added_tables l)

-- `next === "zh-CN" ? "zh-CN" : "en"`, for the start and for `setLanguage`.
unfoldable pub language_of : String → Language
language_of s = if s === "zh-CN" then zh_cn else en

abbrev pub is_name_char : Char → Bool
is_name_char c = is_alphanumeric (code c) || code c == b'_'

-- The longest name at the start of a text, and what follows it.
unfoldable pub take_name : String → String × String
take_name [] = ([], [])
take_name (c ∷ s) =
    let (name, rest) = take_name s in if is_name_char c then (c ∷ name, rest) else ([], c ∷ s)

-- The name and the rest of a text that goes on after `{` with a name and `}`.
abbrev pub closed : String × String → Option (String × String)
closed ([], rest) = none
closed (c ∷ name, []) = none
closed (c ∷ name, d ∷ rest) = if code d == b'}' then some (c ∷ name, rest) else none

unfoldable pub placeholder : String → Option (String × String)
unfolding take_name
placeholder s = closed (take_name s)

abbrev pub in_braces : String → String
in_braces name = "{" ∷ joined name ("}" ∷ [])

-- `template.replace(/\{([a-zA-Z0-9_]+)\}/g, ...)`; each round takes a character, so the length of the
-- text is enough fuel.
unfoldable pub substitute : ℕ → Fields → String → String
unfolding placeholder
substitute zero variables s = s
substitute (suc n) variables [] = []
substitute (suc n) variables (c ∷ s) =
    let kept : String = c ∷ substitute n variables s in
    if code c == b'{'
    then elim (placeholder s) [
      | none ↦ kept
      | some (name, rest) ↦
          joined (text (get name (obj variables) or str (in_braces name)))
            (substitute n variables rest)
    ]
    else kept

-- The template of a key: the language's, else the English one, else the key.
abbrev pub or_key : Option String → String → String
or_key none k = k
or_key (some t) k = t

unfoldable pub template : Language → String → String
template l k = or_key (text_of k (resources l) or_else text_of k (resources en)) k

-- `t(key, variables)`.
unfoldable pub translate : Language → String → Fields → String
translate l k variables = let t = template l k in substitute (text_length t) variables t
