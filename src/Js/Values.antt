-- ===== src/Js/Values.antt =====
-- Dynamic values. Finite numbers are the integers: the fields that the modelled code computes with
-- (event ids, counts, positions, agents, milliseconds) hold integers, and a numeric text that
-- spells no integer converts to NaN here.
use federated_iot_platform.Prelude.{
  ℕ, zero, Bool, true, false, not, ◌||◌, Option, none, some, List, [], ◌∷◌, String, ◌==◌, ◌===◌,
  if◌then◌else◌,
}
use federated_iot_platform.Prelude.Int.{ℤ, pos, negsuc, ltb_ℤ}
use federated_iot_platform.Js.Text.{upper, trim, join, integer_text, read_integer}

pub data Num : Type 0 where
  nan : Num
  infinity : Bool → Num
  int : ℤ → Num

-- Arrays and objects hold values, so their lists are declared with them. An object is the list of
-- its own properties in insertion order.
mutual
  pub data Value : Type 0 where
    undefined : Value
    null : Value
    bool : Bool → Value
    num : Num → Value
    str : String → Value
    arr : Items → Value
    obj : Fields → Value

  pub data Fields : Type 0 where
    end : Fields
    field : String → Value → Fields → Fields

  pub data Items : Type 0 where
    nil : Items
    cons : Value → Items → Items

abbrev pub nat : ℕ → Value
nat n = num (int (pos n))

unfoldable pub list_of : Items → List Value
list_of nil = []
list_of (cons v vs) = v ∷ list_of vs

unfoldable pub items_of : List Value → Items
items_of [] = nil
items_of (v ∷ vs) = cons v (items_of vs)

-- `Array.isArray(v) ? v : []`.
unfoldable pub items : Value → List Value
unfolding list_of
items (arr vs) = list_of vs
items undefined = []
items _ = []

abbrev pub is_array : Value → Bool
is_array (arr vs) = true
is_array undefined = false
is_array _ = false

-- `isRecord(v)`, and `typeof v === "object"` on what is no array and not null.
abbrev pub is_record : Value → Bool
is_record (obj fs) = true
is_record undefined = false
is_record _ = false

-- `v === null || v === undefined`.
abbrev pub is_nullish : Value → Bool
is_nullish undefined = true
is_nullish null = true
is_nullish _ = false

-- `v ?? w`.
infixr 20 ◌or◌
abbrev pub ◌or◌ : Value → Value → Value
undefined or w = w
null or w = w
v or w = v

-- The last property of a name in a well-formed object is its only one.
unfoldable pub lookup : String → Fields → Option Value
lookup k end = none
lookup k (field j v fs) = if j === k then some v else lookup k fs

-- `Object.prototype.hasOwnProperty.call(v, k)`.
unfoldable pub has : String → Value → Bool
unfolding lookup
has k (obj fs) = elim (lookup k fs) [ none ↦ false | some v ↦ true ]
has k undefined = false
has k _ = false

abbrev pub or_undefined : Option Value → Value
or_undefined none = undefined
or_undefined (some v) = v

-- `v?.k`, for a property that arrays and texts do not have.
unfoldable pub get : String → Value → Value
unfolding lookup
get k (obj fs) = or_undefined (lookup k fs)
get k undefined = undefined
get k _ = undefined

-- `Boolean(v)`.
abbrev pub truthy_num : Num → Bool
truthy_num nan = false
truthy_num (infinity s) = true
truthy_num (int (pos zero)) = false
truthy_num (int _) = true

abbrev pub truthy : Value → Bool
truthy undefined = false
truthy null = false
truthy (bool b) = b
truthy (num n) = truthy_num n
truthy (str s) = not (s === "")
truthy (arr vs) = true
truthy (obj fs) = true

-- `m === n` on numbers.
abbrev pub int_eq : ℤ → ℤ → Bool
int_eq (pos m) (pos n) = m == n
int_eq (negsuc m) (negsuc n) = m == n
int_eq _ _ = false

abbrev pub bool_eq : Bool → Bool → Bool
bool_eq true b = b
bool_eq false b = not b

abbrev pub num_eq : Num → Num → Bool
num_eq nan n = false
num_eq (infinity s) (infinity t) = bool_eq s t
num_eq (int m) (int n) = int_eq m n
num_eq _ _ = false

-- `v === w`. Two objects that come from different places are different.
unfoldable pub strict_eq : Value → Value → Bool
strict_eq undefined undefined = true
strict_eq null null = true
strict_eq (bool a) (bool b) = bool_eq a b
strict_eq (num m) (num n) = num_eq m n
strict_eq (str s) (str t) = s === t
strict_eq _ _ = false

abbrev pub num_text : Num → String
num_text nan = "NaN"
num_text (infinity true) = "-Infinity"
num_text (infinity false) = "Infinity"
num_text (int n) = integer_text n

-- `String(v)`; in an array null and undefined are empty.
unfoldable mutual
  pub text : Value → String
  text undefined = "undefined"
  text null = "null"
  text (bool true) = "true"
  text (bool false) = "false"
  text (num n) = num_text n
  text (str s) = s
  text (arr vs) = join "," (texts vs)
  text (obj fs) = "[object Object]"

  pub texts : Items → List String
  texts nil = []
  texts (cons v vs) = (if is_nullish v then "" else text v) ∷ texts vs

-- `String(v ?? "")`, alone, and in upper case.
abbrev pub text_or_empty : Value → String
text_or_empty v = text (v or str "")

abbrev pub upper_text : Value → String
upper_text v = upper (text_or_empty v)

-- `Number(s)`.
unfoldable pub number_of_text : String → Num
number_of_text s =
    let t = trim s in
    if t === ""
    then int (pos 0)
    else if t === "Infinity" || t === "+Infinity"
    then infinity false
    else if t === "-Infinity"
    then infinity true
    else elim (read_integer t) [ none ↦ nan | some n ↦ int n ]

-- `Number(v)`.
unfoldable pub number : Value → Num
unfolding number_of_text text
number undefined = nan
number null = int (pos 0)
number (bool b) = int (pos (if b then 1 else 0))
number (num n) = n
number (str s) = number_of_text s
number (arr vs) = number_of_text (text (arr vs))
number (obj fs) = nan

-- `Number.isFinite(n)` with the value that it has.
abbrev pub finite? : Num → Option ℤ
finite? (int n) = some n
finite? nan = none
finite? (infinity s) = none

-- `Math.max(m, n)` of finite numbers, and `m > n`.
abbrev pub max_ℤ : ℤ → ℤ → ℤ
max_ℤ m n = if ltb_ℤ m n then n else m

abbrev pub min_ℤ : ℤ → ℤ → ℤ
min_ℤ m n = if ltb_ℤ n m then n else m

-- `Math.max(0, n)`, a natural number.
abbrev pub clamp_ℕ : ℤ → ℕ
clamp_ℕ (pos n) = n
clamp_ℕ (negsuc n) = 0
