-- ===== src/Draft/Json.antt =====
-- frontend/src/ui.ts: `equalJson`, the equality of the texts that `JSON.stringify` makes. Values
-- that it would not tell apart (NaN and null, a property that is undefined and one that is missing)
-- do not come from the API together.
use mathlib.Core.List.{List, [], ◌∷◌}
use federated_iot_platform.Prelude.{Bool, true, false, ◌&&◌, ◌===◌, ◌≡◌, refl, arith, eq_refl}
use federated_iot_platform.Prelude.Int.{pos, negsuc}
use federated_iot_platform.Js.{
  Value, undefined, null, bool, num, str, arr, obj, Items, nil, cons, Fields, end, field, Num, nan,
  infinity, int, bool_eq, int_eq,
}

abbrev pub same_num : Num → Num → Bool
same_num nan nan = true
same_num (infinity s) (infinity t) = bool_eq s t
same_num (int m) (int n) = int_eq m n
same_num _ _ = false

unfoldable mutual
  pub json_eq : Value → Value → Bool
  json_eq undefined undefined = true
  json_eq null null = true
  json_eq (bool a) (bool b) = bool_eq a b
  json_eq (num m) (num n) = same_num m n
  json_eq (str s) (str t) = s === t
  json_eq (arr vs) (arr ws) = json_eq_items vs ws
  json_eq (obj fs) (obj gs) = json_eq_fields fs gs
  json_eq _ _ = false

  pub json_eq_items : Items → Items → Bool
  json_eq_items nil nil = true
  json_eq_items (cons v vs) (cons w ws) = json_eq v w && json_eq_items vs ws
  json_eq_items _ _ = false

  pub json_eq_fields : Fields → Fields → Bool
  json_eq_fields end end = true
  json_eq_fields (field k v fs) (field j w gs) = k === j && json_eq v w && json_eq_fields fs gs
  json_eq_fields _ _ = false

unfoldable pub json_eq_list : List Value → List Value → Bool
json_eq_list [] [] = true
json_eq_list (v ∷ vs) (w ∷ ws) = json_eq v w && json_eq_list vs ws
json_eq_list _ _ = false

same_num_refl : (n : Num) → same_num n n ≡ true
same_num_refl nan = refl
same_num_refl (infinity true) = refl
same_num_refl (infinity false) = refl
same_num_refl (int (pos n)) = ground arith
same_num_refl (int (negsuc n)) = ground arith

bool_eq_refl : (b : Bool) → bool_eq b b ≡ true
bool_eq_refl true = refl
bool_eq_refl false = refl

mutual
  unfolding json_eq

  json_refl : (v : Value) → json_eq v v ≡ true
  json_refl undefined = refl
  json_refl null = refl
  json_refl (bool b) = bool_eq_refl b
  json_refl (num n) = same_num_refl n
  json_refl (str s) = eq_refl s
  json_refl (arr vs) = json_refl_items vs
  json_refl (obj fs) = json_refl_fields fs

  json_refl_items : (vs : Items) → json_eq_items vs vs ≡ true
  json_refl_items nil = refl
  json_refl_items (cons v vs) = ground (arith, json_refl v, json_refl_items vs)

  json_refl_fields : (fs : Fields) → json_eq_fields fs fs ≡ true
  json_refl_fields end = refl
  json_refl_fields (field k v fs) = ground (arith, eq_refl k, json_refl v, json_refl_fields fs)

pub json_eq_refl : (v : Value) → json_eq v v ≡ true
json_eq_refl v = json_refl v
