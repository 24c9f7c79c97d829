-- ===== src/Js/Equality.antt =====
-- Strict equality with a text.
use federated_iot_platform.Prelude.{true, String, ◌≡◌, arith, eq_iff}
use federated_iot_platform.Js.{Value, undefined, str, strict_eq}

pub strict_eq-str : (v : Value) (s : String) → strict_eq v (str s) ≡ true → v ≡ str s
unfolding strict_eq
strict_eq-str (str t) s e = ground (arith, e, eq_iff t s)
strict_eq-str undefined s e = ground (arith, e)
strict_eq-str v s e = ground (arith, e)

pub str-strict_eq : (v : Value) (s : String) → strict_eq (str s) v ≡ true → v ≡ str s
unfolding strict_eq
str-strict_eq (str t) s e = ground (arith, e, eq_iff s t)
str-strict_eq undefined s e = ground (arith, e)
str-strict_eq v s e = ground (arith, e)
