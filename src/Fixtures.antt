-- ===== src/Fixtures.antt =====
-- backend/scripts/verify_worker_fixture.mjs: the canonical form of a fixture. Keys are compared by
-- code points. An object that is made of sorted entries keeps them in that order, which holds for keys
-- that spell no index or indices of one length, as those of the fixtures do.
pub mod Canonical
pub mod Checks
pub mod Verdicts
mod Tests
use Prim.Native.Char.{code}
use Prim.Native.String.{[], ◌∷◌}
use federated_iot_platform.Prelude.{Bool, true, false, String, ltb, if◌then◌else◌}
use federated_iot_platform.Js.{
  Value, undefined, null, bool, num, str, arr, obj, Fields, end, field, Items, nil, cons,
}

-- Whether `sort()` may put `s` before `t`.
unfoldable pub precedes : String → String → Bool
precedes [] t = true
precedes (c ∷ s) [] = false
precedes (c ∷ s) (d ∷ t) =
    let rest = precedes s t in
    if ltb (code c) (code d) then true else if ltb (code d) (code c) then false else rest

unfoldable pub insert_by_key : String → Value → Fields → Fields
unfolding precedes
insert_by_key k v end = field k v end
insert_by_key k v (field j w fs) =
    let rest = insert_by_key k v fs in
    if precedes k j then field k v (field j w fs) else field j w rest

-- `canonicalize(value)`: the keys of every object sorted.
unfoldable mutual
  unfolding insert_by_key

  pub canonicalize : Value → Value
  canonicalize undefined = undefined
  canonicalize null = null
  canonicalize (bool b) = bool b
  canonicalize (num n) = num n
  canonicalize (str s) = str s
  canonicalize (arr vs) = arr (canonicalize_items vs)
  canonicalize (obj fs) = obj (canonicalize_fields fs)

  pub canonicalize_items : Items → Items
  canonicalize_items nil = nil
  canonicalize_items (cons v vs) = cons (canonicalize v) (canonicalize_items vs)

  pub canonicalize_fields : Fields → Fields
  canonicalize_fields end = end
  canonicalize_fields (field k v fs) = insert_by_key k (canonicalize v) (canonicalize_fields fs)
