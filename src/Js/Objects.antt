-- ===== src/Js/Objects.antt =====
-- Plain objects: assignment, deletion, and spreading one into another.
use federated_iot_platform.Prelude.{
  none, some, String, ◌===◌, if◌then◌else◌, ◌≡◌, refl, arith, ap, eq_iff, ◌or_else◌, List, [], ◌∷◌,
}
use federated_iot_platform.Js.{
  Value, undefined, obj, Fields, end, field, lookup, get, or_undefined, list_of, items_of,
}

-- `o[k] = v`: a property keeps its place, a new one goes to the end.
unfoldable pub insert : String → Value → Fields → Fields
insert k v end = field k v end
insert k v (field j w fs) = if j === k then field k v fs else field j w (insert k v fs)

-- `delete o[k]`.
unfoldable pub remove : String → Fields → Fields
remove k end = end
remove k (field j w fs) = let rest = remove k fs in if j === k then rest else field j w rest

-- `{ ...a, ...b }`: the properties of `a` with the values of `b`, then those that only `b` has.
overridden : Fields → Fields → Fields
overridden end b = end
overridden (field k v a) b = field k (elim (lookup k b) [ none ↦ v | some w ↦ w ]) (overridden a b)

added : Fields → Fields → Fields
added a end = end
added a (field k v b) =
    let rest = added a b in elim (lookup k a) [ none ↦ field k v rest | some w ↦ rest ]

append : Fields → Fields → Fields
append end b = b
append (field k v a) b = field k v (append a b)

unfoldable pub merge : Fields → Fields → Fields
unfolding overridden added append
merge a b = append (overridden a b) (added a b)

-- What a value spreads into an object. Arrays and texts are never spread in the modelled code.
abbrev pub fields_of : Value → Fields
fields_of (obj fs) = fs
fields_of undefined = end
fields_of _ = end

-- `{ ...v, ...w }` and `{ ...v, k: w }`.
unfoldable pub spread : Value → Value → Value
unfolding merge
spread v w = obj (merge (fields_of v) (fields_of w))

unfoldable pub with_field : String → Value → Value → Value
unfolding insert
with_field k w v = obj (insert k w (fields_of v))

-- `Object.entries(v)`.
unfoldable pub entries : Fields → List (String × Value)
entries end = []
entries (field k v fs) = (k, v) ∷ entries fs

pub lookup-insert :
    (k j : String) (v : Value) (fs : Fields)
    → lookup j (insert k v fs) ≡ (if k === j then some v else lookup j fs)
unfolding lookup insert
lookup-insert k j v end = refl
lookup-insert k j v (field i w fs) =
    ground (arith, eq_iff k j, eq_iff i k, eq_iff i j, lookup-insert k j v fs)

pub lookup-remove :
    (k j : String) (fs : Fields) → lookup j (remove k fs) ≡ (if k === j then none else lookup j fs)
unfolding lookup remove
lookup-remove k j end = ground arith
lookup-remove k j (field i w fs) =
    ground (arith, eq_iff k j, eq_iff i k, eq_iff i j, lookup-remove k j fs)

lookup-append : (j : String) (a b : Fields) → lookup j (append a b) ≡ lookup j a or_else lookup j b
unfolding lookup append
lookup-append j end b = refl
lookup-append j (field k v a) b = ground (arith, lookup-append j a b)

lookup-overridden :
    (j : String) (a b : Fields)
    → lookup j (overridden a b)
      ≡ elim (lookup j a) [ none ↦ none | some v ↦ lookup j b or_else some v ]
unfolding lookup overridden
lookup-overridden j end b = refl
lookup-overridden j (field k v a) b = ground (arith, eq_iff k j, lookup-overridden j a b)

lookup-added : (j : String) (a b : Fields) → lookup j a ≡ none → lookup j (added a b) ≡ lookup j b
unfolding lookup added
lookup-added j a end h = refl
lookup-added j a (field k v b) h = ground (arith, eq_iff k j, lookup-added j a b)

-- A merged object has the right one's value of a property, and else the left one's.
pub lookup-merge :
    (j : String) (a b : Fields) → lookup j (merge a b) ≡ lookup j b or_else lookup j a
unfolding merge
lookup-merge j a b = ground (
  arith,
  lookup-append j (overridden a b) (added a b),
  lookup-overridden j a b,
  lookup-added j a b,
)

pub get-with_field :
    (k j : String) (w v : Value)
    → get j (with_field k w v) ≡ (if k === j then w else or_undefined (lookup j (fields_of v)))
unfolding get with_field
get-with_field k j w v = ground (arith, lookup-insert k j w (fields_of v))

pub get-fields_of : (j : String) (v : Value) → or_undefined (lookup j (fields_of v)) ≡ get j v
unfolding get lookup
get-fields_of j (obj fs) = refl
get-fields_of j undefined = refl
get-fields_of j _ = refl

pub get-spread :
    (j : String) (v w : Value)
    → get j (spread v w) ≡ or_undefined (lookup j (fields_of w) or_else lookup j (fields_of v))
unfolding get spread
get-spread j v w = ap or_undefined (lookup-merge j (fields_of v) (fields_of w))

-- A property of an object that one was assigned to.
pub get_with :
    (k j : String) (w v : Value) → get j (with_field k w v) ≡ (if k === j then w else get j v)
get_with k j w v = ground (arith, get-with_field k j w v, get-fields_of j v)

pub list_of-items_of : (runs : List Value) → list_of (items_of runs) ≡ runs
unfolding list_of items_of
list_of-items_of [] = refl
list_of-items_of (v ∷ vs) = ap (λ ws. v ∷ ws) (list_of-items_of vs)
