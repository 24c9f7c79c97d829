-- ===== src/Draft/Paths.antt =====
-- frontend/src/ui.ts: reading, writing and removing a value at a path of property names.
use Prim.Native.Char.{code}
use Prim.Native.String.{[], ◌∷◌}
use mathlib.Core.List.{List, [], ◌∷◌}
use federated_iot_platform.Prelude.{
  Bool, true, false, not, ◌||◌, none, some, String, ◌==◌, ◌===◌, if◌then◌else◌, ◌≡◌, refl, arith,
  eq_refl, filter, Option-cases, inl, inr, ◌∙◌,
}
use federated_iot_platform.Js.{
  Value, undefined, obj, Fields, get, has, lookup, is_record, or_undefined, ◌++◌,
}
use federated_iot_platform.Js.Objects.{insert, remove, fields_of, lookup-insert, lookup-remove}

split_from : String → String → List String
split_from cur [] = cur ∷ []
split_from cur (c ∷ s) =
    let closed = split_from "" s in
    let longer = split_from (cur ++ c ∷ []) s in if code c == b'.' then cur ∷ closed else longer

-- `path.split(".").filter(Boolean)`.
unfoldable pub path_parts : String → List String
unfolding split_from
path_parts path = filter (λ part. not (part === "")) (split_from "" path)

unfoldable pub read_path : Value → List String → Value
read_path v [] = v
read_path v (k ∷ ks) = read_path (get k v) ks

unfoldable pub has_path : Value → List String → Bool
has_path v [] = false
has_path v (k ∷ []) = has k v
has_path v (k ∷ j ∷ ks) = has_path (get k v) (j ∷ ks)

-- A step of the path that holds no record becomes one.
abbrev pub record_at : String → Fields → Fields
record_at k fs = fields_of (or_undefined (lookup k fs))

-- A path has at least one part.
unfoldable pub write_path : Fields → List String → Value → Fields
write_path fs [] next = fs
write_path fs (k ∷ []) next = insert k next fs
write_path fs (k ∷ j ∷ ks) next = insert k (obj (write_path (record_at k fs) (j ∷ ks) next)) fs

unfoldable pub remove_path : Value → List String → Value
remove_path v [] = v
remove_path (obj fs) (k ∷ []) = obj (remove k fs)
remove_path (obj fs) (k ∷ j ∷ ks) = elim (lookup k fs) [
  | none ↦ obj fs
  | some inner ↦ obj (insert k (remove_path inner (j ∷ ks)) fs)
]
remove_path undefined (k ∷ ks) = undefined
remove_path v (k ∷ ks) = v

get-insert :
    (k j : String) (v : Value) (fs : Fields)
    → get j (obj (insert k v fs)) ≡ (if k === j then v else get j (obj fs))
unfolding get
get-insert k j v fs = ground (arith, lookup-insert k j v fs)

-- What was written at a path is what is read there.
pub read-write_path :
    (fs : Fields) (k : String) (ks : List String) (next : Value)
    → read_path (obj (write_path fs (k ∷ ks) next)) (k ∷ ks) ≡ next
unfolding read_path write_path
read-write_path fs k [] next = get-insert k k next fs ∙ rw (eq_refl k)
read-write_path fs k (j ∷ ks) next =
    rw (get-insert k k (obj (write_path (record_at k fs) (j ∷ ks) next)) fs, eq_refl k)
      (read-write_path (record_at k fs) j ks next)

has-insert :
    (k j : String) (v : Value) (fs : Fields)
    → has j (obj (insert k v fs)) ≡ k === j || has j (obj fs)
unfolding has
has-insert k j v fs = ground (arith, lookup-insert k j v fs)

-- A path that was written is there.
pub has-write_path :
    (fs : Fields) (k : String) (ks : List String) (next : Value)
    → has_path (obj (write_path fs (k ∷ ks) next)) (k ∷ ks) ≡ true
unfolding has_path write_path
has-write_path fs k [] next = has-insert k k next fs ∙ rw (eq_refl k)
has-write_path fs k (j ∷ ks) next =
    rw (get-insert k k (obj (write_path (record_at k fs) (j ∷ ks) next)) fs, eq_refl k)
      (has-write_path (record_at k fs) j ks next)

-- A write at a path leaves every property but the first one of the path.
pub write_path-other :
    (fs : Fields) (k j : String) (ks : List String) (next : Value)
    → k === j ≡ false
    → get j (obj (write_path fs (k ∷ ks) next)) ≡ get j (obj fs)
unfolding write_path
write_path-other fs k j [] next d = get-insert k j next fs ∙ rw d
write_path-other fs k j (i ∷ ks) next d =
    get-insert k j (obj (write_path (record_at k fs) (i ∷ ks) next)) fs ∙ rw d

has-remove : (k : String) (fs : Fields) → has k (obj (remove k fs)) ≡ false
unfolding has
has-remove k fs = ground (arith, lookup-remove k k fs, eq_refl k)

has_path-undefined : (k : String) (ks : List String) → has_path undefined (k ∷ ks) ≡ false
unfolding has_path has get
has_path-undefined k [] = refl
has_path-undefined k (j ∷ ks) = has_path-undefined j ks

has_path-plain :
    (v : Value) (k : String) (ks : List String) → is_record v ≡ false → has_path v (k ∷ ks) ≡ false
unfolding has_path has get
has_path-plain (obj fs) k ks e = ground (arith, e)
has_path-plain undefined k ks e = has_path-undefined k ks
has_path-plain v k [] e = refl
has_path-plain v k (j ∷ ks) e = has_path-undefined j ks

absent :
    (k j : String) (ks : List String) (fs : Fields)
    → lookup k fs ≡ none
    → has_path (get k (obj fs)) (j ∷ ks) ≡ false
unfolding get
absent k j ks fs e = rw e (has_path-undefined j ks)

-- A path that was removed is not there.
pub has-remove_path :
    (v : Value) (k : String) (ks : List String) → has_path (remove_path v (k ∷ ks)) (k ∷ ks) ≡ false
unfolding has_path remove_path
has-remove_path (obj fs) k [] = has-remove k fs
has-remove_path (obj fs) k (j ∷ ks) = elim (Option-cases (lookup k fs)) [
  | inl e ↦ rw (remove_path, e) (absent k j ks fs e)
  | inr (inner, e) ↦
      rw (remove_path, e, get-insert k k (remove_path inner (j ∷ ks)) fs, eq_refl k)
        (has-remove_path inner j ks)
]
has-remove_path undefined k ks = has_path-undefined k ks
has-remove_path v k [] = has_path-plain v k [] refl
has-remove_path v k (j ∷ ks) = has_path-plain v k (j ∷ ks) refl
