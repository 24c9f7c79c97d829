-- ===== src/Fixtures/Canonical.antt =====
-- backend/scripts/verify_worker_fixture.mjs: the canonical form forgets the order of keys and nothing
-- else that a reader by name can see.
use Prim.Native.String.{[], ◌∷◌}
use text.Mathlib.TextEquality.{Char-path}
use federated_iot_platform.Prelude.{
  true, false, String, ◌≡◌, ◌≢◌, refl, arith, ap, ◌∙◌, Bool-cases, inl, inr, sym, eq_iff, ◌↔◌, none,
}
use federated_iot_platform.Js.{
  Value, undefined, null, bool, num, str, arr, obj, Fields, end, field, Items, nil, cons, lookup,
}
use federated_iot_platform.Fixtures.{
  precedes, insert_by_key, canonicalize, canonicalize_items, canonicalize_fields,
}

precedes-total : (s t : String) → precedes s t ≡ false → precedes t s ≡ true
unfolding precedes
precedes-total [] t h = cc
precedes-total (c ∷ s) [] h = refl
precedes-total (c ∷ s) (d ∷ t) h = ground (arith, precedes-total s t)

precedes_trans : (s t u : String) → precedes s t ≡ true → precedes t u ≡ true → precedes s u ≡ true
unfolding precedes
precedes_trans [] t u h k = refl
precedes_trans (c ∷ s) [] u h k = cc
precedes_trans (c ∷ s) (d ∷ t) [] h k = cc
precedes_trans (c ∷ s) (d ∷ t) (e ∷ u) h k = ground (arith, precedes_trans s t u)

precedes-antisym : (s t : String) → precedes s t ≡ true → precedes t s ≡ true → s ≡ t
unfolding precedes
precedes-antisym [] [] h k = refl
precedes-antisym [] (d ∷ t) h k = cc
precedes-antisym (c ∷ s) [] h k = cc
precedes-antisym (c ∷ s) (d ∷ t) h k = ground (arith, Char-path c d, precedes-antisym s t)

insert_by_key-swap :
    (k j : String) (v w : Value) (fs : Fields)
    → k ≢ j
    → insert_by_key k v (insert_by_key j w fs) ≡ insert_by_key j w (insert_by_key k v fs)
unfolding insert_by_key
insert_by_key-swap k j v w end ne = ground (arith, precedes-total k j, precedes-antisym k j)
insert_by_key-swap k j v w (field i x fs) ne = ground (
  arith,
  precedes-total k j,
  precedes-antisym k j,
  precedes_trans k j i,
  precedes_trans j k i,
  precedes-total j k,
  insert_by_key-swap k j v w fs ne,
)

-- The same value up to the order of the keys of its objects, at any depth.
mutual
  pub data Same : Value → Value → Type 0 where
    same_leaf : {v : Value} → Same v v
    same_back : {v w : Value} → Same v w → Same w v
    same_then : {u v w : Value} → Same u v → Same v w → Same u w
    same_array : {vs ws : Items} → SameItems vs ws → Same (arr vs) (arr ws)
    same_object : {fs gs : Fields} → SameFields fs gs → Same (obj fs) (obj gs)

  pub data SameItems : Items → Items → Type 0 where
    same_nil : SameItems nil nil
    same_cons :
        {v w : Value} {vs ws : Items}
        → Same v w
        → SameItems vs ws
        → SameItems (cons v vs) (cons w ws)

  pub data SameFields : Fields → Fields → Type 0 where
    same_end : SameFields end end
    same_field :
        {k : String} {v w : Value} {fs gs : Fields}
        → Same v w
        → SameFields fs gs
        → SameFields (field k v fs) (field k w gs)
    swap :
        {k j : String} {v w : Value} {fs : Fields}
        → k ≢ j
        → SameFields (field k v (field j w fs)) (field j w (field k v fs))
    followed_by : {fs gs hs : Fields} → SameFields fs gs → SameFields gs hs → SameFields fs hs

mutual
  unfolding canonicalize canonicalize_items canonicalize_fields

  pub canonicalize-Same_in : {v w : Value} → Same v w → canonicalize v ≡ canonicalize w
  canonicalize-Same_in same_leaf = refl
  canonicalize-Same_in (same_back h) = sym (canonicalize-Same_in h)
  canonicalize-Same_in (same_then h k) = canonicalize-Same_in h ∙ canonicalize-Same_in k
  canonicalize-Same_in (same_array h) = ap arr (canonicalize_items-Same h)
  canonicalize-Same_in (same_object h) = ap obj (canonicalize_fields-Same h)

  canonicalize_items-Same :
      {vs ws : Items} → SameItems vs ws → canonicalize_items vs ≡ canonicalize_items ws
  canonicalize_items-Same same_nil = refl
  canonicalize_items-Same (same_cons h hs) = cc (canonicalize-Same_in h, canonicalize_items-Same hs)

  canonicalize_fields-Same :
      {fs gs : Fields} → SameFields fs gs → canonicalize_fields fs ≡ canonicalize_fields gs
  canonicalize_fields-Same same_end = refl
  canonicalize_fields-Same (same_field h hs) =
      cc (canonicalize-Same_in h, canonicalize_fields-Same hs)
  canonicalize_fields-Same (swap {k} {j} {v} {w} {fs} ne) =
      insert_by_key-swap k j (canonicalize v) (canonicalize w) (canonicalize_fields fs) ne
  canonicalize_fields-Same (followed_by h k) =
      canonicalize_fields-Same h ∙ canonicalize_fields-Same k

SameFields-refl : (fs : Fields) → SameFields fs fs
SameFields-refl end = same_end
SameFields-refl (field k v fs) = same_field same_leaf (SameFields-refl fs)

-- No object with a key twice, at any depth.
unfoldable mutual
  pub IsDocument : Value → Type 0
  IsDocument undefined = Unit
  IsDocument null = Unit
  IsDocument (bool b) = Unit
  IsDocument (num n) = Unit
  IsDocument (str s) = Unit
  IsDocument (arr vs) = AreDocuments vs
  IsDocument (obj fs) = HasDocuments fs

  pub AreDocuments : Items → Type 0
  AreDocuments nil = Unit
  AreDocuments (cons v vs) = IsDocument v × AreDocuments vs

  pub HasDocuments : Fields → Type 0
  HasDocuments end = Unit
  HasDocuments (field k v fs) = (lookup k fs ≡ none) × IsDocument v × HasDocuments fs

insert_by_key-SameFields :
    (k : String) (v : Value) (fs : Fields)
    → lookup k fs ≡ none
    → SameFields (field k v fs) (insert_by_key k v fs)
unfolding insert_by_key lookup
insert_by_key-SameFields k v end new = SameFields-refl (field k v end)
insert_by_key-SameFields k v (field j w fs) new =
    let ne : k ≢ j = ground (arith, eq_iff j k) in
    let rest : lookup k fs ≡ none = ground (arith, eq_iff j k) in
    elim (Bool-cases (precedes k j)) [
      | inl e ↦ rw e (SameFields-refl (field k v (field j w fs)))
      | inr e ↦
          rw e (followed_by (swap ne) (same_field same_leaf (insert_by_key-SameFields k v fs rest)))
    ]

lookup-insert_by_key :
    (i k : String) (v : Value) (fs : Fields)
    → k ≢ i
    → lookup i fs ≡ none
    → lookup i (insert_by_key k v fs) ≡ none
unfolding insert_by_key lookup
lookup-insert_by_key i k v end ne new = ground (arith, eq_iff k i)
lookup-insert_by_key i k v (field j w fs) ne new =
    ground (arith, eq_iff k i, eq_iff j i, lookup-insert_by_key i k v fs ne)

lookup-canonicalize_fields :
    (i : String) (fs : Fields) → lookup i fs ≡ none → lookup i (canonicalize_fields fs) ≡ none
unfolding canonicalize_fields lookup
lookup-canonicalize_fields i end new = refl
lookup-canonicalize_fields i (field k v fs) new =
    let ne : k ≢ i = ground (arith, eq_iff k i) in
    let rest : lookup i fs ≡ none = ground (arith, eq_iff k i) in
    lookup-insert_by_key i k (canonicalize v) (canonicalize_fields fs) ne
      (lookup-canonicalize_fields i fs rest)

mutual
  unfolding canonicalize canonicalize_items canonicalize_fields IsDocument AreDocuments HasDocuments

  Same-canonicalize : (v : Value) → IsDocument v → Same v (canonicalize v)
  Same-canonicalize undefined d = same_leaf
  Same-canonicalize null d = same_leaf
  Same-canonicalize (bool b) d = same_leaf
  Same-canonicalize (num n) d = same_leaf
  Same-canonicalize (str s) d = same_leaf
  Same-canonicalize (arr vs) d = same_array (SameItems-canonicalize_items vs d)
  Same-canonicalize (obj fs) d = same_object (SameFields-canonicalize_fields fs d)

  SameItems-canonicalize_items :
      (vs : Items) → AreDocuments vs → SameItems vs (canonicalize_items vs)
  SameItems-canonicalize_items nil d = same_nil
  SameItems-canonicalize_items (cons v vs) (d, ds) =
      same_cons (Same-canonicalize v d) (SameItems-canonicalize_items vs ds)

  SameFields-canonicalize_fields :
      (fs : Fields) → HasDocuments fs → SameFields fs (canonicalize_fields fs)
  SameFields-canonicalize_fields end d = same_end
  SameFields-canonicalize_fields (field k v fs) (new, d, ds) =
      followed_by (same_field (Same-canonicalize v d) (SameFields-canonicalize_fields fs ds)) (
        insert_by_key-SameFields k (canonicalize v) (canonicalize_fields fs)
          (lookup-canonicalize_fields k fs new))

-- Two documents have one canonical form exactly if they are the same up to the order of the keys of
-- their objects, at any depth.
pub canonicalize-eq_iff :
    (v w : Value) → IsDocument v → IsDocument w → (canonicalize v ≡ canonicalize w) ↔ Same v w
canonicalize-eq_iff v w dv dw = (
  λ e. same_then (Same-canonicalize v dv) (same_back (rw e (Same-canonicalize w dw))),
  canonicalize-Same_in,
)
