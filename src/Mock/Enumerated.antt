-- ===== src/Mock/Enumerated.antt =====
-- frontend/src/ui.ts: the parts of a list of different runs, and which of them are new to the others.
use federated_iot_platform.Prelude.{
  ℕ, zero, suc, ◌+◌, ◌≤◌, Bool, true, false, not, List, [], ◌∷◌, ◌++◌, length, take, drop, filter,
  any, All, ◌≡◌, refl, arith, Bool-cases, inl, inr, ap,
}
use federated_iot_platform.Js.{Value}
use federated_iot_platform.History.{same_run}
use federated_iot_platform.History.Listed.{distinct}

pub take-drop : (n : ℕ) (xs : List Value) → take n xs ++ drop n xs ≡ xs
take-drop zero xs = refl
take-drop (suc n) [] = refl
take-drop (suc n) (x ∷ xs) = ap (λ ys. x ∷ ys) (take-drop n xs)

take-length : (n : ℕ) (xs : List Value) → take n xs ≡ take (length (take n xs)) xs
take-length zero xs = refl
take-length (suc n) [] = refl
take-length (suc n) (x ∷ xs) = ap (λ ys. x ∷ ys) (take-length n xs)

pub take-all : (xs : List Value) → take (length xs) xs ≡ xs
take-all [] = refl
take-all (x ∷ xs) = ap (λ ys. x ∷ ys) (take-all xs)

pub take-take-drop :
    (n m : ℕ) (xs : List Value)
    → n ≤ length xs
    → take n xs ++ take m (drop n xs) ≡ take (n + length (take m (drop n xs))) xs
take-take-drop zero m xs h =
    let e : 0 + length (take m xs) ≡ length (take m xs) = omega arith in rw e (take-length m xs)
take-take-drop (suc n) m [] h = absurd (omega arith)
take-take-drop (suc n) m (x ∷ xs) h =
    let page = take m (drop n xs) in
    let e : suc n + length page ≡ suc (n + length page) = omega arith in
    rw e (ap (λ ys. x ∷ ys) (take-take-drop n m xs (omega arith)))

pub filter-append :
    (p : Value → Bool) (xs ys : List Value) → filter p (xs ++ ys) ≡ filter p xs ++ filter p ys
filter-append p [] ys = refl
filter-append p (x ∷ xs) ys = ground (arith, filter-append p xs ys)

pub filter-kept : (p : Value → Bool) (xs : List Value) → All (λ x. p x ≡ true) xs → filter p xs ≡ xs
filter-kept p [] h = refl
filter-kept p (x ∷ xs) (e, h) = rw e (ap (λ ys. x ∷ ys) (filter-kept p xs h))

any-filter : (p q : Value → Bool) (xs : List Value) → any p xs ≡ false → any p (filter q xs) ≡ false
any-filter p q [] h = refl
any-filter p q (x ∷ xs) h = ground (arith, any-filter p q xs)

any-append_right :
    (p : Value → Bool) (xs ys : List Value) → any p (xs ++ ys) ≡ false → any p ys ≡ false
any-append_right p [] ys h = h
any-append_right p (x ∷ xs) ys h = any-append_right p xs ys (ground arith)

-- An item that is none of the runs of a list.
abbrev IsNew : List Value → Value → Type 0
IsNew prior run = any (λ previous. same_run previous run) prior ≡ false

All-IsNew_nil : (ys : List Value) → All (IsNew []) ys
All-IsNew_nil [] = tt
All-IsNew_nil (y ∷ ys) = (refl, All-IsNew_nil ys)

All-IsNew_cons :
    (x : Value) (xs ys : List Value)
    → any (same_run x) ys ≡ false
    → All (IsNew xs) ys
    → All (IsNew (x ∷ xs)) ys
All-IsNew_cons x xs [] h a = tt
All-IsNew_cons x xs (y ∷ ys) h (e, a) = (ground (arith, e), All-IsNew_cons x xs ys (ground arith) a)

pub distinct-IsNew : (xs ys : List Value) → distinct (xs ++ ys) ≡ true → All (IsNew xs) ys
distinct-IsNew [] ys h = All-IsNew_nil ys
distinct-IsNew (x ∷ xs) ys h =
    let new : any (same_run x) (xs ++ ys) ≡ false = ground arith in
    All-IsNew_cons x xs ys (any-append_right (same_run x) xs ys new)
      (distinct-IsNew xs ys (ground arith))

pub All-take {κ} : (P : Value → Type κ) (n : ℕ) (xs : List Value) → All P xs → All P (take n xs)
All-take P zero xs h = tt
All-take P (suc n) [] h = tt
All-take P (suc n) (x ∷ xs) (p, h) = (p, All-take P n xs h)

pub All-kept :
    (q : Value → Bool) (prior ys : List Value)
    → All (IsNew prior) ys
    → All (λ y. not (any (λ previous. same_run previous y) (filter q prior)) ≡ true) (filter q ys)
All-kept q prior [] h = tt
All-kept q prior (y ∷ ys) (e, h) = elim (Bool-cases (q y)) [
  | inl k ↦
      let none_same = any-filter (λ previous. same_run previous y) q prior e in
      rw k (rw none_same refl, All-kept q prior ys h)
  | inr k ↦ rw k (All-kept q prior ys h)
]
