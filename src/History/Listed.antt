-- ===== src/History/Listed.antt =====
-- frontend/src/ui.ts: the runs that the history lists after a load or an update.
use federated_iot_platform.Prelude.{
  ℕ, zero, suc, ◌≡◌, ◌≢◌, refl, Bool, true, false, not, ◌&&◌, ◌||◌, some, List, [], ◌∷◌, ◌++◌,
  String, filter, any, All, arith, Bool-cases, Option-cases, inl, inr, ap, ◌∙◌, sym, find_idx?,
  get_elem?, set,
}
use federated_iot_platform.Js.{
  Value, null, undefined, get, text, upper, upper_text, includes, lookup, or_undefined,
}
use federated_iot_platform.Js.Objects.{spread, fields_of, get-with_field, get-spread, get-fields_of}
use federated_iot_platform.Queue.{page_items}
use federated_iot_platform.History.{
  History, is_terminal_run, terminal_statuses, same_run, upsert_items, upsert_run, run_from_detail,
}
use federated_iot_platform.History.Loading.{Load, loaded_items, new_items}

abbrev pub AllEnded : List Value → Type 0
AllEnded = All (λ run. is_terminal_run run ≡ true)

module _ (p : Value → Bool) where
  All-filter : (xs : List Value) → All (λ x. p x ≡ true) (filter p xs)
  All-filter [] = tt
  All-filter (x ∷ xs) = elim (Bool-cases (p x)) [
    | inl h ↦ rw h (h, All-filter xs)
    | inr h ↦ rw h (All-filter xs)
  ]

  All-filter_of {κ} : (P : Value → Type κ) (xs : List Value) → All P xs → All P (filter p xs)
  All-filter_of P [] h = tt
  All-filter_of P (x ∷ xs) (q, h) = elim (Bool-cases (p x)) [
    | inl e ↦ rw e (q, All-filter_of P xs h)
    | inr e ↦ rw e (All-filter_of P xs h)
  ]

All-append {κ} : (P : Value → Type κ) (xs ys : List Value) → All P xs → All P ys → All P (xs ++ ys)
All-append P [] ys h k = k
All-append P (x ∷ xs) ys (p, h) k = (p, All-append P xs ys h k)

-- A page adds only runs that have ended.
loaded_items-AllEnded :
    (l : Load) (response : Value) → AllEnded l.prior → AllEnded (loaded_items l response)
unfolding loaded_items new_items
loaded_items-AllEnded l response h =
    let page = All-filter is_terminal_run (page_items response) in
    elim (Bool-cases l.appends) [
      | inl a ↦ rw a (
          All-append (λ run. is_terminal_run run ≡ true) l.prior _ h
            (All-filter_of (λ next. not (any (λ previous. same_run previous next) l.prior)) _ _
              page))
      | inr a ↦ rw a page
    ]

-- No two items of the list are the same run.
abbrev pub distinct : List Value → Bool
distinct [] = true
distinct (x ∷ xs) = not (any (same_run x) xs) && distinct xs

any-append : (p : Value → Bool) (xs ys : List Value) → any p (xs ++ ys) ≡ (any p xs || any p ys)
any-append p [] ys = refl
any-append p (x ∷ xs) ys = ground (arith, any-append p xs ys)

any-filter_none :
    (p q : Value → Bool) (xs : List Value) → any p xs ≡ false → any p (filter q xs) ≡ false
any-filter_none p q [] h = refl
any-filter_none p q (x ∷ xs) h = ground (arith, any-filter_none p q xs)

distinct-filter :
    (q : Value → Bool) (xs : List Value) → distinct xs ≡ true → distinct (filter q xs) ≡ true
distinct-filter q [] h = refl
distinct-filter q (x ∷ xs) h = elim (Bool-cases (q x)) [
  | inl e ↦ rw e (ground (arith, distinct-filter q xs, any-filter_none (same_run x) q xs))
  | inr e ↦ rw e (distinct-filter q xs (ground arith))
]

-- What is new to a list matches none of its items.
new_items-fresh :
    (x : Value) (prior page : List Value) → any (same_run x) (new_items (x ∷ prior) page) ≡ false
unfolding new_items
new_items-fresh x prior [] = refl
new_items-fresh x prior (y ∷ ys) = ground (arith, new_items-fresh x prior ys)

any-new_items_cons :
    (p : Value → Bool) (x : Value) (prior page : List Value)
    → any p (new_items prior page) ≡ false
    → any p (new_items (x ∷ prior) page) ≡ false
unfolding new_items
any-new_items_cons p x prior [] h = refl
any-new_items_cons p x prior (y ∷ ys) h = ground (arith, any-new_items_cons p x prior ys)

distinct-append :
    (xs ys : List Value)
    → distinct xs ≡ true
    → distinct ys ≡ true
    → All (λ x. any (same_run x) ys ≡ false) xs
    → distinct (xs ++ ys) ≡ true
distinct-append [] ys h k f = k
distinct-append (x ∷ xs) ys h k (f, fs) =
    ground (arith, distinct-append xs ys, any-append (same_run x) xs ys)

All-weaken_new :
    (xs prior page : List Value) (x : Value)
    → All (λ z. any (same_run z) (new_items prior page) ≡ false) xs
    → All (λ z. any (same_run z) (new_items (x ∷ prior) page) ≡ false) xs
All-weaken_new [] prior page x h = tt
All-weaken_new (z ∷ zs) prior page x (f, h) =
    (any-new_items_cons (same_run z) x prior page f, All-weaken_new zs prior page x h)

new_items-All_fresh :
    (prior page : List Value) → All (λ x. any (same_run x) (new_items prior page) ≡ false) prior
new_items-All_fresh [] page = tt
new_items-All_fresh (x ∷ prior) page = (
  new_items-fresh x prior page,
  All-weaken_new prior prior page x (new_items-All_fresh prior page),
)

-- Loading more runs never lists a run twice, also where a page repeats what is listed, if no page
-- repeats itself.
pub loaded_items-distinct :
    (l : Load) (response : Value)
    → distinct l.prior ≡ true
    → distinct (page_items response) ≡ true
    → distinct (loaded_items l response) ≡ true
unfolding loaded_items
loaded_items-distinct l response h k =
    let page = filter is_terminal_run (page_items response) in
    let kept = distinct-filter is_terminal_run (page_items response) k in
    elim (Bool-cases l.appends) [
      | inl a ↦ rw a (
          distinct-append l.prior (new_items l.prior page) h
            (unfold new_items in distinct-filter _ page kept) (new_items-All_fresh l.prior page))
      | inr a ↦ rw a kept
    ]

lookup-some :
    (k : String) (v : Value)
    → get k v ≢ undefined
    → (w : Value) × (lookup k (fields_of v) ≡ some w) × (get k v ≡ w)
lookup-some k v n = elim (Option-cases (lookup k (fields_of v))) [
  | inl e ↦ absurd (n (sym (get-fields_of k v) ∙ ap or_undefined e))
  | inr (w, e) ↦ (w, e, sym (get-fields_of k v) ∙ ap or_undefined e)
]

get-spread_right : (k : String) (v w : Value) → get k w ≢ undefined → get k (spread v w) ≡ get k w
get-spread_right k v w n =
    let (x, found, same) = lookup-some k w n in get-spread k v w ∙ (rw found (sym same))

status-run_from_detail :
    (detail previous : Value)
    → get "status" detail ≢ undefined
    → get "status" (run_from_detail detail previous) ≡ get "status" detail
unfolding run_from_detail
status-run_from_detail detail previous n =
    get-with_field "artifact_state" "status" _ _
    ∙ (get-fields_of "status" _
        ∙ (get-with_field "parameter_version" "status" _ _
            ∙ (get-fields_of "status" _
                ∙ (get-with_field "dataset" "status" _ _
                    ∙ (get-fields_of "status" _ ∙ get-spread_right "status" previous detail n)))))

ended_status : (detail : Value) → is_terminal_run detail ≡ true → get "status" detail ≢ undefined
unfolding is_terminal_run
ended_status detail h e = absurd_of (rw e at h)
  where
    absurd_of : includes terminal_statuses (upper_text undefined) ≡ true → ⊥
    absurd_of c = unfold includes upper text in cc c

run_from_detail-ended :
    (detail previous : Value)
    → is_terminal_run detail ≡ true
    → is_terminal_run (run_from_detail detail previous) ≡ true
unfolding is_terminal_run
run_from_detail-ended detail previous h =
    rw (status-run_from_detail detail previous (ended_status detail h)) h

All-set :
    (P : Value → Type 0) (xs : List Value) (i : ℕ) (v : Value) → All P xs → P v → All P (set xs i v)
All-set P [] i v h p = tt
All-set P (x ∷ xs) zero v h p = (p, h.1)
All-set P (x ∷ xs) (suc i) v h p = (h.0, All-set P xs i v h.1 p)

upsert_items-AllEnded :
    (detail : Value) (runs : List Value)
    → is_terminal_run detail ≡ true
    → AllEnded runs
    → AllEnded (upsert_items detail runs)
unfolding upsert_items
upsert_items-AllEnded detail runs e a =
    elim (Option-cases (find_idx? (λ run. same_run run detail) runs)) [
      | inl f ↦ rw (f, upsert_items) (run_from_detail-ended detail null e, a)
      | inr (i, f) ↦ elim (Option-cases (get_elem? runs i)) [
        | inl g ↦ rw (f, g, upsert_items) a
        | inr (previous, g) ↦
            rw (f, g, upsert_items)
              (All-set (λ run. is_terminal_run run ≡ true) runs i (run_from_detail detail previous)
                a (run_from_detail-ended detail previous e))
      ]
    ]

-- A detail enters the list only if its run has ended, and with the ended status.
upsert_run-AllEnded :
    (detail : Value) (h : History) → AllEnded h.items → AllEnded (upsert_run detail h).items
unfolding upsert_run
upsert_run-AllEnded detail h a = elim (Bool-cases (is_terminal_run detail)) [
  | inr e ↦ rw e a
  | inl e ↦ rw e (upsert_items-AllEnded detail h.items e a)
]
