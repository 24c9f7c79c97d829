-- ===== src/Queue/Projection.antt =====
-- frontend/src/ui.ts: the queue after `synchronizeQueueProjection`.
use federated_iot_platform.Prelude.{
  ◌≡◌, refl, Bool, true, false, some, List, [], ◌∷◌, String, ◌===◌, if◌then◌else◌, filter, find?,
  any, arith, eq_refl, Bool-cases, Option-cases, inl, inr, All, ap, ◌∙◌, sym,
}
use federated_iot_platform.Js.{
  Value, undefined, str, get, text, text_or_empty, upper, strict_eq, includes, or_undefined, lookup,
}
use federated_iot_platform.Js.Objects.{spread, fields_of, get-with_field, get-fields_of, get-spread}
use federated_iot_platform.Queue.{
  Queue, status_of, terminal_statuses, has_run_id, strict_cancellable, projected, project_into,
  drop_run, synchronize_projection,
}

filter-All : (p : Value → Bool) (xs : List Value) → All (λ x. p x ≡ true) (filter p xs)
filter-All p [] = tt
filter-All p (x ∷ xs) = elim (Bool-cases (p x)) [
  | inl h ↦ rw h (h, filter-All p xs)
  | inr h ↦ rw h (filter-All p xs)
]

drop_run-absent : (id : String) (runs : List Value) → any (has_run_id id) (drop_run id runs) ≡ false
unfolding drop_run
drop_run-absent id [] = refl
drop_run-absent id (run ∷ runs) = ground (arith, drop_run-absent id runs)

-- A run that has an id and has ended leaves the queue: after the projection no item has its id.
pub projection-terminal :
    (detail : Value) (q : Queue)
    → (text_or_empty (get "run_id" detail) === "") ≡ false
    → includes terminal_statuses (status_of detail) ≡ true
    → any (has_run_id (text_or_empty (get "run_id" detail))) (synchronize_projection detail q).items
      ≡ false
unfolding synchronize_projection
projection-terminal detail q h t =
    elim (Bool-cases (any (has_run_id (text_or_empty (get "run_id" detail))) q.items)) [
      | inl a ↦ rw (h, t, a) (drop_run-absent (text_or_empty (get "run_id" detail)) q.items)
      | inr a ↦ rw (h, t, a) a
    ]

pub get→lookup :
    (k id : String) (v : Value) → get k v ≡ str id → lookup k (fields_of v) ≡ some (str id)
get→lookup k id v h = elim (Option-cases (lookup k (fields_of v))) [
  | inl e ↦ absurd (clash (ap or_undefined e ∙ refl) (get-fields_of k v ∙ h))
  | inr (w, e) ↦ e ∙ ap some (sym (ap or_undefined e) ∙ (get-fields_of k v ∙ h))
]
  where
    clash : {u : Value} → u ≡ undefined → u ≡ str id → ⊥
    clash a b = cc (a, b)

get-projected :
    (k : String) (item detail : Value) (v : Value)
    → ("cancellable" === k) ≡ false
    → lookup k (fields_of detail) ≡ some v
    → get k (projected item detail) ≡ v
get-projected k item detail v n h =
    get-with_field "cancellable" k (strict_cancellable detail) (spread item detail)
    ∙ (rw n (get-fields_of k (spread item detail) ∙ (get-spread k item detail ∙ rw h)))

get-projected_cancellable :
    (item detail : Value) → get "cancellable" (projected item detail) ≡ strict_cancellable detail
get-projected_cancellable item detail =
    get-with_field "cancellable" "cancellable" (strict_cancellable detail) (spread item detail)

projected-has_run_id :
    (id : String) (item detail : Value)
    → get "run_id" detail ≡ str id
    → has_run_id id (projected item detail) ≡ true
unfolding has_run_id strict_eq
projected-has_run_id id item detail h =
    rw (get-projected "run_id" item detail (str id) refl (get→lookup "run_id" id detail h))
      (eq_refl id)

-- `project_into` without indices.
replace : String → Value → List Value → List Value
replace id detail [] = projected undefined detail ∷ []
replace id detail (run ∷ runs) =
    let rest = replace id detail runs in
    if has_run_id id run then projected run detail ∷ runs else run ∷ rest

project_into-replace :
    (id : String) (detail : Value) (runs : List Value)
    → project_into id detail runs ≡ replace id detail runs
unfolding project_into replace
project_into-replace id detail [] = refl
project_into-replace id detail (run ∷ runs) = ground (arith, project_into-replace id detail runs)

module _ (id : String) (detail : Value) (h : get "run_id" detail ≡ str id) where
  drop_run-replace : (runs : List Value) → drop_run id (replace id detail runs) ≡ drop_run id runs
  unfolding drop_run replace
  drop_run-replace [] = rw (projected-has_run_id id undefined detail h)
  drop_run-replace (run ∷ runs) = elim (Bool-cases (has_run_id id run)) [
    | inl e ↦ rw (e, projected-has_run_id id run detail h)
    | inr e ↦ rw e (rw e (ap (λ l. run ∷ l) (drop_run-replace runs)))
  ]

  find?-replace :
      (runs : List Value)
      → (item : Value) × (find? (has_run_id id) (replace id detail runs)
          ≡ some (projected item detail))
  unfolding replace
  find?-replace [] = (undefined, rw (projected-has_run_id id undefined detail h))
  find?-replace (run ∷ runs) = elim (Bool-cases (has_run_id id run)) [
    | inl e ↦ (run, rw (e, projected-has_run_id id run detail h))
    | inr e ↦ let (item, found) = find?-replace runs in (item, rw (e, e) found)
  ]

-- A run that goes on, with texts as its id and status, is in the queue after the projection, with the status of the detail and with a
-- Boolean for whether it can be cancelled, and the other items are as before.
pub projection-active :
    (id status : String) (detail : Value) (q : Queue)
    → get "run_id" detail ≡ str id
    → get "status" detail ≡ str status
    → (id === "") ≡ false
    → includes terminal_statuses (upper status) ≡ false
    → includes ("QUEUED" ∷ "RUNNING" ∷ "CANCELLING" ∷ []) (upper status) ≡ true
    → (drop_run id (synchronize_projection detail q).items ≡ drop_run id q.items)
      × ((run : Value) × (find? (has_run_id id) (synchronize_projection detail q).items ≡ some run)
          × (get "status" run ≡ str status)
          × (get "cancellable" run ≡ strict_cancellable detail))
unfolding synchronize_projection text
projection-active id status detail q h k e t a =
    let (item, found) = find?-replace id detail h q.items in
    rw (h, k, e, t, a, project_into-replace id detail q.items)
      (
        drop_run-replace id detail h q.items,
        (
          projected item detail,
          found,
          get-projected "status" item detail (str status) refl
              (get→lookup "status" status detail k),
          get-projected_cancellable item detail,
        ),
      )
