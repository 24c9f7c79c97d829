-- ===== src/Contract/Agents.antt =====
-- frontend/src/api/contract.ts: what `validateAgentCollection` accepts.
use mathlib.Core.List.{Perm}
use mathlib.Core.List.Perm
use federated_iot_platform.Prelude.{
  ℕ, suc, true, List, [], ◌∷◌, length, ◌≡◌, refl, arith, Bool-cases, inl, inr, ap, subst, ◌∙◌,
}
use federated_iot_platform.Prelude.Int.{pos}
use federated_iot_platform.Js.{
  Value, null, undefined, str, nat, num, int, items, strict_eq, arr, bool, obj, nan, infinity,
}
use federated_iot_platform.Prelude.Int.{negsuc}
use federated_iot_platform.Contract.{
  comes_first, insert_sorted, sort, same_from, agents, validate_agent_collection,
}

insert_sorted-perm : (v : Value) (vs : List Value) → Perm (insert_sorted v vs) (v ∷ vs)
unfolding insert_sorted
insert_sorted-perm v [] = Perm.refl (v ∷ [])
insert_sorted-perm v (w ∷ ws) = elim (Bool-cases (comes_first v w)) [
  | inl c ↦ rw c (Perm.refl (v ∷ w ∷ ws))
  | inr c ↦ rw c (Perm.trans (Perm.cons w (insert_sorted-perm v ws)) (Perm.swap v w ws))
]

sort-perm : (vs : List Value) → Perm (sort vs) vs
unfolding sort
sort-perm [] = Perm.refl []
sort-perm (v ∷ vs) = Perm.trans (insert_sorted-perm v (sort vs)) (Perm.cons v (sort-perm vs))

nat_of_eq : (v : Value) (n : ℕ) → strict_eq v (nat n) ≡ true → v ≡ nat n
unfolding strict_eq
nat_of_eq (num (int (pos m))) n h = ground arith
nat_of_eq (num (int (negsuc m))) n h = cc
nat_of_eq (num nan) n h = cc
nat_of_eq (num (infinity s)) n h = cc
nat_of_eq undefined n h = cc
nat_of_eq null n h = cc
nat_of_eq (bool b) n h = cc
nat_of_eq (str s) n h = cc
nat_of_eq (arr s) n h = cc
nat_of_eq (obj s) n h = cc

same_three : (vs : List Value) → length vs ≡ 3 → same_from vs agents ≡ true → vs ≡ agents
unfolding same_from
same_three (a ∷ b ∷ c ∷ []) n h = ground (arith, nat_of_eq a 1, nat_of_eq b 2, nat_of_eq c 3)
same_three [] n h = absurd (ground arith)
same_three (a ∷ []) n h = absurd (ground arith)
same_three (a ∷ b ∷ []) n h = absurd (ground arith)
same_three (a ∷ b ∷ c ∷ d ∷ r) n h = absurd (ground arith)

length-insert_sorted : (v : Value) (vs : List Value) → length (insert_sorted v vs) ≡ suc (length vs)
unfolding insert_sorted
length-insert_sorted v [] = refl
length-insert_sorted v (w ∷ ws) = ground (arith, length-insert_sorted v ws)

length-sort : (vs : List Value) → length (sort vs) ≡ length vs
unfolding sort
length-sort [] = refl
length-sort (v ∷ vs) = length-insert_sorted v (sort vs) ∙ ap suc (length-sort vs)

-- A collection that is accepted holds the agents 1, 2 and 3, each once, in some order.
pub validate-perm : (v : Value) → validate_agent_collection v ≡ true → Perm (items v) agents
unfolding validate_agent_collection
validate-perm v h =
    let three : length (items v) ≡ 3 = ground arith in
    let same : same_from (sort (items v)) agents ≡ true = ground arith in
    subst (λ l. Perm (items v) l) (same_three (sort (items v)) (length-sort (items v) ∙ three) same)
      (Perm.symm (sort-perm (items v)))
