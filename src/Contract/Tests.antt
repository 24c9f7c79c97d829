-- ===== src/Contract/Tests.antt =====
-- frontend/src/api/contract.ts: a collection of agents in another order.
use federated_iot_platform.Prelude.{true, ◌≡◌, refl}
use mathlib.Core.List.{Perm}
use federated_iot_platform.Js.{Value, nat, arr, cons, nil, items, strict_eq, text, integer_text}
use federated_iot_platform.Contract.{
  agents, validate_agent_collection, sort, insert_sorted, same_from,
}
use federated_iot_platform.Contract.Agents.{validate-perm}

abbrev shuffled : Value
shuffled = arr (cons (nat 3) (cons (nat 1) (cons (nat 2) nil)))

shuffled_valid : validate_agent_collection shuffled ≡ true
unfolding validate_agent_collection items same_from sort insert_sorted text integer_text strict_eq
shuffled_valid = refl

validate-perm_example : Perm (items shuffled) agents
validate-perm_example = validate-perm shuffled shuffled_valid
