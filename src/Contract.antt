-- ===== src/Contract.antt =====
-- frontend/src/api/contract.ts. The translator is the one that the caller hands over.
mod Tests
pub mod Agents
use Prim.Native.String
use Prim.Native.Nat.{Ordering}
use federated_iot_platform.Prelude.{
  ℕ, Bool, true, false, Option, none, some, List, [], ◌∷◌, String, ◌===◌, if◌then◌else◌, ◌==◌,
  length, not, ◌&&◌, ◌||◌,
}
use federated_iot_platform.Js.{
  Value, null, undefined, str, nat, items, is_array, includes, strict_eq, text, get, truthy, ◌or◌,
  ◌++◌,
}

abbrev pub terminal_statuses : List String
terminal_statuses = "COMPLETED" ∷ "CANCELLED" ∷ "FAILED" ∷ "FAILED_RECOVERABLE" ∷ []

unfoldable pub is_terminal_status : Value → Bool
is_terminal_status (str s) = includes terminal_statuses s
is_terminal_status null = false
is_terminal_status _ = false

-- `ApiError`, and any other error that is thrown.
pub record ApiError : Type 0 where
  pub code : String
  pub field_name : Value
  pub recoverable : Bool
  pub request_id : Value
  pub run_id : Value
  pub status : Value
  pub message : Value

pub data Error : Type 0 where
  api_error : ApiError → Error
  other_error : Value → Error

-- The constructor, over the record of its options.
unfoldable pub new_api_error : String → Value → Value → ApiError
new_api_error code request_id options = record {
  code = code;
  field_name = get "field" options or null;
  recoverable = truthy (get "recoverable" options);
  request_id = request_id or null;
  run_id = get "runId" options or null;
  status = get "status" options or null;
  message = get "message" options or str code;
}

pub record Message : Type 0 where
  pub title : String
  pub detail : Option String

abbrev pub error_key : String → String
error_key code = "error." ++ code

unfoldable pub format_api_error : Error → (String → String) → Message
format_api_error (other_error e) translate = record {
  title = translate "error.unknown";
  detail = none;
}
format_api_error (api_error e) translate =
    let known = translate (error_key e.code) in
    record {
      title = if known === error_key e.code then translate "error.unknown" else known;
      detail = some (e.code ++ (if truthy e.request_id then " · " ++ text e.request_id else ""));
    }

-- The order of `sort()`: by text, `undefined` last.
abbrev pub comes_first : Value → Value → Bool
comes_first v undefined = true
comes_first undefined w = false
comes_first v w = elim (String.compare (text v) (text w)) [ Ordering.gt ↦ false | _ ↦ true ]

unfoldable pub insert_sorted : Value → List Value → List Value
insert_sorted v [] = v ∷ []
insert_sorted v (w ∷ ws) =
    let rest = insert_sorted v ws in if comes_first v w then v ∷ w ∷ ws else w ∷ rest

unfoldable pub sort : List Value → List Value
sort [] = []
sort (v ∷ vs) = insert_sorted v (sort vs)

abbrev pub agents : List Value
agents = nat 1 ∷ nat 2 ∷ nat 3 ∷ []

-- `every((agent, index) => agent === AGENTS[index])`, with `undefined` past the end of `AGENTS`.
unfoldable pub same_from : List Value → List Value → Bool
same_from [] known = true
same_from (v ∷ vs) [] = strict_eq v undefined && same_from vs []
same_from (v ∷ vs) (k ∷ ks) = strict_eq v k && same_from vs ks

unfoldable pub validate_agent_collection : Value → Bool
validate_agent_collection v =
    if not (is_array v) || not (length (items v) == 3)
    then false
    else same_from (sort (items v)) agents
