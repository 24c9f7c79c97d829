-- ===== src/Api/Requests/Addressed.antt =====
-- frontend/src/api/live-api.ts: how identifiers and queries stand in the addresses of the requests.
use Prim.Native.Char.{code}
use Prim.Native.String.{[], ◌∷◌, ◌++◌}
use Prim.Native.String.append
use mathlib.Core.List.{List, [], ◌∷◌}
use federated_iot_platform.Prelude.{
  ℕ, zero, suc, ◌+◌, ◌/◌, ◌%◌, true, false, String, ◌==◌, ◌===◌, ◌≡◌, refl, arith, if◌then◌else◌,
  Bool-cases, inl, inr, ◌∙◌,
}
use federated_iot_platform.Js.{Value, text, Fields, join}
use federated_iot_platform.Api.{joined}
use federated_iot_platform.Api.Paths.{
  char_at, hex_char, percent_before, utf8, is_kept, is_kept_in_query, encode_component,
  encode_in_query, agent_query, parameter_text, parameters_text, set_all, query_string, run_path,
}
use federated_iot_platform.Api.Requests.{
  Operation, get_dataset, get_reference_profile, get_parameter_profiles, get_readiness,
  list_simulations_by, get_simulation, get_summary, get_results, get_alarms, get_replay,
  get_artifacts, cancel_simulation, create_parameter_profile, rename_parameter_profile,
  create_simulation, upload_dataset, call, call_of,
}

unfoldable pub slashes : String → ℕ
slashes [] = 0
slashes (c ∷ s) = let rest = slashes s in if code c == b'/' then suc rest else rest

slashes-joined : (s t : String) → slashes (joined s t) ≡ slashes s + slashes t
unfolding slashes joined
slashes-joined [] t = omega arith
slashes-joined (c ∷ s) t = ground (arith, slashes-joined s t)

is_kept-no_slash : (n : ℕ) → is_kept n ≡ true → (n == b'/') ≡ false
is_kept-no_slash n h = ground arith

is_kept_in_query-no_slash : (n : ℕ) → is_kept_in_query n ≡ true → (n == b'/') ≡ false
is_kept_in_query-no_slash n h = ground arith

char_at-no_slash : (s : String) (n : ℕ) → slashes s ≡ 0 → (code (char_at s n) == b'/') ≡ false
unfolding slashes char_at
char_at-no_slash [] n h = refl
char_at-no_slash (c ∷ s) zero h = ground arith
char_at-no_slash (c ∷ s) (suc n) h = char_at-no_slash s n (ground arith)

hex_char-no_slash : (n : ℕ) → (code (hex_char n) == b'/') ≡ false
unfolding hex_char
hex_char-no_slash n = char_at-no_slash "0123456789ABCDEF" n (unfold slashes in refl)

slashes-percent_before : (bs : List ℕ) (s : String) → slashes (percent_before bs s) ≡ slashes s
unfolding slashes percent_before
slashes-percent_before [] s = refl
slashes-percent_before (b ∷ bs) s =
    rw (hex_char-no_slash (b / 16), hex_char-no_slash (b % 16)) (slashes-percent_before bs s)

slashes-encode_component : (s : String) → slashes (encode_component s) ≡ 0
unfolding encode_component slashes
slashes-encode_component [] = refl
slashes-encode_component (c ∷ s) = elim (Bool-cases (is_kept (code c))) [
  | inl e ↦ rw (e, is_kept-no_slash (code c) e) (slashes-encode_component s)
  | inr e ↦
      rw e
        (slashes-percent_before (utf8 (code c)) (encode_component s) ∙ slashes-encode_component s)
]

slashes-encode_in_query : (s : String) → slashes (encode_in_query s) ≡ 0
unfolding encode_in_query slashes
slashes-encode_in_query [] = refl
slashes-encode_in_query (c ∷ s) = elim (Bool-cases (is_kept_in_query (code c))) [
  | inl e ↦ rw (e, is_kept_in_query-no_slash (code c) e) (slashes-encode_in_query s)
  | inr e ↦ elim (Bool-cases (code c == 32)) [
    | inl b ↦ rw (e, b) (slashes-encode_in_query s)
    | inr b ↦
        rw (e, b)
          (slashes-percent_before (utf8 (code c)) (encode_in_query s) ∙ slashes-encode_in_query s)
  ]
]

slashes-append : (s t : String) → slashes (s ++ t) ≡ slashes s + slashes t
unfolding slashes
slashes-append [] t = rw (append.nil t) (omega arith)
slashes-append (c ∷ s) t = rw (append.cons c s t) (ground (arith, slashes-append s t))

slashes-parameter_text : (p : String × String) → slashes (parameter_text p) ≡ 0
slashes-parameter_text (k, v) =
    slashes-joined (encode_in_query k) (joined "=" (encode_in_query v))
    ∙ rw
        (
          slashes-encode_in_query k,
          slashes-joined "=" (encode_in_query v),
          slashes-encode_in_query v,
        )
        (unfold slashes in refl)

slashes-parameters_text : (ps : List (String × String)) → slashes (parameters_text ps) ≡ 0
unfolding parameters_text join slashes
slashes-parameters_text [] = refl
slashes-parameters_text (p ∷ []) = slashes-parameter_text p
slashes-parameters_text (p ∷ q ∷ ps) =
    let rest = parameters_text (q ∷ ps) in
    slashes-append (parameter_text p) ("&" ++ rest)
    ∙ rw (slashes-parameter_text p, slashes-append "&" rest, slashes-parameters_text (q ∷ ps)) refl

slashes-query_string : (query : Fields) → slashes (query_string query) ≡ 0
unfolding query_string
slashes-query_string query =
    let encoded = parameters_text (set_all query []) in
    elim (Bool-cases (encoded === "")) [
      | inl e ↦ rw e (unfold slashes in refl)
      | inr e ↦ rw e (
          slashes-joined "?" encoded
          ∙ rw (slashes-parameters_text (set_all query [])) (unfold slashes in refl))
    ]

slashes-agent_query : (agent : Value) → slashes (agent_query agent) ≡ 0
slashes-agent_query agent =
    slashes-joined "?agent=" (encode_component (text agent))
    ∙ rw (slashes-encode_component (text agent)) (unfold slashes in refl)

-- A fixed text, an encoded one and the rest of a path.
slashes-encoded :
    (prefix id rest : String)
    → slashes (joined prefix (joined (encode_component id) rest)) ≡ slashes prefix + slashes rest
slashes-encoded prefix id rest =
    slashes-joined prefix (joined (encode_component id) rest)
    ∙ rw (slashes-joined (encode_component id) rest, slashes-encode_component id) (omega arith)

slashes-run_path : (id rest : String) → slashes (run_path id rest) ≡ 2 + slashes rest
unfolding run_path
slashes-run_path id rest = slashes-encoded "/simulations/" id rest ∙ unfold slashes in refl

-- The slashes that each method writes into its address.
abbrev pub written : Operation → ℕ
written (get_dataset _) = 2
written get_reference_profile = 2
written get_parameter_profiles = 1
written get_readiness = 2
written (list_simulations_by _) = 1
written (get_simulation _) = 2
written (get_summary _ _) = 3
written (get_results _ _) = 3
written (get_alarms _ _) = 3
written (get_replay _ _) = 3
written (get_artifacts _) = 3
written (cancel_simulation _) = 3
written (create_parameter_profile _) = 1
written (rename_parameter_profile _ _) = 2
written (create_simulation _ _) = 1
written (upload_dataset _ _) = 1

-- A name, and a query or an encoded agent.
slashes-with_query :
    (name query : String) → slashes query ≡ 0 → slashes (joined name query) ≡ slashes name
slashes-with_query name query h = slashes-joined name query ∙ rw h (omega arith)

slashes-run_query :
    (id name query : String)
    → slashes query ≡ 0
    → slashes (run_path id (joined name query)) ≡ 2 + slashes name
slashes-run_query id name query h =
    slashes-run_path id (joined name query) ∙ rw (slashes-with_query name query h) refl

slashes-url :
    (base path : String) (n : ℕ) → slashes path ≡ n → slashes (joined base path) ≡ slashes base + n
slashes-url base path n h = slashes-joined base path ∙ rw h refl

-- The address of each request holds as many slashes after the base address as its method writes: no
-- identifier, no agent and no value of a query adds one, whatever signs it holds.
pub call_of-written :
    (base : String) (op : Operation) → slashes (call_of base op).url ≡ slashes base + written op
unfolding call_of call
call_of-written base (get_dataset id) = slashes-url base _ 2 (
    slashes-joined "/datasets/" (encode_component id)
    ∙ rw (slashes-encode_component id) (unfold slashes in refl))
call_of-written base get_reference_profile = slashes-url base _ 2 (unfold slashes in refl)
call_of-written base get_parameter_profiles = slashes-url base _ 1 (unfold slashes in refl)
call_of-written base get_readiness = slashes-url base _ 2 (unfold slashes in refl)
call_of-written base (list_simulations_by query) = slashes-url base _ 1 (
    slashes-with_query "/simulations" (query_string query) (slashes-query_string query)
    ∙ unfold slashes in refl)
call_of-written base (get_simulation id) =
    slashes-url base _ 2 (slashes-run_path id "" ∙ unfold slashes in refl)
call_of-written base (get_summary id agent) = slashes-url base _ 3 (
    slashes-run_query id "/summary" (agent_query agent) (slashes-agent_query agent)
    ∙ unfold slashes in refl)
call_of-written base (get_results id query) = slashes-url base _ 3 (
    slashes-run_query id "/results" (query_string query) (slashes-query_string query)
    ∙ unfold slashes in refl)
call_of-written base (get_alarms id query) = slashes-url base _ 3 (
    slashes-run_query id "/alarms" (query_string query) (slashes-query_string query)
    ∙ unfold slashes in refl)
call_of-written base (get_replay id query) = slashes-url base _ 3 (
    slashes-run_query id "/replay" (query_string query) (slashes-query_string query)
    ∙ unfold slashes in refl)
call_of-written base (get_artifacts id) =
    slashes-url base _ 3 (slashes-run_path id "/artifacts" ∙ unfold slashes in refl)
call_of-written base (cancel_simulation id) =
    slashes-url base _ 3 (slashes-run_path id "/cancel" ∙ unfold slashes in refl)
call_of-written base (create_parameter_profile content) =
    slashes-url base _ 1 (unfold slashes in refl)
call_of-written base (rename_parameter_profile id content) = slashes-url base _ 2 (
    slashes-joined "/parameter-profiles/" (encode_component id)
    ∙ rw (slashes-encode_component id) (unfold slashes in refl))
call_of-written base (create_simulation key content) = slashes-url base _ 1 (unfold slashes in refl)
call_of-written base (upload_dataset file name) = slashes-url base _ 1 (unfold slashes in refl)
