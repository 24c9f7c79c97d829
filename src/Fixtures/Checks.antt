-- ===== src/Fixtures/Checks.antt =====
-- backend/scripts/verify_worker_fixture.mjs and backend/scripts/verify_contracts.mjs: the checks in the
-- order in which they throw. The result is the message of the error that ends a script. `digest` is
-- the SHA-256 text of what `JSON.stringify` makes of a value, and files that hold no JSON are not
-- among the inputs.
use federated_iot_platform.Prelude.{
  ℕ, Bool, false, not, ◌&&◌, ◌||◌, Option, none, some, List, [], ◌∷◌, ◌++◌, String, ◌===◌,
  get_elem?, if◌then◌else◌, map,
}
use federated_iot_platform.Js
use federated_iot_platform.Js.{
  Value, undefined, null, bool, num, nat, str, obj, arr, Fields, end, field, Items, nil, cons, get,
  strict_eq, truthy, items, items_of, is_array, contains, text,
}
use federated_iot_platform.Draft.Json.{json_eq}
use federated_iot_platform.Fixtures.{canonicalize}

abbrev pub seeds : ℕ → ℕ → ℕ → Value
seeds a b c = obj (field "1" (nat a) (field "2" (nat b) (field "3" (nat c) end)))

abbrev pub expected_random_streams : Value
expected_random_streams = obj (
    field "generator" (str "MT19937_TWISTER_COMPAT") (
      field "seed_mapping_version" (str "reference-anchor-v1") (
        field "base_center_seed_by_agent" (seeds 2027 2028 2029) (
          field "transition_center_seed_by_agent" (seeds 2047 2048 2049) (
            field "boundary_seed_by_agent" (seeds 2067 2068 2069)
              (field "public_anchor_seed" (nat 2126) end))))))

abbrev pub agent_segment : Value → Value → Value
agent_segment agent segment = obj (field "agent" agent (field "segment" segment end))

abbrev pub expected_agents : Value
expected_agents = arr (
    items_of (
      agent_segment (nat 1) (str "EARLY")
      ∷ agent_segment (nat 2) (str "MIDDLE")
      ∷ agent_segment (nat 3) (str "LATE")
      ∷ []))

-- `agents?.map(({ agent, segment }) => ({ agent, segment }))`.
unfoldable pub observed_agents : Value → Value
observed_agents agents =
    if is_array agents
    then arr (items_of (map (λ a. agent_segment (get "agent" a) (get "segment" a)) (items agents)))
    else undefined

abbrev pub random_streams_fixed : Value → Bool
random_streams_fixed envelope =
    strict_eq (get "run_mode" envelope) (str "REFERENCE")
    && strict_eq (get "master_seed" (get "runtime" envelope)) (nat 2026)
    && json_eq (get "random_streams" (get "runtime" envelope)) expected_random_streams

module _ (digest : Value → String) where
  -- `canonicalSHA256(value)`.
  unfoldable pub canonical_sha256 : Value → String
  canonical_sha256 v = digest (canonicalize v)

  -- The checks over the field material, the task envelope, the SHA-256 of the image manifest and the
  -- descriptor of the image.
  unfoldable pub worker_fixture_error : Value → Value → String → Value → Option String
  unfolding canonical_sha256 observed_agents
  worker_fixture_error material envelope manifest_sha256 descriptor =
      let field_hash = canonical_sha256 material in
      let image_digest = Js.◌++◌ "sha256:" manifest_sha256 in
      if not (strict_eq (get "sha256" (get "field_standard_snapshot" envelope)) (str field_hash))
      then some (Js.◌++◌ "field_standard_snapshot.sha256 mismatch: expected " field_hash)
      else if not (strict_eq (get "digest" descriptor) (str image_digest))
          || not (strict_eq (get "scope" descriptor) (str "contract-test-only"))
          || not (strict_eq (get "release_candidate_image" descriptor) (bool false))
      then some (Js.◌++◌ "OCI descriptor mismatch: expected " image_digest)
      else if not (strict_eq (get "image_digest" (get "runtime" envelope)) (str image_digest))
      then some (Js.◌++◌ "runtime.image_digest mismatch: expected " image_digest)
      else if not (random_streams_fixed envelope)
      then some "REFERENCE runtime random streams are not the frozen deterministic mapping"
      else if not (
          json_eq (observed_agents (get "agents" (get "parameter_snapshot" envelope)))
            expected_agents)
      then some "SIMULATION must contain exactly Agent 1/EARLY, 2/MIDDLE, and 3/LATE"
      else if contains image_digest "fixture" || contains field_hash "fixture"
      then some "fixture placeholders are forbidden"
      else none

-- verify_contracts.mjs: the paths that the API description must have.
abbrev pub required_paths : List String
required_paths =
    "/datasets" ∷ "/configuration/reference-profile" ∷ "/simulations"
    ∷ "/simulations/{run_id}/cancel" ∷ "/simulations/{run_id}/events"
    ∷ "/simulations/{run_id}/summary" ∷ "/simulations/{run_id}/replay"
    ∷ "/simulations/{run_id}/artifacts" ∷ "/health/live" ∷ "/health/ready" ∷ []

unfoldable pub missing_path : Value → List String → Option String
missing_path paths [] = none
missing_path paths (p ∷ ps) =
    let rest = missing_path paths ps in if truthy (get p paths) then rest else some p

-- Element `i` of an array, `undefined` past its end.
abbrev pub at : List Value → ℕ → Value
at vs i = elim (get_elem? vs i) [ none ↦ undefined | some v ↦ v ]

-- The first of two boundary cases of the admission fixture, which a queue of ten must encode.
abbrev pub admission_fixed : Value → Bool
admission_fixed admission =
    let operations = items (get "operations" admission) in
    strict_eq (get "running" (get "initial_state" admission)) (nat 1)
    && strict_eq (get "queue_position" (get "expected" (at operations 0))) (nat 10)
    && strict_eq (get "error_code" (get "expected" (at operations 1))) (str "QUEUE_FULL")

unfoldable pub contracts_error : Value → Value → Value → Option String
unfolding missing_path
contracts_error openapi admission preflight =
    elim (missing_path (get "paths" openapi) required_paths) [
      | some p ↦ some (Js.◌++◌ "OpenAPI path is missing: " p)
      | none ↦
          if not (strict_eq (get "openapi" openapi) (str "3.1.0"))
          then some "OpenAPI must remain on 3.1.0"
          else if not (admission_fixed admission)
          then some "Admission fixture no longer encodes the frozen 1+10 boundary"
          else if not
                (strict_eq (get "job_type" (get "worker_task" preflight)) (str "DATASET_PREFLIGHT"))
              || not (strict_eq (get "run_id" (get "worker_task" preflight)) null)
          then some "Preflight fixture has crossed the Worker contract boundary"
          else none
    ]

-- A folder as `readdir` lists it.
mutual
  pub data Entry : Type 0 where
    file : Entry
    folder : Entries → Entry

  pub data Entries : Type 0 where
    empty : Entries
    entry : String → Entry → Entries → Entries

abbrev pub below : String → String → String
below root name = Js.◌++◌ root (Js.◌++◌ "/" name)

-- `name.endsWith(".json")`.
unfoldable pub ends_with : String → String → Bool
ends_with String.[] t = String.[] === t
ends_with (String.◌∷◌ c s) t = String.◌∷◌ c s === t || ends_with s t

-- `jsonFiles(root)`.
unfoldable pub json_files : String → Entries → List String
unfolding ends_with
json_files root empty = []
json_files root (entry name file rest) =
    (if ends_with name ".json" then below root name ∷ [] else []) ++ json_files root rest
json_files root (entry name (folder es) rest) =
    json_files (below root name) es ++ json_files root rest
