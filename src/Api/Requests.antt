-- ===== src/Api/Requests.antt =====
-- frontend/src/api/live-api.ts: the requests of `LivePlatformApi` and what becomes of their answers.
-- The network is the `Fetched` that a request meets. Error codes are texts, and an abort signal is
-- the caller's.
pub mod Addressed
pub mod Answers
use federated_iot_platform.Prelude.{
  ℕ, Bool, true, false, Option, none, some, List, [], ◌∷◌, ◌++◌, String, ◌==◌, ◌===◌, if◌then◌else◌,
}
use federated_iot_platform.Js.{
  Value, undefined, null, bool, nat, str, obj, arr, Fields, end, field, get, text, truthy,
  strict_eq, ◌or◌, is_array,
}
use federated_iot_platform.Js.Objects.{insert, fields_of, with_field}
use federated_iot_platform.Contract.{Error, api_error, other_error, new_api_error}
use federated_iot_platform.Api.{joined}
use federated_iot_platform.Api.Paths.{encode_component, query_string, run_path, agent_query}

pub data Result {ℓ} (A : Type ℓ) : Type ℓ where
  ok : A → Result A
  failed : Error → Result A

infixl 5 ◌>>=◌
abbrev pub ◌>>=◌ {ℓ κ} : {A : Type ℓ} {B : Type κ} → Result A → (A → Result B) → Result B
ok a >>= f = f a
failed e >>= f = failed e

-- What `response.json()` gives, `none` where it fails, and the header X-Request-ID.
pub record Response : Type 0 where
  pub is_ok : Bool
  pub status : ℕ
  pub json : Option Value
  pub request_id_header : Value

pub data Fetched : Type 0 where
  rejected : Value → Fetched
  responded : Response → Fetched

pub record Envelope : Type 0 where
  pub content : Value
  pub meta : Value

abbrev pub json_or_null : Option Value → Value
json_or_null none = null
json_or_null (some v) = v

unfoldable pub payload : Response → Value
payload r = if r.status == 204 then null else json_or_null r.json

unfoldable pub response_request_id : Response → Value
unfolding payload
response_request_id r =
    get "request_id" (payload r)
    or (get "request_id" (get "meta" (payload r)) or (r.request_id_header or null))

-- `new ApiError(...)` for a response that is not ok.
unfoldable pub response_error : Response → Error
unfolding payload response_request_id
response_error r =
    let item = get "error" (payload r) or obj end in
    api_error (
      new_api_error (text (get "code" item or str "INTERNAL_ERROR"))
        (get "request_id" (payload r) or response_request_id r)
        (with_field "status" (nat r.status) (with_field "runId" (get "run_id" (payload r)) item)))

unfoldable pub response_envelope : Response → Envelope
unfolding payload response_request_id
response_envelope r = record {
  content = get "data" (payload r) or payload r;
  meta =
      get "meta" (payload r)
      or (if truthy (response_request_id r)
          then obj (field "request_id" (response_request_id r) end)
          else obj end);
}

-- `requestEnvelope` once the network has answered.
unfoldable pub request_envelope : Fetched → Result Envelope
unfolding response_error response_envelope
request_envelope (rejected e) = failed (other_error e)
request_envelope (responded r) =
    if r.is_ok then ok (response_envelope r) else failed (response_error r)

unfoldable pub request : Fetched → Result Value
unfolding request_envelope
request fetched = request_envelope fetched >>= λ e. ok e.content

-- The page that `listSimulations` makes of an envelope.
unfoldable pub simulation_page : Envelope → Value
simulation_page e =
    let page =
      if is_array e.content then obj (field "items" e.content end) else e.content or obj end in
    let meta = e.meta in
    with_field "total" (get "total" page or (get "total" meta or null)) (
      with_field "has_more" (get "has_more" page or (get "has_more" meta or bool false)) (
        with_field "next_cursor" (get "next_cursor" page or (get "next_cursor" meta or null)) (
          with_field "request_id" (get "request_id" page or (get "request_id" meta or null))
            (with_field "meta" meta page))))

unfoldable pub list_simulations : Fetched → Result Value
unfolding request_envelope simulation_page
list_simulations fetched = request_envelope fetched >>= λ e. ok (simulation_page e)

-- The body of a request: none, JSON, or the form of an upload.
pub data Body : Type 0 where
  no_body : Body
  json_body : Value → Body
  upload_form : String → Value → Body

-- What `requestEnvelope` hands to `fetch`.
pub record Call : Type 0 where
  pub url : String
  pub method : String
  pub headers : List (String × String)
  pub body : Body

-- `options.json !== undefined` sets a header and the body.
abbrev pub json_of : Value → Body
json_of undefined = no_body
json_of v = json_body v

abbrev pub json_headers : Body → List (String × String)
json_headers (json_body v) = ("Content-Type", "application/json; charset=utf-8") ∷ []
json_headers no_body = []
json_headers (upload_form _ _) = []

unfoldable pub call : String → String → String → List (String × String) → Body → Call
call base_url path method headers body = record {
  url = joined base_url path;
  method = method;
  headers = headers ++ json_headers body;
  body = body;
}

abbrev pub get_call : String → String → Call
get_call base_url path = call base_url path "GET" [] no_body

-- The methods of the class, each with what it asks of the API.
pub data Operation : Type 0 where
  get_dataset : String → Operation
  get_reference_profile get_parameter_profiles get_readiness : Operation
  list_simulations_by : Fields → Operation
  get_simulation : String → Operation
  get_summary : String → Value → Operation
  get_results get_alarms get_replay : String → Fields → Operation
  get_artifacts cancel_simulation : String → Operation
  create_parameter_profile : Value → Operation
  rename_parameter_profile : String → Value → Operation
  create_simulation : String → Value → Operation
  upload_dataset : Value → String → Operation

-- The call of each method. The key of `createSimulation` is random.
unfoldable pub call_of : String → Operation → Call
unfolding call encode_component query_string run_path
call_of base (get_dataset id) = get_call base (joined "/datasets/" (encode_component id))
call_of base get_reference_profile = get_call base "/configuration/reference-profile"
call_of base get_parameter_profiles = get_call base "/parameter-profiles?mode=CUSTOM"
call_of base get_readiness = get_call base "/health/ready"
call_of base (list_simulations_by query) =
    get_call base (joined "/simulations" (query_string query))
call_of base (get_simulation id) = get_call base (run_path id "")
call_of base (get_summary id agent) =
    get_call base (run_path id (joined "/summary" (agent_query agent)))
call_of base (get_results id query) =
    get_call base (run_path id (joined "/results" (query_string query)))
call_of base (get_alarms id query) =
    get_call base (run_path id (joined "/alarms" (query_string query)))
call_of base (get_replay id query) =
    get_call base (run_path id (joined "/replay" (query_string query)))
call_of base (get_artifacts id) = get_call base (run_path id "/artifacts")
call_of base (cancel_simulation id) =
    call base (run_path id "/cancel") "POST" []
      (json_body (obj (field "reason" (str "operator_requested") end)))
call_of base (create_parameter_profile content) =
    call base "/parameter-profiles" "POST" [] (json_of content)
call_of base (rename_parameter_profile id content) =
    call base (joined "/parameter-profiles/" (encode_component id)) "PATCH" [] (json_of content)
call_of base (create_simulation key content) =
    call base "/simulations" "POST" (("Idempotency-Key", key) ∷ []) (json_of content)
call_of base (upload_dataset file name) = call base "/datasets" "POST" [] (upload_form name file)

-- The progress that `uploadDataset` reports, and its result.
unfoldable pub upload : Fetched → List ℕ × Result Value
unfolding request
upload fetched = elim (request fetched) [
  | ok v ↦ (0 ∷ 100 ∷ [], ok v)
  | failed e ↦ (0 ∷ [], failed e)
]
