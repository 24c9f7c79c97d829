-- ===== src/Api/Paths.antt =====
-- frontend/src/api/live-api.ts: the texts of paths and queries. Characters are code points, of which
-- `encodeURIComponent` and `URLSearchParams` write the bytes in UTF-8.
pub mod Sent
use Prim.Native.Char.{Char, code}
use Prim.Native.String.{[], ◌∷◌}
use mathlib.Core.List.{List, [], ◌∷◌}
use federated_iot_platform.Prelude.{
  ℕ, zero, suc, ◌+◌, ◌/◌, ◌%◌, Bool, true, false, not, ◌&&◌, ◌||◌, Option, none, some, String, ◌==◌,
  ◌===◌, ltb, leb, if◌then◌else◌, map,
}
use federated_iot_platform.Js.{Value, str, text, is_nullish, strict_eq, join, Fields, end, field}
use federated_iot_platform.Api.{joined}

unfoldable pub char_at : String → ℕ → Char
char_at [] n = "0"
char_at (c ∷ s) zero = c
char_at (c ∷ s) (suc n) = char_at s n

unfoldable pub hex_char : ℕ → Char
unfolding char_at
hex_char n = char_at "0123456789ABCDEF" n

unfoldable pub utf8 : ℕ → List ℕ
utf8 n =
    if ltb n 128
    then n ∷ []
    else if ltb n 2048
    then (192 + n / 64) ∷ (128 + n % 64) ∷ []
    else if ltb n 65536
    then (224 + n / 4096) ∷ (128 + n / 64 % 64) ∷ (128 + n % 64) ∷ []
    else (240 + n / 262144) ∷ (128 + n / 4096 % 64) ∷ (128 + n / 64 % 64) ∷ (128 + n % 64) ∷ []

-- `%XX` for each byte, before a text.
unfoldable pub percent_before : List ℕ → String → String
unfolding hex_char
percent_before [] s = s
percent_before (b ∷ bs) s = "%" ∷ hex_char (b / 16) ∷ hex_char (b % 16) ∷ percent_before bs s

abbrev pub is_alphanumeric : ℕ → Bool
is_alphanumeric n =
    (leb b'a' n && leb n b'z') || (leb b'A' n && leb n b'Z') || (leb b'0' n && leb n b'9')

-- The marks that `encodeURIComponent` keeps are `- _ . ! ~ * ' ( )`.
abbrev pub is_kept : ℕ → Bool
is_kept n =
    is_alphanumeric n
    || n == b'-'
    || n == b'_'
    || n == b'.'
    || n == b'!'
    || n == b'~'
    || n == b'*'
    || n == 39
    || n == b'('
    || n == b')'

-- `encodeURIComponent(s)`.
unfoldable pub encode_component : String → String
unfolding utf8 percent_before
encode_component [] = []
encode_component (c ∷ s) =
    let rest = encode_component s in
    if is_kept (code c) then c ∷ rest else percent_before (utf8 (code c)) rest

-- The marks that a query keeps are `* - . _`; a blank becomes `+`.
abbrev pub is_kept_in_query : ℕ → Bool
is_kept_in_query n = is_alphanumeric n || n == b'*' || n == b'-' || n == b'.' || n == b'_'

unfoldable pub encode_in_query : String → String
unfolding utf8 percent_before
encode_in_query [] = []
encode_in_query (c ∷ s) =
    let rest = encode_in_query s in
    if is_kept_in_query (code c)
    then c ∷ rest
    else if code c == 32
    then "+" ∷ rest
    else percent_before (utf8 (code c)) rest

-- `value !== undefined && value !== null && value !== ""`.
abbrev pub is_sent : Value → Bool
is_sent v = not (is_nullish v) && not (strict_eq v (str ""))

-- `parameters.set(key, value)`: a name keeps its place.
unfoldable pub set_parameter : String → String → List (String × String) → List (String × String)
set_parameter k v [] = (k, v) ∷ []
set_parameter k v ((j, w) ∷ ps) =
    let rest = set_parameter k v ps in if j === k then (k, v) ∷ ps else (j, w) ∷ rest

-- What `queryString` and `listSimulations` set for the entries of a query.
unfoldable pub set_all : Fields → List (String × String) → List (String × String)
set_all end ps = ps
set_all (field k v fs) ps = set_all fs (if is_sent v then set_parameter k (text v) ps else ps)

abbrev pub parameter_text : String × String → String
parameter_text (k, v) = joined (encode_in_query k) (joined "=" (encode_in_query v))

unfoldable pub parameters_text : List (String × String) → String
unfolding encode_in_query
parameters_text ps = join "&" (map parameter_text ps)

-- `queryString(query)`.
unfoldable pub query_string : Fields → String
unfolding set_all parameters_text
query_string query =
    let encoded = parameters_text (set_all query []) in
    if encoded === "" then "" else joined "?" encoded

-- `/simulations/${encodeURIComponent(runId)}` with what follows it.
unfoldable pub run_path : String → String → String
unfolding encode_component
run_path run_id rest = joined "/simulations/" (joined (encode_component run_id) rest)

-- `agent` is converted to text before it is encoded.
abbrev pub agent_query : Value → String
agent_query agent = joined "?agent=" (encode_component (text agent))

unfoldable pub replay_export_url : String → String → Value → String
unfolding run_path
replay_export_url base_url run_id agent =
    joined base_url
      (run_path run_id (joined "/replay-export" (joined (agent_query agent) "&format=zip")))

unfoldable pub artifact_download_url : String → String → String → String
unfolding run_path
artifact_download_url base_url run_id name =
    joined base_url (run_path run_id (joined "/artifacts/" (encode_component name)))

-- `baseUrl.replace(/\/$/, "")`: one slash at the end is dropped.
unfoldable pub without_slash : String → String
without_slash [] = []
without_slash (c ∷ s) =
    let rest = without_slash s in
    if code c == b'/' then elim s [ [] ↦ [] | d ∷ t ↦ c ∷ rest ] else c ∷ rest
