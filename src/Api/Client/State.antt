-- ===== src/Api/Client/State.antt =====
-- The data of the API client, its configuration and its state: packages/api/src/client.ts.
-- The platform's functions are the record `Platform`.
use Prim.Native.String
use project_pn.Prelude.{
  ℕ, String, Bool, true, false, not, ◌&&◌, Option, none, some, List, [], ◌∷◌, ◌++◌, ◌==◌, leb, ltb,
  if◌then◌else◌,
}

pub data AuthMode : Type 0 where
  bearer cookie : AuthMode

pub data Credentials : Type 0 where
  included : Credentials

-- `RequestOptions`
pub record RequestOptions : Type 0 where
  pub auth : Option Bool
  pub trace_id : Option String

abbrev pub no_options : RequestOptions
no_options = record { auth = none; trace_id = none }

-- `ok` is a status from 200 to 299; `text` is what reading the body gives.
pub record Response : Type 0 where
  pub status : ℕ
  pub text : String

abbrev pub is_ok : Response → Bool
is_ok response = leb 200 response.status && ltb response.status 300

-- `ApiError`, or another `Error` with its message.
pub data Error : Type 0 where
  api_error : (status : ℕ) (message : String) (code : Option String) (retryable : Bool) → Error
  plain_error : (message : String) → Error

abbrev pub message_of : Error → String
message_of (api_error status message code retryable) = message
message_of (plain_error message) = message

pub record ErrorBody : Type 0 where
  pub error : Option String
  pub code : Option String
  pub retryable : Option Bool

pub data Outcome (A : Type 0) : Type 0 where
  ok : A → Outcome A
  throw : Error → Outcome A

pub data Method : Type 0 where
  get post patch delete : Method

-- How a fetch ends.
pub data Settled : Type 0 where
  responded : Response → Settled
  rejected : (message : String) → Settled

pub record Platform : Type 1 where
  pub Json : Type 0
  pub Form : Type 0
  pub World : Type 0
  -- `JSON.parse`: `none` is a syntax error, `some none` is `null`.
  pub parse : String → Option (Option Json)
  pub stringify : Json → String
  pub is_truthy : Json → Bool
  -- The fields of a body that is read as an `ErrorBody`.
  pub error_body : Json → ErrorBody
  -- The body of the refresh call, `{ refresh_token: refreshToken }`.
  pub refresh_body : String → Json
  pub decimal : ℕ → String
  pub create_uuid : World → String × World

pub data Body (p : Platform) : Type 0 where
  text : String → Body p
  form : p.Form → Body p

pub record RequestInit (p : Platform) : Type 0 where
  pub method : Method
  pub headers : List (String × String)
  pub body : Option (Body p)
  pub credentials : Option Credentials

-- The configuration; a callback that is not configured is `none`.
pub record ApiConfig (p : Platform) : Type 0 where
  pub base_urls : List String
  -- When the fetch settles, in milliseconds, and how; `none` if it never does.
  pub fetch : String → RequestInit p → p.World → Option (ℕ × Settled) × p.World
  pub get_token : p.World → Outcome (Option String) × p.World
  pub auth_mode : AuthMode
  pub get_csrf_token : Option (p.World → Outcome (Option String) × p.World)
  pub get_refresh_token : Option (p.World → Outcome (Option String) × p.World)
  pub on_session_refreshed : Option (Option p.Json → p.World → Outcome Unit × p.World)
  pub on_unauthorized : Option (p.World → p.World)
  -- It may throw; then the world is as it was left.
  pub on_network_error : Option (List String → List String → p.World → Outcome Unit × p.World)

pub data Call : Type 0 where
  fetched : (base_url path : String) → Call
  unauthorized : Call
  network_error : (urls errors : List String) → Call

-- The variables of the module, the world, and the calls that it has had so far.
pub record Client (p : Platform) : Type 0 where
  pub config : Option (ApiConfig p)
  pub last_working_base_url : Option String
  pub unauthorized_listeners : List (p.World → p.World)
  pub world : p.World
  pub calls : List Call

abbrev pub M : Platform → Type 0 → Type 0
M p A = Client p → Outcome A × Client p

abbrev pub is_cookie : AuthMode → Bool
is_cookie bearer = false
is_cookie cookie = true

-- `options?.auth === false`
abbrev pub is_auth_off : RequestOptions → Bool
is_auth_off options = elim options.auth [ none ↦ false | some b ↦ not b ]

-- `{ ...headers, name: value }` when there is a value.
abbrev pub with_header : String → Option String → List (String × String) → List (String × String)
with_header name none headers = headers
with_header name (some value) headers = headers ++ (name, value) ∷ []

-- `if (token)`: an empty text counts as none.
abbrev pub non_empty : Option String → Option String
non_empty none = none
non_empty (some s) = if s == "" then none else some s

abbrev pub bearer_value : Option String → Option String
bearer_value none = none
bearer_value (some token) = some (String.◌++◌ "Bearer " token)
