-- ===== src/Api/Requests.antt =====
-- The requests of the API client: packages/api/src/client.ts from `attemptRefresh` on, and the
-- session calls of packages/api/src/auth.ts.
-- One call runs to its end before the next begins, so `refreshPromise` is null whenever a refresh
-- starts. The refresh that overlapping calls share is Api/SharedRefresh.antt.
use Prim.Native.String
use project_pn.Prelude.{
  String, true, false, not, Option, none, some, [], ◌∷◌, ◌++◌, ◌==◌, eqb, if◌then◌else◌, or_else,
  truthy,
}
use project_pn.Api.Client.{
  RequestOptions, no_options, Response, is_ok, Error, api_error, message_of, ErrorBody, Method, get,
  post, patch, delete, Platform, Body, text, form, M, pure, throw_error, ◌>>=◌, ◌>>◌, catching,
  handled, on_world, notify_unauthorized, get_config, request_credentials, can_refresh_session,
  auth_headers, csrf_headers, build_headers, parse_response, fetch_with_fallback,
}

-- What `handleUnauthorized` returns: the response that it was given, or that of the retry.
pub data Handled : Type 0 where
  same : Handled
  retried : Response → Handled

abbrev pub get_failed : Error → Error
get_failed e = api_error 0 (String.◌++◌ "Network request failed: " (message_of e)) none false

abbrev pub send_failed : Error → Error
send_failed e = api_error 0 "Network request failed. Is the backend running?" none false

abbrev pub body_of : (p : Platform) → Option p.Json → ErrorBody
body_of p none = record { error = none; code = none; retryable = none }
body_of p (some json) = p.error_body json

module _ {p : Platform} where
  -- `refresh` is `attemptRefresh`; `none` is a null session.
  unfoldable pub handle_unauthorized :
      M p (Option p.Json) → Response → String → RequestOptions → M p Response → M p Handled
  unfolding can_refresh_session notify_unauthorized
  handle_unauthorized refresh response path options retry =
      if not (eqb response.status 401) then pure same else (do
        refreshable ← can_refresh_session path options
        refreshed ← (if refreshable then refresh else pure none)
        elim refreshed [
          | none ↦ (do notify_unauthorized; pure same)
          | some session ↦
              if p.is_truthy session
              then (do again ← retry; pure (retried again))
              else (do notify_unauthorized; pure same)
        ])

  unfoldable pub throw_on_error : Response → Option p.Json → M p Unit
  throw_on_error response parsed =
      if is_ok response
      then pure tt
      else throw_error (
          api_error response.status
            (or_else (body_of p parsed).error
              (String.◌++◌ "Request failed (" (String.◌++◌ (p.decimal response.status) ")")))
            (body_of p parsed).code (truthy (body_of p parsed).retryable))

  -- What is read of a response, or of that of the retry.
  unfoldable pub after_handling : Response → Option p.Json → Handled → M p (Option p.Json)
  unfolding parse_response throw_on_error
  after_handling response parsed same = do throw_on_error response parsed; pure parsed
  after_handling response parsed (retried again) = do
    reparsed ← parse_response again
    throw_on_error again reparsed
    pure reparsed

  -- The part that follows the first response in `getJson`, `postJson`, `patchJson`, `deleteJson`
  -- and `postFormData`.
  unfoldable pub finish :
      M p (Option p.Json) → Response → String → RequestOptions → M p Response → M p (Option p.Json)
  unfolding handle_unauthorized parse_response after_handling
  finish refresh response path options execute = do
    parsed ← parse_response response
    handled ← handle_unauthorized refresh response path options execute
    after_handling response parsed handled

  -- One `execute`, and what becomes of its response; `wrap` is the handler of its errors.
  unfoldable pub request :
      M p (Option p.Json)
      → (Error → Error)
      → String
      → RequestOptions
      → M p Response
      → M p (Option p.Json)
  unfolding finish
  request refresh wrap path options execute = do
    response ← catching execute (λ e. throw_error (wrap e))
    finish refresh response path options execute

  abbrev pub json_body : Option p.Json → Option (Body p)
  json_body none = none
  json_body (some json) = some (text (p.stringify json))

  abbrev pub execute_get : String → RequestOptions → M p Response
  execute_get path options = do
    headers ← build_headers options false
    credentials ← request_credentials
    fetch_with_fallback path (record {
      method = get;
      headers =
          headers
          ++ ("Cache-Control", "no-cache, no-store, must-revalidate") ∷ ("Pragma", "no-cache") ∷ [];
      body = none;
      credentials = credentials;
    })

  abbrev pub execute_json : Method → Option (Body p) → String → RequestOptions → M p Response
  execute_json method body path options = do
    headers ← build_headers options true
    credentials ← request_credentials
    fetch_with_fallback path
        (record { method = method; headers = headers; body = body; credentials = credentials })

  abbrev pub execute_form : p.Form → String → RequestOptions → M p Response
  execute_form form_data path options = do
    auth ← auth_headers options
    csrf ← csrf_headers true
    credentials ← request_credentials
    fetch_with_fallback path (record {
      method = post;
      headers = auth ++ csrf;
      body = some (form form_data);
      credentials = credentials;
    })

  unfoldable pub post_json_with :
      M p (Option p.Json) → String → Option p.Json → RequestOptions → M p (Option p.Json)
  unfolding request
  post_json_with refresh path body options =
      request refresh send_failed path options (execute_json post (json_body body) path options)

  -- The call of `postJson` by a refresh. Its own refresh is never asked for: the path is excluded.
  unfoldable pub refresh_session : String → M p (Option p.Json)
  unfolding post_json_with
  refresh_session refresh_token =
      post_json_with (pure none) "/api/auth/refresh" (some (p.refresh_body refresh_token))
        (record { auth = some false; trace_id = none })

  unfoldable pub session_refreshed : Option p.Json → M p Unit
  unfolding get_config
  session_refreshed session = do
    config ← get_config
    elim config.on_session_refreshed [ none ↦ pure tt | some f ↦ on_world (f session) ]

  unfoldable pub refresh_by : Option String → M p (Option p.Json)
  unfolding refresh_session session_refreshed
  refresh_by none = pure none
  refresh_by (some token) =
      if token == ""
      then pure none
      else (do session ← refresh_session token; session_refreshed session; pure session)

  -- An error on the way counts as no session.
  unfoldable pub attempt_refresh : M p (Option p.Json)
  unfolding refresh_by get_config
  attempt_refresh = do
    config ← get_config
    elim config.get_refresh_token [
      | none ↦ pure none
      | some f ↦ catching (do token ← on_world f; refresh_by token) (λ _. pure none)
    ]

  unfoldable pub get_json : String → RequestOptions → M p (Option p.Json)
  unfolding request attempt_refresh
  get_json path options = request attempt_refresh get_failed path options (execute_get path options)

  unfoldable pub post_json : String → Option p.Json → RequestOptions → M p (Option p.Json)
  unfolding post_json_with attempt_refresh
  post_json path body options = post_json_with attempt_refresh path body options

  unfoldable pub patch_json : String → Option p.Json → RequestOptions → M p (Option p.Json)
  unfolding request attempt_refresh
  patch_json path body options =
      request attempt_refresh send_failed path options
        (execute_json patch (json_body body) path options)

  unfoldable pub delete_json : String → RequestOptions → M p (Option p.Json)
  unfolding request attempt_refresh
  delete_json path options =
      request attempt_refresh send_failed path options (execute_json delete none path options)

  unfoldable pub post_form_data : String → p.Form → RequestOptions → M p (Option p.Json)
  unfolding request attempt_refresh
  post_form_data path form_data options =
      request attempt_refresh send_failed path options (execute_form form_data path options)

  unfoldable pub after_no_content : Response → Option p.Json → Handled → M p Unit
  unfolding parse_response throw_on_error
  after_no_content response parsed same = throw_on_error response parsed
  after_no_content response parsed (retried again) =
      if is_ok again
      then pure tt
      else (do reparsed ← parse_response again; throw_on_error again reparsed)

  unfoldable pub post_no_content : String → Option p.Json → RequestOptions → M p Unit
  unfolding attempt_refresh handle_unauthorized parse_response after_no_content
  post_no_content path body options =
      let execute : M p Response = execute_json post (json_body body) path options in
      do
        response ← catching execute (λ e. throw_error (send_failed e))
        if is_ok response then pure tt else (do
          parsed ← parse_response response
          handled ← handle_unauthorized attempt_refresh response path options execute
          after_no_content response parsed handled)

  -- `status` is the field of the response that is read.
  unfoldable pub logout : (p.Json → Option String) → M p Unit
  unfolding post_json
  logout status = do
    res ← post_json "/api/auth/logout" none no_options
    elim res [
      | none ↦ pure tt
      | some json ↦
          if or_else (status json) "" == "revoked"
          then pure tt
          else throw_error
              (api_error 502 "Session revocation was not confirmed by the gateway." none false)
    ]
