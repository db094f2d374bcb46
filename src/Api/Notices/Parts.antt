-- ===== src/Api/Notices/Parts.antt =====
-- The parts of a request that tell the listeners nothing, and `notifyUnauthorized` itself:
-- packages/api/src/client.ts.
use project_pn.Prelude.{
  String, ◌≡◌, refl, ap, inl, inr, Bool, true, false, Option, none, List, [], ◌∷◌, ◌++◌, arith,
  Option-cases, count_p, count_p-append,
}
use project_pn.Api.Client.{
  RequestOptions, Response, Method, Platform, Body, RequestInit, ApiConfig, unauthorized, on_world,
  notify_unauthorized, get_config, uses_cookie_auth, request_credentials, can_refresh_session,
  auth_headers, csrf_headers, build_headers, parse_response, fetch_with_fallback, trace_header,
  candidate_urls,
}
use project_pn.Api.Fallback.{fetches, report, fetch_with_fallback-result}
use project_pn.Api.Requests.{throw_on_error, execute_get, execute_json, execute_form}
use project_pn.Api.Notices.{
  is_notice, Tells, Tells-pure, Tells-throw, Tells-on_world, Tells-if, Tells-then, Tells-option,
}

pub notices-fetches :
    (path : String) (urls : List String) → count_p is_notice (fetches path urls) ≡ 0
notices-fetches path [] = refl
notices-fetches path (url ∷ urls) = notices-fetches path urls

module _ {p : Platform} where
  pub Tells-get_config : Tells 0 (get_config {p = p})
  unfolding get_config
  Tells-get_config = record {
    at_most = λ c. elim (Option-cases c.config) [
      | inl missing ↦ ground arith
      | inr (config, there) ↦ ground arith
    ];
  }

  pub Tells-notify : Tells 1 (notify_unauthorized {p = p})
  unfolding notify_unauthorized
  Tells-notify = record {
    at_most = λ c. omega (arith, count_p-append is_notice c.calls (unauthorized ∷ []));
  }

  pub Tells-uses_cookie_auth : Tells 0 (uses_cookie_auth {p = p})
  unfolding uses_cookie_auth
  Tells-uses_cookie_auth = Tells-then get_config _ 0 Tells-get_config (λ config. Tells-pure _)

  pub Tells-request_credentials : Tells 0 (request_credentials {p = p})
  unfolding request_credentials
  Tells-request_credentials =
      Tells-then uses_cookie_auth _ 0 Tells-uses_cookie_auth (λ cookies. Tells-pure _)

  pub Tells-can_refresh_session :
      (path : String) (options : RequestOptions)
      → Tells 0 (can_refresh_session {p = p} path options)
  unfolding can_refresh_session
  Tells-can_refresh_session path options =
      Tells-then uses_cookie_auth _ 0 Tells-uses_cookie_auth (λ cookies.
        Tells-if _ _ _ 0 (Tells-pure false)
          (Tells-then get_config _ 0 Tells-get_config (λ config. Tells-pure _)))

  pub Tells-auth_headers : (options : RequestOptions) → Tells 0 (auth_headers {p = p} options)
  unfolding auth_headers
  Tells-auth_headers options = Tells-then uses_cookie_auth _ 0 Tells-uses_cookie_auth (λ cookies.
      Tells-if _ _ _ 0
        (Tells-then get_config _ 0 Tells-get_config (λ config.
          Tells-then (on_world config.get_token) _ 0 (Tells-on_world config.get_token)
            (λ token. Tells-pure _)))
        (Tells-pure _))

  pub Tells-csrf_headers : (mutation : Bool) → Tells 0 (csrf_headers {p = p} mutation)
  unfolding csrf_headers
  Tells-csrf_headers mutation = Tells-then uses_cookie_auth _ 0 Tells-uses_cookie_auth (λ cookies.
      Tells-if _ _ _ 0
        (Tells-then get_config _ 0 Tells-get_config (λ config.
          Tells-option config.get_csrf_token _ _ 0 (Tells-pure _)
            (λ f. Tells-then (on_world f) _ 0 (Tells-on_world f) (λ token. Tells-pure _))))
        (Tells-pure _))

  pub Tells-trace_header : (options : RequestOptions) → Tells 0 (trace_header {p = p} options)
  unfolding trace_header
  Tells-trace_header options = record { at_most = λ c. ground arith }

  pub Tells-build_headers :
      (options : RequestOptions) (mutation : Bool)
      → Tells 0 (build_headers {p = p} options mutation)
  unfolding build_headers
  Tells-build_headers options mutation =
      Tells-then (trace_header options) _ 0 (Tells-trace_header options) (λ trace.
        Tells-then (auth_headers options) _ 0 (Tells-auth_headers options) (λ auth.
          Tells-then (csrf_headers mutation) _ 0 (Tells-csrf_headers mutation)
            (λ csrf. Tells-pure _)))

  pub Tells-parse_response : (response : Response) → Tells 0 (parse_response {p = p} response)
  unfolding parse_response
  Tells-parse_response response =
      Tells-if _ _ _ 0 (Tells-pure none)
        (Tells-option (p.parse response.text) _ _ 0 (Tells-throw _) (λ parsed. Tells-pure parsed))

  pub notices-report :
      (config : ApiConfig p) (urls errors : List String)
      → count_p is_notice (report config urls errors) ≡ 0
  notices-report config urls errors = ground arith

  pub Tells-fetch_with_fallback :
      (path : String) (init : RequestInit p) → Tells 0 (fetch_with_fallback {p = p} path init)
  unfolding fetch_with_fallback
  Tells-fetch_with_fallback path init = record {
    at_most = λ c. elim (Option-cases c.config) [
      | inl missing ↦ simp (missing, fetch_with_fallback) (omega arith)
      | inr (config, there) ↦ elim (fetch_with_fallback-result path init c config there) [
        | inl a ↦ omega (
          arith,
          ap (count_p is_notice) a.asked,
          count_p-append is_notice c.calls (fetches path (a.before ++ a.url ∷ [])),
          notices-fetches path (a.before ++ a.url ∷ []),
        )
        | inr f ↦
            let urls = candidate_urls config.base_urls c.last_working_base_url in
            omega (
              arith,
              ap (count_p is_notice) f.asked,
              count_p-append is_notice c.calls (fetches path urls ++ report config urls f.errors),
              count_p-append is_notice (fetches path urls) (report config urls f.errors),
              notices-fetches path urls,
              notices-report config urls f.errors,
            )
      ]
    ];
  }

  pub Tells-execute_get :
      (path : String) (options : RequestOptions) → Tells 0 (execute_get {p = p} path options)
  Tells-execute_get path options =
      Tells-then (build_headers options false) _ 0 (Tells-build_headers options false) (λ headers.
        Tells-then request_credentials _ 0 Tells-request_credentials
          (λ credentials. Tells-fetch_with_fallback path _))

  pub Tells-execute_json :
      (method : Method) (body : Option (Body p)) (path : String) (options : RequestOptions)
      → Tells 0 (execute_json {p = p} method body path options)
  Tells-execute_json method body path options =
      Tells-then (build_headers options true) _ 0 (Tells-build_headers options true) (λ headers.
        Tells-then request_credentials _ 0 Tells-request_credentials
          (λ credentials. Tells-fetch_with_fallback path _))

  pub Tells-execute_form :
      (form_data : p.Form) (path : String) (options : RequestOptions)
      → Tells 0 (execute_form {p = p} form_data path options)
  Tells-execute_form form_data path options =
      Tells-then (auth_headers options) _ 0 (Tells-auth_headers options) (λ auth.
        Tells-then (csrf_headers true) _ 0 (Tells-csrf_headers true) (λ csrf.
          Tells-then request_credentials _ 0 Tells-request_credentials
            (λ credentials. Tells-fetch_with_fallback path _)))

  pub Tells-throw_on_error :
      (response : Response) (parsed : Option p.Json)
      → Tells 0 (throw_on_error {p = p} response parsed)
  unfolding throw_on_error
  Tells-throw_on_error response parsed = Tells-if _ _ _ 0 (Tells-pure tt) (Tells-throw _)
