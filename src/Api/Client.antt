-- ===== src/Api/Client.antt =====
-- The state of the API client, its parts, and the choice of a base URL:
-- packages/api/src/client.ts up to `fetchWithFallback`.
-- A call is an action on the client's state that returns or throws. What the platform and the
-- configuration supply (fetch, JSON, tokens, callbacks) is the parameter `Platform`, over a `World`
-- that each call changes; `calls` lists, in order, what the client asked of it.
mod State
pub use State.*
use Prim.Native.String
use project_pn.Prelude.{
  ℕ, String, Bool, true, false, not, ◌&&◌, ◌||◌, Option, none, some, List, [], ◌∷◌, ◌++◌, ◌==◌, leb,
  ltb, if◌then◌else◌, is_some, contains,
}

abbrev pub api_timeout_ms : ℕ
api_timeout_ms = 60_000

-- `fetchWithTimeout`: what the race of the fetch with the timer gives.
abbrev pub raced : Option (ℕ × Settled) → ℕ → Settled
raced none timeout = rejected "Request timed out"
raced (some (at, settled)) timeout =
    if ltb at timeout then settled else rejected "Request timed out"

-- `urls.splice(urls.indexOf(url), 1)`
abbrev pub without_first : List String → String → List String
without_first [] url = []
without_first (u ∷ us) url = if u == url then us else u ∷ without_first us url

-- The last working URL first, if it is still configured.
unfoldable pub candidate_urls : List String → Option String → List String
candidate_urls urls none = urls
candidate_urls urls (some url) =
    if not (url == "") && contains urls url then url ∷ without_first urls url else urls

unfoldable pub join : List String → String
join [] = ""
join (e ∷ []) = e
join (e ∷ f ∷ es) = String.◌++◌ e (String.◌++◌ "; " (join (f ∷ es)))

abbrev pub failure : String → String → String
failure base_url message = String.◌++◌ base_url (String.◌++◌ ": " message)

abbrev run_listeners : {W : Type 0} → List (W → W) → W → W
run_listeners [] w = w
run_listeners (l ∷ ls) w = run_listeners ls (l w)

module _ {p : Platform} where
  abbrev pub pure : {A : Type 0} → A → M p A
  pure a c = (ok a, c)

  abbrev pub throw_error : {A : Type 0} → Error → M p A
  throw_error e c = (throw e, c)

  abbrev pub continue : {A B : Type 0} → Outcome A → (A → M p B) → M p B
  continue (ok a) k c = k a c
  continue (throw e) k c = (throw e, c)

  infixl 5 ◌>>=◌ ◌>>◌
  abbrev pub ◌>>=◌ : {A B : Type 0} → M p A → (A → M p B) → M p B
  ◌>>=◌ m k c = let (r, c') = m c in continue r k c'

  abbrev pub ◌>>◌ : {A B : Type 0} → M p A → M p B → M p B
  m >> k = m >>= λ _. k

  -- `try { return m } catch (e) { handler }`
  abbrev pub handled : {A : Type 0} → Outcome A → (Error → M p A) → M p A
  handled (ok a) h c = (ok a, c)
  handled (throw e) h c = h e c

  abbrev pub catching : {A : Type 0} → M p A → (Error → M p A) → M p A
  catching m h c = let (r, c') = m c in handled r h c'

  -- A configured function runs on the world.
  abbrev pub on_world : {A : Type 0} → (p.World → Outcome A × p.World) → M p A
  on_world f c = let (r, w) = f c.world in (r, record c { world = w })

  abbrev pub record_call : Call → M p Unit
  record_call call c = (ok tt, record c { calls = c.calls ++ call ∷ [] })

  unfoldable pub configure_api : ApiConfig p → M p Unit
  configure_api config c = (ok tt, record c { config = some config })

  -- `onUnauthorized` without the function that takes the listener off again.
  unfoldable pub on_unauthorized : (p.World → p.World) → M p Unit
  on_unauthorized callback c =
      (ok tt, record c { unauthorized_listeners = c.unauthorized_listeners ++ callback ∷ [] })

  abbrev configured_unauthorized : Option (ApiConfig p) → p.World → p.World
  configured_unauthorized none w = w
  configured_unauthorized (some config) w = elim config.on_unauthorized [ none ↦ w | some f ↦ f w ]

  unfoldable pub notify_unauthorized : M p Unit
  notify_unauthorized c = (
    ok tt,
    record c {
      world = run_listeners c.unauthorized_listeners (configured_unauthorized c.config c.world);
      calls = c.calls ++ unauthorized ∷ [];
    },
  )

  unfoldable pub get_config : M p (ApiConfig p)
  get_config c = elim c.config [
    | none ↦ (throw (plain_error "ApiClient not configured. Call configureApi() first."), c)
    | some config ↦ (ok config, c)
  ]

  unfoldable pub uses_cookie_auth : M p Bool
  unfolding get_config
  uses_cookie_auth = do config ← get_config; pure (is_cookie config.auth_mode)

  unfoldable pub request_credentials : M p (Option Credentials)
  unfolding uses_cookie_auth
  request_credentials = do
    cookies ← uses_cookie_auth
    pure (if cookies then some included else none)

  unfoldable pub can_refresh_session : String → RequestOptions → M p Bool
  unfolding uses_cookie_auth
  can_refresh_session path options = do
    cookies ← uses_cookie_auth
    if cookies || is_auth_off options || path == "/api/auth/refresh" || path == "/api/auth/logout"
        then pure false
        else (do config ← get_config; pure (is_some config.get_refresh_token))

  unfoldable pub auth_headers : RequestOptions → M p (List (String × String))
  unfolding uses_cookie_auth
  auth_headers options = do
    cookies ← uses_cookie_auth
    if not cookies && not (is_auth_off options)
        then (do
          config ← get_config
          token ← on_world config.get_token
          pure (with_header "Authorization" (bearer_value (non_empty token)) []))
        else pure []

  unfoldable pub csrf_headers : Bool → M p (List (String × String))
  unfolding uses_cookie_auth
  csrf_headers mutation = do
    cookies ← uses_cookie_auth
    if cookies && mutation
        then (do
          config ← get_config
          elim config.get_csrf_token [
            | none ↦ pure []
            | some f ↦ (do
              token ← on_world f
              pure (with_header "X-CSRF-Token" (non_empty token) []))
          ])
        else pure []

  unfoldable pub trace_header : RequestOptions → M p String
  trace_header options c = elim options.trace_id [
    | none ↦ let (id, w) = p.create_uuid c.world in (ok id, record c { world = w })
    | some id ↦ (ok id, c)
  ]

  unfoldable pub build_headers : RequestOptions → Bool → M p (List (String × String))
  unfolding trace_header auth_headers csrf_headers
  build_headers options mutation = do
    trace ← trace_header options
    auth ← auth_headers options
    csrf ← csrf_headers mutation
    pure (("Content-Type", "application/json") ∷ ("X-Client-Trace-Id", trace) ∷ (auth ++ csrf))

  unfoldable pub parse_response : Response → M p (Option p.Json)
  parse_response response =
      if response.text == "" then pure none else elim (p.parse response.text) [
        | some parsed ↦ pure parsed
        | none ↦ throw_error (
            api_error response.status "The server returned an invalid response." (some "API-599")
              true)
      ]

  unfoldable pub fetch_with_timeout :
      ApiConfig p → String → String → RequestInit p → ℕ → Client p → Settled × Client p
  fetch_with_timeout config base_url path init timeout c =
      let (settled, w) = config.fetch (String.◌++◌ base_url path) init c.world in
      (raced settled timeout, record c { world = w; calls = c.calls ++ fetched base_url path ∷ [] })

  -- `onNetworkError`, whose own errors are dropped.
  abbrev diagnosed : ApiConfig p → List String → List String → Client p → Client p
  diagnosed config urls errors c = elim config.on_network_error [
    | none ↦ c
    | some f ↦ record c {
      world = (f urls errors c.world).1;
      calls = c.calls ++ network_error urls errors ∷ [];
    }
  ]

  -- Every URL failed: diagnostics first, then the error.
  unfoldable pub all_failed : ApiConfig p → List String → List String → M p Response
  all_failed config urls errors c = (
    throw (plain_error (String.◌++◌ "All API endpoints failed: " (join errors))),
    diagnosed config urls errors c,
  )

  -- The `for` loop. Both timeouts are 60 seconds.
  unfoldable pub try_urls :
      ApiConfig p → String → RequestInit p → List String → List String → List String → M p Response
  unfolding fetch_with_timeout all_failed
  try_urls config path init urls errors [] c = all_failed config urls errors c
  try_urls config path init urls errors (url ∷ rest) c =
      let (settled, c') = fetch_with_timeout config url path init api_timeout_ms c in
      elim settled [
        | responded response ↦ (ok response, record c' { last_working_base_url = some url })
        | rejected message ↦
            try_urls config path init urls (errors ++ failure url message ∷ []) rest c'
      ]

  unfoldable pub fetch_with_fallback : String → RequestInit p → M p Response
  unfolding try_urls get_config candidate_urls
  fetch_with_fallback path init c = elim c.config [
    | none ↦ (throw (plain_error "ApiClient not configured. Call configureApi() first."), c)
    | some config ↦
        let urls : List String = candidate_urls config.base_urls c.last_working_base_url in
        try_urls config path init urls [] urls c
  ]
