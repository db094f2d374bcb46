-- ===== src/Api/Unauthorized.antt =====
-- What a request makes of a 401: packages/api/src/client.ts, `handleUnauthorized` and its callers.
use Prim.Native.String
use project_pn.Prelude.{
  String, ◌≡◌, refl, true, false, Option, none, some, [], ◌∷◌, ◌++◌, arith, ◌==◌, or_else, truthy,
  append_assoc,
}
use project_pn.Api.Client.{
  RequestOptions, Response, is_ok, Error, api_error, Outcome, ok, throw, Platform, ApiConfig,
  unauthorized, Client, M, pure, ◌>>=◌, notify_unauthorized, get_config, can_refresh_session,
  parse_response, post,
}
use project_pn.Api.Requests.{
  same, retried, handle_unauthorized, throw_on_error, body_of, finish, after_handling, request,
  refresh_by, refresh_session, attempt_refresh, send_failed, execute_json, json_body,
  post_json_with,
}

-- The options of the refresh call.
abbrev pub refresh_options : RequestOptions
refresh_options = record { auth = some false; trace_id = none }

-- The error that a failed response becomes.
abbrev pub error_of : (p : Platform) → Response → Option p.Json → Error
error_of p response parsed =
    api_error response.status
      (or_else (body_of p parsed).error
        (String.◌++◌ "Request failed (" (String.◌++◌ (p.decimal response.status) ")")))
      (body_of p parsed).code (truthy (body_of p parsed).retryable)

unauthorized_is_error : (response : Response) → response.status ≡ 401 → is_ok response ≡ false
unauthorized_is_error response s = ground arith

module _ {p : Platform} where
  handle-no_session :
      (refresh : M p (Option p.Json)) (response : Response) (path : String)
      (options : RequestOptions) (retry : M p Response) (c c' : Client p)
      → response.status ≡ 401
      → can_refresh_session path options c ≡ (ok true, c)
      → refresh c ≡ (ok none, c')
      → handle_unauthorized refresh response path options retry c
        ≡ (ok same, (notify_unauthorized c').1)
  unfolding handle_unauthorized notify_unauthorized
  handle-no_session refresh response path options retry c c' s can r = simp (s, can, r)

  handle-not_refreshable :
      (refresh : M p (Option p.Json)) (response : Response) (path : String)
      (options : RequestOptions) (retry : M p Response) (c : Client p)
      → response.status ≡ 401
      → can_refresh_session path options c ≡ (ok false, c)
      → handle_unauthorized refresh response path options retry c
        ≡ (ok same, (notify_unauthorized c).1)
  unfolding handle_unauthorized notify_unauthorized
  handle-not_refreshable refresh response path options retry c s can = simp (s, can)

  handle-retried :
      (refresh : M p (Option p.Json)) (response : Response) (path : String)
      (options : RequestOptions) (retry : M p Response) (c c' : Client p) (session : p.Json)
      → response.status ≡ 401
      → can_refresh_session path options c ≡ (ok true, c)
      → refresh c ≡ (ok (some session), c')
      → p.is_truthy session ≡ true
      → handle_unauthorized refresh response path options retry c
        ≡ (retry >>= λ again. pure (retried again)) c'
  unfolding handle_unauthorized
  handle-retried refresh response path options retry c c' session s can r t = simp (s, can, r, t)

  finish-same :
      (refresh : M p (Option p.Json)) (response : Response) (path : String)
      (options : RequestOptions) (execute : M p Response) (parsed : Option p.Json) (c c' : Client p)
      → response.status ≡ 401
      → parse_response response c ≡ (ok parsed, c)
      → handle_unauthorized refresh response path options execute c ≡ (ok same, c')
      → finish refresh response path options execute c ≡ (throw (error_of p response parsed), c')
  unfolding finish after_handling throw_on_error
  finish-same refresh response path options execute parsed c c' s q h =
      simp (q, h, unauthorized_is_error response s)

  -- A 401 that may not be refreshed (cookies, `auth: false`, the refresh and logout paths, or no
  -- refresh token source) throws the `ApiError` of that response, and the listeners are told once.
  pub request-not_refreshable :
      (refresh : M p (Option p.Json)) (wrap : Error → Error) (path : String)
      (options : RequestOptions) (execute : M p Response) (c c' : Client p) (response : Response)
      (parsed : Option p.Json)
      → execute c ≡ (ok response, c')
      → response.status ≡ 401
      → parse_response response c' ≡ (ok parsed, c')
      → can_refresh_session path options c' ≡ (ok false, c')
      → (request refresh wrap path options execute c
          ≡ (throw (error_of p response parsed), (notify_unauthorized c').1))
        × ((notify_unauthorized c').1.calls ≡ c'.calls ++ unauthorized ∷ [])
  unfolding request
  request-not_refreshable refresh wrap path options execute c c' response parsed e s q can = (
    simp e (
        finish-same refresh response path options execute parsed c' (notify_unauthorized c').1 s q
          (handle-not_refreshable refresh response path options execute c' s can)),
    unfold notify_unauthorized in refl,
  )

  refresh_by-throws :
      (token : String) (c c' : Client p) (e : Error)
      → (token == "") ≡ false
      → refresh_session token c ≡ (throw e, c')
      → refresh_by (some token) c ≡ (throw e, c')
  unfolding refresh_by
  refresh_by-throws token c c' e t r = simp (t, r)

  attempt_refresh-throws :
      (c c' : Client p) (config : ApiConfig p) (read : p.World → Outcome (Option String) × p.World)
      (token : String) (w : p.World) (e : Error)
      → c.config ≡ some config
      → config.get_refresh_token ≡ some read
      → read c.world ≡ (ok (some token), w)
      → refresh_by (some token) (record c { world = w }) ≡ (throw e, c')
      → attempt_refresh c ≡ (ok none, c')
  unfolding attempt_refresh get_config
  attempt_refresh-throws c c' config read token w e g f r b = ground arith

  refresh_session-unauthorized :
      (token : String) (c c' : Client p) (response : Response) (parsed : Option p.Json)
      → execute_json post
          (json_body (some (p.refresh_body token)))
          "/api/auth/refresh"
          refresh_options
          c
        ≡ (ok response, c')
      → response.status ≡ 401
      → parse_response response c' ≡ (ok parsed, c')
      → can_refresh_session "/api/auth/refresh" refresh_options c' ≡ (ok false, c')
      → refresh_session token c ≡ (throw (error_of p response parsed), (notify_unauthorized c').1)
  unfolding refresh_session post_json_with
  refresh_session-unauthorized token c c' response parsed e s q can =
      (request-not_refreshable (pure none) send_failed "/api/auth/refresh" refresh_options
        (execute_json post (json_body (some (p.refresh_body token))) "/api/auth/refresh"
          refresh_options)
        c c' response parsed e s q can).0

  -- When the refresh that a 401 asks for is itself answered 401, the refresh tells the listeners
  -- and gives no session, and the request then tells them again before it throws the error of its
  -- own response: one lost session, two notices.
  pub request-told_twice :
      (wrap : Error → Error) (path : String) (options : RequestOptions) (execute : M p Response)
      (c c' c'' : Client p) (response refused : Response) (parsed reparsed : Option p.Json)
      (config : ApiConfig p) (read : p.World → Outcome (Option String) × p.World) (token : String)
      (w : p.World)
      → execute c ≡ (ok response, c')
      → response.status ≡ 401
      → parse_response response c' ≡ (ok parsed, c')
      → can_refresh_session path options c' ≡ (ok true, c')
      → c'.config ≡ some config
      → config.get_refresh_token ≡ some read
      → read c'.world ≡ (ok (some token), w)
      → (token == "") ≡ false
      → execute_json post
          (json_body (some (p.refresh_body token)))
          "/api/auth/refresh"
          refresh_options
          (record c' { world = w })
        ≡ (ok refused, c'')
      → refused.status ≡ 401
      → parse_response refused c'' ≡ (ok reparsed, c'')
      → can_refresh_session "/api/auth/refresh" refresh_options c'' ≡ (ok false, c'')
      → ((request attempt_refresh wrap path options execute c).0
          ≡ throw (error_of p response parsed))
        × ((request attempt_refresh wrap path options execute c).1.calls
            ≡ c''.calls ++ unauthorized ∷ unauthorized ∷ [])
  unfolding request
  request-told_twice wrap path options execute c c' c'' response refused parsed reparsed config read
        token w e s q can g f r t e' s' q' can' =
      let told = (notify_unauthorized c'').1 in
      let lost : attempt_refresh c' ≡ (ok none, told) =
        attempt_refresh-throws c' told config read token w _ g f r (
          refresh_by-throws token (record c' { world = w }) told _ t
            (refresh_session-unauthorized token (record c' { world = w }) c'' refused reparsed e' s'
              q' can')) in
      let result : request attempt_refresh wrap path options execute c
          ≡ (throw (error_of p response parsed), (notify_unauthorized told).1) =
        simp e (
          finish-same attempt_refresh response path options execute parsed c'
            (notify_unauthorized told).1 s q
            (handle-no_session attempt_refresh response path options execute c' told s can lost)) in
      (
        rw result,
        rw result (unfold notify_unauthorized in append_assoc c''.calls (unauthorized ∷ []) _),
      )

  -- An error of the first attempt becomes what the sender makes of it, an `ApiError` with status 0;
  -- an error of the retry that follows a refresh comes out as it is.
  pub request-retry_error :
      (refresh : M p (Option p.Json)) (wrap : Error → Error) (path : String)
      (options : RequestOptions) (execute : M p Response) (c c' c'' c''' : Client p)
      (response : Response) (parsed : Option p.Json) (session : p.Json) (err : Error)
      → execute c ≡ (ok response, c')
      → response.status ≡ 401
      → parse_response response c' ≡ (ok parsed, c')
      → can_refresh_session path options c' ≡ (ok true, c')
      → refresh c' ≡ (ok (some session), c'')
      → p.is_truthy session ≡ true
      → execute c'' ≡ (throw err, c''')
      → (request refresh wrap path options execute c ≡ (throw err, c'''))
        × (request refresh wrap path options execute c'' ≡ (throw (wrap err), c'''))
  unfolding request finish
  request-retry_error refresh wrap path options execute c c' c'' c''' response parsed session err e
        s q can r t again =
      (
        simp (
          e,
          q,
          handle-retried refresh response path options execute c' c'' session s can r t,
          again,
        ),
        simp again,
      )

  -- After a refresh the answer of the retry decides, and a second 401 tells nobody: the request
  -- throws the error of that second response, and no notice is added.
  pub request-second_unauthorized :
      (refresh : M p (Option p.Json)) (wrap : Error → Error) (path : String)
      (options : RequestOptions) (execute : M p Response) (c c' c'' c''' : Client p)
      (response again : Response) (parsed reparsed : Option p.Json) (session : p.Json)
      → execute c ≡ (ok response, c')
      → response.status ≡ 401
      → parse_response response c' ≡ (ok parsed, c')
      → can_refresh_session path options c' ≡ (ok true, c')
      → refresh c' ≡ (ok (some session), c'')
      → p.is_truthy session ≡ true
      → execute c'' ≡ (ok again, c''')
      → again.status ≡ 401
      → parse_response again c''' ≡ (ok reparsed, c''')
      → request refresh wrap path options execute c ≡ (throw (error_of p again reparsed), c''')
  unfolding request finish after_handling throw_on_error
  request-second_unauthorized refresh wrap path options execute c c' c'' c''' response again parsed
        reparsed session e s q can r t e' s' q' =
      simp (
        e,
        q,
        handle-retried refresh response path options execute c' c'' session s can r t,
        e',
        q',
        unauthorized_is_error again s',
      )
