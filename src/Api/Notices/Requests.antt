-- ===== src/Api/Notices/Requests.antt =====
-- How often the requests of packages/api/src/client.ts tell the listeners.
use project_pn.Prelude.{ℕ, ◌+◌, String, Option, none, some, arith, if◌then◌else◌}
use project_pn.Api.Client.{
  RequestOptions, Response, Error, post, patch, delete, Platform, M, pure, throw_error, ◌>>◌,
  on_world, notify_unauthorized, get_config, can_refresh_session, parse_response,
}
use project_pn.Api.Requests.{
  Handled, same, retried, handle_unauthorized, throw_on_error, after_handling, finish,
  session_refreshed, refresh_by, request, send_failed, get_failed, execute_json, post_json_with,
  refresh_session, attempt_refresh, get_json, post_json, patch_json, delete_json, post_form_data,
  post_no_content, after_no_content, json_body,
}
use project_pn.Api.Notices.{
  Tells, Tells-pure, Tells-throw, Tells-on_world, Tells-mono, Tells-if, Tells-bind, Tells-then,
  Tells-catching, Tells-option,
}
use project_pn.Api.Notices.Parts.{
  Tells-get_config, Tells-notify, Tells-can_refresh_session, Tells-parse_response,
  Tells-execute_get, Tells-execute_json, Tells-execute_form, Tells-throw_on_error,
}

module _ {p : Platform} where
  Tells-notify_then_same : Tells 1 (notify_unauthorized {p = p} >> pure {p = p} same)
  Tells-notify_then_same =
      Tells-mono (1 + 0) 1 (omega arith)
        (Tells-bind notify_unauthorized _ 1 0 Tells-notify (λ _. Tells-pure same))

  Tells-handle_unauthorized :
      (refresh : M p (Option p.Json)) (response : Response) (path : String)
      (options : RequestOptions) (retry : M p Response) (k : ℕ)
      → Tells k refresh
      → Tells 0 retry
      → Tells (k + 1) (handle_unauthorized {p = p} refresh response path options retry)
  unfolding handle_unauthorized
  Tells-handle_unauthorized refresh response path options retry k s t =
      Tells-if _ _ _ (k + 1) (Tells-mono 0 (k + 1) (omega arith) (Tells-pure same)) (
        Tells-then (can_refresh_session path options) _ (k + 1)
          (Tells-can_refresh_session path options)
          (λ refreshable.
            Tells-bind (if refreshable then refresh else pure none) _ k 1
              (Tells-if refreshable _ _ k s (Tells-mono 0 k (omega arith) (Tells-pure none)))
              (λ refreshed. Tells-option refreshed _ _ 1 Tells-notify_then_same (λ session.
                Tells-if _ _ _ 1
                  (Tells-mono 0 1 (omega arith)
                    (Tells-then retry _ 0 t (λ again. Tells-pure (retried again))))
                  Tells-notify_then_same))))

  Tells-after :
      (response : Response) (parsed : Option p.Json) (handled : Handled)
      → Tells 0 (after_handling {p = p} response parsed handled)
  unfolding after_handling
  Tells-after response parsed same =
      Tells-then (throw_on_error response parsed) _ 0 (Tells-throw_on_error response parsed)
        (λ _. Tells-pure parsed)
  Tells-after response parsed (retried again) =
      Tells-then (parse_response again) _ 0 (Tells-parse_response again) (λ reparsed.
        Tells-then (throw_on_error again reparsed) _ 0 (Tells-throw_on_error again reparsed)
          (λ _. Tells-pure reparsed))

  Tells-finish :
      (refresh : M p (Option p.Json)) (response : Response) (path : String)
      (options : RequestOptions) (execute : M p Response) (k : ℕ)
      → Tells k refresh
      → Tells 0 execute
      → Tells (k + 1) (finish {p = p} refresh response path options execute)
  unfolding finish
  Tells-finish refresh response path options execute k s t =
      Tells-then (parse_response response) _ (k + 1) (Tells-parse_response response) (λ parsed.
        Tells-mono (k + 1 + 0) (k + 1) (omega arith) (
          Tells-bind (handle_unauthorized refresh response path options execute) _ (k + 1) 0
            (Tells-handle_unauthorized refresh response path options execute k s t)
            (λ handled. Tells-after response parsed handled)))

  Tells-request :
      (refresh : M p (Option p.Json)) (wrap : Error → Error) (path : String)
      (options : RequestOptions) (execute : M p Response) (k : ℕ)
      → Tells k refresh
      → Tells 0 execute
      → Tells (k + 1) (request {p = p} refresh wrap path options execute)
  unfolding request
  Tells-request refresh wrap path options execute k s t =
      Tells-then _ _ (k + 1)
        (Tells-catching execute (λ e. throw_error (wrap e)) 0 t (λ e. Tells-throw (wrap e)))
        (λ response. Tells-finish refresh response path options execute k s t)

  Tells-post_json_with :
      (refresh : M p (Option p.Json)) (path : String) (body : Option p.Json)
      (options : RequestOptions) (k : ℕ)
      → Tells k refresh
      → Tells (k + 1) (post_json_with {p = p} refresh path body options)
  unfolding post_json_with
  Tells-post_json_with refresh path body options k s =
      Tells-request refresh send_failed path options _ k s (Tells-execute_json post _ path options)

  -- The refresh call tells the listeners at most once.
  Tells-refresh_session : (token : String) → Tells 1 (refresh_session {p = p} token)
  unfolding refresh_session
  Tells-refresh_session token = Tells-mono (0 + 1) 1 (omega arith) (
      Tells-post_json_with (pure none) "/api/auth/refresh" (some (p.refresh_body token)) _ 0
        (Tells-pure none))

  Tells-session_refreshed : (session : Option p.Json) → Tells 0 (session_refreshed {p = p} session)
  unfolding session_refreshed
  Tells-session_refreshed session = Tells-then get_config _ 0 Tells-get_config (λ config.
      Tells-option config.on_session_refreshed _ _ 0 (Tells-pure tt) (λ f. Tells-on_world _))

  Tells-refresh_by : (token : Option String) → Tells 1 (refresh_by {p = p} token)
  unfolding refresh_by
  Tells-refresh_by none = Tells-mono 0 1 (omega arith) (Tells-pure none)
  Tells-refresh_by (some token) =
      Tells-if _ _ _ 1 (Tells-mono 0 1 (omega arith) (Tells-pure none)) (
        Tells-mono (1 + 0) 1 (omega arith) (
          Tells-bind (refresh_session token) _ 1 0 (Tells-refresh_session token) (λ session.
            Tells-then (session_refreshed session) _ 0 (Tells-session_refreshed session)
              (λ _. Tells-pure session))))

  pub Tells-attempt_refresh : Tells 1 (attempt_refresh {p = p})
  unfolding attempt_refresh
  Tells-attempt_refresh = Tells-then get_config _ 1 Tells-get_config (λ config.
      Tells-option config.get_refresh_token _ _ 1 (Tells-mono 0 1 (omega arith) (Tells-pure none))
        (λ f.
          Tells-catching _ _ 1
            (Tells-then (on_world f) _ 1 (Tells-on_world f) (λ token. Tells-refresh_by token))
            (λ e. Tells-pure none)))

  Tells-after_no_content :
      (response : Response) (parsed : Option p.Json) (handled : Handled)
      → Tells 0 (after_no_content {p = p} response parsed handled)
  unfolding after_no_content
  Tells-after_no_content response parsed same = Tells-throw_on_error response parsed
  Tells-after_no_content response parsed (retried again) = Tells-if _ _ _ 0 (Tells-pure tt) (
      Tells-then (parse_response again) _ 0 (Tells-parse_response again)
        (λ reparsed. Tells-throw_on_error again reparsed))

  Tells-post_no_content :
      (path : String) (body : Option p.Json) (options : RequestOptions)
      → Tells {p = p} 2 (post_no_content {p = p} path body options)
  unfolding post_no_content
  Tells-post_no_content path body options =
      let execute : M p Response = execute_json post (json_body body) path options in
      let t : Tells 0 execute = Tells-execute_json post (json_body body) path options in
      Tells-then _ _ 2
        (Tells-catching execute (λ e. throw_error (send_failed e)) 0 t (λ e. Tells-throw _))
        (λ response. Tells-if _ _ _ 2 (Tells-mono 0 2 (omega arith) (Tells-pure tt)) (
          Tells-then (parse_response response) _ 2 (Tells-parse_response response) (λ parsed.
            Tells-mono (1 + 1 + 0) 2 (omega arith) (
              Tells-bind (handle_unauthorized attempt_refresh response path options execute) _
                (1 + 1) 0
                (Tells-handle_unauthorized attempt_refresh response path options execute 1
                  Tells-attempt_refresh t)
                (λ handled. Tells-after_no_content response parsed handled)))))

  twice : {A : Type 0} {m : M p A} → Tells (1 + 1) m → Tells 2 m
  twice t = Tells-mono (1 + 1) 2 (omega arith) t

  -- Whatever the platform does, no request tells the listeners of a lost session more than twice:
  -- once for itself and once for the refresh that it asks for. This holds of all six senders,
  -- whether they return or throw.
  pub requests-Tells :
      (path : String) (body : Option p.Json) (form_data : p.Form) (options : RequestOptions)
      → Tells {p = p} 2 (get_json {p = p} path options)
        × Tells {p = p} 2 (post_json {p = p} path body options)
        × Tells {p = p} 2 (patch_json {p = p} path body options)
        × Tells {p = p} 2 (delete_json {p = p} path options)
        × Tells {p = p} 2 (post_form_data {p = p} path form_data options)
        × Tells {p = p} 2 (post_no_content {p = p} path body options)
  unfolding get_json post_json patch_json delete_json post_form_data
  requests-Tells path body form_data options =
      let refresh = Tells-attempt_refresh in
      (
        twice (
            Tells-request attempt_refresh get_failed path options _ 1 refresh
              (Tells-execute_get path options)),
        twice (Tells-post_json_with attempt_refresh path body options 1 refresh),
        twice (
            Tells-request attempt_refresh send_failed path options _ 1 refresh
              (Tells-execute_json patch (json_body body) path options)),
        twice (
            Tells-request attempt_refresh send_failed path options _ 1 refresh
              (Tells-execute_json delete none path options)),
        twice (
            Tells-request attempt_refresh send_failed path options _ 1 refresh
              (Tells-execute_form form_data path options)),
        Tells-post_no_content path body options,
      )
