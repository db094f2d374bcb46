-- ===== src/Api/Tests.antt =====
-- Runs of the API client against a scripted platform, and its theorems at concrete inputs.
use project_pn.Prelude.{◌++◌, ℕ, String, ◌≡◌, ◌⊎◌, refl, true, Option, none, some, List, [], ◌∷◌}
use project_pn.Api.Client.{
  bearer, no_options, RequestInit, get, ok, throw, Platform, ApiConfig, Settled, responded,
  rejected, Response, Call, fetched, unauthorized, Client, candidate_urls, fetch_with_fallback,
  join, build_headers, request_credentials,
}
use project_pn.Api.Requests.{
  request, get_failed, execute_get, get_json, post_json, patch_json, delete_json, post_form_data,
  post_no_content, attempt_refresh, logout,
}
use project_pn.Api.Fallback.{Answered, AllFailed, fetch_with_fallback-result}
use project_pn.Api.Notices.{Tells}
use project_pn.Api.Notices.Requests.{requests-Tells}
use project_pn.Api.Unauthorized.{error_of, request-told_twice}
use project_pn.Api.SharedRefresh.{Shared, no_refresh, no_promise, give_all, attempt, start, join_}
use project_pn.Api.SharedRefresh.Callers.{callers_of, advance, Run-settles}

-- The world is the script of what the next fetches give.
abbrev scripted : Platform
scripted = record {
  Json = String;
  Form = Unit;
  World = List Settled;
  parse = λ s. some (some s);
  stringify = λ s. s;
  is_truthy = λ s. true;
  error_body = λ s. record { error = some s; code = none; retryable = none };
  refresh_body = λ s. s;
  decimal = λ n. "n";
  create_uuid = λ w. ("id", w);
}

abbrev next_settled : List Settled → Option (ℕ × Settled) × List Settled
next_settled [] = (none, [])
next_settled (s ∷ w) = (some (1, s), w)

abbrev config : ApiConfig scripted
config = record {
  base_urls = "x" ∷ "y" ∷ [];
  fetch = λ url init w. next_settled w;
  get_token = λ w. (ok (some "t"), w);
  auth_mode = bearer;
  get_csrf_token = none;
  get_refresh_token = some (λ w. (ok (some "r"), w));
  on_session_refreshed = none;
  on_unauthorized = none;
  on_network_error = none;
}

abbrev client : List Settled → Client scripted
client w = record {
  config = some config;
  last_working_base_url = some "y";
  unauthorized_listeners = [];
  world = w;
  calls = [];
}

-- The client after the fetches of the paths from "y", with what is left of the script.
abbrev fetched_from : List String → List Call
fetched_from [] = []
fetched_from (path ∷ paths) = fetched "y" path ∷ fetched_from paths

abbrev after : List Settled → List String → Client scripted
after w paths = record (client w) { calls = fetched_from paths }

abbrev answer : ℕ → Settled
answer status = responded (record { status = status; text = "b" })

abbrev body_b : ℕ → Response
body_b status = record { status = status; text = "b" }

-- The whole of the client, for runs.
all : Unit {0}
unfolding get_json post_json logout build_headers request_credentials fetch_with_fallback join
all = tt

fallback_test : get_json "/p" no_options (client (rejected "down" ∷ answer 200 ∷ [])) ≡ (
  ok (some "b"),
  record (client []) {
    last_working_base_url = some "x";
    calls = fetched "y" "/p" ∷ fetched "x" "/p" ∷ [];
  },
)
unfolding all
fallback_test = refl

refreshed_test :
    get_json "/p" no_options (client (answer 401 ∷ answer 200 ∷ answer 200 ∷ []))
    ≡ (ok (some "b"), after [] ("/p" ∷ "/api/auth/refresh" ∷ "/p" ∷ []))
unfolding all
refreshed_test = refl

abbrev init_get : RequestInit scripted
init_get = record { method = get; headers = []; body = none; credentials = none }

fetch_with_fallback-result_example :
    let urls = candidate_urls config.base_urls (some "y") in
    Answered config "/p" init_get urls
      (client (rejected "down" ∷ answer 500 ∷ []))
      (fetch_with_fallback "/p" init_get (client (rejected "down" ∷ answer 500 ∷ [])))
    ⊎ AllFailed config "/p" init_get urls urls 0
        (client (rejected "down" ∷ answer 500 ∷ []))
        (fetch_with_fallback "/p" init_get (client (rejected "down" ∷ answer 500 ∷ [])))
fetch_with_fallback-result_example =
    fetch_with_fallback-result "/p" init_get (client (rejected "down" ∷ answer 500 ∷ [])) config
      refl

requests-Tells_example :
    Tells {p = scripted} 2 (get_json "/p" no_options)
    × Tells {p = scripted} 2 (post_json "/p" none no_options)
    × Tells {p = scripted} 2 (patch_json "/p" none no_options)
    × Tells {p = scripted} 2 (delete_json "/p" no_options)
    × Tells {p = scripted} 2 (post_form_data "/p" tt no_options)
    × Tells {p = scripted} 2 (post_no_content "/p" none no_options)
requests-Tells_example = requests-Tells {p = scripted} "/p" none tt no_options

request-told_twice_example :
    ((request attempt_refresh get_failed "/p" no_options
        (execute_get "/p" no_options)
        (client (answer 401 ∷ answer 401 ∷ []))).0
      ≡ throw (error_of scripted (body_b 401) (some "b")))
    × ((request attempt_refresh get_failed "/p" no_options
          (execute_get "/p" no_options)
          (client (answer 401 ∷ answer 401 ∷ []))).1.calls
        ≡ fetched "y" "/p" ∷ fetched "y" "/api/auth/refresh" ∷ unauthorized ∷ unauthorized ∷ [])
unfolding all
request-told_twice_example =
    request-told_twice {p = scripted} get_failed "/p" no_options (execute_get "/p" no_options)
      (client (answer 401 ∷ answer 401 ∷ [])) (after (answer 401 ∷ []) ("/p" ∷ []))
      (after [] ("/p" ∷ "/api/auth/refresh" ∷ [])) (body_b 401) (body_b 401) (some "b") (some "b")
      config (λ w. (ok (some "r"), w)) "r" (answer 401 ∷ []) refl refl refl refl refl refl refl refl
      refl refl refl refl

-- Two requests share a refresh.
abbrev shared : Shared String
shared = attempt true 2 (attempt true 1 no_refresh)

-- The answers of one refresh.
abbrev answered : Shared String → Shared String
answered = advance (some (some "r")) (λ token. some "s") (λ session. true)

abbrev refreshed : Shared String
refreshed = answered (answered (answered shared))

Run-settles_example :
    (1 ∷ 2 ∷ [] ≡ callers_of refreshed.given)
    × ((result : Option String) × (refreshed.refresh_promise ≡ no_promise)
        × (refreshed.waiting ≡ [])
        × (refreshed.given ≡ shared.given ++ give_all result shared.waiting))
Run-settles_example =
    Run-settles (some (some "r")) (λ token. some "s") (λ session. true) (join_ (join_ start 1) 2)
