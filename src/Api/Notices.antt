-- ===== src/Api/Notices.antt =====
-- How often an action of the API client calls `notifyUnauthorized`, with a rule for each way to
-- build an action.
pub mod Parts
pub mod Requests
use project_pn.Prelude.{
  ℕ, ◌+◌, ◌≤◌, String, ◌≡◌, refl, sym, ap, ◌∙◌, inl, inr, Bool, true, false, not, ◌&&◌, ◌||◌,
  Option, none, some, List, [], ◌∷◌, ◌++◌, map, arith, ◌==◌, Bool-cases, Option-cases, length,
  count_p, count_p-append, eqb, if◌then◌else◌,
}
use project_pn.Api.Client.{
  RequestOptions, Response, is_ok, Error, Outcome, ok, throw, Method, post, patch, delete, Platform,
  Body, RequestInit, ApiConfig, Call, fetched, unauthorized, network_error, Client, M, pure,
  throw_error, continue, ◌>>=◌, ◌>>◌, catching, handled, on_world, notify_unauthorized, get_config,
  uses_cookie_auth, request_credentials, can_refresh_session, auth_headers, csrf_headers,
  build_headers, parse_response, fetch_with_fallback, trace_header, candidate_urls,
}
use project_pn.Api.Fallback.{fetches, report, fetch_with_fallback-result}
use project_pn.Api.Requests.{
  Handled, same, retried, handle_unauthorized, throw_on_error, after_handling, finish,
  session_refreshed, refresh_by, request, send_failed, get_failed, execute_get, execute_json,
  execute_form, post_json_with, refresh_session, attempt_refresh, get_json, post_json, patch_json,
  delete_json, post_form_data, post_no_content, after_no_content, json_body,
}

abbrev pub is_notice : Call → Bool
is_notice unauthorized = true
is_notice (fetched url path) = false
is_notice (network_error urls errors) = false

module _ {p : Platform} where
  -- How often the listeners have been told.
  abbrev pub notices : Client p → ℕ
  notices c = count_p is_notice c.calls

  -- The action tells them `n` times at most, whether it returns or throws.
  pub record Tells {A : Type 0} (n : ℕ) (m : M p A) : Type 0 where
    pub at_most : (c : Client p) → notices (m c).1 ≤ notices c + n

  module _ {A : Type 0} where
    pub Tells-pure : (a : A) → Tells 0 (pure {p = p} a)
    Tells-pure a = record { at_most = λ c. omega arith }

    pub Tells-throw : (e : Error) → Tells 0 (throw_error {p = p} {A = A} e)
    Tells-throw e = record { at_most = λ c. omega arith }

    pub Tells-on_world : (f : p.World → Outcome A × p.World) → Tells 0 (on_world {p = p} f)
    Tells-on_world f = record { at_most = λ c. omega arith }

    pub Tells-mono : {m : M p A} (n k : ℕ) → n ≤ k → Tells n m → Tells k m
    Tells-mono n k le t = record { at_most = λ c. omega (arith, t.at_most c) }

    pub Tells-if :
        (b : Bool) (m n : M p A) (k : ℕ) → Tells k m → Tells k n → Tells k (if b then m else n)
    Tells-if true m n k s t = s
    Tells-if false m n k s t = t

  module _ {A B : Type 0} where
    pub Tells-continue :
        (r : Outcome A) (f : A → M p B) (k : ℕ) (c : Client p)
        → ((a : A) → Tells k (f a))
        → notices (continue r f c).1 ≤ notices c + k
    Tells-continue (ok a) f k c t = (t a).at_most c
    Tells-continue (throw e) f k c t = omega arith

    pub Tells-bind :
        (m : M p A) (f : A → M p B) (n k : ℕ)
        → Tells n m
        → ((a : A) → Tells k (f a))
        → Tells (n + k) (m >>= f)
    Tells-bind m f n k s t = record {
      at_most = λ c. omega (arith, s.at_most c, Tells-continue (m c).0 f k (m c).1 t);
    }

    -- The same where the first part tells nobody.
    pub Tells-then :
        (m : M p A) (f : A → M p B) (k : ℕ)
        → Tells 0 m
        → ((a : A) → Tells k (f a))
        → Tells k (m >>= f)
    Tells-then m f k s t = record {
      at_most = λ c. omega (arith, s.at_most c, Tells-continue (m c).0 f k (m c).1 t);
    }

  module _ {A : Type 0} where
    pub Tells-handled :
        (r : Outcome A) (h : Error → M p A) (k : ℕ) (c : Client p)
        → ((e : Error) → Tells k (h e))
        → notices (handled r h c).1 ≤ notices c + k
    Tells-handled (ok a) h k c t = omega arith
    Tells-handled (throw e) h k c t = (t e).at_most c

    pub Tells-catching :
        (m : M p A) (h : Error → M p A) (n : ℕ)
        → Tells n m
        → ((e : Error) → Tells 0 (h e))
        → Tells n (catching m h)
    Tells-catching m h n s t = record {
      at_most = λ c. omega (arith, s.at_most c, Tells-handled (m c).0 h 0 (m c).1 t);
    }

  pub Tells-option :
      {A B : Type 0} (o : Option B) (m : M p A) (f : B → M p A) (k : ℕ)
      → Tells k m
      → ((b : B) → Tells k (f b))
      → Tells k (elim o [ none ↦ m | some b ↦ f b ])
  Tells-option none m f k s t = s
  Tells-option (some b) m f k s t = t b
