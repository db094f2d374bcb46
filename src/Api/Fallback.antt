-- ===== src/Api/Fallback.antt =====
-- How `fetchWithFallback` of packages/api/src/client.ts goes through the base URLs.
use Prim.Native.String
use mathlib.Core.List.{Perm}
use mathlib.Core.List.Perm
use project_pn.Prelude.{
  ℕ, ◌+◌, String, ◌≡◌, refl, ap, ◌∙◌, ◌⊎◌, inl, inr, true, not, ◌&&◌, Option, none, some, List, [],
  ◌∷◌, ◌++◌, map, append_assoc, append-nil, arith, ◌==◌, eq_iff, Bool-cases, Option-cases, contains,
  length, length-append,
}
use project_pn.Api.Client.{
  Response, plain_error, Outcome, ok, throw, Platform, RequestInit, ApiConfig, Call, fetched,
  network_error, Client, Settled, responded, rejected, raced, api_timeout_ms, failure,
  candidate_urls, without_first, all_failed, try_urls, fetch_with_timeout, fetch_with_fallback,
}

without_first-perm :
    (urls : List String) (url : String)
    → contains urls url ≡ true
    → Perm (url ∷ without_first urls url) urls
without_first-perm [] url h = cc
without_first-perm (u ∷ urls) url h = elim (Bool-cases (u == url)) [
  | inl same ↦ let e : u ≡ url = (eq_iff u url).0 same in rw (same, e) (Perm.refl (url ∷ urls))
  | inr other ↦ rw other (
      Perm.trans (Perm.swap u url (without_first urls url))
        (Perm.cons u (without_first-perm urls url (ground arith))))
]

-- The URLs that are tried are the configured ones, each as often as it is configured, whatever
-- URL worked last.
pub candidate_urls-perm :
    (urls : List String) (last : Option String) → Perm (candidate_urls urls last) urls
unfolding candidate_urls
candidate_urls-perm urls none = Perm.refl urls
candidate_urls-perm urls (some url) = elim (Bool-cases (not (url == "") && contains urls url)) [
  | inl found ↦ rw found (without_first-perm urls url (ground arith))
  | inr missing ↦ rw missing (Perm.refl urls)
]

abbrev pub fetches : String → List String → List Call
fetches path urls = map (λ url. fetched url path) urls

Settled-cases :
    (s : Settled)
    → ((response : Response) × (s ≡ responded response))
      ⊎ ((message : String) × (s ≡ rejected message))
Settled-cases (responded response) = inl (response, refl)
Settled-cases (rejected message) = inr (message, refl)

module _ {p : Platform} where
  -- What the platform's `fetch` gives for a URL, under the timeout, and the client after it.
  abbrev pub fetched_one :
      ApiConfig p → (url path : String) → RequestInit p → Client p → Settled × Client p
  fetched_one config url path init c = (
    raced (config.fetch (String.◌++◌ url path) init c.world).0 api_timeout_ms,
    record c {
      world = (config.fetch (String.◌++◌ url path) init c.world).1;
      calls = c.calls ++ fetched url path ∷ [];
    },
  )

  -- No URL of the list responded: one after the other, each fetch was rejected or ran out of time.
  abbrev pub NoneResponds :
      ApiConfig p
      → (path : String) → RequestInit p
      → List String
      → (before after : Client p) → Type 0
  NoneResponds config path init [] before after = before ≡ after
  NoneResponds config path init (url ∷ urls) before after =
      ((message : String) × ((fetched_one config url path init before).0 ≡ rejected message))
      × NoneResponds config path init urls (fetched_one config url path init before).1 after

  -- Some URL of the list responded after none before it did: its response is returned as it came,
  -- it is the last one fetched, and it is remembered.
  pub record Answered (config : ApiConfig p) (path : String) (init : RequestInit p)
      (urls : List String) (c : Client p) (r : Outcome Response × Client p) : Type 0 where
    pub before : List String
    pub url : String
    pub after : List String
    pub response : Response
    pub reached : Client p
    pub split : urls ≡ before ++ url ∷ after
    pub silent : NoneResponds config path init before c reached
    pub responds : (fetched_one config url path init reached).0 ≡ responded response
    pub returned : r.0 ≡ ok response
    pub remembered : r.1.last_working_base_url ≡ some url
    pub asked : r.1.calls ≡ c.calls ++ fetches path (before ++ url ∷ [])

  -- The report of a failure, if there is somebody to report to.
  abbrev pub report : ApiConfig p → List String → List String → List Call
  report config urls errors = elim config.on_network_error [
    | none ↦ []
    | some f ↦ network_error urls errors ∷ []
  ]

  -- No URL of the list responded: each was fetched once, in order, and then the failure was
  -- reported once.
  pub record AllFailed (config : ApiConfig p) (path : String) (init : RequestInit p)
      (all urls : List String) (given : ℕ) (c : Client p) (r : Outcome Response × Client p)
      : Type 0 where
    pub reached : Client p
    pub silent : NoneResponds config path init urls c reached
    pub message : String
    pub errors : List String
    pub thrown : r.0 ≡ throw (plain_error message)
    pub kept : r.1.last_working_base_url ≡ c.last_working_base_url
    pub one_each : length errors ≡ given + length urls
    pub asked : r.1.calls ≡ c.calls ++ (fetches path urls ++ report config all errors)

  all_failed-AllFailed :
      (config : ApiConfig p) (path : String) (init : RequestInit p) (all errors : List String)
      (c : Client p)
      → AllFailed config path init all [] (length errors) c (all_failed config all errors c)
  unfolding all_failed
  all_failed-AllFailed config path init all errors c = record {
    reached = c;
    silent = refl;
    message = _;
    errors = errors;
    thrown = refl;
    kept = ground arith;
    one_each = omega arith;
    asked = elim (Option-cases config.on_network_error) [
      | inl silent ↦ rw (silent, all_failed) (simp append-nil)
      | inr (f, heard) ↦ rw (heard, all_failed)
    ];
  }

  Answered-cons :
      (config : ApiConfig p) (path : String) (init : RequestInit p) (url : String)
      (urls : List String) (c : Client p) (r : Outcome Response × Client p) (message : String)
      → (fetched_one config url path init c).0 ≡ rejected message
      → Answered config path init urls (fetched_one config url path init c).1 r
      → Answered config path init (url ∷ urls) c r
  Answered-cons config path init url urls c r message e a = record {
    before = url ∷ a.before;
    url = a.url;
    after = a.after;
    response = a.response;
    reached = a.reached;
    split = ap (λ l. url ∷ l) a.split;
    silent = ((message, e), a.silent);
    responds = a.responds;
    returned = a.returned;
    remembered = a.remembered;
    asked = a.asked ∙ append_assoc c.calls (fetched url path ∷ []) _;
  }

  AllFailed-cons :
      (config : ApiConfig p) (path : String) (init : RequestInit p) (all : List String)
      (url : String) (urls : List String) (given : ℕ) (c : Client p)
      (r : Outcome Response × Client p) (message : String)
      → (fetched_one config url path init c).0 ≡ rejected message
      → AllFailed config path init all urls (given + 1) (fetched_one config url path init c).1 r
      → AllFailed config path init all (url ∷ urls) given c r
  AllFailed-cons config path init all url urls given c r message e a = record {
    reached = a.reached;
    silent = ((message, e), a.silent);
    message = a.message;
    errors = a.errors;
    thrown = a.thrown;
    kept = a.kept;
    one_each = omega (arith, a.one_each);
    asked = a.asked ∙ append_assoc c.calls (fetched url path ∷ []) _;
  }

  try_urls-responded :
      (config : ApiConfig p) (path : String) (init : RequestInit p) (all errors urls : List String)
      (url : String) (c : Client p) {response : Response}
      → (fetched_one config url path init c).0 ≡ responded response
      → try_urls config path init all errors (url ∷ urls) c ≡ (
        ok response,
        record ((fetched_one config url path init c).1) { last_working_base_url = some url },
      )
  unfolding try_urls fetch_with_timeout
  try_urls-responded config path init all errors urls url c e = rw (e, try_urls)

  try_urls-rejected :
      (config : ApiConfig p) (path : String) (init : RequestInit p) (all errors urls : List String)
      (url : String) (c : Client p) {message : String}
      → (fetched_one config url path init c).0 ≡ rejected message
      → try_urls config path init all errors (url ∷ urls) c
        ≡ try_urls config path init all
            (errors ++ failure url message ∷ [])
            urls
            (fetched_one config url path init c).1
  unfolding try_urls fetch_with_timeout
  try_urls-rejected config path init all errors urls url c e = rw (e, try_urls)

  try_urls-result :
      (config : ApiConfig p) (path : String) (init : RequestInit p) (all errors urls : List String)
      (c : Client p)
      → Answered config path init urls c (try_urls config path init all errors urls c)
        ⊎ AllFailed config path init all urls
            (length errors)
            c
            (try_urls config path init all errors urls c)
  try_urls-result config path init all errors [] c =
      inr (unfold try_urls in all_failed-AllFailed config path init all errors c)
  try_urls-result config path init all errors (url ∷ urls) c =
      let r = fetched_one config url path init c in
      elim (Settled-cases r.0) [
        | inl (response, e) ↦ inl (
            rw (try_urls-responded config path init all errors urls url c e) (record {
              before = [];
              url = url;
              after = urls;
              response = response;
              reached = c;
              split = refl;
              silent = refl;
              responds = e;
              returned = refl;
              remembered = refl;
              asked = refl;
            }))
        | inr (message, e) ↦
            let more = errors ++ failure url message ∷ [] in
            let count : length more ≡ length errors + 1 =
              omega (arith, length-append errors (failure url message ∷ [])) in
            rw (try_urls-rejected config path init all errors urls url c e)
              (elim (try_urls-result config path init all more urls r.1) [
                | inl a ↦ inl (Answered-cons config path init url urls c _ message e a)
                | inr f ↦ inr (
                    AllFailed-cons config path init all url urls (length errors) c _ message e
                      (rw count at f))
              ])
      ]

  fetch_with_fallback_configured :
      (path : String) (init : RequestInit p) (c : Client p) (config : ApiConfig p)
      → c.config ≡ some config
      → let urls = candidate_urls config.base_urls c.last_working_base_url in
        fetch_with_fallback path init c ≡ try_urls config path init urls [] urls c
  unfolding fetch_with_fallback
  fetch_with_fallback_configured path init c config h = simp (h, fetch_with_fallback)

  -- With a configuration, a fetch goes through the candidate URLs in order. Either some URL
  -- responds while those before it are rejected or run out of time: its response is returned,
  -- whatever its HTTP status, no later URL was asked, and it is remembered as the one that works.
  -- Or no candidate responds: every one was asked once, the failure was reported once to a
  -- configured `onNetworkError`, the remembered URL stays, and an error is thrown.
  pub fetch_with_fallback-result :
      (path : String) (init : RequestInit p) (c : Client p) (config : ApiConfig p)
      → c.config ≡ some config
      → let urls = candidate_urls config.base_urls c.last_working_base_url in
        Answered config path init urls c (fetch_with_fallback path init c)
        ⊎ AllFailed config path init urls urls 0 c (fetch_with_fallback path init c)
  fetch_with_fallback-result path init c config h =
      rw (fetch_with_fallback_configured path init c config h) (
        try_urls-result config path init (candidate_urls config.base_urls c.last_working_base_url)
          [] (candidate_urls config.base_urls c.last_working_base_url) c)
