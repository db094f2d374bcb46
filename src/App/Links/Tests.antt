-- ===== src/App/Links/Tests.antt =====
-- A link, and the theorem on links at a concrete input.
use project_pn.Prelude.{ℕ, ◌+◌, ◌-◌, ◌≡◌, refl, ap, Option, some, [], ◌∷◌, map, arith}
use project_pn.App.Links.{Text, LinkSession, extract_session_from_url}
use project_pn.App.Links.RoundTrip.{IsPlain, link_with, extract_session_from_url-link}

-- A code that shifts each character past the special ones.
abbrev shift : Text → Text
shift text = map (λ c. c + 64) text

abbrev unshift : Text → Option Text
unshift text = some (map (λ c. c - 64) text)

back : (c : ℕ) → c + 64 - 64 ≡ c
back c = omega arith

map-shift : (text : Text) → map (λ c. c - 64) (shift text) ≡ text
map-shift [] = refl
map-shift (c ∷ cs) = cc (back c, map-shift cs)

unshift-shift : (text : Text) → unshift (shift text) ≡ some text
unshift-shift text = ap some (map-shift text)

shift-IsPlain : (text : Text) → IsPlain (shift text)
shift-IsPlain [] = refl
shift-IsPlain (c ∷ cs) = ground (arith, shift-IsPlain cs)

abbrev some_session : LinkSession
some_session = record {
  token = b'a' ∷ b'#' ∷ [];
  refresh_token = b'r' ∷ [];
  expires_at = b'9' ∷ [];
}

extract_session_from_url-link_example :
    extract_session_from_url unshift [] (
      link_with
        (b'p' ∷ b':' ∷ [])
        (shift some_session.token)
        (shift some_session.refresh_token)
        (shift some_session.expires_at))
    ≡ some some_session
extract_session_from_url-link_example =
    extract_session_from_url-link unshift shift [] unshift-shift shift-IsPlain refl
      (b'p' ∷ b':' ∷ []) some_session refl (λ e. absurd (cc e)) (λ e. absurd (cc e))
      (λ e. absurd (cc e))
