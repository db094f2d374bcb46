-- ===== src/App/Links/RoundTrip.antt =====
-- A session is read back from the link that holds it: frontend/src/utils/authLaunch.ts.
use project_pn.Prelude.{
  ℕ, ◌≡◌, ◌≢◌, refl, sym, ap, ◌∙◌, Bool, false, ◌||◌, Option, some, [], ◌∷◌, ◌++◌, any, eqb, arith,
}
use project_pn.App.Links.{
  Text, LinkSession, token_name, refresh_token_name, expires_at_name, before_hash, value_of,
  if_not_empty, search_match, extract_param_from_url, session_of, extract_session_from_url,
}

-- A character that parts a link.
abbrev pub is_special : ℕ → Bool
is_special c = eqb c b'#' || eqb c b'&' || eqb c b'?'

abbrev pub IsPlain : Text → Type 0
IsPlain text = any is_special text ≡ false

-- The three parts of a link, from the last one on.
abbrev pub expires_part : Text → Text
expires_part expires_at = expires_at_name ++ b'=' ∷ expires_at

abbrev pub refresh_part : (refresh_token expires_at : Text) → Text
refresh_part refresh_token expires_at =
    refresh_token_name ++ b'=' ∷ (refresh_token ++ b'&' ∷ expires_part expires_at)

abbrev pub link_with : (base token refresh_token expires_at : Text) → Text
link_with base token refresh_token expires_at =
    base ++ b'?' ∷ (token_name ++ b'=' ∷ (token ++ b'&' ∷ refresh_part refresh_token expires_at))

search_match-skip :
    (param text rest : Text)
    → IsPlain text
    → search_match param (text ++ rest) ≡ search_match param rest
search_match-skip param [] rest plain = refl
search_match-skip param (c ∷ cs) rest plain = ground (arith, search_match-skip param cs rest)

value_of-plain : (text rest : Text) → IsPlain text → value_of (text ++ b'&' ∷ rest) ≡ text
value_of-plain [] rest plain = refl
value_of-plain (c ∷ cs) rest plain = ground (arith, value_of-plain cs rest)

value_of-end : (text : Text) → IsPlain text → value_of text ≡ text
value_of-end [] plain = refl
value_of-end (c ∷ cs) plain = ground (arith, value_of-end cs)

if_not_empty-some : (text : Text) → text ≢ [] → if_not_empty text ≡ some text
if_not_empty-some [] full = absurd (full refl)
if_not_empty-some (c ∷ cs) full = refl

before_hash-append :
    (text rest : Text) → IsPlain text → before_hash (text ++ rest) ≡ text ++ before_hash rest
before_hash-append [] rest plain = refl
before_hash-append (c ∷ cs) rest plain = ground (arith, before_hash-append cs rest)

before_hash-plain : (text : Text) → IsPlain text → before_hash text ≡ text
before_hash-plain [] plain = refl
before_hash-plain (c ∷ cs) plain = ground (arith, before_hash-plain cs)

module _ (base token refresh_token expires_at : Text) (base_plain : IsPlain base)
    (token_plain : IsPlain token) (refresh_plain : IsPlain refresh_token)
    (expires_plain : IsPlain expires_at) where
  before_hash-link :
      before_hash (link_with base token refresh_token expires_at)
      ≡ link_with base token refresh_token expires_at
  before_hash-link =
      rw
        (before_hash-append base
          (b'?' ∷ (token_name ++ b'=' ∷ (token ++ b'&' ∷ refresh_part refresh_token expires_at)))
          base_plain)
        (rw (before_hash-append token (b'&' ∷ refresh_part refresh_token expires_at) token_plain) (
          rw (before_hash-append refresh_token (b'&' ∷ expires_part expires_at) refresh_plain)
            (rw (before_hash-plain expires_at expires_plain) refl)))

  search_match-token :
      token ≢ []
      → search_match token_name (link_with base token refresh_token expires_at) ≡ some token
  search_match-token full =
      rw
        (search_match-skip token_name base
          (b'?' ∷ (token_name ++ b'=' ∷ (token ++ b'&' ∷ refresh_part refresh_token expires_at)))
          base_plain)
        (rw (value_of-plain token (refresh_part refresh_token expires_at) token_plain)
          (rw (if_not_empty-some token full) refl))

  search_match-refresh_token :
      refresh_token ≢ []
      → search_match refresh_token_name (link_with base token refresh_token expires_at)
        ≡ some refresh_token
  search_match-refresh_token full =
      rw
        (search_match-skip refresh_token_name base
          (b'?' ∷ (token_name ++ b'=' ∷ (token ++ b'&' ∷ refresh_part refresh_token expires_at)))
          base_plain)
        (rw
          (search_match-skip refresh_token_name token (b'&' ∷ refresh_part refresh_token expires_at)
            token_plain)
          (rw (value_of-plain refresh_token (expires_part expires_at) refresh_plain)
            (rw (if_not_empty-some refresh_token full) refl)))

  search_match-expires_at :
      expires_at ≢ []
      → search_match expires_at_name (link_with base token refresh_token expires_at)
        ≡ some expires_at
  search_match-expires_at full =
      rw
        (search_match-skip expires_at_name base
          (b'?' ∷ (token_name ++ b'=' ∷ (token ++ b'&' ∷ refresh_part refresh_token expires_at)))
          base_plain)
        (rw
          (search_match-skip expires_at_name token (b'&' ∷ refresh_part refresh_token expires_at)
            token_plain)
          (rw
            (search_match-skip expires_at_name refresh_token (b'&' ∷ expires_part expires_at)
              refresh_plain)
            (rw (value_of-end expires_at expires_plain)
              (rw (if_not_empty-some expires_at full) refl))))

module _ (decode : Text → Option Text) (encode : Text → Text) (in_an_hour : Text)
    (decode_encode : (text : Text) → decode (encode text) ≡ some text)
    (encode_plain : (text : Text) → IsPlain (encode text))
    (decode_empty : decode [] ≡ some []) where
  encode-full : (text : Text) → text ≢ [] → encode text ≢ []
  encode-full text full none_left =
      full (some_inj (sym (decode_encode text) ∙ ap decode none_left ∙ decode_empty))
    where
      some_inj : {xs ys : Text} → some xs ≡ some ys → xs ≡ ys
      some_inj e = cc e

  param-found :
      (url param text : Text)
      → before_hash url ≡ url
      → search_match param url ≡ some (encode text)
      → extract_param_from_url decode in_an_hour url param ≡ some text
  unfolding extract_param_from_url
  param-found url param text no_hash found = rw (no_hash, found) (decode_encode text)

  session_of-some :
      (url token refresh_token expires_at : Text)
      → token ≢ []
      → extract_param_from_url decode in_an_hour url refresh_token_name ≡ some refresh_token
      → extract_param_from_url decode in_an_hour url expires_at_name ≡ some expires_at
      → session_of decode in_an_hour url (some token)
        ≡ some (record { token = token; refresh_token = refresh_token; expires_at = expires_at })
  session_of-some url [] refresh_token expires_at full r e = absurd (full refl)
  session_of-some url (c ∷ cs) refresh_token expires_at full r e = rw (r, e) refl

  -- Where `decode` reads back what `encode` writes, the empty text as itself, and `encode` writes none
  -- of `#`, `&` and `?`: a session whose three texts are not empty is read back from the link that holds
  -- them encoded, in this order, after any text without such a character.
  pub extract_session_from_url-link :
      (base : Text) (session : LinkSession)
      → IsPlain base
      → session.token ≢ []
      → session.refresh_token ≢ []
      → session.expires_at ≢ []
      → extract_session_from_url decode in_an_hour (
          link_with base
            (encode session.token)
            (encode session.refresh_token)
            (encode session.expires_at))
        ≡ some session
  unfolding extract_session_from_url
  extract_session_from_url-link base session base_plain token_full refresh_full expires_full =
      let url =
        link_with base (encode session.token) (encode session.refresh_token)
          (encode session.expires_at) in
      let no_hash =
        before_hash-link base (encode session.token) (encode session.refresh_token)
          (encode session.expires_at) base_plain (encode_plain session.token)
          (encode_plain session.refresh_token) (encode_plain session.expires_at) in
      let token_found = param-found url token_name session.token no_hash (
        search_match-token base (encode session.token) (encode session.refresh_token)
          (encode session.expires_at) base_plain (encode_plain session.token)
          (encode_plain session.refresh_token) (encode_plain session.expires_at)
          (encode-full session.token token_full)) in
      let refresh_found = param-found url refresh_token_name session.refresh_token no_hash (
        search_match-refresh_token base (encode session.token) (encode session.refresh_token)
          (encode session.expires_at) base_plain (encode_plain session.token)
          (encode_plain session.refresh_token) (encode_plain session.expires_at)
          (encode-full session.refresh_token refresh_full)) in
      let expires_found = param-found url expires_at_name session.expires_at no_hash (
        search_match-expires_at base (encode session.token) (encode session.refresh_token)
          (encode session.expires_at) base_plain (encode_plain session.token)
          (encode_plain session.refresh_token) (encode_plain session.expires_at)
          (encode-full session.expires_at expires_full)) in
      ap (session_of decode in_an_hour url) token_found
      ∙ session_of-some url session.token session.refresh_token session.expires_at token_full
          refresh_found expires_found
