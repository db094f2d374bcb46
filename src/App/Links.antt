-- ===== src/App/Links.antt =====
-- The session in a link: frontend/src/utils/authLaunch.ts.
-- A text is the list of its characters' numbers. `decode` is `decodeURIComponent`, none where it throws,
-- and `in_an_hour` the text of the time an hour from now.
pub mod RoundTrip
mod Tests
use project_pn.Prelude.{
  ℕ, Bool, true, false, ◌||◌, Option, none, some, List, [], ◌∷◌, ◌++◌, eqb, if◌then◌else◌, or_else,
  or_option,
}

abbrev pub Text : Type 0
Text = List ℕ

-- `SessionResponse`, as its characters.
pub record LinkSession : Type 0 where
  pub token : Text
  pub refresh_token : Text
  pub expires_at : Text

abbrev pub token_name : Text
token_name = b't' ∷ b'o' ∷ b'k' ∷ b'e' ∷ b'n' ∷ []

abbrev pub refresh_token_name : Text
refresh_token_name =
    b'r' ∷ b'e' ∷ b'f' ∷ b'r' ∷ b'e' ∷ b's' ∷ b'h' ∷ b'_' ∷ b't' ∷ b'o' ∷ b'k' ∷ b'e' ∷ b'n' ∷ []

abbrev pub expires_at_name : Text
expires_at_name = b'e' ∷ b'x' ∷ b'p' ∷ b'i' ∷ b'r' ∷ b'e' ∷ b's' ∷ b'_' ∷ b'a' ∷ b't' ∷ []

abbrev pub before_hash : Text → Text
before_hash [] = []
before_hash (c ∷ cs) = if eqb c b'#' then [] else c ∷ before_hash cs

abbrev pub after_hash : Text → Text
after_hash [] = []
after_hash (c ∷ cs) = if eqb c b'#' then cs else after_hash cs

-- `[^&#]*`
abbrev pub value_of : Text → Text
value_of [] = []
value_of (c ∷ cs) = if eqb c b'&' || eqb c b'#' then [] else c ∷ value_of cs

-- What follows a given text.
abbrev pub strip : Text → Text → Option Text
strip [] text = some text
strip (p ∷ ps) [] = none
strip (p ∷ ps) (c ∷ cs) = if eqb p c then strip ps cs else none

abbrev pub if_not_empty : Text → Option Text
if_not_empty [] = none
if_not_empty (c ∷ cs) = some (c ∷ cs)

-- The group of `param=([^&#]+)` where that matches at the start of a text.
abbrev pub value_here : Text → Text → Option Text
value_here param text = elim (strip (param ++ b'=' ∷ []) text) [
  | none ↦ none
  | some rest ↦ if_not_empty (value_of rest)
]

-- The first match of `[?&]param=([^&#]+)`.
abbrev pub search_match : Text → Text → Option Text
search_match param [] = none
search_match param (c ∷ cs) =
    if eqb c b'?' || eqb c b'&'
    then or_option (value_here param cs) (search_match param cs)
    else search_match param cs

-- The first match of `(?:^|[?&])param=([^&#]+)`.
abbrev pub hash_match : Text → Text → Option Text
hash_match param text = or_option (value_here param text) (search_match param text)

module _ (decode : Text → Option Text) (in_an_hour : Text) where
  abbrev pub decoded : Option Text → Option Text
  decoded none = none
  decoded (some value) = decode value

  unfoldable pub extract_param_from_url : Text → Text → Option Text
  extract_param_from_url url param =
      decoded (or_option (search_match param (before_hash url)) (hash_match param (after_hash url)))

  abbrev pub session_of : Text → Option Text → Option LinkSession
  session_of url none = none
  session_of url (some []) = none
  session_of url (some (c ∷ cs)) = some (record {
    token = c ∷ cs;
    refresh_token = or_else (extract_param_from_url url refresh_token_name) (c ∷ cs);
    expires_at = or_else (extract_param_from_url url expires_at_name) in_an_hour;
  })

  unfoldable pub extract_session_from_url : Text → Option LinkSession
  unfolding extract_param_from_url
  extract_session_from_url url = session_of url (extract_param_from_url url token_name)
