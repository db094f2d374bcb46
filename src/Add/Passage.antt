-- ===== src/Add/Passage.antt =====
-- A passage whose words are tapped: frontend/src/components/TappablePassage.tsx.
-- The matches of its two regular expressions and `toLowerCase` are a parameter. A tap is handled after
-- the passage was rendered with the taps before it.
use Prim.Native.String
use project_pn.Prelude.{
  ℕ, ◌+◌, min, max, String, Bool, true, false, not, ◌&&◌, Option, none, some, List, [], ◌∷◌, ◌++◌,
  filter, find, leb, eqb, if◌then◌else◌,
}

pub record Matching : Type 0 where
  pub matches : String → List String
  pub has_word_character : String → Bool
  pub to_lower_case : String → String

pub record Token : Type 0 where
  pub raw : String
  pub word : Option String
  pub word_index : Option ℕ

pub record WordToken : Type 0 where
  pub word_index : ℕ
  pub word : String

pub record PassageSpan : Type 0 where
  pub start : ℕ
  pub end : ℕ
  pub text : String

-- The token as a word, if it is one.
abbrev pub word_of : Option String → Option ℕ → List WordToken
word_of none index = []
word_of (some word) none = []
word_of (some word) (some index) = record { word_index = index; word = word } ∷ []

abbrev pub words_among : List Token → List WordToken
words_among [] = []
words_among (token ∷ tokens) = word_of token.word token.word_index ++ words_among tokens

module _ (matching : Matching) where
  -- The tokens of matches, of which `word_index` are words before them.
  abbrev pub number_words : (word_index : ℕ) → List String → List Token
  number_words word_index [] = []
  number_words word_index (raw ∷ rest) =
      if matching.has_word_character raw
      then record {
        raw = raw;
        word = some (matching.to_lower_case raw);
        word_index = some word_index;
      }
        ∷ number_words (word_index + 1) rest
      else record { raw = raw; word = none; word_index = none } ∷ number_words word_index rest

  unfoldable pub tokenize : String → List Token
  tokenize text = number_words 0 (matching.matches text)

  unfoldable pub word_tokens_of : String → List WordToken
  unfolding tokenize
  word_tokens_of text = words_among (tokenize text)

-- `join(' ')`
abbrev pub join_words : List WordToken → String
join_words [] = ""
join_words (w ∷ ws) = elim ws [
  | [] ↦ w.word
  | v ∷ vs ↦ String.◌++◌ w.word (String.◌++◌ " " (join_words ws))
]

abbrev pub is_within : (lo hi : ℕ) → WordToken → Bool
is_within lo hi w = leb lo w.word_index && leb w.word_index hi

unfoldable pub span_from_word_range : List WordToken → (start end : ℕ) → PassageSpan
span_from_word_range words start end = record {
  start = min start end;
  end = max start end;
  text = join_words (filter (is_within (min start end) (max start end)) words);
}

abbrev pub span_contains : ℕ → PassageSpan → Bool
span_contains word_index span = leb span.start word_index && leb word_index span.end

-- What a tap asks of the capture: to toggle a span, or to set the anchor of a phrase.
pub data Tap : Type 0 where
  toggle : PassageSpan → Tap
  anchor_at : ℕ → Tap
  toggle_and_release : PassageSpan → Tap

-- `handlePress`
unfoldable pub handle_press :
    List WordToken
    → (selected : List PassageSpan) → (phrase_mode : Bool) → (anchor : Option ℕ) → WordToken
    → Tap
unfolding span_from_word_range
handle_press words selected true none token =
    elim (find (λ s. span_contains token.word_index s && not (eqb s.start s.end)) selected) [
      | none ↦ anchor_at token.word_index
      | some existing ↦ toggle existing
    ]
handle_press words selected true (some anchor) token =
    toggle_and_release (span_from_word_range words anchor token.word_index)
handle_press words selected false anchor token =
    elim (find (λ s. eqb s.start token.word_index && eqb s.end token.word_index) selected) [
      | none ↦
          toggle (record { start = token.word_index; end = token.word_index; text = token.word })
      | some existing ↦ toggle existing
    ]
