-- ===== src/Logger/Words.antt =====
-- `splitWords` and `isRedactKey` of packages/service/logger/src/index.ts. The two `replace` calls put
-- a space between the words of camelCase.
use predictor_common.Prelude.Text.{Text, has}
use predictor_common.Prelude.Digits.{is_digit}
use predictor_common.Prelude.{
  ℕ, Bool, true, false, ◌&&◌, ◌||◌, List, [], ◌∷◌, ◌++◌, map, leb, any, if◌then◌else◌,
}

abbrev pub is_upper : ℕ → Bool
is_upper c = leb b'A' c && leb c b'Z'

abbrev pub is_lower : ℕ → Bool
is_lower c = leb b'a' c && leb c b'z'

abbrev pub is_letter : ℕ → Bool
is_letter c = is_upper c || is_lower c

-- `replace(/([a-z0-9])([A-Z])/g, "$1 $2")`.
unfoldable pub split_humps : Text → Text
split_humps [] = []
split_humps (c ∷ []) = c ∷ []
split_humps (c ∷ d ∷ name) =
    let rest = split_humps (d ∷ name) in
    c ∷ (if (is_lower c || is_digit c) && is_upper d then b' ' ∷ rest else rest)

-- `replace(/([A-Z]+)([A-Z][a-z])/g, "$1 $2")`: a capital that a small letter follows begins a word
-- after another capital.
unfoldable pub split_acronyms : Text → Text
split_acronyms [] = []
split_acronyms (c ∷ []) = c ∷ []
split_acronyms (c ∷ d ∷ []) = c ∷ d ∷ []
split_acronyms (c ∷ d ∷ e ∷ name) =
    let rest = split_acronyms (d ∷ e ∷ name) in
    c ∷ (if is_upper c && is_upper d && is_lower e then b' ' ∷ rest else rest)

-- `split(/[^a-zA-Z]+/)` and the filter of empty pieces, with the piece read so far.
abbrev pub finish_word : Text → List Text → List Text
finish_word [] words = words
finish_word (c ∷ word) words = (c ∷ word) ∷ words

unfoldable pub pieces : Text → Text → List Text
pieces word [] = finish_word word []
pieces word (c ∷ name) = elim (is_letter c) [
  | true ↦ pieces (word ++ (c ∷ [])) name
  | false ↦ finish_word word (pieces [] name)
]

module _ (to_lower_case : Text → Text) where
  unfoldable pub split_words : Text → List Text
  unfolding split_humps split_acronyms pieces
  split_words name = map to_lower_case (pieces [] (split_acronyms (split_humps name)))

  unfoldable pub is_redact_key : List Text → Text → Bool
  is_redact_key keys name = has keys (to_lower_case name) || any (has keys) (split_words name)
