-- ===== src/Regex/Parsing.antt =====
-- ndn-cxx/util/regex: from the text of a regular expression to its matchers. A position in the text
-- is the list of bytes from it on. What is left of a text is returned beside the part that was read.
use ndn_cxx_gm.Base.{
  ℕ, zero, suc, ◌+◌, ◌-◌, ◌*◌, ◌/◌, ◌%◌, ◌^◌, ◌≤◌, ◌<◌, ◌≡◌, ◌↔◌, ◌⊎◌, inl, inr, ltb→lt, leb→le,
  lt→ltb, Option-cases, >>=-ne-err, ◌∙◌, refl, sym, ap, subst, List, [], ◌∷◌, ◌++◌, Bool, true,
  false, not, ◌&&◌, ◌||◌, Option, none, some, ltb, leb, ◌==◌, if◌then◌else◌, length, get_elem?,
  take, drop, All, ok, err, ◌>>=◌, ◌>>◌, guard, min, max, arith, Bool-cases, >>=-eq-ok, dec_le,
  dec_lt, ℕ_discrete, length-append, append_assoc, append-nil, take-append, drop-append,
  take-append-drop, length-take, length-drop, ok-injective,
}
use ndn_cxx_gm.Base.Bits.{u64_mod}
use ndn_cxx_gm.Base

-- RegexMatcher::Error, one constructor for each message
pub data RegexError : Type 0 where
  unexpected_character : ℕ → RegexError
  parenthesis_mismatch : RegexError
  missing_closing_brace : RegexError
  unrecognized_quantifier : ℕ → RegexError
  invalid_quantifier : RegexError
  invalid_repetitions : RegexError
  component_expr_error : RegexError
  angle_brackets_mismatch : RegexError
  wrong_expand_format : RegexError
  back_reference_range : RegexError
  -- std::regex_error, which is not caught
  regex_error : RegexError
  -- boost::bad_lexical_cast, which is not caught
  bad_index : RegexError
  -- the last byte of an empty text, which is undefined
  empty_expression : RegexError
  -- the fuel of the model ran out
  out_of_fuel : RegexError

abbrev pub Result {ℓ} : Type ℓ → Type ℓ
Result A = Base.Result RegexError A

-- Text that was read, before text that is read next.
abbrev pub after : ℕ → Result (List ℕ × List ℕ) → Result (List ℕ × List ℕ)
after c (ok (text, rest)) = ok (c ∷ text, rest)
after c (err e) = err e

-- extractSubPattern, with `open` = lcount - rcount - 1. The closing byte is left out of the text.
unfoldable pub extract_sub_pattern : ℕ → ℕ → ℕ → List ℕ → Result (List ℕ × List ℕ)
extract_sub_pattern left right depth [] = err parenthesis_mismatch
extract_sub_pattern left right zero (c ∷ rest) =
    let deeper = after c (extract_sub_pattern left right 1 rest) in
    let same_depth = after c (extract_sub_pattern left right 0 rest) in
    if c == left then deeper else if c == right then ok ([], rest) else same_depth
extract_sub_pattern left right (suc depth) (c ∷ rest) = after c (
    extract_sub_pattern left right
      (if c == left then suc (suc depth) else if c == right then depth else suc depth) rest)

-- The loop of extractRepetition up to the closing brace.
unfoldable pub extract_braces : List ℕ → Result (List ℕ × List ℕ)
extract_braces [] = err missing_closing_brace
extract_braces (c ∷ rest) = if c == b'}' then ok (c ∷ [], rest) else after c (extract_braces rest)

-- extractRepetition
unfoldable pub extract_repetition : List ℕ → Result (List ℕ × List ℕ)
unfolding extract_braces
extract_repetition [] = ok ([], [])
extract_repetition (c ∷ rest) =
    if c == b'+' || c == b'?' || c == b'*'
    then ok (c ∷ [], rest)
    else if c == b'{'
    then after c (extract_braces rest)
    else ok ([], c ∷ rest)

unfoldable pub is_digit : ℕ → Bool
is_digit c = leb b'0' c && leb c b'9'

-- Whether the text matches [0-9]+
unfoldable pub are_digits : List ℕ → Bool
unfolding is_digit
are_digits [] = false
are_digits (c ∷ []) = is_digit c
are_digits (c ∷ d ∷ text) = is_digit c && are_digits (d ∷ text)

unfoldable pub digits_value : ℕ → List ℕ → ℕ
digits_value acc [] = acc
digits_value acc (c ∷ text) = digits_value (acc * 10 + (c - b'0')) text

-- std::stoul of digits
unfoldable pub stoul : List ℕ → Result ℕ
unfolding digits_value
stoul text =
    if ltb (digits_value 0 text) u64_mod then ok (digits_value 0 text) else err invalid_repetitions

-- The text before the first comma, and what follows it.
unfoldable pub split_comma : List ℕ → Option (List ℕ × List ℕ)
split_comma [] = none
split_comma (c ∷ text) =
    if c == b','
    then some ([], text)
    else elim (split_comma text) [ none ↦ none | some (a, b) ↦ some (c ∷ a, b) ]

-- The four patterns of parseRepetition, of the text between the braces.
unfoldable pub parse_bounds : List ℕ → Result (ℕ × ℕ)
unfolding are_digits
parse_bounds text = elim (split_comma text) [
  | none ↦ if are_digits text then (do n ← stoul text; ok (n, n)) else err invalid_quantifier
  | some (a, b) ↦
      if are_digits a && are_digits b
      then (do
        least ← stoul a
        most ← stoul b
        (if ltb most least then err invalid_repetitions else ok (least, most)))
      else if length a == 0 && are_digits b
      then (do most ← stoul b; ok (0, most))
      else if are_digits a && length b == 0
      then (do least ← stoul a; ok (least, u64_mod - 1))
      else err invalid_quantifier
]

-- The text without its last byte.
unfoldable pub without_last : List ℕ → List ℕ
without_last [] = []
without_last (c ∷ []) = []
without_last (c ∷ d ∷ text) = c ∷ without_last (d ∷ text)

unfoldable pub last_byte : ℕ → List ℕ → ℕ
last_byte c [] = c
last_byte c (d ∷ text) = last_byte d text

-- parseRepetition, of the text from m_indicator on
unfoldable pub parse_repetition : List ℕ → Result (ℕ × ℕ)
parse_repetition [] = ok (1, 1)
parse_repetition (c ∷ []) =
    if c == b'?'
    then ok (0, 1)
    else if c == b'+'
    then ok (1, u64_mod - 1)
    else if c == b'*'
    then ok (0, u64_mod - 1)
    else err (unrecognized_quantifier c)
parse_repetition (c ∷ d ∷ text) =
    if c == b'{' && last_byte d text == b'}'
    then parse_bounds (without_last (d ∷ text))
    else err invalid_quantifier
