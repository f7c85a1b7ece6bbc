-- ===== src/Regex/Compiling.antt =====
-- compile of the classes of ndn-cxx/util/regex.
use ndn_cxx_gm.Base.{
  ℕ, zero, suc, List, [], ◌∷◌, ◌++◌, Bool, true, false, ◌||◌, Option, none, some, ◌==◌,
  if◌then◌else◌, length, ok, err, ◌>>=◌, ◌>>◌, guard,
}
use ndn_cxx_gm.Regex.{Regex, Regexes, set, repeat, sequence, nil, cons, recursive_match}
use ndn_cxx_gm.Regex.Parsing.{
  Result, after, extract_sub_pattern, extract_repetition, parse_repetition, unexpected_character,
  component_expr_error, regex_error, angle_brackets_mismatch, empty_expression, out_of_fuel,
  without_last, last_byte,
}

-- extractComponent, with `depth` = lcount - rcount - 1: the component's text and what follows `>`.
unfoldable pub extract_component : ℕ → List ℕ → Result (List ℕ × List ℕ)
extract_component depth [] = err angle_brackets_mismatch
extract_component zero (c ∷ rest) =
    let deeper = after c (extract_component 1 rest) in
    let same_depth = after c (extract_component 0 rest) in
    if c == 0
    then err angle_brackets_mismatch
    else if c == b'<'
    then deeper
    else if c == b'>'
    then ok ([], rest)
    else same_depth
extract_component (suc depth) (c ∷ rest) =
    let others = after c (
      extract_component
        (if c == b'<' then suc (suc depth) else if c == b'>' then depth else suc depth) rest) in
    if c == 0 then err angle_brackets_mismatch else others

-- What RegexRepeatMatcher makes of its matcher and of the quantifier.
unfoldable pub repeated : Regex → List ℕ → Result Regex
repeated r quantifier = do (least, most) ← parse_repetition quantifier; ok (repeat r least most)

-- "<.*>*"
abbrev pub any_components : List ℕ
any_components = b'<' ∷ b'.' ∷ b'*' ∷ b'>' ∷ b'*' ∷ []

-- RegexTopMatcher: the primary matcher and, where the text does not begin with `^`, the secondary.
pub record Top : Type 0 where
  pub primary : Regexes
  pub secondary : Option Regexes

-- Whether std::regex takes a text; where it does not, its `assign` throws.
module _ (accepts : List ℕ → Bool) where
  -- RegexComponentMatcher::compile
  unfoldable pub assign : List ℕ → Result (List ℕ)
  assign text = if accepts text then ok text else err regex_error

  -- compileSingleComponent, of the text after `<`
  unfoldable pub compile_single_component : List ℕ → Result Regex
  compile_single_component text = do
    (component, rest) ← extract_component 0 text
    guard (length rest == 0) component_expr_error
    assigned ← assign component
    ok (set true (assigned ∷ []))

  -- The loop of compileMultipleComponents, up to `]`
  unfoldable pub compile_components : ℕ → List ℕ → Result (List (List ℕ))
  compile_components fuel [] = ok []
  compile_components zero (c ∷ text) = err out_of_fuel
  compile_components (suc fuel) (c ∷ text) =
      if c == b'<'
      then (do
        (component, rest) ← extract_component 0 text
        assigned ← assign component
        others ← compile_components fuel rest
        ok (assigned ∷ others))
      else err component_expr_error

  -- RegexComponentSetMatcher::compile of `[` text `]`
  unfoldable pub compile_set : List ℕ → Result Regex
  compile_set [] = ok (set true [])
  compile_set (c ∷ text) =
      if c == b'^'
      then (do components ← compile_components (length text) text; ok (set false components))
      else (do
        components ← compile_components (length (c ∷ text)) (c ∷ text)
        ok (set true components))

  -- RegexPatternListMatcher::compile, and extractPattern with the constructors that it calls.
  unfoldable pub compile_list : ℕ → List ℕ → Result Regexes
  compile_list fuel [] = ok nil
  compile_list zero (c ∷ text) = err out_of_fuel
  compile_list (suc fuel) (c ∷ text) =
      if c == b'('
      then (do
        (inside, rest) ← extract_sub_pattern b'(' b')' 0 text
        (quantifier, rest') ← extract_repetition rest
        group ← compile_list fuel inside
        let backref = sequence (cons (sequence group) nil)
        r ← (if length quantifier == 0 then ok backref else repeated backref quantifier)
        others ← compile_list fuel rest'
        ok (cons r others))
      else if c == b'<'
      then (do
        (inside, rest) ← extract_sub_pattern b'<' b'>' 0 text
        (quantifier, rest') ← extract_repetition rest
        component ← compile_single_component (inside ++ b'>' ∷ [])
        r ← repeated component quantifier
        others ← compile_list fuel rest'
        ok (cons r others))
      else if c == b'['
      then (do
        (inside, rest) ← extract_sub_pattern b'[' b']' 0 text
        (quantifier, rest') ← extract_repetition rest
        components ← compile_set inside
        r ← repeated components quantifier
        others ← compile_list fuel rest'
        ok (cons r others))
      else err (unexpected_character c)

  -- The constructor of RegexPatternListMatcher.
  unfoldable pub compile_text : List ℕ → Result Regexes
  compile_text text = compile_list (length text) text

  -- compile() after the end of the text was treated
  unfoldable pub compile_start : List ℕ → Result Top
  compile_start [] = do
    secondary ← compile_text any_components
    primary ← compile_text []
    ok (record { primary = primary; secondary = some secondary })
  compile_start (c ∷ text) =
      if c == b'^'
      then (do primary ← compile_text text; ok (record { primary = primary; secondary = none }))
      else (do
        secondary ← compile_text (any_components ++ c ∷ text)
        primary ← compile_text (c ∷ text)
        ok (record { primary = primary; secondary = some secondary }))

  -- RegexTopMatcher::compile
  unfoldable pub compile_top : List ℕ → Result Top
  compile_top [] = err empty_expression
  compile_top (c ∷ text) =
      if last_byte c text == b'$'
      then compile_start (without_last (c ∷ text))
      else compile_start ((c ∷ text) ++ any_components)

-- RegexTopMatcher::match
unfoldable pub match_top :
    {N : Type 0} (regex_match : List ℕ → List ℕ → Bool) (to_uri : N → List ℕ)
    → ℕ
    → Top
    → List N
    → Option Bool
match_top regex_match to_uri fuel top name =
    elim (recursive_match regex_match to_uri fuel top.primary name) [
      | none ↦ none
      | some true ↦ some true
      | some false ↦ elim top.secondary [
        | none ↦ some false
        | some rs ↦ recursive_match regex_match to_uri fuel rs name
      ]
    ]

-- convertSpecialChar
unfoldable pub is_special : ℕ → Bool
is_special c =
    c == b'.'
    || c == b'['
    || c == b'{'
    || c == b'}'
    || c == b'('
    || c == b')'
    || c == b'\\'
    || c == b'*'
    || c == b'+'
    || c == b'?'
    || c == b'|'
    || c == b'^'
    || c == b'$'

unfoldable pub convert_special_char : List ℕ → List ℕ
unfolding is_special
convert_special_char [] = []
convert_special_char (c ∷ text) =
    if is_special c then b'\\' ∷ c ∷ convert_special_char text else c ∷ convert_special_char text

-- The loop of fromName over the components' URIs.
unfoldable pub component_texts : List (List ℕ) → List ℕ
component_texts [] = []
component_texts (uri ∷ uris) = b'<' ∷ convert_special_char uri ++ b'>' ∷ component_texts uris

-- The text that fromName compiles.
unfoldable pub name_text : List (List ℕ) → Bool → List ℕ
name_text uris has_anchor = b'^' ∷ component_texts uris ++ (if has_anchor then b'$' ∷ [] else [])

module _ (accepts : List ℕ → Bool) where
  -- fromName
  unfoldable pub from_name : List (List ℕ) → Bool → Result Top
  from_name uris has_anchor = compile_top accepts (name_text uris has_anchor)
