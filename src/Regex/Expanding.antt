-- ===== src/Regex/Expanding.antt =====
-- RegexTopMatcher::expand and getItemFromExpand of ndn-cxx/util/regex.
use ndn_cxx_gm.Base.{
  ℕ, zero, suc, ◌-◌, List, [], ◌∷◌, ◌++◌, none, some, leb, ◌==◌, if◌then◌else◌, length, get_elem?,
  ok, err, ◌>>=◌,
}
use ndn_cxx_gm.Regex.Parsing.{
  Result, after, is_digit, digits_value, wrong_expand_format, back_reference_range, bad_index,
  out_of_fuel,
}
use ndn_cxx_gm.Base.Bits.{u64_mod}

-- The loop over the digits of a back reference: the digits, and what follows them.
unfoldable pub read_digits : List ℕ → List ℕ × List ℕ
read_digits [] = ([], [])
read_digits (c ∷ text) =
    if is_digit c then (c ∷ (read_digits text).0, (read_digits text).1) else ([], c ∷ text)

-- The loop over a component item, with `depth` = left - right - 1: its text, and what follows it.
unfoldable pub read_component_item : ℕ → List ℕ → Result (List ℕ × List ℕ)
read_component_item depth [] = err wrong_expand_format
read_component_item depth (c ∷ []) = err wrong_expand_format
read_component_item zero (c ∷ d ∷ text) =
    let deeper = after c (read_component_item 1 (d ∷ text)) in
    let same_depth = after c (read_component_item 0 (d ∷ text)) in
    if c == b'<' then deeper else if c == b'>' then ok ([], d ∷ text) else same_depth
read_component_item (suc depth) (c ∷ d ∷ text) = after c (
    read_component_item
      (if c == b'<' then suc (suc depth) else if c == b'>' then depth else suc depth) (d ∷ text))

-- An item of the expand string.
pub data Item : Type 0 where
  component_item : List ℕ → Item
  back_reference : List ℕ → Item

-- getItemFromExpand
unfoldable pub get_item : List ℕ → Result (Item × List ℕ)
get_item [] = err wrong_expand_format
get_item (c ∷ text) =
    if c == b'\\'
    then (if 0 == length text
        then err wrong_expand_format
        else if 0 == length (read_digits text).0
        then err wrong_expand_format
        else ok (back_reference (read_digits text).0, (read_digits text).1))
    else if c == b'<'
    then (do (item, rest) ← read_component_item 0 text; ok (component_item item, rest))
    else err wrong_expand_format

module _ {N : Type 0} (parse_name : List ℕ → Result (List N)) (matched : List N)
    (backrefs : List (List N)) where
  -- What an item adds to the result: Name(item), the whole match, or the match of a group.
  unfoldable pub expand_item : Item → Result (List N)
  expand_item (component_item text) = parse_name text
  expand_item (back_reference digits) =
      let index = digits_value 0 digits in
      if leb u64_mod index
      then err bad_index
      else if index == 0
      then ok matched
      else elim (get_elem? backrefs (index - 1)) [
        | none ↦ err back_reference_range
        | some group ↦ ok group
      ]

  -- The loop of expand.
  unfoldable pub expand_loop : ℕ → List ℕ → List N → Result (List N)
  expand_loop fuel [] result = ok result
  expand_loop zero (c ∷ text) result = err out_of_fuel
  expand_loop (suc fuel) (c ∷ text) result = do
    (item, rest) ← get_item (c ∷ text)
    added ← expand_item item
    expand_loop fuel rest (result ++ added)

  -- expand, of the argument or of m_expand.
  unfoldable pub expand : List ℕ → List ℕ → Result (List N)
  expand expand_str default_expand =
      let text = if length expand_str == 0 then default_expand else expand_str in
      expand_loop (length text) text []
