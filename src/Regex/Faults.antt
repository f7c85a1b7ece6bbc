-- ===== src/Regex/Faults.antt =====
-- Inputs on which ndn-cxx/util/regex does not do what its regular expressions mean.
use ndn_cxx_gm.Base.{
  ℕ, zero, suc, ◌+◌, ◌≤◌, ◌<◌, ◌≡◌, ◌∙◌, refl, List, [], ◌∷◌, ◌++◌, Bool, true, false, Option, none,
  some, leb, ◌==◌, length, take, All, err, arith,
}
use ndn_cxx_gm.Regex.{Regex, repeat, try_lengths, repeat_match, match}
use ndn_cxx_gm.Regex.Language.{Times}
use ndn_cxx_gm.Regex.Decision.{Matches}
use ndn_cxx_gm.Regex.Parsing.{Result, wrong_expand_format}
use ndn_cxx_gm.Regex.Expanding.{expand, expand_loop, read_component_item, get_item}

module _ {N : Type 0} (inner : List N → Option Bool) (least most : ℕ) (c : N) (name : List N)
    (nullable : inner [] ≡ some true)
    (no_prefix : (t : ℕ)
      → 0 < t
      → t ≤ length (c ∷ name)
      → inner (take t (c ∷ name)) ≡ some false) where
  try_runaway :
      (tried : ℕ) (rest : List N → Option Bool)
      → tried ≤ length (c ∷ name)
      → rest (c ∷ name) ≡ none
      → try_lengths tried inner rest (c ∷ name) ≡ none
  unfolding try_lengths
  try_runaway zero rest h e = rw (nullable, try_lengths) e
  try_runaway (suc tried) rest h e =
      rw (no_prefix (suc tried) (omega arith) h, try_lengths)
        (try_runaway tried rest (omega arith) e)

  -- Where the matcher under a quantifier matches the empty name and no prefix of a name that is
  -- not empty, the recursion on that name is as deep as the upper bound of the quantifier: it
  -- gives no answer on any fuel up to the rounds that are left to it.
  pub repeat_match-runaway :
      (fuel count : ℕ)
      → count + fuel ≤ most
      → repeat_match fuel inner least most count (c ∷ name) ≡ none
  unfolding repeat_match
  repeat_match-runaway zero count h = refl
  repeat_match-runaway (suc fuel) count h =
      let few : leb most count ≡ false = ground arith in
      rw (few, repeat_match)
        (try_runaway (length (c ∷ name)) (repeat_match fuel inner least most (count + 1))
          (omega arith) (repeat_match-runaway fuel (count + 1) (omega arith)))

module _ {N : Type 0} (regex_match : List ℕ → List ℕ → Bool) (to_uri : N → List ℕ) where
  -- What repeats to the empty name in any number of times.
  empty_Times : (P : List N → Type 0) (n : ℕ) → P [] → Times P n []
  empty_Times P zero p = refl
  empty_Times P (suc n) p = ([], [], p, empty_Times P n p, refl)

  -- Where the matcher under a quantifier matches the empty name and the lower bound is positive
  -- and at most the upper one, the empty name is in the language, and match answers false.
  pub repeat-empty_name :
      (fuel : ℕ) (r : Regex) (least most : ℕ)
      → 0 < fuel
      → 0 < least
      → least ≤ most
      → Matches regex_match to_uri r []
      → Matches regex_match to_uri (repeat r least most) []
        × (match regex_match to_uri fuel (repeat r least most) [] ≡ some false)
  unfolding Matches match repeat_match
  repeat-empty_name zero r least most f pos bounds p = absurd (omega arith)
  repeat-empty_name (suc fuel) r least most f pos bounds p = (
    (least, empty_Times (Matches regex_match to_uri r) least p, omega arith, bounds),
    ground arith,
  )

-- The closing bracket is the last byte of the text.
read_component_item-end :
    (text : List ℕ)
    → All (λ c. ¬ (c ≡ b'<') × ¬ (c ≡ b'>')) text
    → read_component_item 0 (text ++ b'>' ∷ []) ≡ err wrong_expand_format
unfolding read_component_item
read_component_item-end [] h = refl
read_component_item-end (c ∷ []) h = ground (arith, h.0.0, h.0.1)
read_component_item-end (c ∷ d ∷ text) h =
    ground (arith, h.0.0, h.0.1, read_component_item-end (d ∷ text) h.1)

get_item-end :
    (text : List ℕ)
    → All (λ c. ¬ (c ≡ b'<') × ¬ (c ≡ b'>')) text
    → get_item (b'<' ∷ text ++ b'>' ∷ []) ≡ err wrong_expand_format
unfolding get_item
get_item-end text h = rw (read_component_item-end text h, get_item)

expand-given :
    {N : Type 0} (parse_name : List ℕ → Result (List N)) (matched : List N)
    (backrefs : List (List N)) (c : ℕ) (text default_expand : List ℕ)
    → expand parse_name matched backrefs (c ∷ text) default_expand
      ≡ expand_loop parse_name matched backrefs (length (c ∷ text)) (c ∷ text) []
unfolding expand
expand-given parse_name matched backrefs c text default_expand =
    let given : (length (c ∷ text) == 0) ≡ false = ground arith in rw given

-- expand throws at an expand string that is one component item, without further angle brackets,
-- however the result is to be filled in.
pub expand-last_component :
    {N : Type 0} (parse_name : List ℕ → Result (List N)) (matched : List N)
    (backrefs : List (List N)) (text default_expand : List ℕ)
    → All (λ c. ¬ (c ≡ b'<') × ¬ (c ≡ b'>')) text
    → expand parse_name matched backrefs (b'<' ∷ text ++ b'>' ∷ []) default_expand
      ≡ err wrong_expand_format
unfolding expand_loop
expand-last_component parse_name matched backrefs text default_expand h =
    expand-given parse_name matched backrefs b'<' (text ++ b'>' ∷ []) default_expand
    ∙ rw (get_item-end text h, expand_loop)
