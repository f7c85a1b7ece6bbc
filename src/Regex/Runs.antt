-- ===== src/Regex/Runs.antt =====
-- Regular expressions of ndn-cxx/util/regex that are compiled and matched.
use ndn_cxx_gm.Base.{
  ℕ, zero, suc, ◌-◌, ◌≤◌, ◌<◌, ◌≡◌, ◌↔◌, refl, List, [], ◌∷◌, Bool, true, false, ◌&&◌, ◌||◌, not,
  Option, none, some, ◌==◌, if◌then◌else◌, length, take, ok, err, arith, map,
}
use ndn_cxx_gm.Regex.{
  Regex, set, repeat, sequence, nil, cons, match, recursive_match, match_set, match_component,
  any_component, try_lengths, repeat_match,
}
use ndn_cxx_gm.Regex.Decision.{Matches, IsProductive, AreProductive, MatchesAll, match-Matches}
use ndn_cxx_gm.Regex.Parsing.{
  extract_sub_pattern, extract_repetition, parse_repetition, out_of_fuel, without_last, last_byte,
  wrong_expand_format,
}
use ndn_cxx_gm.Regex.Compiling.{
  Top, assign, extract_component, compile_single_component, repeated, compile_list, compile_text,
  compile_start, compile_top, match_top, from_name,
}
use ndn_cxx_gm.Regex.FromName.{from_name-match_top}
use ndn_cxx_gm.Regex.Literals.{Literal, nothing, plain, escaped, is_syntax, is_uri_char}
use ndn_cxx_gm.Regex.Faults.{repeat_match-runaway, repeat-empty_name, expand-last_component}
use ndn_cxx_gm.Regex.Ends.{compile_top-ne-err}
use ndn_cxx_gm.Regex.Expanding.{expand}
use ndn_cxx_gm.Base.Bits.{u64_mod}

-- std::regex for texts with no operator but the backslash and the dot.
plain_match : List ℕ → List ℕ → Bool
plain_match [] text = length text == 0
plain_match (c ∷ expr) [] = false
plain_match (c ∷ []) (x ∷ text) = (c == b'.' || c == x) && (length text == 0)
plain_match (c ∷ d ∷ expr) (x ∷ text) =
    let quoted = d == x && plain_match expr text in
    let single = (c == b'.' || c == x) && plain_match (d ∷ expr) text in
    if c == b'\\' then quoted else single

-- A star that has nothing to repeat is the error that is looked for here.
plain_accepts : List ℕ → Bool
plain_accepts [] = true
plain_accepts (c ∷ text) = not (c == b'*')

plain_accepts-Literal : (text chars : List ℕ) → Literal text chars → plain_accepts text ≡ true
unfolding plain_accepts is_syntax
plain_accepts-Literal _ _ nothing = refl
plain_accepts-Literal _ _ (plain p l) = ground (arith, p)
plain_accepts-Literal _ _ (escaped p l) = refl

plain_step :
    (c : ℕ) (expr : List ℕ) (x : ℕ) (text : List ℕ)
    → is_syntax c ≡ false
    → plain_match (c ∷ expr) (x ∷ text) ≡ (c == x && plain_match expr text)
unfolding plain_match is_syntax
plain_step c [] x text h = ground (arith, h)
plain_step c (d ∷ expr) x text h = ground (arith, h)

same_head :
    (b : Bool) (c x : ℕ) (text chars : List ℕ)
    → (b ≡ true) ↔ (text ≡ chars)
    → ((c == x && b) ≡ true) ↔ ((x ∷ text) ≡ (c ∷ chars))
same_head b c x text chars r = (λ h. ground (arith, r.0, h), λ h. ground (arith, r.1, h))

plain_match-Literal :
    (expr chars other : List ℕ)
    → Literal expr chars
    → (plain_match expr other ≡ true) ↔ (other ≡ chars)
unfolding plain_match
plain_match-Literal _ _ [] nothing = (λ h. refl, λ h. refl)
plain_match-Literal _ _ (x ∷ text) nothing = (λ h. absurd (ground (arith, h)), λ h. absurd (cc h))
plain_match-Literal _ _ [] (plain p l) = (λ h. absurd (cc h), λ h. absurd (cc h))
plain_match-Literal _ _ (x ∷ text) (plain {c} {text = expr} {chars} p l) =
    rw (plain_step c expr x text p)
      (same_head (plain_match expr text) c x text chars (plain_match-Literal expr chars text l))
plain_match-Literal _ _ [] (escaped p l) = (λ h. absurd (cc h), λ h. absurd (cc h))
plain_match-Literal _ _ (x ∷ text) (escaped {c} {text = expr} {chars} p l) =
    same_head (plain_match expr text) c x text chars (plain_match-Literal expr chars text l)

-- <a><b>*
abbrev a_then_bs : Regex
a_then_bs = sequence (
    cons (repeat (set true ((b'a' ∷ []) ∷ [])) 1 1)
      (cons (repeat (set true ((b'b' ∷ []) ∷ [])) 0 (u64_mod - 1)) nil))

a_then_bs-compiled :
    compile_top plain_accepts (b'^' ∷ b'<' ∷ b'a' ∷ b'>' ∷ b'<' ∷ b'b' ∷ b'>' ∷ b'*' ∷ b'$' ∷ [])
    ≡ ok (record {
      primary =
          cons
            (repeat (set true ((b'a' ∷ []) ∷ [])) 1 1)
            (cons (repeat (set true ((b'b' ∷ []) ∷ [])) 0 (u64_mod - 1)) nil);
      secondary = none;
    })
unfolding compile_top plain_accepts compile_start compile_text compile_list extract_sub_pattern
    extract_repetition compile_single_component extract_component repeated parse_repetition
    last_byte without_last assign
a_then_bs-compiled = refl

abbrev name_abb : List (List ℕ)
name_abb = (b'a' ∷ []) ∷ (b'b' ∷ []) ∷ (b'b' ∷ []) ∷ []

a_then_bs-match : match plain_match (λ c. c) 4 a_then_bs name_abb ≡ some true
unfolding match recursive_match try_lengths repeat_match match_set any_component match_component
    plain_match
a_then_bs-match = refl

match-Matches_example :
    (b : Bool) × (match plain_match (λ c. c) 4 a_then_bs name_abb ≡ some b)
    × ((b ≡ true) ↔ Matches plain_match (λ c. c) a_then_bs name_abb)
unfolding IsProductive AreProductive Matches match_set
match-Matches_example =
    match-Matches plain_match (λ c. c) 4 a_then_bs name_abb
      ((λ z. absurd (cc z.1), omega arith, tt), ((λ z. absurd (cc z.1), omega arith, tt), tt))
      (omega arith)

from_name-match_top_example :
    (top : Top) × (from_name plain_accepts name_abb true ≡ ok top)
    × (b : Bool) × (match_top plain_match (λ c. c) 4 top name_abb ≡ some b)
    × ((b ≡ true) ↔ (map (λ c. c) name_abb ≡ name_abb))
unfolding is_uri_char
from_name-match_top_example =
    from_name-match_top plain_match (λ c. c) plain_match-Literal plain_accepts plain_accepts-Literal
      4 name_abb name_abb
      ((omega arith, (refl, tt)), ((omega arith, (refl, tt)), ((omega arith, (refl, tt)), tt)))
      (omega arith)

compile_top-ne-err_example : ¬ (compile_top plain_accepts (b'(' ∷ b'<' ∷ []) ≡ err out_of_fuel)
compile_top-ne-err_example = compile_top-ne-err plain_accepts (b'(' ∷ b'<' ∷ [])

-- What <a>* answers to a name of one component that is not `a`.
abbrev only_empty : List (List ℕ) → Option Bool
only_empty name = some (length name == 0)

only_empty-no_prefix : (t : ℕ) → 0 < t → t ≤ 1 → only_empty (take t ((b'b' ∷ []) ∷ [])) ≡ some false
only_empty-no_prefix zero h k = absurd (omega arith)
only_empty-no_prefix (suc t) h k = ground arith

repeat_match-runaway_example :
    repeat_match 100 only_empty 0 (u64_mod - 1) 0 ((b'b' ∷ []) ∷ []) ≡ none
repeat_match-runaway_example =
    repeat_match-runaway only_empty 0 (u64_mod - 1) (b'b' ∷ []) [] refl only_empty-no_prefix 100 0
      (omega arith)

repeat-empty_name_example :
    Matches plain_match (λ (c : List ℕ). c) (repeat (sequence nil) 1 5) []
    × (match plain_match (λ (c : List ℕ). c) 3 (repeat (sequence nil) 1 5) [] ≡ some false)
unfolding Matches MatchesAll
repeat-empty_name_example =
    repeat-empty_name plain_match (λ c. c) 3 (sequence nil) 1 5 (omega arith) (omega arith)
      (omega arith) refl

expand-last_component_example :
    expand (λ text. ok (text ∷ [])) [] [] (b'<' ∷ b'k' ∷ b'>' ∷ []) [] ≡ err wrong_expand_format
expand-last_component_example =
    expand-last_component (λ text. ok (text ∷ [])) [] [] (b'k' ∷ []) []
      ((λ e. omega arith, λ e. omega arith), tt)
