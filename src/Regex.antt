-- ===== src/Regex.antt =====
-- ndn-cxx/util/regex: regular expressions on the components of a name. A matcher of the code is a
-- `Regex`; the part of the name that `match(name, offset, len)` looks at is a list of components,
-- and what std::regex does with one component is a parameter.
pub mod Language
pub mod Sets
pub mod Matching
pub mod Decision
pub mod Parsing
pub mod Compiling
pub mod Literals
pub mod FromName
pub mod Expanding
pub mod Faults
pub mod Ends
mod Runs
use ndn_cxx_gm.Base.{
  ℕ, zero, suc, ◌+◌, ◌-◌, ◌*◌, ◌/◌, ◌%◌, ◌^◌, ◌≤◌, ◌<◌, ◌≡◌, ◌↔◌, ◌⊎◌, inl, inr, ltb→lt, leb→le,
  lt→ltb, Option-cases, >>=-ne-err, ◌∙◌, refl, sym, ap, subst, List, [], ◌∷◌, ◌++◌, Bool, true,
  false, not, ◌&&◌, ◌||◌, Option, none, some, ltb, leb, ◌==◌, if◌then◌else◌, length, get_elem?,
  take, drop, All, ok, err, ◌>>=◌, ◌>>◌, guard, min, max, arith, Bool-cases, >>=-eq-ok, dec_le,
  dec_lt, ℕ_discrete, length-append, append_assoc, append-nil, ok-injective,
}

-- RegexComponentSetMatcher, RegexRepeatMatcher, and the matchers that run m_matchers one after
-- the other: RegexPatternListMatcher, and RegexBackrefMatcher, whose one matcher is such a list.
mutual
  pub data Regex : Type 0 where
    set : Bool → List (List ℕ) → Regex
    repeat : Regex → ℕ → ℕ → Regex
    sequence : Regexes → Regex

  pub data Regexes : Type 0 where
    nil : Regexes
    cons : Regex → Regexes → Regexes

-- A text that std::regex is given, and the component's URI, to which it is matched.
module _ {N : Type 0} (regex_match : List ℕ → List ℕ → Bool) (to_uri : N → List ℕ) where
  -- RegexComponentMatcher::match
  unfoldable pub match_component : List ℕ → N → Bool
  match_component [] c = true
  match_component (x ∷ expr) c = regex_match (x ∷ expr) (to_uri c)

  -- The loop of RegexComponentSetMatcher::match
  unfoldable pub any_component : List (List ℕ) → N → Bool
  any_component [] c = false
  any_component (e ∷ components) c =
      if match_component e c then true else any_component components c

  -- RegexComponentSetMatcher::match
  unfoldable pub match_set : Bool → List (List ℕ) → List N → Bool
  match_set is_inclusion components [] = false
  match_set is_inclusion components (c ∷ []) =
      if is_inclusion then any_component components c else not (any_component components c)
  match_set is_inclusion components (c ∷ d ∷ name) = false

-- The loop `while (tried >= 0)` of recursiveMatch: a matcher on the first `tried` components, and
-- what follows on the others. `none`: the fuel of the model ran out.
unfoldable pub try_lengths :
    {N : Type 0} → ℕ → (List N → Option Bool) → (List N → Option Bool) → List N → Option Bool
try_lengths zero front rest name = elim (front []) [
  | none ↦ none
  | some false ↦ some false
  | some true ↦ rest name
]
try_lengths (suc tried) front rest name = elim (front (take (suc tried) name)) [
  | none ↦ none
  | some false ↦ try_lengths tried front rest name
  | some true ↦ elim (rest (drop (suc tried) name)) [
    | none ↦ none
    | some true ↦ some true
    | some false ↦ try_lengths tried front rest name
  ]
]

-- RegexRepeatMatcher::recursiveMatch, with `count` as the code's `repeat`.
unfoldable pub repeat_match :
    {N : Type 0} → ℕ → (List N → Option Bool) → ℕ → ℕ → ℕ → List N → Option Bool
repeat_match zero inner least most count name = none
repeat_match (suc fuel) inner least most count [] = some (leb least count)
repeat_match (suc fuel) inner least most count (c ∷ name) =
    if leb most count
    then some false
    else try_lengths (length (c ∷ name)) inner (repeat_match fuel inner least most (count + 1))
        (c ∷ name)

module _ {N : Type 0} (regex_match : List ℕ → List ℕ → Bool) (to_uri : N → List ℕ) (fuel : ℕ) where
  -- match of each class, and RegexMatcher::recursiveMatch
  unfoldable mutual
    pub match : Regex → List N → Option Bool
    match (set is_inclusion components) name =
        some (match_set regex_match to_uri is_inclusion components name)
    match (repeat r least most) name =
        if least == 0 && length name == 0
        then some true
        else repeat_match fuel (match r) least most 0 name
    match (sequence rs) name = recursive_match rs name

    pub recursive_match : Regexes → List N → Option Bool
    recursive_match nil name = some (length name == 0)
    recursive_match (cons r rs) name = try_lengths (length name) (match r) (recursive_match rs) name
