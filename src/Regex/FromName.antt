-- ===== src/Regex/FromName.antt =====
-- RegexTopMatcher::fromName of ndn-cxx/util/regex: what it compiles to, and what that matches.
use ndn_cxx_gm.Base.{
  ℕ, zero, suc, ◌≤◌, ◌<◌, ◌≡◌, ◌↔◌, inl, inr, ◌∙◌, refl, sym, ap, ap₂, subst, List, [], ◌∷◌, ◌++◌,
  Bool, true, false, none, some, length, take, drop, All, ok, arith, Bool-cases, length-append,
  append-nil, map,
}
use ndn_cxx_gm.Regex.{
  Regex, Regexes, set, repeat, sequence, nil, cons, match, recursive_match, match_set,
  match_component, any_component,
}
use mathlib.Core.List.{map-append}
use ndn_cxx_gm.Regex.Language.{Times}
use ndn_cxx_gm.Regex.Decision.{Matches, MatchesAll, IsProductive, AreProductive, match-Matches}
use ndn_cxx_gm.Regex.Parsing.{
  extract_sub_pattern, extract_repetition, parse_repetition, without_last, last_byte,
}
use ndn_cxx_gm.Regex.Compiling.{
  Top, assign, extract_component, compile_single_component, repeated, compile_list, compile_text,
  compile_start, compile_top, match_top, convert_special_char, is_special, component_texts,
  name_text, from_name,
}
use ndn_cxx_gm.Regex.Literals.{Literal, IsUri, is_uri_char, convert_special_char-Literal}
use ndn_cxx_gm.Regex.Sets.{match_set-InSet}

-- A byte that no angle bracket and no end of text is.
abbrev IsPlain : List ℕ → Type 0
IsPlain = All (λ c. ¬ (c ≡ b'<') × ¬ (c ≡ b'>') × ¬ (c ≡ 0))

uri_char-plain : (c : ℕ) → is_uri_char c ≡ true → ¬ (c ≡ b'<') × ¬ (c ≡ b'>') × ¬ (c ≡ 0)
unfolding is_uri_char
uri_char-plain c h = (λ e. ground arith, λ e. ground arith, λ e. ground arith)

convert-IsPlain :
    (uri : List ℕ) → All (λ c. is_uri_char c ≡ true) uri → IsPlain (convert_special_char uri)
unfolding convert_special_char
convert-IsPlain [] h = tt
convert-IsPlain (c ∷ uri) h =
    let plain = uri_char-plain c h.0 in
    let others = convert-IsPlain uri h.1 in
    elim (Bool-cases (is_special c)) [
      | inl special ↦
          rw (special, convert_special_char)
            (
              (λ e. absurd (omega arith), λ e. absurd (omega arith), λ e. absurd (omega arith)),
              (plain, others),
            )
      | inr other ↦ rw (other, convert_special_char) (plain, others)
    ]

extract_sub_pattern-plain :
    (text rest : List ℕ)
    → IsPlain text
    → extract_sub_pattern b'<' b'>' 0 (text ++ b'>' ∷ rest) ≡ ok (text, rest)
unfolding extract_sub_pattern
extract_sub_pattern-plain [] rest h = refl
extract_sub_pattern-plain (c ∷ text) rest h =
    ground (arith, extract_sub_pattern-plain text rest, h.0.0, h.0.1)

extract_component-plain :
    (text rest : List ℕ)
    → IsPlain text
    → extract_component 0 (text ++ b'>' ∷ rest) ≡ ok (text, rest)
unfolding extract_component
extract_component-plain [] rest h = refl
extract_component-plain (c ∷ text) rest h =
    ground (arith, extract_component-plain text rest, h.0.0, h.0.1, h.0.2)

-- What a component's text compiles to.
abbrev pub component_regex : List ℕ → Regex
component_regex uri = repeat (set true (convert_special_char uri ∷ [])) 1 1

unfoldable pub chain : List (List ℕ) → Regexes
chain [] = nil
chain (uri ∷ uris) = cons (component_regex uri) (chain uris)

no_repetition :
    (uris : List (List ℕ))
    → extract_repetition (component_texts uris) ≡ ok ([], component_texts uris)
unfolding extract_repetition component_texts
no_repetition [] = refl
no_repetition (uri ∷ uris) = refl

abbrev AreUris : List (List ℕ) → Type 0
AreUris = All IsUri

last_byte-append : (c : ℕ) (text : List ℕ) (d : ℕ) → last_byte c (text ++ d ∷ []) ≡ d
unfolding last_byte
last_byte-append c [] d = refl
last_byte-append c (e ∷ text) d = last_byte-append e text d

without_last-append : (text : List ℕ) (d : ℕ) → without_last (text ++ d ∷ []) ≡ text
unfolding without_last
without_last-append [] d = refl
without_last-append (c ∷ []) d = refl
without_last-append (c ∷ e ∷ text) d = ap (◌∷◌ c) (without_last-append (e ∷ text) d)

length-component_texts : (uris : List (List ℕ)) → length uris ≤ length (component_texts uris)
unfolding component_texts
length-component_texts [] = omega arith
length-component_texts (uri ∷ uris) = omega (
  arith,
  length-append (convert_special_char uri) (b'>' ∷ component_texts uris),
  length-component_texts uris,
)

module _ (accepts : List ℕ → Bool)
    (accepts_literal : (text chars : List ℕ) → Literal text chars → accepts text ≡ true) where
  compile_single_component-plain :
      (text : List ℕ)
      → IsPlain text
      → accepts text ≡ true
      → compile_single_component accepts (text ++ b'>' ∷ []) ≡ ok (set true (text ∷ []))
  unfolding compile_single_component assign
  compile_single_component-plain text h taken =
      rw (extract_component-plain text [] h, taken, compile_single_component, assign)

  compile_list-chain :
      (fuel : ℕ) (uris : List (List ℕ))
      → length uris ≤ fuel
      → AreUris uris
      → compile_list accepts fuel (component_texts uris) ≡ ok (chain uris)
  unfolding compile_list component_texts chain repeated parse_repetition
  compile_list-chain fuel [] h u = refl
  compile_list-chain zero (uri ∷ uris) h u = absurd (omega arith)
  compile_list-chain (suc fuel) (uri ∷ uris) h u =
      let plain = convert-IsPlain uri u.0.1 in
      let taken = accepts_literal _ uri (convert_special_char-Literal uri u.0.1) in
      rw (
        extract_sub_pattern-plain (convert_special_char uri) (component_texts uris) plain,
        no_repetition uris,
        compile_single_component-plain (convert_special_char uri) plain taken,
        compile_list-chain fuel uris (omega arith) u.1,
      )

  -- fromName with its anchor compiles to the chain of the components, and to nothing else.
  from_name-chain :
      (uris : List (List ℕ))
      → AreUris uris
      → from_name accepts uris true ≡ ok (record { primary = chain uris; secondary = none })
  unfolding from_name name_text compile_top compile_start compile_text
  from_name-chain uris u = rw (
    last_byte-append b'^' (component_texts uris) b'$',
    without_last-append (b'^' ∷ component_texts uris) b'$',
    compile_list-chain (length (component_texts uris)) uris (length-component_texts uris) u,
  )

module _ {N : Type 0} (regex_match : List ℕ → List ℕ → Bool) (to_uri : N → List ℕ)
    (matches_literal : (text chars other : List ℕ)
      → Literal text chars
      → (regex_match text other ≡ true) ↔ (other ≡ chars)) where
  match_component-eq :
      (expr : List ℕ) (c : N)
      → 0 < length expr
      → match_component regex_match to_uri expr c ≡ regex_match expr (to_uri c)
  unfolding match_component
  match_component-eq [] c h = absurd (omega arith)
  match_component-eq (x ∷ expr) c h = refl

  length-convert : (uri : List ℕ) → 0 < length uri → 0 < length (convert_special_char uri)
  unfolding convert_special_char
  length-convert [] h = h
  length-convert (c ∷ uri) h = ground arith

  one_component :
      (uri : List ℕ) (c : N)
      → IsUri uri
      → (match_set regex_match to_uri true (convert_special_char uri ∷ []) (c ∷ []) ≡ true)
        ↔ (to_uri c ≡ uri)
  unfolding match_set any_component
  one_component uri c u =
      let e = match_component-eq (convert_special_char uri) c (length-convert uri u.0) in
      let x = matches_literal _ uri (to_uri c) (convert_special_char-Literal uri u.1) in
      (λ h. x.0 (ground arith), λ h. ground (arith, x.1 h))

  set-Matches :
      (uri : List ℕ) (name : List N)
      → IsUri uri
      → (match_set regex_match to_uri true (convert_special_char uri ∷ []) name ≡ true)
        ↔ (map to_uri name ≡ uri ∷ [])
  unfolding match_set
  set-Matches uri [] u = (λ h. absurd (cc h), λ h. absurd (cc h))
  set-Matches uri (c ∷ []) u =
      (λ h. ap (λ z. z ∷ []) ((one_component uri c u).0 h), λ h. (one_component uri c u).1 (cc h))
  set-Matches uri (c ∷ d ∷ name) u = (λ h. absurd (cc h), λ h. absurd (cc h))

  once :
      {P : List N → Type 0} {name : List N} → (n : ℕ) × Times P n name × (1 ≤ n) × (n ≤ 1) → P name
  once (zero, t, l, m) = absurd (omega arith)
  once {P} (suc zero, (a, b, p, q, e), l, m) =
      subst P (sym (e ∙ ap (λ z. a ++ z) q ∙ append-nil a)) p
  once (suc (suc n), t, l, m) = absurd (omega arith)

  one_time :
      (P : List N → Type 0) (name : List N)
      → ((n : ℕ) × Times P n name × (1 ≤ n) × (n ≤ 1)) ↔ P name
  one_time P name =
      (once, λ p. (1, (name, [], p, refl, sym (append-nil name)), omega arith, omega arith))

  component-Matches :
      (uri : List ℕ) (name : List N)
      → IsUri uri
      → Matches regex_match to_uri (component_regex uri) name ↔ (map to_uri name ≡ uri ∷ [])
  unfolding Matches
  component-Matches uri name u =
      let o =
        one_time (Matches regex_match to_uri (set true (convert_special_char uri ∷ []))) name in
      let s = set-Matches uri name u in
      let m = match_set-InSet regex_match to_uri true (convert_special_char uri ∷ []) name in
      (λ h. s.0 (m.1 (o.0 h)), λ h. o.1 (m.0 (s.1 h)))

  split_name :
      (uri : List ℕ) (uris : List (List ℕ)) (name : List N)
      → IsUri uri
      → map to_uri name ≡ uri ∷ uris
      → ((b : List N) → map to_uri b ≡ uris → MatchesAll regex_match to_uri (chain uris) b)
      → MatchesAll regex_match to_uri (chain (uri ∷ uris)) name
  unfolding MatchesAll chain
  split_name uri uris [] u h rest = absurd (cc h)
  split_name uri uris (c ∷ name) u h rest = (
    c ∷ [],
    name,
    (component-Matches uri (c ∷ []) u).1 (ap (λ z. take 1 z) h),
    rest name (ap (λ z. drop 1 z) h),
    refl,
  )

  chain-AreProductive :
      (uris : List (List ℕ)) → AreUris uris → AreProductive regex_match to_uri (chain uris)
  unfolding IsProductive AreProductive Matches match_set chain
  chain-AreProductive [] u = tt
  chain-AreProductive (uri ∷ uris) u =
      ((λ z. absurd (cc z.1), omega arith, tt), chain-AreProductive uris u.1)

  chain-Matches :
      (uris : List (List ℕ)) (name : List N)
      → AreUris uris
      → MatchesAll regex_match to_uri (chain uris) name ↔ (map to_uri name ≡ uris)
  unfolding MatchesAll chain
  chain-Matches [] [] u = (λ h. refl, λ h. refl)
  chain-Matches [] (c ∷ name) u = (λ h. absurd (cc h), λ h. absurd (cc h))
  chain-Matches (uri ∷ uris) name u = (
    λ (a, b, p, q, e).
        ap (map to_uri) e
        ∙ map-append to_uri a b
        ∙ ap₂ (◌++◌) ((component-Matches uri a u.0).0 p) ((chain-Matches uris b u.1).0 q),
    λ h. split_name uri uris name u.0 h (λ b. (chain-Matches uris b u.1).1),
  )

  no_secondary :
      (fuel : ℕ) (rs : Regexes) (name : List N) (b : Bool)
      → recursive_match regex_match to_uri fuel rs name ≡ some b
      → match_top regex_match to_uri fuel (record { primary = rs; secondary = none }) name ≡ some b
  unfolding match_top
  no_secondary fuel rs name true h = rw (h, match_top)
  no_secondary fuel rs name false h = rw (h, match_top)

  -- Where std::regex accepts every text of single characters and escaped syntax characters of
  -- ECMAScript and matches it against those characters alone, and for components whose URIs are
  -- not empty and have only the bytes that toUri writes, fromName(name, true) compiles, and match
  -- of the result, with as much fuel as the name to be matched has components and one more,
  -- answers true exactly where that name has the same URIs.
  pub from_name-match_top :
      (accepts : List ℕ → Bool)
      → ((text chars : List ℕ) → Literal text chars → accepts text ≡ true)
      → (fuel : ℕ) (uris : List (List ℕ)) (name : List N) → AreUris uris
      → length name < fuel
      → (top : Top) × (from_name accepts uris true ≡ ok top)
        × (b : Bool) × (match_top regex_match to_uri fuel top name ≡ some b)
        × ((b ≡ true) ↔ (map to_uri name ≡ uris))
  unfolding match IsProductive AreProductive Matches MatchesAll
  from_name-match_top accepts accepts_literal fuel uris name u h =
      let (b, runs, right) =
        match-Matches regex_match to_uri fuel (sequence (chain uris)) name
          (chain-AreProductive uris u) h in
      let meaning = chain-Matches uris name u in
      (
        record { primary = chain uris; secondary = none },
        from_name-chain accepts accepts_literal uris u,
        b,
        no_secondary fuel (chain uris) name b runs,
        (λ t. meaning.0 (right.0 t), λ e. right.1 (meaning.1 e)),
      )
