-- ===== src/Regex/Decision.antt =====
-- The language of each class of ndn-cxx/util/regex, and match as its decision procedure.
use ndn_cxx_gm.Base.{
  ℕ, ◌≤◌, ◌<◌, ◌≡◌, ◌↔◌, inl, inr, ◌∙◌, refl, sym, List, [], ◌∷◌, Bool, true, false, ◌&&◌, Option,
  none, some, ◌==◌, length, arith, Bool-cases,
}
use ndn_cxx_gm.Regex.{
  Regex, Regexes, set, repeat, sequence, nil, cons, match_set, match, recursive_match,
}
use ndn_cxx_gm.Regex.Sets.{InSet, match_set-InSet}
use ndn_cxx_gm.Regex.Matching.{Rounds, repeat_match-Answers}
use ndn_cxx_gm.Regex.Language.{Parts, Times, Answers, Answers-iff, try_lengths-Answers}

module _ {N : Type 0} (regex_match : List ℕ → List ℕ → Bool) (to_uri : N → List ℕ) where
  -- The names that a regular expression stands for.
  unfoldable mutual
    pub Matches : Regex → List N → Type 0
    Matches (set is_inclusion components) name =
        InSet regex_match to_uri is_inclusion components name
    Matches (repeat r least most) name =
        (n : ℕ) × Times (Matches r) n name × (least ≤ n) × (n ≤ most)
    Matches (sequence rs) name = MatchesAll rs name

    pub MatchesAll : Regexes → List N → Type 0
    MatchesAll nil name = name ≡ []
    MatchesAll (cons r rs) name = Parts (Matches r) (MatchesAll rs) name

  -- Nothing that matches the empty name is repeated, and the bounds are in order.
  unfoldable mutual
    pub IsProductive : Regex → Type 0
    IsProductive (set is_inclusion components) = Unit {0}
    IsProductive (repeat r least most) = (¬ Matches r []) × (least ≤ most) × IsProductive r
    IsProductive (sequence rs) = AreProductive rs

    pub AreProductive : Regexes → Type 0
    AreProductive nil = Unit {0}
    AreProductive (cons r rs) = IsProductive r × AreProductive rs

  ok_set :
      (is_inclusion : Bool) (components : List (List ℕ)) (name : List N) (b : Bool)
      → match_set regex_match to_uri is_inclusion components name ≡ b
      → Answers (InSet regex_match to_uri is_inclusion components name) (some b)
  ok_set is_inclusion components name true e =
      (match_set-InSet regex_match to_uri is_inclusion components name).0 e
  ok_set is_inclusion components name false e =
      λ h. cc (sym e ∙ (match_set-InSet regex_match to_uri is_inclusion components name).1 h)

  is_empty : (name : List N) → (length name == 0) ≡ true → name ≡ []
  is_empty [] h = refl
  is_empty (c ∷ name) h = ground arith

  nonempty : (c : N) (name : List N) (b : Bool) → b ≡ false → Answers ((c ∷ name) ≡ []) (some b)
  nonempty c name true h = cc
  nonempty c name false h = λ e. cc

  empty_Answers : (name : List N) → Answers (name ≡ []) (some (length name == 0))
  empty_Answers [] = refl
  empty_Answers (c ∷ name) = nonempty c name (length (c ∷ name) == 0) (ground arith)

  module _ (fuel : ℕ) where
    repeat-Answers :
        (r : Regex) (least most : ℕ) (name : List N)
        → ¬ Matches r []
        → least ≤ most
        → length name < fuel
        → ((a : List N)
            → length a ≤ length name
            → Answers (Matches r a) (match regex_match to_uri fuel r a))
        → Answers
            (Matches (repeat r least most) name)
            (match regex_match to_uri fuel (repeat r least most) name)
    unfolding match Matches
    repeat-Answers r least most name productive bounds h f =
        elim (Bool-cases (least == 0 && length name == 0)) [
          | inl both ↦
              rw (both, match) (0, is_empty name (ground arith), ground arith, ground arith)
          | inr rounds ↦
              rw (rounds, match)
                (Answers-iff (Rounds (Matches r) least most 0 name)
                  (Matches (repeat r least most) name) _
                  (λ z. (z.0, z.1, omega (arith, z.2), omega (arith, z.3)))
                  (λ z. (z.0, z.1, omega (arith, z.2), omega (arith, z.3)))
                  (repeat_match-Answers (Matches r) (match regex_match to_uri fuel r) least most
                    productive fuel 0 name h (omega arith) f))
        ]

    mutual
      unfolding match Matches IsProductive

      match-Answers :
          (r : Regex) (name : List N)
          → IsProductive r
          → length name < fuel
          → Answers (Matches r name) (match regex_match to_uri fuel r name)
      match-Answers (set is_inclusion components) name p h =
          ok_set is_inclusion components name _ refl
      match-Answers (repeat r least most) name p h =
          repeat-Answers r least most name p.0 p.1 h (λ a ha. match-Answers r a p.2 (omega arith))
      match-Answers (sequence rs) name p h = all-Answers rs name p h

      all-Answers :
          (rs : Regexes) (name : List N)
          → AreProductive rs
          → length name < fuel
          → Answers (MatchesAll rs name) (recursive_match regex_match to_uri fuel rs name)
      all-Answers nil name p h = empty_Answers name
      all-Answers (cons r rs) name p h =
          try_lengths-Answers (Matches r) (MatchesAll rs) (match regex_match to_uri fuel r)
            (recursive_match regex_match to_uri fuel rs) name
            (λ a ha. match-Answers r a p.0 (omega arith))
            (λ b hb. all-Answers rs b p.1 (omega arith)) (λ q. all-Answers rs name p.1 h)

  decided :
      (G : Type 0) (o : Option Bool) → Answers G o → (b : Bool) × (o ≡ some b) × ((b ≡ true) ↔ G)
  decided G none h = absurd h
  decided G (some true) h = (true, refl, (λ e. h, λ g. refl))
  decided G (some false) h = (false, refl, (λ e. absurd (cc e), λ g. absurd (h g)))

  -- Where no matcher under a quantifier matches the empty name and the bounds of each quantifier
  -- are in order, match with as much fuel as the name has components and one more returns, and
  -- answers true exactly where the name is in the language of the expression: for a set, one
  -- component that some expression of the set fits, by being empty or by a match of std::regex on
  -- its URI, or that none fits where the set is negated; a number of parts within the bounds that
  -- each match; or one part after the other for each matcher.
  pub match-Matches :
      (fuel : ℕ) (r : Regex) (name : List N)
      → IsProductive r
      → length name < fuel
      → (b : Bool) × (match regex_match to_uri fuel r name ≡ some b) × ((b ≡ true) ↔ Matches r name)
  match-Matches fuel r name p h =
      decided (Matches r name) (match regex_match to_uri fuel r name)
        (match-Answers fuel r name p h)
