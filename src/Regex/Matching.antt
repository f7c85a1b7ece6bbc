-- ===== src/Regex/Matching.antt =====
-- match of ndn-cxx/util/regex decides the language of its regular expression, wherever what is
-- repeated does not match the empty name.
use ndn_cxx_gm.Base.{
  ℕ, zero, suc, ◌+◌, ◌≤◌, ◌<◌, ◌≡◌, inl, inr, leb→le, refl, List, [], ◌∷◌, Bool, false, Option,
  some, leb, length, arith, Bool-cases,
}
use ndn_cxx_gm.Regex.{repeat_match}
use ndn_cxx_gm.Regex.Language.{Answers, Parts, Times, Answers-iff, try_lengths-Answers}

module _ {N : Type 0} where
  -- The rounds that are left after `count` of them.
  abbrev pub Rounds : (List N → Type 0) → ℕ → ℕ → ℕ → List N → Type 0
  Rounds P least most count name =
      (n : ℕ) × Times P n name × (least ≤ count + n) × (count + n ≤ most)

  module _ (P : List N → Type 0) (inner : List N → Option Bool) (least most : ℕ)
      (productive : ¬ P []) where
    no-Times_empty : (n : ℕ) → Times P n [] → n ≡ 0
    no-Times_empty zero t = refl
    no-Times_empty (suc n) ([], b, p, q, e) = absurd (productive p)
    no-Times_empty (suc n) (x ∷ a, b, p, q, e) = absurd (cc e)

    -- From the count after a round to the count before it.
    one_more :
        (count : ℕ) (name : List N)
        → Parts P (Rounds P least most (count + 1)) name
        → Rounds P least most count name
    one_more count name (a, b, p, (n, t, l, m), e) =
        (suc n, (a, b, p, t, e), omega arith, omega arith)

    one_fewer :
        (count : ℕ) (c : N) (name : List N)
        → Rounds P least most count (c ∷ name)
        → Parts P (Rounds P least most (count + 1)) (c ∷ name)
    one_fewer count c name (zero, t, l, m) = absurd (cc t)
    one_fewer count c name (suc n, (a, b, p, t, e), l, m) =
        (a, b, p, (n, t, omega arith, omega arith), e)

    none_left :
        (count : ℕ) (c : N) (name : List N) → most ≤ count → ¬ Rounds P least most count (c ∷ name)
    none_left count c name h (zero, t, l, m) = cc t
    none_left count c name h (suc n, t, l, m) = omega arith

    too_few : (count : ℕ) → leb least count ≡ false → ¬ Rounds P least most count []
    too_few count few (n, t, l, m) = ground (arith, no-Times_empty n t)

    empty_left :
        (count : ℕ) → count ≤ most → Answers (Rounds P least most count []) (some (leb least count))
    empty_left count fits = elim (Bool-cases (leb least count)) [
      | inl enough ↦ rw enough (0, refl, omega (arith, leb→le least count enough), omega arith)
      | inr few ↦ rw few (too_few count few)
    ]

    pub repeat_match-Answers :
        (fuel count : ℕ) (name : List N)
        → length name < fuel
        → count ≤ most
        → ((a : List N) → length a ≤ length name → Answers (P a) (inner a))
        → Answers (Rounds P least most count name) (repeat_match fuel inner least most count name)
    unfolding repeat_match
    repeat_match-Answers zero count name h fits f = absurd (omega arith)
    repeat_match-Answers (suc fuel) count [] h fits f = empty_left count fits
    repeat_match-Answers (suc fuel) count (c ∷ name) h fits f = elim (Bool-cases (leb most count)) [
      | inl full ↦ rw (full, repeat_match) (none_left count c name (leb→le most count full))
      | inr more ↦
          rw (more, repeat_match)
            (Answers-iff (Parts P (Rounds P least most (count + 1)) (c ∷ name))
              (Rounds P least most count (c ∷ name)) _ (one_more count (c ∷ name))
              (one_fewer count c name)
              (try_lengths-Answers P (Rounds P least most (count + 1)) inner
                (repeat_match fuel inner least most (count + 1)) (c ∷ name) f
                (λ b hb.
                  repeat_match-Answers fuel (count + 1) b (omega arith) (ground arith)
                    (λ a ha. f a (omega arith)))
                (λ p. absurd (productive p))))
    ]
