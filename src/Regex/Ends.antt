-- ===== src/Regex/Ends.antt =====
-- compile and expand of ndn-cxx/util/regex end on every text: each part that is read makes what is
-- left shorter.
use ndn_cxx_gm.Base.{
  ℕ, zero, suc, ◌+◌, ◌≤◌, ◌<◌, ◌≡◌, inl, inr, Option-cases, refl, List, [], ◌∷◌, Bool, ◌++◌, ◌||◌,
  ◌==◌, if◌then◌else◌, length, ok, err, ◌>>=◌, arith, Bool-cases,
}
use ndn_cxx_gm.Regex.{Regex, cons}
use ndn_cxx_gm.Regex.Parsing.{
  Result, after, extract_sub_pattern, extract_braces, extract_repetition, out_of_fuel, parse_bounds,
  parse_repetition, stoul, split_comma, without_last,
}
use ndn_cxx_gm.Regex.Compiling.{
  any_components, extract_component, compile_components, compile_set, compile_single_component,
  assign, repeated, compile_list, compile_start, compile_top, compile_text,
}

-- What was read and what is left are fewer than `n` bytes, and no round of a loop was missing.
abbrev Leaves : ℕ → Result (List ℕ × List ℕ) → Type 0
Leaves n (ok (text, rest)) = length text + length rest < n
Leaves n (err e) = ¬ (e ≡ out_of_fuel)

after-Leaves : (c n : ℕ) (r : Result (List ℕ × List ℕ)) → Leaves n r → Leaves (suc n) (after c r)
after-Leaves c n (ok (text, rest)) h = omega arith
after-Leaves c n (err e) h = h

extract_sub_pattern-Leaves :
    (left right depth : ℕ) (text : List ℕ)
    → Leaves (suc (length text)) (extract_sub_pattern left right depth text)
unfolding extract_sub_pattern
extract_sub_pattern-Leaves left right depth [] = λ e. cc
extract_sub_pattern-Leaves left right zero (c ∷ text) = elim (Bool-cases (c == left)) [
  | inl e ↦
      rw (e, extract_sub_pattern)
        (after-Leaves c (suc (length text)) _ (extract_sub_pattern-Leaves left right 1 text))
  | inr n ↦ elim (Bool-cases (c == right)) [
    | inl e ↦ rw (n, e, extract_sub_pattern) (omega arith)
    | inr m ↦
        rw (n, m, extract_sub_pattern)
          (after-Leaves c (suc (length text)) _ (extract_sub_pattern-Leaves left right 0 text))
  ]
]
extract_sub_pattern-Leaves left right (suc depth) (c ∷ text) =
    after-Leaves c (suc (length text)) _ (extract_sub_pattern-Leaves left right _ text)

extract_braces-Leaves : (text : List ℕ) → Leaves (suc (length text)) (extract_braces text)
unfolding extract_braces
extract_braces-Leaves [] = λ e. cc
extract_braces-Leaves (c ∷ text) = elim (Bool-cases (c == b'}')) [
  | inl e ↦ rw (e, extract_braces) (omega arith)
  | inr n ↦
      rw (n, extract_braces) (after-Leaves c (suc (length text)) _ (extract_braces-Leaves text))
]

extract_repetition-Leaves : (text : List ℕ) → Leaves (suc (length text)) (extract_repetition text)
unfolding extract_repetition
extract_repetition-Leaves [] = omega arith
extract_repetition-Leaves (c ∷ text) = elim (Bool-cases (c == b'+' || c == b'?' || c == b'*')) [
  | inl e ↦ rw (e, extract_repetition) (omega arith)
  | inr n ↦ elim (Bool-cases (c == b'{')) [
    | inl e ↦
        rw (n, e, extract_repetition)
          (after-Leaves c (suc (length text)) _ (extract_braces-Leaves text))
    | inr m ↦ rw (n, m, extract_repetition) (omega arith)
  ]
]

extract_component-Leaves :
    (depth : ℕ) (text : List ℕ) → Leaves (suc (length text)) (extract_component depth text)
unfolding extract_component
extract_component-Leaves depth [] = λ e. cc
extract_component-Leaves zero (c ∷ text) = elim (Bool-cases (c == 0)) [
  | inl e ↦ rw (e, extract_component) (λ h. cc)
  | inr n ↦ elim (Bool-cases (c == b'<')) [
    | inl e ↦
        rw (n, e, extract_component)
          (after-Leaves c (suc (length text)) _ (extract_component-Leaves 1 text))
    | inr m ↦ elim (Bool-cases (c == b'>')) [
      | inl e ↦ rw (n, m, e, extract_component) (omega arith)
      | inr l ↦
          rw (n, m, l, extract_component)
            (after-Leaves c (suc (length text)) _ (extract_component-Leaves 0 text))
    ]
  ]
]
extract_component-Leaves (suc depth) (c ∷ text) = elim (Bool-cases (c == 0)) [
  | inl e ↦ rw (e, extract_component) (λ h. cc)
  | inr n ↦
      rw (n, extract_component)
        (after-Leaves c (suc (length text)) _ (extract_component-Leaves _ text))
]

-- A chain whose first step is not short of fuel, and what follows where it returned.
bind-ne-err :
    {A B : Type 0} (m : Result A) (f : A → Result B)
    → ¬ (m ≡ err out_of_fuel)
    → ((a : A) → m ≡ ok a → ¬ (f a ≡ err out_of_fuel))
    → ¬ ((m >>= f) ≡ err out_of_fuel)
bind-ne-err (ok a) f h k = k a refl
bind-ne-err (err e) f h k = λ p. h (cc p)

-- What was read, and that fuel for the whole text is enough for what is left.
read-ne-err :
    {B : Type 0} (n : ℕ) (m : Result (List ℕ × List ℕ)) (f : List ℕ × List ℕ → Result B)
    → Leaves n m
    → ((text rest : List ℕ)
        → m ≡ ok (text, rest)
        → length text + length rest < n
        → ¬ (f (text, rest) ≡ err out_of_fuel))
    → ¬ ((m >>= f) ≡ err out_of_fuel)
read-ne-err n (ok (text, rest)) f h k = k text rest refl h
read-ne-err n (err e) f h k = λ p. h (cc p)

stoul-ne-err : (text : List ℕ) → ¬ (stoul text ≡ err out_of_fuel)
unfolding stoul
stoul-ne-err text = ground arith

parse_bounds-ne-err : (text : List ℕ) → ¬ (parse_bounds text ≡ err out_of_fuel)
unfolding parse_bounds
parse_bounds-ne-err text = elim (Option-cases (split_comma text)) [
  | inl e ↦ ground (arith, stoul-ne-err text)
  | inr ((a, b), e) ↦ ground (arith, stoul-ne-err a, stoul-ne-err b)
]

parse_repetition-ne-err : (text : List ℕ) → ¬ (parse_repetition text ≡ err out_of_fuel)
unfolding parse_repetition
parse_repetition-ne-err [] = ground arith
parse_repetition-ne-err (c ∷ []) = ground arith
parse_repetition-ne-err (c ∷ d ∷ text) =
    ground (arith, parse_bounds-ne-err (without_last (d ∷ text)))

repeated-ne-err : (r : Regex) (quantifier : List ℕ) → ¬ (repeated r quantifier ≡ err out_of_fuel)
unfolding repeated
repeated-ne-err r quantifier = ground (arith, parse_repetition-ne-err quantifier)

group-ne-err :
    (r : Regex) (quantifier : List ℕ)
    → ¬ ((if length quantifier == 0 then ok r else repeated r quantifier) ≡ err out_of_fuel)
group-ne-err r quantifier = ground (arith, repeated-ne-err r quantifier)

module _ (accepts : List ℕ → Bool) where
  assign-ne-err : (text : List ℕ) → ¬ (assign accepts text ≡ err out_of_fuel)
  unfolding assign
  assign-ne-err text = ground arith

  compile_components-ne-err :
      (fuel : ℕ) (text : List ℕ)
      → length text ≤ fuel
      → ¬ (compile_components accepts fuel text ≡ err out_of_fuel)
  unfolding compile_components
  compile_components-ne-err fuel [] h = ground arith
  compile_components-ne-err zero (c ∷ text) h = absurd (omega arith)
  compile_components-ne-err (suc fuel) (c ∷ text) h = elim (Bool-cases (c == b'<')) [
    | inr n ↦ rw (n, compile_components) (λ p. cc)
    | inl e ↦
        rw (e, compile_components)
          (read-ne-err (suc (length text)) (extract_component 0 text) _
            (extract_component-Leaves 0 text)
            (λ component rest got shorter.
              bind-ne-err (assign accepts component) _ (assign-ne-err component) (λ assigned a.
                bind-ne-err (compile_components accepts fuel rest) _
                  (compile_components-ne-err fuel rest (omega arith)) (λ others got'. λ p. cc))))
  ]

  compile_set-ne-err : (text : List ℕ) → ¬ (compile_set accepts text ≡ err out_of_fuel)
  unfolding compile_set
  compile_set-ne-err [] = ground arith
  compile_set-ne-err (c ∷ text) = ground (
    arith,
    compile_components-ne-err (length text) text,
    compile_components-ne-err (length (c ∷ text)) (c ∷ text),
  )

  compile_single_component-ne-err :
      (text : List ℕ) → ¬ (compile_single_component accepts text ≡ err out_of_fuel)
  unfolding compile_single_component
  compile_single_component-ne-err text =
      read-ne-err (suc (length text)) (extract_component 0 text) _ (extract_component-Leaves 0 text)
        (λ component rest got shorter. ground (arith, assign-ne-err component))

  -- One matcher of a text: fuel that is enough for every shorter text is enough for what follows.
  module _ (fuel : ℕ)
      (shorter-ne-err : (text : List ℕ)
        → length text ≤ fuel
        → ¬ (compile_list accepts fuel text ≡ err out_of_fuel)) where
    others-ne-err :
        (made : Result Regex) (rest : List ℕ)
        → length rest ≤ fuel
        → ¬ (made ≡ err out_of_fuel)
        → ¬ (
            (made >>= λ r. compile_list accepts fuel rest >>= λ others. ok (cons r others))
            ≡ err out_of_fuel)
    others-ne-err made rest h n = bind-ne-err made _ n (λ r got.
        bind-ne-err (compile_list accepts fuel rest) _ (shorter-ne-err rest h)
          (λ others got'. λ p. cc))

    compile_round-ne-err :
        (c : ℕ) (text : List ℕ)
        → length text ≤ fuel
        → ¬ (compile_list accepts (suc fuel) (c ∷ text) ≡ err out_of_fuel)
    unfolding compile_list
    compile_round-ne-err c text h = elim (Bool-cases (c == b'(')) [
      | inl e ↦
          rw (e, compile_list)
            (read-ne-err (suc (length text)) (extract_sub_pattern b'(' b')' 0 text) _
              (extract_sub_pattern-Leaves b'(' b')' 0 text)
              (λ inside rest got shorter.
                read-ne-err (suc (length rest)) (extract_repetition rest) _
                  (extract_repetition-Leaves rest)
                  (λ quantifier rest' got' shorter'.
                    bind-ne-err (compile_list accepts fuel inside) _
                      (shorter-ne-err inside (omega arith))
                      (λ group g.
                        others-ne-err _ rest' (omega arith) (group-ne-err _ quantifier)))))
      | inr n ↦ elim (Bool-cases (c == b'<')) [
        | inl e ↦
            rw (n, e, compile_list)
              (read-ne-err (suc (length text)) (extract_sub_pattern b'<' b'>' 0 text) _
                (extract_sub_pattern-Leaves b'<' b'>' 0 text)
                (λ inside rest got shorter.
                  read-ne-err (suc (length rest)) (extract_repetition rest) _
                    (extract_repetition-Leaves rest)
                    (λ quantifier rest' got' shorter'.
                      bind-ne-err (compile_single_component accepts (inside ++ b'>' ∷ [])) _
                        (compile_single_component-ne-err (inside ++ b'>' ∷ []))
                        (λ component g.
                          others-ne-err (repeated component quantifier) rest' (omega arith)
                            (repeated-ne-err component quantifier)))))
        | inr m ↦ elim (Bool-cases (c == b'[')) [
          | inl e ↦
              rw (n, m, e, compile_list)
                (read-ne-err (suc (length text)) (extract_sub_pattern b'[' b']' 0 text) _
                  (extract_sub_pattern-Leaves b'[' b']' 0 text)
                  (λ inside rest got shorter.
                    read-ne-err (suc (length rest)) (extract_repetition rest) _
                      (extract_repetition-Leaves rest)
                      (λ quantifier rest' got' shorter'.
                        bind-ne-err (compile_set accepts inside) _ (compile_set-ne-err inside)
                          (λ components g.
                            others-ne-err (repeated components quantifier) rest' (omega arith)
                              (repeated-ne-err components quantifier)))))
          | inr l ↦ rw (n, m, l, compile_list) (λ p. cc)
        ]
      ]
    ]

  compile_list-ne-err :
      (fuel : ℕ) (text : List ℕ)
      → length text ≤ fuel
      → ¬ (compile_list accepts fuel text ≡ err out_of_fuel)
  unfolding compile_list
  compile_list-ne-err zero [] h = λ p. cc
  compile_list-ne-err (suc fuel) [] h = λ p. cc
  compile_list-ne-err zero (c ∷ text) h = absurd (omega arith)
  compile_list-ne-err (suc fuel) (c ∷ text) h =
      compile_round-ne-err fuel (compile_list-ne-err fuel) c text (omega arith)

  compile_start-ne-err : (text : List ℕ) → ¬ (compile_start accepts text ≡ err out_of_fuel)
  unfolding compile_start compile_text
  compile_start-ne-err [] =
      ground (
        arith,
        compile_list-ne-err (length any_components) any_components,
        compile_list-ne-err 0 [],
      )
  compile_start-ne-err (c ∷ text) = ground (
    arith,
    compile_list-ne-err (length text) text,
    compile_list-ne-err (length (any_components ++ c ∷ text)) (any_components ++ c ∷ text),
    compile_list-ne-err (length (c ∷ text)) (c ∷ text),
  )

  -- compile() ends on every text: its loops and the constructors that call each other on parts of
  -- the text never need more rounds than the text has bytes.
  pub compile_top-ne-err : (text : List ℕ) → ¬ (compile_top accepts text ≡ err out_of_fuel)
  unfolding compile_top
  compile_top-ne-err [] = λ p. cc
  compile_top-ne-err (c ∷ text) = ground (
    arith,
    compile_start-ne-err (without_last (c ∷ text)),
    compile_start-ne-err ((c ∷ text) ++ any_components),
  )
