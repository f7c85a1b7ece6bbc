-- ===== src/Regex/Sets.antt =====
-- RegexComponentSetMatcher of ndn-cxx/util/regex: the components that a set stands for.
use ndn_cxx_gm.Base.{
  ℕ, ◌≡◌, ◌↔◌, ◌⊎◌, inl, inr, ◌∙◌, refl, sym, subst, List, [], ◌∷◌, Bool, true, false, Bool-cases,
}
use ndn_cxx_gm.Regex.{match_component, any_component, match_set}

-- An expression of a set.
abbrev pub IsOneOf : List ℕ → List (List ℕ) → Type 0
IsOneOf e [] = ⊥
IsOneOf e (x ∷ components) = (e ≡ x) ⊎ IsOneOf e components

module _ {N : Type 0} (regex_match : List ℕ → List ℕ → Bool) (to_uri : N → List ℕ) where
  -- `<>` stands for every component, another expression for those whose URI std::regex matches.
  abbrev pub Fits : List ℕ → N → Type 0
  Fits e c = (e ≡ []) ⊎ (regex_match e (to_uri c) ≡ true)

  abbrev pub FitsOne : List (List ℕ) → N → Type 0
  FitsOne components c = (e : List ℕ) × IsOneOf e components × Fits e c

  -- One component that an expression of the set stands for, or, after `^`, that none does.
  abbrev pub InSet : Bool → List (List ℕ) → List N → Type 0
  InSet true components name = (c : N) × (name ≡ c ∷ []) × FitsOne components c
  InSet false components name = (c : N) × (name ≡ c ∷ []) × ¬ FitsOne components c

  match_component-Fits :
      (e : List ℕ) (c : N) → (match_component regex_match to_uri e c ≡ true) ↔ Fits e c
  unfolding match_component
  match_component-Fits [] c = (λ h. inl refl, λ h. refl)
  match_component-Fits (x ∷ e) c = (λ h. inr h, λ h. elim h [ inl p ↦ absurd (cc p) | inr q ↦ q ])

  any_component-FitsOne :
      (components : List (List ℕ)) (c : N)
      → (any_component regex_match to_uri components c ≡ true) ↔ FitsOne components c
  unfolding any_component
  any_component-FitsOne [] c = (λ h. absurd (cc h), λ z. absurd z.1)
  any_component-FitsOne (x ∷ components) c =
      let (fits, matched) = match_component-Fits x c in
      let (found, run) = any_component-FitsOne components c in
      elim (Bool-cases (match_component regex_match to_uri x c)) [
        | inl yes_here ↦ rw (yes_here, any_component) (λ h. (x, inl refl, fits yes_here), λ z. refl)
        | inr not_here ↦
            rw (not_here, any_component)
              (
                λ h. let (e, i, f) = found h in (e, inr i, f),
                λ (e, i, f). elim i [
                  | inl p ↦ absurd (cc (sym not_here ∙ matched (subst (λ y. Fits y c) p f)))
                  | inr later ↦ run (e, later, f)
                ],
              )
      ]

  cons_head : {c d : N} → (c ∷ []) ≡ (d ∷ []) → c ≡ d
  cons_head p = cc p

  one_component :
      (is_inclusion : Bool) (components : List (List ℕ)) (c : N)
      → InSet is_inclusion components (c ∷ [])
        ↔ (match_set regex_match to_uri is_inclusion components (c ∷ []) ≡ true)
  unfolding match_set
  one_component true components c =
      let (found, run) = any_component-FitsOne components c in
      (λ (d, p, f). run (subst (FitsOne components) (sym (cons_head p)) f), λ h. (c, refl, found h))
  one_component false components c =
      let (found, run) = any_component-FitsOne components c in
      elim (Bool-cases (any_component regex_match to_uri components c)) [
        | inl some_fit ↦ rw some_fit (
          λ (d, p, f). absurd (f (subst (FitsOne components) (cons_head p) (found some_fit))),
          λ h. absurd (cc h),
        )
        | inr none_fits ↦ rw none_fits (λ z. refl, λ h. (c, refl, λ f. cc (sym none_fits ∙ run f)))
      ]

  -- The set's matcher answers true exactly on the names in the set.
  pub match_set-InSet :
      (is_inclusion : Bool) (components : List (List ℕ)) (name : List N)
      → (match_set regex_match to_uri is_inclusion components name ≡ true)
        ↔ InSet is_inclusion components name
  unfolding match_set
  match_set-InSet true components [] = (λ h. absurd (cc h), λ z. absurd (cc z.1))
  match_set-InSet false components [] = (λ h. absurd (cc h), λ z. absurd (cc z.1))
  match_set-InSet b components (c ∷ []) =
      let (to, from) = one_component b components c in (from, to)
  match_set-InSet true components (c ∷ d ∷ name) = (λ h. absurd (cc h), λ z. absurd (cc z.1))
  match_set-InSet false components (c ∷ d ∷ name) = (λ h. absurd (cc h), λ z. absurd (cc z.1))
