-- ===== src/Name/Lex.antt =====
-- The lexicographic order on lists, and prefixes in it.
use ndn_cxx_gm.Base.{
  ℕ, ◌≡◌, ◌⊎◌, inl, inr, ◌∙◌, refl, sym, ap, ap₂, List, [], ◌∷◌, Bool, true, false, ◌&&◌, Ordering,
  arith, subst,
}
use ndn_cxx_gm.Base
use ndn_cxx_gm.Base.Memory.{then_by, flip, is_eq}

-- A three-way comparison that decides a total order.
pub record IsOrder {A : Type 0} (cmp : A → A → Ordering) : Type 0 where
  pub same : (a : A) → cmp a a ≡ Ordering.eq
  pub only : (a b : A) → cmp a b ≡ Ordering.eq → a ≡ b
  pub flips : (a b : A) → cmp b a ≡ flip (cmp a b)
  pub trans : (a b c : A) → cmp a b ≡ Ordering.lt → cmp b c ≡ Ordering.lt → cmp a c ≡ Ordering.lt

pub compare-IsOrder : IsOrder Base.compare
compare-IsOrder = record {
  same = λ a. ground arith;
  only = λ a b h. ground (arith, h);
  flips = λ a b. ground arith;
  trans = λ a b c h k. ground (arith, h, k);
}

pub Ordering-cases : (o : Ordering) → (o ≡ Ordering.lt) ⊎ (o ≡ Ordering.eq) ⊎ (o ≡ Ordering.gt)
Ordering-cases Ordering.lt = inl refl
Ordering-cases Ordering.eq = inr (inl refl)
Ordering-cases Ordering.gt = inr (inr refl)

flip-then_by : (p q : Ordering) → then_by (flip p) (flip q) ≡ flip (then_by p q)
flip-then_by Ordering.lt q = refl
flip-then_by Ordering.eq q = refl
flip-then_by Ordering.gt q = refl

module _ {A : Type 0} (cmp : A → A → Ordering) where
  unfoldable pub lex : List A → List A → Ordering
  lex [] [] = Ordering.eq
  lex [] (y ∷ b) = Ordering.lt
  lex (x ∷ a) [] = Ordering.gt
  lex (x ∷ a) (y ∷ b) = then_by (cmp x y) (lex a b)

  unfoldable pub prefix : List A → List A → Bool
  prefix [] b = true
  prefix (x ∷ a) [] = false
  prefix (x ∷ a) (y ∷ b) = is_eq (cmp x y) && prefix a b

  module _ (order : IsOrder cmp) where
    lex_same : (a : List A) → lex a a ≡ Ordering.eq
    unfolding lex
    lex_same [] = refl
    lex_same (x ∷ a) = rw (order.same x) (lex_same a)

    lex_only : (a b : List A) → lex a b ≡ Ordering.eq → a ≡ b
    unfolding lex
    lex_only [] [] h = refl
    lex_only [] (y ∷ b) h = cc
    lex_only (x ∷ a) [] h = cc
    lex_only (x ∷ a) (y ∷ b) h = elim (Ordering-cases (cmp x y)) [
      | inl l ↦ absurd (cc (rw (l, lex) at h))
      | inr (inl e) ↦ ap₂ (◌∷◌) (order.only x y e) (lex_only a b (rw (e, lex) at h))
      | inr (inr g) ↦ absurd (cc (rw (g, lex) at h))
    ]

    lex_flips : (a b : List A) → lex b a ≡ flip (lex a b)
    unfolding lex
    lex_flips [] [] = refl
    lex_flips [] (y ∷ b) = refl
    lex_flips (x ∷ a) [] = refl
    lex_flips (x ∷ a) (y ∷ b) =
        ap₂ then_by (order.flips x y) (lex_flips a b) ∙ flip-then_by (cmp x y) (lex a b)

    lex_trans :
        (a b c : List A) → lex a b ≡ Ordering.lt → lex b c ≡ Ordering.lt → lex a c ≡ Ordering.lt
    unfolding lex
    lex_trans [] [] c h k = cc
    lex_trans [] (y ∷ b) [] h k = cc
    lex_trans [] (y ∷ b) (z ∷ c) h k = refl
    lex_trans (x ∷ a) [] c h k = cc
    lex_trans (x ∷ a) (y ∷ b) [] h k = cc
    lex_trans (x ∷ a) (y ∷ b) (z ∷ c) h k = elim (Ordering-cases (cmp x y)) [
      | inr (inr g) ↦ absurd (cc (rw (g, lex) at h))
      | inr (inl e) ↦ elim (Ordering-cases (cmp y z)) [
        | inr (inr g) ↦ absurd (cc (rw (g, lex) at k))
        | inr (inl f) ↦
            let on : cmp x z ≡ Ordering.eq = ap (λ w. cmp w z) (order.only x y e) ∙ f in
            rw on (lex_trans a b c (rw (e, lex) at h) (rw (f, lex) at k))
        | inl m ↦ rw (ap (λ w. cmp w z) (order.only x y e) ∙ m) refl
      ]
      | inl l ↦ elim (Ordering-cases (cmp y z)) [
        | inr (inr g) ↦ absurd (cc (rw (g, lex) at k))
        | inr (inl f) ↦ rw (ap (cmp x) (sym (order.only y z f)) ∙ l) refl
        | inl m ↦ rw (order.trans x y z l m) refl
      ]
    ]

    -- The lexicographic order of an order is one.
    pub lex-IsOrder : IsOrder lex
    lex-IsOrder = record { same = lex_same; only = lex_only; flips = lex_flips; trans = lex_trans }

    -- What begins with a list is not below it.
    pub prefix_above : (p a : List A) → prefix p a ≡ true → lex a p ≡ Ordering.lt → ⊥
    unfolding lex prefix
    prefix_above [] [] h k = cc
    prefix_above [] (x ∷ a) h k = cc
    prefix_above (x ∷ p) [] h k = cc
    prefix_above (x ∷ p) (y ∷ a) h k = elim (Ordering-cases (cmp x y)) [
      | inl l ↦ cc (rw (l, prefix) at h)
      | inr (inr g) ↦ cc (rw (g, prefix) at h)
      | inr (inl e) ↦
          let back : cmp y x ≡ Ordering.eq = order.flips x y ∙ ap flip e in
          prefix_above p a (rw (e, prefix) at h) (rw (back, lex) at k)
    ]

    -- What lies between a list and one that begins with it begins with it.
    pub prefix_between :
        (p a b : List A)
        → prefix p b ≡ true
        → (lex a p ≡ Ordering.lt → ⊥)
        → (lex b a ≡ Ordering.lt → ⊥)
        → prefix p a ≡ true
    unfolding lex prefix
    prefix_between [] a b h k l = refl
    prefix_between (x ∷ p) a [] h k l = cc
    prefix_between (x ∷ p) [] (z ∷ b) h k l = absurd (k refl)
    prefix_between (x ∷ p) (y ∷ a) (z ∷ b) h k l = elim (Ordering-cases (cmp x z)) [
      | inl m ↦ cc (rw (m, prefix) at h)
      | inr (inr g) ↦ cc (rw (g, prefix) at h)
      | inr (inl e) ↦
          let rest : prefix p b ≡ true = rw (e, prefix) at h in
          let zx : cmp z y ≡ cmp x y = ap (λ w. cmp w y) (sym (order.only x z e)) in
          elim (Ordering-cases (cmp x y)) [
            | inl m ↦ absurd (l (rw (zx ∙ m) refl))
            | inr (inr g) ↦ absurd (k (rw (order.flips x y ∙ ap flip g) refl))
            | inr (inl f) ↦ rw f (
                prefix_between p a b rest (λ q. k (rw (order.flips x y ∙ ap flip f) q))
                  (λ q. l (rw (zx ∙ f) q)))
          ]
    ]
