-- ===== src/Component/Least.antt =====
-- ndn-cxx/name-component.cpp: the successor of a component is the least component above it.
use ndn_cxx_gm.Base.{
  ℕ, zero, suc, ◌+◌, ◌-◌, ◌*◌, ◌%◌, ◌^◌, ◌≡◌, ◌≢◌, ◌≤◌, ◌<◌, refl, sym, ap, ◌∙◌, List, [], ◌∷◌,
  ◌++◌, true, false, length, length-append, arith, All, Ordering, if◌then◌else◌, replicate,
  Bool-cases, inl, inr, ok, ◌==◌, ◌||◌, ◌&&◌, Bool, ℕ_discrete, dec_le, ltb, ◌⊎◌, subst,
}
use ndn_cxx_gm.Base
use ndn_cxx_gm.Base.Bits.{IsByte}
use ndn_cxx_gm.Base.Memory.{then_by}
use ndn_cxx_gm.Block.{Block}
use ndn_cxx_gm.Block.Parsing.{element}
use ndn_cxx_gm.Component.Canonical.{canonical}
use ndn_cxx_gm.Component.Compare.{Holds}
use ndn_cxx_gm.Component.Successor.{increment, get_successor}
use ndn_cxx_gm.Component.Values.{number, number-lt, memcmp-number, next_value-Follows}
use ndn_cxx_gm.Component.Advance.{
  min_value_two, IsName, successor, digest_end, get_successor-lem, true-false, min_value_three,
}

-- On bytes, the canonical order compares three numbers one after the other.
canonical_numeric :
    (t t' : ℕ) (v v' : List ℕ)
    → All IsByte v
    → All IsByte v'
    → canonical t v t' v'
      ≡ then_by
          (Base.compare t t')
          (then_by (Base.compare (length v) (length v')) (Base.compare (number v) (number v')))
canonical_numeric t t' v v' h h' = elim (ℕ_discrete (length v') (length v)) [
  | yes e ↦ rw (memcmp-number v v' e h h')
  | no e ↦ ap (then_by (Base.compare t t')) (first (length v) (length v') _ _ (λ p. e (sym p)))
]
  where
    first :
        (n n' : ℕ) (o o' : Ordering)
        → n ≢ n'
        → then_by (Base.compare n n') o ≡ then_by (Base.compare n n') o'
    first n n' o o' h = ground arith

-- The number orders behind the two theorems below: `t n m` is a component, `u k l` another.
abbrev numeric : ℕ → ℕ → ℕ → ℕ → ℕ → ℕ → Ordering
numeric t n m t' n' m' =
    then_by (Base.compare t t') (then_by (Base.compare n n') (Base.compare m m'))

-- What the successor's TLV-TYPE, length and number are; `all` is 256 to the power of the length.
abbrev Next : ℕ → ℕ → ℕ → ℕ → ℕ → ℕ → ℕ → Type 0
Next all t n m t' n' m' =
    ((t' ≡ t) × (n' ≡ n) × (m' ≡ m + 1))
    ⊎ ((t' ≡ t) × (n' ≡ n + 1) × (m' ≡ 0) × (m + 1 ≡ all))
    ⊎ ((t ≡ 1) × (t' ≡ 2) × (n' ≡ 32) × (m' ≡ 0) × (m + 1 ≡ all))
    ⊎ ((t ≡ 2) × (t' ≡ 3) × (n' ≡ 0) × (m' ≡ 0) × (m + 1 ≡ all))

Next-greater :
    (all t n m t' n' m' : ℕ) → Next all t n m t' n' m' → numeric t n m t' n' m' ≡ Ordering.lt
Next-greater all t n m t' n' m' h = ground arith

Next-least :
    (all t n m t' n' m' u k l : ℕ)
    → Next all t n m t' n' m'
    → (t ≤ 2 → n ≡ 32)
    → (u ≤ 2 → k ≡ 32)
    → (k ≡ n → l < all)
    → numeric t n m u k l ≡ Ordering.lt
    → numeric t' n' m' u k l ≢ Ordering.gt
Next-least all t n m t' n' m' u k l (inl h) d d' b lt gt = ground arith
Next-least all t n m t' n' m' u k l (inr (inl h)) d d' b lt gt = ground arith
Next-least all t n m t' n' m' u k l (inr (inr (inl h))) d d' b lt gt = ground arith
Next-least all t n m t' n' m' u k l (inr (inr (inr h))) d d' b lt gt = ground arith

record Succeeds (t : ℕ) (v : List ℕ) (t' : ℕ) (v' : List ℕ) : Type 0 where
  bytes : All IsByte v'
  how : Next (256 ^ length v) t (length v) (number v) t' (length v') (number v')

successor-Succeeds :
    (t : ℕ) (v : List ℕ) → IsName t v → Succeeds t v (successor t v).0 (successor t v).1
successor-Succeeds t v h =
    let (f, all) = next_value-Follows v h.bytes in
    elim (Bool-cases ((t == 1 || t == 2) && (increment v).0)) [
      | inr e ↦ rw e (record {
        bytes = all;
        how = elim f [ inl g ↦ inl (refl, g.1, g.2) | inr g ↦ inr (inl (refl, g.1, g.2, g.3)) ];
      })
      | inl e ↦
          let d = digest_end t v e in
          let last : number v + 1 ≡ 256 ^ length v = elim f [
            | inl g ↦ absurd (true-false (sym d.1 ∙ g.0))
            | inr g ↦ g.3
          ] in
          elim d.0 [
            | inl one ↦
                rw (e, one)
                  (record {
                    bytes = min_value_two.2;
                    how = inr (inr (inl (refl, refl, min_value_two.0, min_value_two.1, last)));
                  })
            | inr two ↦
                rw (e, two, min_value_three)
                  (record { bytes = tt; how = inr (inr (inr (refl, refl, refl, refl, last))) })
          ]
    ]

-- For every valid component with a value of fewer than 2^31 bytes, in the shortest wire encoding,
-- as a value or as a TLV-TYPE alone, getSuccessor returns a component, in the shortest form, that
-- is above it in the canonical order.
pub get_successor-greater :
    (c : Block) (t : ℕ) (v : List ℕ)
    → Holds c t v
    → IsName t v
    → (t' : ℕ) × (v' : List ℕ) × (get_successor c ≡ ok (element t' v'))
      × (canonical t v t' v' ≡ Ordering.lt)
get_successor-greater c t v s h =
    let n = successor-Succeeds t v h in
    let t' = (successor t v).0 in
    let v' = (successor t v).1 in
    (
      t',
      v',
      get_successor-lem c t v s h,
      canonical_numeric t t' v v' h.bytes n.bytes
          ∙ Next-greater (256 ^ length v) t (length v) (number v) t' (length v') (number v') n.how,
    )

-- For a valid component with a value of fewer than 2^31 bytes, in the shortest wire encoding, as
-- a value or as a TLV-TYPE alone, and for any valid component above it in the canonical order
-- whose value is shorter than that too, getSuccessor returns a component that is not above the
-- latter.
pub get_successor-least :
    (c : Block) (t u : ℕ) (v w : List ℕ)
    → Holds c t v
    → IsName t v
    → IsName u w
    → canonical t v u w ≡ Ordering.lt
    → (t' : ℕ) × (v' : List ℕ) × (get_successor c ≡ ok (element t' v'))
      × (canonical t' v' u w ≢ Ordering.gt)
get_successor-least c t u v w s h h' lt =
    let n = successor-Succeeds t v h in
    let t' = (successor t v).0 in
    let v' = (successor t v).1 in
    let above = sym (canonical_numeric t u v w h.bytes h'.bytes) ∙ lt in
    let bound : length w ≡ length v → number w < 256 ^ length v =
      λ e. subst (λ k. number w < 256 ^ k) e (number-lt w h'.bytes) in
    (
      t',
      v',
      get_successor-lem c t v s h,
      λ gt.
          Next-least (256 ^ length v) t (length v) (number v) t' (length v') (number v') u
            (length w) (number w) n.how h.digest h'.digest bound above
            (sym (canonical_numeric t' u v' w n.bytes h'.bytes) ∙ gt),
    )
