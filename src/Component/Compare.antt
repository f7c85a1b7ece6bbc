-- ===== src/Component/Compare.antt =====
-- ndn-cxx/name-component.cpp: compare by the wire encodings and compare by the fields both decide
-- the canonical order.
use ndn_cxx_gm.Base.{
  ℕ, zero, suc, ◌+◌, ◌-◌, ◌%◌, ◌^◌, ◌≡◌, ◌≤◌, ◌<◌, ◌≢◌, ◌⊎◌, inl, inr, refl, sym, ap, ◌∙◌, List, [],
  ◌∷◌, ◌++◌, Bool, true, false, length, length-append, append_assoc, arith, ltb, leb, ◌==◌,
  Bool-cases, min, Ordering, ℕ_discrete, not, ◌&&◌, if◌then◌else◌, subst, ap₂,
}
use ndn_cxx_gm.Base
use ndn_cxx_gm.Base.Bits.{u32_mod, u64_mod}
use ndn_cxx_gm.Base.Memory.{memcmp, then_by, is_eq}
use ndn_cxx_gm.Tlv.{write_var_number, size_of_var_number}
use ndn_cxx_gm.Encoder.Estimator.{tlv, length-tlv}
use ndn_cxx_gm.Block.{Block, type, value, value_size, has_wire, m_size, of_value, of_type}
use ndn_cxx_gm.Block.Parsing.{element, size_of_var_number-pos}
use ndn_cxx_gm.Component.Order.{equals, compare}
use ndn_cxx_gm.Component.Canonical.{
  canonical, memcmp-write_var_number-ne, memcmp-write_var_number-eq,
}

-- A TLV-TYPE of a component, and a TLV-VALUE whose size an `int` can hold.
pub record IsComparable (t : ℕ) (v : List ℕ) : Type 0 where
  pub legal : 1 ≤ t
  pub fits : t ≤ 65535
  pub sized : length v < 2 ^ 31

-- The blocks that hold a component: decoded or encoded, made from a value, made from a TLV-TYPE.
abbrev pub Holds : Block → ℕ → List ℕ → Type 0
Holds c t v = (c ≡ element t v) ⊎ (c ≡ of_value t v) ⊎ ((c ≡ of_type t) × (v ≡ []))

then_by-ne : (a b : ℕ) (o : Ordering) → a ≢ b → then_by (Base.compare a b) o ≡ Base.compare a b
then_by-ne a b o h = ground arith

then_by-same : (a b : ℕ) (o : Ordering) → a ≡ b → then_by (Base.compare a b) o ≡ o
then_by-same a b o h = ground arith

headed :
    (t : ℕ) (v : List ℕ)
    → ((write_var_number t).0 ++ (write_var_number (length v)).0) ++ v ≡ tlv t v
headed t v = append_assoc (write_var_number t).0 (write_var_number (length v)).0 v

-- memcmp over the shorter of two elements.
memcmp-tlv :
    (t t' k : ℕ) (v v' : List ℕ)
    → IsComparable t v
    → IsComparable t' v'
    → k ≡ min (length (tlv t v)) (length (tlv t' v'))
    → memcmp k (tlv t v) (tlv t' v') ≡ canonical t v t' v'
memcmp-tlv t t' k v v' h h' e =
    let len = length v in
    let len' = length v' in
    let long = length-tlv t v in
    let long' = length-tlv t' v' in
    let xs = (write_var_number len).0 ++ v in
    let ys = (write_var_number len').0 ++ v' in
    elim (ℕ_discrete t t') [
      | no ne ↦
          memcmp-write_var_number-ne t t' k xs ys ne (omega (arith, h.fits))
            (omega (arith, h'.fits)) (omega arith)
          ∙ sym (then_by-ne t t' (then_by (Base.compare len len') (memcmp len v v')) ne)
      | yes same ↦
          let s : size_of_var_number t ≡ size_of_var_number t' = ap size_of_var_number same in
          let k' = k - size_of_var_number t in
          let front : memcmp k (tlv t v) (tlv t' v') ≡ memcmp k' xs ys =
            subst (λ u. memcmp k (tlv t v) (tlv u v') ≡ memcmp k' xs ys) same
              (memcmp-write_var_number-eq t k xs ys (omega arith)) in
          front
          ∙ elim (ℕ_discrete len len') [
            | no ne ↦
                memcmp-write_var_number-ne len len' k' v v' ne (omega (arith, h.sized))
                  (omega (arith, h'.sized)) (omega arith)
                ∙ sym (
                    then_by-same t t' (then_by (Base.compare len len') (memcmp len v v')) same
                    ∙ then_by-ne len len' (memcmp len v v') ne)
            | yes l ↦
                let z : k' - size_of_var_number len ≡ len =
                  omega (arith, ap size_of_var_number l) in
                let values =
                  memcmp-write_var_number-eq len k' v v' (omega (arith, ap size_of_var_number l)) in
                let back : memcmp k' xs ys ≡ memcmp len v v' =
                  subst (λ u. memcmp k' xs ((write_var_number u).0 ++ v') ≡ memcmp len v v') l
                    (values ∙ ap (λ j. memcmp j v v') z) in
                back
                ∙ sym (
                    then_by-same t t' (then_by (Base.compare len len') (memcmp len v v')) same
                    ∙ then_by-same len len' (memcmp len v v') l)
          ]
          ∙ refl
    ]

fast :
    (t t' : ℕ) (v v' : List ℕ)
    → IsComparable t v
    → IsComparable t' v'
    → compare (element t v) (element t' v') ≡ canonical t v t' v'
unfolding compare
fast t t' v v' h h' =
    let size = ap length (headed t v) in
    let size' = ap length (headed t' v') in
    let len = length-append ((write_var_number t).0 ++ (write_var_number (length v)).0) v in
    let len' = length-append ((write_var_number t').0 ++ (write_var_number (length v')).0) v' in
    let w : (m_size (element t v) == 0) ≡ false =
      ground (arith, length-tlv t v, size_of_var_number-pos t, size, len) in
    let w' : (m_size (element t' v') == 0) ≡ false =
      ground (arith, length-tlv t' v', size_of_var_number-pos t', size', len') in
    rw (w, w', headed t v, headed t' v')
      (memcmp-tlv t t' (min (m_size (element t v)) (m_size (element t' v'))) v v' h h'
        (ap₂ min (sym len ∙ size) (sym len' ∙ size')))

-- The sign of a difference of two numbers below 2^31, as an `int`.
sign_difference :
    (a b d : ℕ)
    → a < 2 ^ 31
    → b < 2 ^ 31
    → a ≢ b
    → d ≡ (a + u32_mod - b) % u32_mod
    → ((d == 0) ≡ false)
      × ((if ltb d (2 ^ 31) then Ordering.gt else Ordering.lt) ≡ Base.compare a b)
sign_difference a b d h h' ne e = (ground arith, ground arith)

pub record Fields (c : Block) (t : ℕ) (v : List ℕ) : Type 0 where
  pub of_type : type c ≡ t
  pub of_size : value_size c ≡ length v
  pub of_value : value c ≡ v

nothing :
    (n : ℕ) (xs ys : List ℕ) → (if n == 0 then Ordering.eq else memcmp n xs ys) ≡ memcmp n xs ys
unfolding memcmp
nothing zero xs ys = refl
nothing (suc n) xs ys = let z : (suc n == 0) ≡ false = ground arith in rw z

slow :
    (c c' : Block) (t t' : ℕ) (v v' : List ℕ)
    → IsComparable t v
    → IsComparable t' v'
    → Fields c t v
    → Fields c' t' v'
    → (has_wire c && has_wire c') ≡ false
    → compare c c' ≡ canonical t v t' v'
unfolding compare
slow c c' t t' v v' h h' f f' w =
    let len = length v in
    let len' = length v' in
    let by_size = then_by (Base.compare len len') (memcmp len v v') in
    let dt = (t + u32_mod - t') % u32_mod in
    let dl = (len + u64_mod - len') % u64_mod % u32_mod in
    elim (ℕ_discrete t t') [
      | no ne ↦
          let s =
            sign_difference t t' dt (omega (arith, h.fits)) (omega (arith, h'.fits)) ne refl in
          rw (w, f.of_type, f'.of_type, s.0) (s.1 ∙ sym (then_by-ne t t' by_size ne))
      | yes same ↦
          let z : (dt == 0) ≡ true = ground arith in
          elim (ℕ_discrete len len') [
            | no ne ↦
                let small : dl ≡ (len + u32_mod - len') % u32_mod =
                  omega (arith, h.sized, h'.sized) in
                let s = sign_difference len len' dl h.sized h'.sized ne small in
                rw (w, f.of_type, f'.of_type, f.of_size, f'.of_size, z, s.0)
                  (s.1
                    ∙ sym
                        (then_by-same t t' by_size same ∙ then_by-ne len len' (memcmp len v v') ne))
            | yes l ↦
                let z' : (dl == 0) ≡ true = ground arith in
                rw (w, f.of_type, f'.of_type, f.of_size, f'.of_size, f.of_value, f'.of_value, z, z')
                  (nothing len v v'
                    ∙ sym (
                        then_by-same t t' by_size same ∙ then_by-same len len' (memcmp len v v') l))
          ]
    ]

pub Holds-Fields : (c : Block) (t : ℕ) (v : List ℕ) → Holds c t v → Fields c t v
unfolding of_value of_type
Holds-Fields c t v (inl e) = rw e (record { of_type = refl; of_size = refl; of_value = refl })
Holds-Fields c t v (inr (inl e)) = rw e (record { of_type = refl; of_size = refl; of_value = refl })
Holds-Fields c t v (inr (inr (e, e'))) =
    rw (e, e') (record { of_type = refl; of_size = refl; of_value = refl })

made_without_wire :
    (c : Block) (t : ℕ) (v : List ℕ) → Holds c t v → (c ≡ element t v) ⊎ (has_wire c ≡ false)
unfolding of_value of_type
made_without_wire c t v (inl e) = inl e
made_without_wire c t v (inr (inl e)) = inr (rw e)
made_without_wire c t v (inr (inr (e, e'))) = inr (rw e)

and_false : (b : Bool) → (b && false) ≡ false
and_false true = refl
and_false false = refl

-- compare decides the canonical order (TLV-TYPE, then TLV-LENGTH, then bytes) of any two
-- components whose TLV-TYPE is from 1 to 65535 and whose value is shorter than 2^31 bytes,
-- whether they hold the shortest wire encoding, a value alone, or a TLV-TYPE alone.
pub compare-canonical :
    (c c' : Block) (t t' : ℕ) (v v' : List ℕ)
    → IsComparable t v
    → IsComparable t' v'
    → Holds c t v
    → Holds c' t' v'
    → compare c c' ≡ canonical t v t' v'
compare-canonical c c' t t' v v' h h' s s' =
    let by_fields : (has_wire c && has_wire c') ≡ false → compare c c' ≡ canonical t v t' v' =
      slow c c' t t' v v' h h' (Holds-Fields c t v s) (Holds-Fields c' t' v' s') in
    elim (made_without_wire c t v s) [
      | inr w ↦ by_fields (rw w)
      | inl e ↦ elim (made_without_wire c' t' v' s') [
        | inr w ↦ by_fields (rw w (and_false (has_wire c)))
        | inl e' ↦ rw (e, e') (fast t t' v v' h h')
      ]
    ]

is_eq-then_by : (p q : Ordering) → is_eq (then_by p q) ≡ (is_eq p && is_eq q)
is_eq-then_by Ordering.lt q = refl
is_eq-then_by Ordering.eq q = refl
is_eq-then_by Ordering.gt q = refl

and_assoc : (a b c : Bool) → (a && (b && c)) ≡ (a && b && c)
and_assoc true b c = refl
and_assoc false b c = refl

fields_equal :
    (t t' n n' : ℕ) (o : Ordering)
    → is_eq (then_by (Base.compare t t') (then_by (Base.compare n n') o))
      ≡ (t == t' && n == n' && is_eq o)
fields_equal t t' n n' o =
    is_eq-then_by (Base.compare t t') (then_by (Base.compare n n') o)
    ∙ ap (λ b. is_eq (Base.compare t t') && b) (is_eq-then_by (Base.compare n n') o)
    ∙ and_assoc (is_eq (Base.compare t t')) (is_eq (Base.compare n n')) (is_eq o)
    ∙ ap₂ (λ a b. a && b && is_eq o) (test t t') (test n n')
  where
    test : (a b : ℕ) → is_eq (Base.compare a b) ≡ (a == b)
    test a b = ground arith

-- equals answers true exactly where compare answers zero, under the conditions of the canonical
-- order's theorem.
pub equals-compare :
    (c c' : Block) (t t' : ℕ) (v v' : List ℕ)
    → IsComparable t v
    → IsComparable t' v'
    → Holds c t v
    → Holds c' t' v'
    → equals c c' ≡ is_eq (compare c c')
equals-compare c c' t t' v v' h h' s s' =
    let f = Holds-Fields c t v s in
    let f' = Holds-Fields c' t' v' s' in
    rw (compare-canonical c c' t t' v v' h h' s s') (
      unfold equals in
      rw (f.of_type, f'.of_type, f.of_size, f'.of_size, f.of_value, f'.of_value)
        (sym (fields_equal t t' (length v) (length v') (memcmp (length v) v v'))))
