-- ===== src/Component/Advance.antt =====
-- ndn-cxx/name-component.cpp: what getSuccessor returns, by the TLV-TYPE and the value.
use ndn_cxx_gm.Base.{
  ℕ, zero, suc, ◌+◌, ◌^◌, ◌≡◌, ◌≤◌, ◌<◌, refl, sym, ◌∙◌, List, [], true, false, length, arith, All,
  if◌then◌else◌, replicate, Bool-cases, inl, inr, ok, ◌==◌, ◌||◌, ◌&&◌, dec_le, ltb, ◌⊎◌,
}
use ndn_cxx_gm.Base.Bits.{IsByte}
use ndn_cxx_gm.Block.{Block}
use ndn_cxx_gm.Block.Helpers.{make_binary_block-lem}
use ndn_cxx_gm.Block.Parsing.{IsElement, element}
use ndn_cxx_gm.Component.{component, component_of, ensure_valid, check_type}
use ndn_cxx_gm.Component.Compare.{Holds, Holds-Fields}
use ndn_cxx_gm.Component.Successor.{
  increment, next_value, get_successor, get_type_successor, get_min_value, get_successor_impl-lem,
}
use ndn_cxx_gm.Component.Values.{number, next_value-Follows}

-- A valid component: its TLV-TYPE is legal, and a digest has 32 bytes.
pub record IsName (t : ℕ) (v : List ℕ) : Type 0 where
  pub legal : 1 ≤ t
  pub fits : t ≤ 65535
  pub digest : t ≤ 2 → length v ≡ 32
  pub sized : length v < 2 ^ 31
  pub bytes : All IsByte v

pub component-valid :
    (t : ℕ) (v : List ℕ)
    → 1 ≤ t
    → t ≤ 65535
    → (t ≤ 2 → length v ≡ 32)
    → component (element t v) ≡ ok (element t v)
unfolding component ensure_valid check_type
component-valid t v legal fits digest = elim (dec_le t 2) [
  | yes l ↦
      let n : (length v == 32) ≡ true = ground (arith, digest l) in
      let outside : (ltb t 1 || ltb 65535 t) ≡ false = ground arith in
      let digests : (t == 1 || t == 2) ≡ true = ground arith in rw (outside, digests, n)
  | no l ↦
      let outside : (ltb t 1 || ltb 65535 t) ≡ false = ground arith in
      let digests : (t == 1 || t == 2) ≡ false = ground arith in rw (outside, digests)
]

-- The TLV-TYPE and the TLV-VALUE of the successor.
abbrev pub successor : ℕ → List ℕ → ℕ × List ℕ
successor t v =
    if (t == 1 || t == 2) && (increment v).0
    then (t + 1, get_min_value (t + 1))
    else (t, next_value v)

zeros-IsByte : (n : ℕ) → All IsByte (replicate n 0)
zeros-IsByte zero = tt
zeros-IsByte (suc n) = (omega arith, zeros-IsByte n)

pub min_value_two :
    (length (get_min_value 2) ≡ 32) × (number (get_min_value 2) ≡ 0) × All IsByte (get_min_value 2)
unfolding get_min_value
min_value_two = (refl, refl, zeros-IsByte 32)

pub min_value_three : get_min_value 3 ≡ []
unfolding get_min_value
min_value_three = refl

-- Where the successor has the next TLV-TYPE: behind the last digest of each of the digest types.
pub digest_end :
    (t : ℕ) (v : List ℕ)
    → ((t == 1 || t == 2) && (increment v).0) ≡ true
    → ((t ≡ 1) ⊎ (t ≡ 2)) × ((increment v).0 ≡ true)
digest_end t v e = (ground arith, ground arith)

same_type_case :
    (t : ℕ) (v : List ℕ)
    → ((t == 1 || t == 2) && (increment v).0) ≡ false
    → 1 ≤ t
    → t ≤ 2
    → (increment v).0 ≡ false
same_type_case t v e h h' = ground arith

component_of-lem :
    (t : ℕ) (v : List ℕ)
    → IsElement t v
    → t ≤ 65535
    → (t ≤ 2 → length v ≡ 32)
    → component_of t v ≡ ok (element t v)
unfolding component_of
component_of-lem t v h fits digest =
    rw (make_binary_block-lem t v h) (component-valid t v h.legal fits digest)

next_element : (t : ℕ) (v : List ℕ) → IsName t v → IsElement t (next_value v)
next_element t v h = record {
  legal = h.legal;
  fits = omega (arith, h.fits);
  sized = elim (next_value-Follows v h.bytes).0 [
    | inl f ↦ omega (arith, f.1, h.sized)
    | inr f ↦ omega (arith, f.1, h.sized)
  ];
}

pub true-false : true ≡ false → ⊥
true-false p = cc

same_digest :
    (t : ℕ) (v : List ℕ)
    → IsName t v
    → ((t == 1 || t == 2) && (increment v).0) ≡ false
    → t ≤ 2
    → length (next_value v) ≡ 32
same_digest t v h e l = elim (next_value-Follows v h.bytes).0 [
  | inl f ↦ f.1 ∙ h.digest l
  | inr f ↦ absurd (true-false (sym f.0 ∙ same_type_case t v e h.legal l))
]

pub get_successor-lem :
    (c : Block) (t : ℕ) (v : List ℕ)
    → Holds c t v
    → IsName t v
    → get_successor c ≡ ok (element (successor t v).0 (successor t v).1)
unfolding get_successor get_type_successor
get_successor-lem c t v s h =
    let f = Holds-Fields c t v s in
    let impl = get_successor_impl-lem c t v f (next_element t v h) in
    elim (Bool-cases ((t == 1 || t == 2) && (increment v).0)) [
      | inl e ↦
          rw (impl, f.of_type, e)
            (elim (digest_end t v e).0 [
              | inl one ↦ rw one (
                  component_of-lem 2 (get_min_value 2)
                    (record {
                      legal = omega arith;
                      fits = omega arith;
                      sized = omega (arith, min_value_two.0);
                    })
                    (omega arith) (λ l. min_value_two.0))
              | inr two ↦
                  rw (two, min_value_three)
                    (component_of-lem 3 []
                      (record { legal = omega arith; fits = omega arith; sized = omega arith })
                      (omega arith) (λ l. absurd (omega arith)))
            ])
      | inr e ↦
          let valid = component-valid t (next_value v) h.legal h.fits (same_digest t v h e) in
          rw (impl, f.of_type, e, valid)
    ]
