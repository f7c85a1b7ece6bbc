-- ===== src/Name/Prefixes.antt =====
-- ndn-cxx/name.cpp: getSubName, getPrefix, isPrefixOf and equals.
use ndn_cxx_gm.Base.{
  ℕ, zero, suc, ◌+◌, ◌-◌, ◌%◌, ◌≡◌, ◌≤◌, ◌<◌, refl, sym, ap, ◌∙◌, List, [], ◌∷◌, true, false,
  length, length-take, take, drop, ok, arith, ltb, ◌==◌, min, dec_le, length-drop,
}
use ndn_cxx_gm.Base.Bits.{u64_mod}
use ndn_cxx_gm.Block.{Block, of_type}
use ndn_cxx_gm.Name.{
  components, size, pos, npos, get_sub_name, get_prefix, is_prefix_of, equals, tlv_name,
  sub_name_loop,
}
use ndn_cxx_gm.Name.Loops.{sub_name_loop-lem, same_loop-take}

take_short :
    (n m : ℕ) (cs : List Block) → min n (length cs) ≡ min m (length cs) → take n cs ≡ take m cs
take_short zero zero cs h = refl
take_short zero (suc m) [] h = refl
take_short zero (suc m) (c ∷ cs) h = absurd (omega arith)
take_short (suc n) zero [] h = refl
take_short (suc n) zero (c ∷ cs) h = absurd (omega arith)
take_short (suc n) (suc m) [] h = refl
take_short (suc n) (suc m) (c ∷ cs) h = ap (λ r. c ∷ r) (take_short n m cs (omega arith))

-- getSubName(i, n) returns the name of the components from i on, n at most, where i is not
-- negative, i + n is below 2^64 - 1 and so is the number of components; a position behind the end
-- gives the empty name.
pub get_sub_name-take :
    (name : Block) (i n : ℕ)
    → i + n < npos
    → size name < npos
    → (r : Block) × (get_sub_name name (pos i) n ≡ ok r)
      × (components r ≡ take n (drop i (components name)))
unfolding get_sub_name of_type
get_sub_name-take name i n h small =
    let finite : (n == npos) ≡ false = ground arith in
    let count = min (size name) ((i + n) % u64_mod) - i in
    let cs = components name in
    elim (dec_le i (size name)) [
      | yes le ↦
          let (r, e, front) = sub_name_loop-lem count i name (of_type tlv_name) (omega arith) in
          let amount : take count (drop i cs) ≡ take n (drop i cs) =
            take_short count n (drop i cs) (omega (arith, length-drop i cs)) in
          (r, rw (finite, e), front ∙ amount)
      | no gt ↦
          let zero_rounds : count ≡ 0 = omega arith in
          let behind : take n (drop i cs) ≡ take 0 (drop i cs) =
            take_short n 0 (drop i cs) (omega (arith, length-drop i cs)) in
          (of_type tlv_name, rw (finite, zero_rounds) (unfold sub_name_loop in refl), sym behind)
    ]

-- isPrefixOf answers what equals answers on getPrefix of as many components, where the other name
-- has that many and fewer than 2^64 - 1.
pub is_prefix_of-get_prefix :
    (name other : Block)
    → size name ≤ size other
    → size other < npos
    → (p : Block) × (get_prefix other (pos (size name)) ≡ ok p)
      × (is_prefix_of name other ≡ equals name p)
unfolding is_prefix_of equals get_prefix
is_prefix_of-get_prefix name other le small =
    let (p, e, front) = get_sub_name-take other 0 (size name) (omega arith) small in
    let fits : ltb (size other) (size name) ≡ false = ground arith in
    let same : (size name == size p) ≡ true =
      ground (arith, ap length front, length-take (size name) (components other)) in
    (p, e, rw (fits, same, front) (same_loop-take (components name) (components other) le))
