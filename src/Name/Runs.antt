-- ===== src/Name/Runs.antt =====
-- ndn-cxx/name.cpp on short names.
use ndn_cxx_gm.Base.{
  ℕ, ◌≡◌, refl, List, [], ◌∷◌, ◌++◌, length, arith, ok, Ordering, true, false, ◌<◌,
}
use ndn_cxx_gm.Base.Bits.{u64_mod}
use ndn_cxx_gm.Base.Memory.{memcmp}
use ndn_cxx_gm.Block.{
  Block, block, nil, cons, no_buffer, only_value, wire, elements, of_span, wire_bytes,
}
use ndn_cxx_gm.Block.Encoding.{encodings, encoding}
use ndn_cxx_gm.Block.Parsing.{IsElement, decoded}
use ndn_cxx_gm.Component.Order
use ndn_cxx_gm.Name.{
  components, pos, get_prefix, is_prefix_of, equals, compare, tlv_name, wire_decode, compare_range,
  compare_loop, same_loop,
}
use ndn_cxx_gm.Name.Prefixes.{is_prefix_of-get_prefix}
use ndn_cxx_gm.Name.Lexicographic.{lexicographic, compare-lexicographic}
use ndn_cxx_gm.Name.Wire.{wire_encode, wire_decode-wire_encode}
use ndn_cxx_gm.Tlv.{write_var_number}

abbrev component_a : Block
component_a = block 8 (only_value (65 ∷ [])) 3 nil

abbrev component_b : Block
component_b = block 8 (only_value (66 ∷ [])) 3 nil

-- /A and /A/B
abbrev name_a : Block
name_a = block 7 no_buffer 2 (cons component_a nil)

abbrev name_ab : Block
name_ab = block 7 no_buffer 2 (cons component_a (cons component_b nil))

a-IsElement : IsElement 8 (65 ∷ [])
a-IsElement = record { legal = omega arith; fits = omega arith; sized = omega arith }

b-IsElement : IsElement 8 (66 ∷ [])
b-IsElement = record { legal = omega arith; fits = omega arith; sized = omega arith }

is_prefix_of-get_prefix_example :
    (p : Block) × (get_prefix name_ab (pos 1) ≡ ok p)
    × (is_prefix_of name_a name_ab ≡ equals name_a p)
is_prefix_of-get_prefix_example = is_prefix_of-get_prefix name_a name_ab (omega arith) (omega arith)

compare-lexicographic_example :
    compare name_a name_ab ≡ lexicographic (components name_a) (components name_ab)
compare-lexicographic_example = compare-lexicographic name_a name_ab (omega arith) (omega arith)

name_ab-small : length (encodings (elements name_ab)) < u64_mod
unfolding encodings encoding write_var_number
name_ab-small = omega arith

a_before_ab : compare name_a name_ab ≡ Ordering.lt
unfolding compare compare_range compare_loop Order.compare memcmp
a_before_ab = refl

a_prefix_of_ab : is_prefix_of name_a name_ab ≡ true
unfolding is_prefix_of same_loop Order.equals memcmp
a_prefix_of_ab = refl

b_not_prefix_of_ab : is_prefix_of (block 7 no_buffer 2 (cons component_b nil)) name_ab ≡ false
unfolding is_prefix_of same_loop Order.equals memcmp
b_not_prefix_of_ab = refl

wire_decode-wire_encode_example :
    (n : ℕ) × (header : List ℕ) × (w : Block) × (let b =
        block tlv_name
          (wire header (encodings (elements name_ab)))
          n
          (decoded (elements name_ab)) in
      (wire_encode name_ab ≡ ok b)
      × (of_span (wire_bytes b ++ (9 ∷ [])) ≡ ok w)
      × (wire_decode name_a w ≡ (b, ok tt)))
wire_decode-wire_encode_example =
    wire_decode-wire_encode name_ab name_a (9 ∷ []) refl (a-IsElement, (b-IsElement, tt))
      (refl, (refl, tt)) name_ab-small
