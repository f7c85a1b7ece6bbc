-- ===== src/Block/Runs.antt =====
-- ndn-cxx/encoding/block.cpp and block-helpers.cpp on small packets.
use ndn_cxx_gm.Base.{ℕ, ◌≡◌, ◌≢◌, refl, List, [], ◌∷◌, ◌++◌, length, arith, ok, err, All}
use ndn_cxx_gm.Base.Bits.{IsByte}
use ndn_cxx_gm.Tlv.{read_type, read_var_number, read_var_number?, write_var_number}
use ndn_cxx_gm.Block.Elements.{next_element, parse_loop}
use ndn_cxx_gm.Errors.{stuck, illegal_type}
use ndn_cxx_gm.Encoder.{new_encoder}
use ndn_cxx_gm.Block.{Block, block, nil, cons, no_buffer, only_value, wire, of_span, wire_bytes}
use ndn_cxx_gm.Block.Elements.{parse}
use ndn_cxx_gm.Block.Wire.{encode, encode_to, estimate}
use ndn_cxx_gm.Block.Encoding.{IsSized, encode_to-room, encodings, AreSized}
use ndn_cxx_gm.Block.Parsing.{IsElement, element, parse-encodings, decoded}
use ndn_cxx_gm.Block.RoundTrip.{of_span-encode}
use ndn_cxx_gm.Block.Tiling.{wires, AreDecoded}
use ndn_cxx_gm.Block.Outcomes.{parse-ends, parse-tiles, parse_twice}

-- /A as a Name (TLV-TYPE 7) of one component that has a value and no wire.
abbrev component_a : Block
component_a = block 8 (only_value (65 ∷ [])) 3 nil

abbrev name_a : Block
name_a = block 7 no_buffer 0 (cons component_a nil)

abbrev name_a_bytes : List ℕ
name_a_bytes = 7 ∷ 3 ∷ 8 ∷ 1 ∷ 65 ∷ []

abbrev children_of_a : List ℕ
children_of_a = 8 ∷ 1 ∷ 65 ∷ []

children_of_a-IsByte : All IsByte children_of_a
children_of_a-IsByte = (omega arith, (omega arith, (omega arith, tt)))

component_a-IsElement : IsElement 8 (65 ∷ [])
component_a-IsElement = record { legal = omega arith; fits = omega arith; sized = omega arith }

name_a-IsSized : IsSized name_a
unfolding IsSized AreSized write_var_number
name_a-IsSized = (omega arith, tt)

encode_to-room_example :
    let e = new_encoder (estimate name_a) 0 in
    length (encode_to name_a e).1.buffer ≡ estimate name_a
encode_to-room_example = encode_to-room name_a name_a-IsSized

of_span-encode_example :
    of_span (wire_bytes (encode component_a) ++ (1 ∷ [])) ≡ ok (element 8 (65 ∷ []))
of_span-encode_example = of_span-encode component_a (1 ∷ []) refl component_a-IsElement

parse-encodings_example :
    let bs = cons component_a (cons component_a nil) in
    parse (block 7 (wire (7 ∷ 6 ∷ []) (encodings bs)) 8 nil)
    ≡ (block 7 (wire (7 ∷ 6 ∷ []) (encodings bs)) 8 (decoded bs), ok tt)
parse-encodings_example =
    parse-encodings 7 8 (7 ∷ 6 ∷ []) (cons component_a (cons component_a nil))
      (component_a-IsElement, (component_a-IsElement, tt))

parse_run : parse (block 7 (wire (7 ∷ 3 ∷ []) children_of_a) 5 nil) ≡ (
  block 7
      (wire (7 ∷ 3 ∷ []) children_of_a)
      5
      (cons (block 8 (wire (8 ∷ 1 ∷ []) (65 ∷ [])) 3 nil) nil),
  ok tt,
)
unfolding parse parse_loop next_element read_type read_var_number read_var_number?
parse_run = refl

parse-ends_example : (parse (block 7 (wire (7 ∷ 3 ∷ []) children_of_a) 5 nil)).1 ≢ err stuck
parse-ends_example =
    parse-ends (block 7 (wire (7 ∷ 3 ∷ []) children_of_a) 5 nil) children_of_a-IsByte

parse-tiles_example :
    let es = cons (block 8 (wire (8 ∷ 1 ∷ []) (65 ∷ [])) 3 nil) nil in
    (wires es ≡ children_of_a) × AreDecoded es × (◌≡◌ {A = ℕ} 7 7)
parse-tiles_example =
    parse-tiles 7 5 (7 ∷ 3 ∷ []) children_of_a
      (block 7 (wire (7 ∷ 3 ∷ []) children_of_a) 5
        (cons (block 8 (wire (8 ∷ 1 ∷ []) (65 ∷ [])) 3 nil) nil))
      children_of_a-IsByte parse_run

zero_junk : next_element (0 ∷ []) ≡ err (illegal_type 0)
unfolding next_element read_type read_var_number read_var_number?
zero_junk = refl

parse_twice_example :
    let v = encodings (cons component_a nil) ++ (0 ∷ []) in
    let b' = block 7 (wire (7 ∷ 4 ∷ []) v) 6 (decoded (cons component_a nil)) in
    (parse (block 7 (wire (7 ∷ 4 ∷ []) v) 6 nil) ≡ (b', err (illegal_type 0)))
    × (parse b' ≡ (b', ok tt))
parse_twice_example =
    parse_twice 7 6 (7 ∷ 4 ∷ []) component_a nil (0 ∷ []) (illegal_type 0)
      (component_a-IsElement, tt) (omega arith) (λ es. refl) zero_junk
