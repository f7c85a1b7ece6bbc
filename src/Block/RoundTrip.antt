-- ===== src/Block/RoundTrip.antt =====
-- A block is encoded and decoded again.
use ndn_cxx_gm.Base.{ℕ, ◌≡◌, ap, ◌∙◌, List, ◌++◌, false, ok, append_assoc, length}
use ndn_cxx_gm.Encoder.Estimator.{tlv}
use ndn_cxx_gm.Block.{block, nil, Block, type, has_wire, wire_bytes, of_span}
use ndn_cxx_gm.Block.Wire.{encode}
use ndn_cxx_gm.Block.Encoding.{body, encode-IsWritten}
use ndn_cxx_gm.Block.Parsing.{IsElement, element, of_span-tlv}
use ndn_cxx_gm.Tlv.{write_var_number}

-- What encode() wrote for a block without wire, followed by any bytes, is decoded by Block(span)
-- to the element with the block's TLV-TYPE whose value is the block's value or its sub-elements'
-- encodings, where the TLV-TYPE is legal and the size of the value fits 64 bits.
pub of_span-encode :
    (b : Block) (rest : List ℕ)
    → has_wire b ≡ false
    → IsElement (type b) (body b)
    → of_span (wire_bytes (encode b) ++ rest) ≡ ok (element (type b) (body b))
of_span-encode b rest h is =
    let w = encode-IsWritten b h in
    let bytes : wire_bytes (encode b) ≡ tlv (type b) (body b) =
      ap (λ s. wire_bytes (block 0 s 0 nil)) w.header
      ∙ append_assoc (write_var_number (type b)).0 (write_var_number (length (body b))).0
          (body b) in
    rw bytes (of_span-tlv (type b) (body b) rest is)
