-- ===== src/Name/Wire.antt =====
-- ndn-cxx/name.cpp: wireEncode and wireDecode.
use ndn_cxx_gm.Base.{
  ℕ, ◌+◌, ◌≡◌, ◌<◌, refl, sym, ap, ◌∙◌, List, ◌++◌, true, false, length, arith, if◌then◌else◌, ok,
  ◌>>◌, append_assoc, subst, ◌>>=◌,
}
use ndn_cxx_gm.Base.Bits.{u64_mod}
use ndn_cxx_gm.Errors.{Result}
use ndn_cxx_gm.Tlv.{size_of_var_number, write_var_number}
use ndn_cxx_gm.Encoder.{Encoder, new_encoder, prepend_var_number}
use ndn_cxx_gm.Encoder.Contents.{IsValid, new_encoder-contents}
use ndn_cxx_gm.Encoder.Numbers.{Prepends, Prepends-then}
use ndn_cxx_gm.Encoder.Estimator.{tlv, header-Prepends, nothing-Prepends}
use ndn_cxx_gm.Block.{
  Block, block, Blocks, nil, cons, wire, type, elements, value, has_wire, of_encoder, of_span,
  wire_bytes,
}
use ndn_cxx_gm.Block.Elements.{parse}
use ndn_cxx_gm.Block.Encoding.{encoding, encodings, body, encoding-body}
use ndn_cxx_gm.Block.Parsing.{
  IsElement, element, AreElements, decoded, parse-encodings, of_span-tlv,
}
use ndn_cxx_gm.Block.Helpers.{of_encoder-Prepends}
use ndn_cxx_gm.Component.Wire
use ndn_cxx_gm.Component.Wire.{estimate_component, wire_encode_to-Prepends}
use ndn_cxx_gm.Name.{tlv_name, wire_decode}

-- The loop of wireEncode(EncodingImpl<TAG>&), from the last component to the first.
unfoldable pub encode_components : Blocks → Encoder → Encoder × ℕ
encode_components nil encoder = (encoder, 0)
encode_components (cons c cs) encoder =
    let (e₁, n₁) = encode_components cs encoder in
    let (e₂, n₂) = Wire.wire_encode_to c e₁ in (e₂, n₁ + n₂)

unfoldable pub estimate_components : Blocks → ℕ
estimate_components nil = 0
estimate_components (cons c cs) = estimate_components cs + estimate_component c

-- wireEncode(EncodingImpl<TAG>&) on an encoder and on an estimator.
unfoldable pub encode_name : Block → Encoder → Encoder × ℕ
encode_name name encoder =
    let (e₁, n₁) = encode_components (elements name) encoder in
    let (e₂, n₂) = prepend_var_number e₁ n₁ in
    let (e₃, n₃) = prepend_var_number e₂ tlv_name in (e₃, n₁ + n₂ + n₃)

unfoldable pub estimate_name : Block → ℕ
estimate_name name =
    let n₁ = estimate_components (elements name) in
    n₁ + size_of_var_number n₁ + size_of_var_number tlv_name

-- wireEncode(): m_wire afterwards.
unfoldable pub wire_encode : Block → Result Block
wire_encode name =
    if has_wire name
    then ok name
    else of_encoder (encode_name name (new_encoder (estimate_name name) 0)).0 true >>= λ b.
        ((parse b).1 >> ok (parse b).0)

-- Components that hold their value, and no sub-elements in its place.
abbrev pub AreLeaves : Blocks → Type 0
AreLeaves nil = Unit {0}
AreLeaves (cons c cs) = (body c ≡ value c) × AreLeaves cs

pub encode_components-Prepends :
    (cs : Blocks) (e : Encoder)
    → IsValid e
    → AreLeaves cs
    → Prepends e (encodings cs) (encode_components cs e)
unfolding encode_components encodings
encode_components-Prepends nil e v h = nothing-Prepends e v
encode_components-Prepends (cons c cs) e v h =
    let p = encode_components-Prepends cs e v h.1 in
    let r = encode_components cs e in
    let same : tlv (type c) (value c) ≡ encoding c =
      ap (tlv (type c)) (sym h.0) ∙ sym (encoding-body c) in
    let q : Prepends r.0 (encoding c) (Wire.wire_encode_to c r.0) =
      subst (λ bytes. Prepends r.0 bytes (Wire.wire_encode_to c r.0)) same
        (wire_encode_to-Prepends c r.0 p.valid) in
    Prepends-then e (encodings cs) (encoding c) r (Wire.wire_encode_to c r.0) _ p q refl

-- For a name without wire whose components hold a value and have a legal TLV-TYPE and a size that
-- fits 64 bits, as their encodings together do, wireEncode returns, what it wrote is decoded by
-- Block(span) whatever follows it, and wireDecode of that block returns and leaves the same name
-- as wireEncode, with the same components in the same order.
pub wire_decode-wire_encode :
    (name other : Block) (rest : List ℕ)
    → has_wire name ≡ false
    → AreElements (elements name)
    → AreLeaves (elements name)
    → length (encodings (elements name)) < u64_mod
    → (n : ℕ) × (header : List ℕ) × (w : Block) × (let b =
          block tlv_name (wire header (encodings (elements name))) n (decoded (elements name)) in
        (wire_encode name ≡ ok b)
        × (of_span (wire_bytes b ++ rest) ≡ ok w)
        × (wire_decode other w ≡ (b, ok tt)))
unfolding wire_encode wire_decode encode_name
wire_decode-wire_encode name other rest h es ls small =
    let cs = elements name in
    let v = encodings cs in
    let total = estimate_name name in
    let is : IsElement tlv_name v = record {
      legal = omega arith;
      fits = omega arith;
      sized = small;
    } in
    let e = new_encoder total 0 in
    let p = encode_components-Prepends cs e (new_encoder-contents total 0).0 ls in
    let written =
      of_encoder-Prepends total 0 tlv_name v _ is
        (header-Prepends e tlv_name v (encode_components cs e) p) in
    let header = (write_var_number tlv_name).0 ++ (write_var_number (length v)).0 in
    let parsed = parse-encodings tlv_name (length header + length v) header cs es in
    let split : (header ++ v) ++ rest ≡ tlv tlv_name v ++ rest = simp append_assoc in
    (
      length header + length v,
      header,
      element tlv_name v,
      (rw (h, written, parsed), rw split (of_span-tlv tlv_name v rest is), parsed),
    )
