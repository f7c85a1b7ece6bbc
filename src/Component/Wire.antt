-- ===== src/Component/Wire.antt =====
-- ndn-cxx/name-component.cpp: wireEncode.
use ndn_cxx_gm.Base.{
  ℕ, ◌+◌, ◌≡◌, refl, sym, ◌∙◌, List, [], true, false, length, arith, ltb, if◌then◌else◌, ok,
  Bool-cases, inl, inr, ◌∷◌, ◌⊎◌, ltb→ge, subst, ◌>>=◌,
}
use ndn_cxx_gm.Errors.{Result}
use ndn_cxx_gm.Tlv.{size_of_var_number}
use ndn_cxx_gm.Encoder.{Encoder, new_encoder, prepend_bytes, prepend_var_number}
use ndn_cxx_gm.Encoder.Contents.{IsValid, new_encoder-contents}
use ndn_cxx_gm.Encoder.Numbers.{Prepends, prepend_bytes-Prepends}
use ndn_cxx_gm.Encoder.Estimator.{tlv, header-Prepends, nothing-Prepends}
use ndn_cxx_gm.Block.{
  Block, block, no_buffer, only_value, wire, type, value, value_size, has_wire, of_encoder,
}
use ndn_cxx_gm.Block.Parsing.{IsElement, element}
use ndn_cxx_gm.Block.Helpers.{of_encoder-Prepends}
use ndn_cxx_gm.Component.Advance.{IsName, component-valid}
use ndn_cxx_gm.Component.{component}

-- wireEncode(EncodingImpl<TAG>&) on an estimator.
unfoldable pub estimate_component : Block → ℕ
estimate_component c =
    (if ltb 0 (value_size c) then value_size c else 0)
    + size_of_var_number (value_size c)
    + size_of_var_number (type c)

-- wireEncode(EncodingImpl<TAG>&) on an encoder.
unfoldable pub wire_encode_to : Block → Encoder → Encoder × ℕ
wire_encode_to c encoder =
    let (e₁, n₁) = if ltb 0 (value_size c) then prepend_bytes encoder (value c) else (encoder, 0) in
    let (e₂, n₂) = prepend_var_number e₁ (value_size c) in
    let (e₃, n₃) = prepend_var_number e₂ (type c) in (e₃, n₁ + n₂ + n₃)

-- wireEncode(): what the component is afterwards.
unfoldable pub wire_encode : Block → Result Block
wire_encode c =
    if has_wire c
    then ok c
    else of_encoder (wire_encode_to c (new_encoder (estimate_component c) 0)).0 true >>= component

pub value_size-value : (c : Block) → value_size c ≡ length (value c)
value_size-value (block t no_buffer n es) = refl
value_size-value (block t (only_value v) n es) = refl
value_size-value (block t (wire h v) n es) = refl

length_zero : (v : List ℕ) → length v ≡ 0 → v ≡ []
length_zero [] h = refl
length_zero (b ∷ bs) h = absurd (omega arith)

-- wireEncode puts the component's element in front, in the shortest form.
pub wire_encode_to-Prepends :
    (c : Block) (e : Encoder) → IsValid e → Prepends e (tlv (type c) (value c)) (wire_encode_to c e)
unfolding wire_encode_to
wire_encode_to-Prepends c e v =
    let r = if ltb 0 (value_size c) then prepend_bytes e (value c) else (e, 0) in
    let p : Prepends e (value c) r = first_step (Bool-cases (ltb 0 (value_size c))) in
    let n : r.1 ≡ value_size c = p.count ∙ sym (value_size-value c) in
    subst
      (λ k.
        let q = prepend_var_number r.0 k in
        let t = prepend_var_number q.0 (type c) in
        Prepends e (tlv (type c) (value c)) (t.0, r.1 + q.1 + t.1))
      n (header-Prepends e (type c) (value c) r p)
  where
    first_step :
        (ltb 0 (value_size c) ≡ true) ⊎ (ltb 0 (value_size c) ≡ false)
        → Prepends e (value c) (if ltb 0 (value_size c) then prepend_bytes e (value c) else (e, 0))
    first_step (inl h) = rw h (prepend_bytes-Prepends e (value c) v)
    first_step (inr h) =
        let none : value c ≡ [] =
          length_zero (value c) (omega (arith, ltb→ge 0 (value_size c) h, value_size-value c)) in
        rw (h, none) (nothing-Prepends e v)

-- WireEncode of a valid component without wire, whose value is shorter than 2^31 bytes, returns
-- the element with its TLV-TYPE and value, in the shortest form.
pub wire_encode-lem :
    (c : Block)
    → has_wire c ≡ false
    → IsName (type c) (value c)
    → wire_encode c ≡ ok (element (type c) (value c))
unfolding wire_encode
wire_encode-lem c h n =
    let total = estimate_component c in
    let is : IsElement (type c) (value c) = record {
      legal = n.legal;
      fits = omega (arith, n.fits);
      sized = omega (arith, n.sized);
    } in
    let written =
      of_encoder-Prepends total 0 (type c) (value c) _ is
        (wire_encode_to-Prepends c (new_encoder total 0) (new_encoder-contents total 0).0) in
    rw (h, written) (component-valid (type c) (value c) n.legal n.fits n.digest)
