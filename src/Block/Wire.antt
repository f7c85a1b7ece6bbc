-- ===== src/Block/Wire.antt =====
-- The wire encoding of a block (block.cpp): the two `encode` functions and `encode()`.
use ndn_cxx_gm.Base.{ℕ, ◌+◌, if◌then◌else◌, take}
use ndn_cxx_gm.Tlv.{size_of_var_number}
use ndn_cxx_gm.Encoder.{Encoder, contents, prepend_bytes, prepend_var_number, new_encoder}
use ndn_cxx_gm.Block.{Block, block, Blocks, nil, cons, no_buffer, only_value, wire, has_wire}

-- encode(EncodingEstimator&) and encodeValue: the size estimated.
unfoldable mutual
  pub estimate : Block → ℕ
  estimate (block t no_buffer n es) =
      let len = estimate_elements es in len + size_of_var_number len + size_of_var_number t
  estimate (block t (only_value v) n es) = n
  estimate (block t (wire h v) n es) = n

  pub estimate_elements : Blocks → ℕ
  estimate_elements nil = 0
  estimate_elements (cons b bs) = estimate_elements bs + estimate b

-- The end of encode(EncodingBuffer&), once `len` bytes of TLV-VALUE stand in front: the block then
-- refers to the encoder's buffer.
abbrev pub finish : ℕ → Blocks → Encoder → ℕ → Block × Encoder × ℕ
finish t es e len =
    let (e₂, n₂) = prepend_var_number e len in
    let (e₃, n₃) = prepend_var_number e₂ t in
    let total = len + n₂ + n₃ in
    (block t (wire (take (n₂ + n₃) (contents e₃)) (take len (contents e))) total es, e₃, total)

-- encode(EncodingBuffer&): the block, the encoder and the length. Sub-elements are encoded from the
-- last to the first, and each is left referring to the encoder's buffer.
unfoldable mutual
  pub encode_to : Block → Encoder → Block × Encoder × ℕ
  encode_to (block t no_buffer n es) e =
      let (es', e₁, n₁) = encode_elements es e in finish t es' e₁ n₁
  encode_to (block t (only_value v) n es) e = let (e₁, n₁) = prepend_bytes e v in finish t es e₁ n₁
  encode_to (block t (wire h v) n es) e = let (e₁, n₁) = prepend_bytes e v in finish t es e₁ n₁

  pub encode_elements : Blocks → Encoder → Blocks × Encoder × ℕ
  encode_elements nil e = (nil, e, 0)
  encode_elements (cons b bs) e =
      let (bs', e₁, n₁) = encode_elements bs e in
      let (b', e₂, n₂) = encode_to b e₁ in (cons b' bs', e₂, n₁ + n₂)

-- encode()
unfoldable pub encode : Block → Block
unfolding estimate encode_to
encode b = if has_wire b then b else let (b', e, n) = encode_to b (new_encoder (estimate b) 0) in b'
