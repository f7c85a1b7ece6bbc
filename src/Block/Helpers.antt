-- ===== src/Block/Helpers.antt =====
-- ndn-cxx/encoding/block-helpers.cpp: blocks made by an encoder whose size was estimated, and the
-- values read back from blocks.
use ndn_cxx_gm.Base.{
  ℕ, ◌+◌, ◌≡◌, ◌≤◌, ◌<◌, sym, ap, ◌∙◌, List, [], ◌++◌, true, false, length, length-append, arith,
  ok, ◌>>=◌, append-nil, append_assoc, subst, ap₂, ◌==◌, length-take, ◌-◌, drop, length-drop,
}
use ndn_cxx_gm.Base.Bits.{u64_mod, u32_mod}
use ndn_cxx_gm.Errors.{Result}
use ndn_cxx_gm.Tlv.{
  contiguous, read_non_negative_integer, write_non_negative_integer, size_of_non_negative_integer,
  write_var_number, read_type, read_var_number,
}
use ndn_cxx_gm.Tlv.Numbers.{read_non_negative_integer-write, write_sizes}
use ndn_cxx_gm.Encoder.{
  Encoder, contents, new_encoder, prepend_binary_block, prepend_non_negative_integer_block,
  prepend_empty_block,
}
use ndn_cxx_gm.Encoder.Contents.{new_encoder-contents, IsValid}
use ndn_cxx_gm.Encoder.Estimator.{
  tlv, estimate_binary_block, estimate_non_negative_integer_block, estimate_empty_block,
  prepend_binary_block-Prepends, prepend_non_negative_integer_block-Prepends,
  prepend_empty_block-Prepends,
}
use ndn_cxx_gm.Encoder.Numbers.{Prepends}
use ndn_cxx_gm.Block.{Block, value, value_size, of_range, of_encoder, passed}
use ndn_cxx_gm.Block.Parsing.{IsElement, element, tlv-Reads, passed_header, tlv-longer}

-- makeNonNegativeIntegerBlock
unfoldable pub make_non_negative_integer_block : ℕ → ℕ → Result Block
make_non_negative_integer_block type value =
    let total_length = estimate_non_negative_integer_block type value in
    let encoder = new_encoder total_length 0 in
    of_encoder (prepend_non_negative_integer_block encoder type value).0 true

-- readNonNegativeInteger of a block
unfoldable pub read_block_integer : Block → Result ℕ
read_block_integer b = do
  (number, rest) ← read_non_negative_integer contiguous (value_size b) (value b)
  ok number

-- makeEmptyBlock
unfoldable pub make_empty_block : ℕ → Result Block
make_empty_block type =
    let encoder = new_encoder (estimate_empty_block type) 0 in
    of_encoder (prepend_empty_block encoder type).0 true

-- makeBinaryBlock, and makeStringBlock on the string's bytes
unfoldable pub make_binary_block : ℕ → List ℕ → Result Block
make_binary_block type value =
    let encoder = new_encoder (estimate_binary_block type (length value)) 0 in
    of_encoder (prepend_binary_block encoder type value).0 true

-- Block(buffer, begin, end, true) decodes exactly one element in the shortest form.
pub of_range-tlv :
    (buffer_size t : ℕ) (v : List ℕ)
    → 1 ≤ buffer_size
    → IsElement t v
    → of_range buffer_size (tlv t v) true ≡ ok (element t v)
unfolding of_range
of_range-tlv buffer_size t v pos h =
    let nil_right : tlv t v ++ [] ≡ tlv t v = append-nil (tlv t v) in
    let v_right : v ++ [] ≡ v = append-nil v in
    let r = tlv-Reads t v [] h in
    let at_type : read_type contiguous (tlv t v) ≡ ok (t, r.pos) =
      subst (λ bytes. read_type contiguous bytes ≡ ok (t, r.pos)) nil_right r.at_type in
    let at_length : read_var_number contiguous r.pos ≡ ok (length v, v) =
      subst (λ bytes. read_var_number contiguous r.pos ≡ ok (length v, bytes)) v_right
        r.at_length in
    let header : passed (tlv t v) v ≡ (write_var_number t).0 ++ (write_var_number (length v)).0 =
      ap₂ passed (sym nil_right) (sym v_right) ∙ passed_header t v [] in
    let size : length (tlv t v)
        ≡ length ((write_var_number t).0 ++ (write_var_number (length v)).0) + length v =
      ap length (tlv_split t v) ∙ length-append _ v in
    let same : (length v == length v) ≡ true = ground arith in
    let non_empty : (buffer_size == 0) ≡ false = ground arith in
    rw (non_empty, at_type, at_length, same, header, size)
  where
    tlv_split :
        (t : ℕ) (v : List ℕ)
        → tlv t v ≡ ((write_var_number t).0 ++ (write_var_number (length v)).0) ++ v
    tlv_split t v = simp append_assoc

-- The block of an encoder that holds an element.
pub of_encoder-contents :
    (e : Encoder) (t : ℕ) (v : List ℕ)
    → IsElement t v
    → IsValid e
    → contents e ≡ tlv t v
    → of_encoder e true ≡ ok (element t v)
of_encoder-contents e t v h valid all =
    let long = length-take (e.end - e.begin) (drop e.begin e.buffer) in
    let size = ap length all in
    let non_empty : 1 ≤ length e.buffer = omega (
      arith,
      long,
      size,
      length-drop e.begin e.buffer,
      tlv-longer t v,
      valid.ordered,
      valid.within,
    ) in
    rw all (of_range-tlv (length e.buffer) t v non_empty h)

pub of_encoder-Prepends :
    (total back t : ℕ) (v : List ℕ) (r : Encoder × ℕ)
    → IsElement t v
    → Prepends (new_encoder total back) (tlv t v) r
    → of_encoder r.0 true ≡ ok (element t v)
of_encoder-Prepends total back t v r h p =
    of_encoder-contents r.0 t v h p.valid
      (p.front ∙ ap (λ c. tlv t v ++ c) (new_encoder-contents total back).1 ∙ append-nil (tlv t v))

-- makeBinaryBlock and makeEmptyBlock return the element that they name.
pub make_binary_block-lem :
    (type : ℕ) (value : List ℕ)
    → IsElement type value
    → make_binary_block type value ≡ ok (element type value)
unfolding make_binary_block
make_binary_block-lem type value h =
    let total = estimate_binary_block type (length value) in
    of_encoder-Prepends total 0 type value _ h (
      prepend_binary_block-Prepends (new_encoder total 0) type value
        (new_encoder-contents total 0).0)

pub make_empty_block-lem :
    (type : ℕ) → IsElement type [] → make_empty_block type ≡ ok (element type [])
unfolding make_empty_block
make_empty_block-lem type h =
    let total = estimate_empty_block type in
    of_encoder-Prepends total 0 type [] _ h
      (prepend_empty_block-Prepends (new_encoder total 0) type (new_encoder-contents total 0).0)

pub size_of_non_negative_integer-le : (n : ℕ) → size_of_non_negative_integer n ≤ 8
unfolding size_of_non_negative_integer
size_of_non_negative_integer-le n = ground arith

pub number-IsElement :
    (type n : ℕ) → 1 ≤ type → type < u32_mod → IsElement type (write_non_negative_integer n).0
number-IsElement type n legal fits = record {
  legal = legal;
  fits = fits;
  sized = omega (arith, write_sizes n, size_of_non_negative_integer-le n);
}

pub make_non_negative_integer_block-lem :
    (type n : ℕ)
    → 1 ≤ type
    → type < u32_mod
    → make_non_negative_integer_block type n ≡ ok (element type (write_non_negative_integer n).0)
unfolding make_non_negative_integer_block
make_non_negative_integer_block-lem type n legal fits =
    let total = estimate_non_negative_integer_block type n in
    of_encoder-Prepends total 0 type (write_non_negative_integer n).0 _
      (number-IsElement type n legal fits)
      (prepend_non_negative_integer_block-Prepends (new_encoder total 0) type n
        (new_encoder-contents total 0).0)

pub read_block_integer-element :
    (type n : ℕ)
    → n < u64_mod
    → read_block_integer (element type (write_non_negative_integer n).0) ≡ ok n
unfolding read_block_integer
read_block_integer-element type n h =
    let bytes = (write_non_negative_integer n).0 in
    let size : length bytes ≡ size_of_non_negative_integer n = (write_sizes n).3 in
    let reads : read_non_negative_integer contiguous (size_of_non_negative_integer n) bytes
        ≡ ok (n, []) =
      subst
        (λ b. read_non_negative_integer contiguous (size_of_non_negative_integer n) b ≡ ok (n, []))
        (append-nil bytes) (read_non_negative_integer-write contiguous n [] h) in
    rw (size, reads)

-- readNonNegativeInteger reads back any 64-bit number from the block that
-- makeNonNegativeIntegerBlock returns for it, for every TLV-TYPE from 1 to 2^32 - 1.
pub read_block_integer-make :
    (type n : ℕ)
    → 1 ≤ type
    → type < u32_mod
    → n < u64_mod
    → (make_non_negative_integer_block type n >>= read_block_integer) ≡ ok n
read_block_integer-make type n legal fits h =
    rw (make_non_negative_integer_block-lem type n legal fits) (read_block_integer-element type n h)
