-- ===== src/Encoder/Estimator.antt =====
-- ndn-cxx/encoding/estimator.hpp and the `template<Tag TAG>` writers of block-helpers.cpp run on an
-- estimator: it only adds up sizes, by the same calls as the encoder.
use ndn_cxx_gm.Base.{ℕ, ◌+◌, ◌≡◌, refl, ap, List, [], ◌++◌, length, length-append, arith, subst}
use ndn_cxx_gm.Tlv.{
  write_var_number, write_non_negative_integer, size_of_var_number, size_of_non_negative_integer,
}
use ndn_cxx_gm.Tlv.Numbers.{write_sizes}
use ndn_cxx_gm.Encoder.{
  Encoder, prepend_bytes, prepend_var_number, prepend_binary_block, prepend_non_negative_integer,
  prepend_non_negative_integer_block, prepend_empty_block,
}
use ndn_cxx_gm.Encoder.Contents.{IsValid}
use ndn_cxx_gm.Encoder.Numbers.{
  Prepends, Prepends-then, prepend_bytes-Prepends, prepend_var_number-Prepends,
  prepend_non_negative_integer-Prepends,
}

-- Estimator::prependByteArrayBlock, and prependBinaryBlock on an Estimator.
unfoldable pub estimate_binary_block : ℕ → ℕ → ℕ
estimate_binary_block type array_size =
    size_of_var_number type + size_of_var_number array_size + array_size

-- prependNonNegativeIntegerBlock on an Estimator.
unfoldable pub estimate_non_negative_integer_block : ℕ → ℕ → ℕ
estimate_non_negative_integer_block type value =
    let length' = size_of_non_negative_integer value in
    let length'' = length' + size_of_var_number length' in length'' + size_of_var_number type

-- prependEmptyBlock on an Estimator.
unfoldable pub estimate_empty_block : ℕ → ℕ
estimate_empty_block type = size_of_var_number 0 + size_of_var_number type

-- The element of TLV-TYPE `type` and TLV-VALUE `value`, in the shortest form.
abbrev pub tlv : ℕ → List ℕ → List ℕ
tlv type value = (write_var_number type).0 ++ ((write_var_number (length value)).0 ++ value)

pub length-tlv :
    (type : ℕ) (value : List ℕ)
    → length (tlv type value)
      ≡ size_of_var_number type + size_of_var_number (length value) + length value
length-tlv type value = omega (
  arith,
  length-append (write_var_number type).0 ((write_var_number (length value)).0 ++ value),
  length-append (write_var_number (length value)).0 value,
  (write_sizes type).1,
  (write_sizes (length value)).1,
)

-- A TLV header in front of a value that was just prepended.
pub header-Prepends :
    (e : Encoder) (type : ℕ) (value : List ℕ) (r : Encoder × ℕ)
    → Prepends e value r
    → let q = prepend_var_number r.0 r.1 in
      let t = prepend_var_number q.0 type in Prepends e (tlv type value) (t.0, r.1 + q.1 + t.1)
header-Prepends e type value r p =
    let q = prepend_var_number r.0 r.1 in
    let t = prepend_var_number q.0 type in
    let pq : Prepends r.0 (write_var_number (length value)).0 q =
      subst (λ k. Prepends r.0 (write_var_number k).0 q) p.count
        (prepend_var_number-Prepends r.0 r.1 p.valid) in
    let pt = prepend_var_number-Prepends q.0 type pq.valid in
    Prepends-then e ((write_var_number (length value)).0 ++ value) (write_var_number type).0
      (q.0, r.1 + q.1) t (r.1 + q.1 + t.1)
      (Prepends-then e value (write_var_number (length value)).0 r q (r.1 + q.1) p pq refl) pt refl

-- prependByteArrayBlock puts the element of the given TLV-TYPE and TLV-VALUE in front of the
-- contents, in the shortest form, returns its length, and does not move the buffer where there
-- was room.
pub prepend_binary_block-Prepends :
    (e : Encoder) (type : ℕ) (value : List ℕ)
    → IsValid e
    → Prepends e (tlv type value) (prepend_binary_block e type value)
unfolding prepend_binary_block
prepend_binary_block-Prepends e type value v =
    let p = prepend_bytes-Prepends e value v in
    subst
      (λ k.
        let q = prepend_var_number (prepend_bytes e value).0 k in
        let t = prepend_var_number q.0 type in
        Prepends e (tlv type value) (t.0, (prepend_bytes e value).1 + q.1 + t.1))
      p.count (header-Prepends e type value (prepend_bytes e value) p)

-- prependNonNegativeIntegerBlock writes the element whose TLV-VALUE is the NonNegativeInteger.
pub prepend_non_negative_integer_block-Prepends :
    (e : Encoder) (type value : ℕ)
    → IsValid e
    → Prepends e
        (tlv type (write_non_negative_integer value).0)
        (prepend_non_negative_integer_block e type value)
unfolding prepend_non_negative_integer_block
prepend_non_negative_integer_block-Prepends e type value v =
    header-Prepends e type (write_non_negative_integer value).0
      (prepend_non_negative_integer e value) (prepend_non_negative_integer-Prepends e value v)

pub nothing-Prepends : (e : Encoder) → IsValid e → Prepends e [] (e, 0)
nothing-Prepends e v = record {
  valid = v;
  front = refl;
  count = refl;
  room = λ fits. (omega arith, refl, refl);
}

pub prepend_empty_block-Prepends :
    (e : Encoder) (type : ℕ) → IsValid e → Prepends e (tlv type []) (prepend_empty_block e type)
unfolding prepend_empty_block
prepend_empty_block-Prepends e type v =
    let h = header-Prepends e type [] (e, 0) (nothing-Prepends e v) in
    record { valid = h.valid; front = h.front; count = omega (arith, h.count); room = h.room }

-- For the binary, the integer and the empty block the estimator answers the number of bytes that
-- the encoder reports, from every valid encoder.
pub estimates_exact :
    (e : Encoder) (type n : ℕ) (value : List ℕ)
    → IsValid e
    → (estimate_binary_block type (length value) ≡ (prepend_binary_block e type value).1)
      × (estimate_non_negative_integer_block type n
          ≡ (prepend_non_negative_integer_block e type n).1)
      × (estimate_empty_block type ≡ (prepend_empty_block e type).1)
unfolding estimate_binary_block estimate_non_negative_integer_block estimate_empty_block
estimates_exact e type n value v =
    let b = prepend_binary_block-Prepends e type value v in
    let i = prepend_non_negative_integer_block-Prepends e type n v in
    let o = prepend_empty_block-Prepends e type v in
    let size = (write_sizes n).3 in
    (
      omega (arith, b.count, length-tlv type value),
      omega (
        arith,
        i.count,
        length-tlv type (write_non_negative_integer n).0,
        ap size_of_var_number size,
        size,
      ),
      omega (arith, o.count, length-tlv type []),
    )
