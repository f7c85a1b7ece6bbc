-- ===== src/Lp/Field.antt =====
-- ndn-cxx/lp/field-decl.hpp: how the value of a field is made into an element and read back. Encoding
-- takes in what Packet::add does with it: an estimator, a buffer of that size, and its block.
use ndn_cxx_gm.Base.{
  ℕ, ◌≤◌, ◌<◌, ◌≡◌, ◌∙◌, ap, List, true, false, not, ◌==◌, length, ok, ◌>>=◌, ◌>>◌, guard, arith,
}
use ndn_cxx_gm.Errors.{Result, unexpected_type, must_be_empty, must_be_64_bits, cannot_be_empty}
use ndn_cxx_gm.Tlv.{native_to_big, big_to_native}
use ndn_cxx_gm.Tlv.BigEndian.{length-native_to_big, big_to_native-native_to_big}
use ndn_cxx_gm.Base.Bits.{u32_mod, u64_mod}
use ndn_cxx_gm.Block.{Block, type, value, value_size}
use ndn_cxx_gm.Block.Parsing.{element}
use ndn_cxx_gm.Block.Helpers.{
  make_empty_block, make_non_negative_integer_block, make_binary_block, read_block_integer,
  make_empty_block-lem, make_binary_block-lem, make_non_negative_integer_block-lem,
  read_block_integer-element,
}
use ndn_cxx_gm.Lp.Headers.{
  encode_nack, decode_nack, encode_cache_policy, decode_cache_policy, nack_type, cache_policy_type,
  int_mod, encode_nack-element, decode_nack-element, encode_cache_policy-element,
  decode_cache_policy-element,
}

-- EmptyValue, NonNegativeIntegerTag, uint64_t, a pair of iterators into a buffer, NackHeader and
-- CachePolicy. PrefixAnnouncementHeader, which holds a Data, is left out: what its encoding makes is
-- an argument of add and set.
pub data FieldValue : Type 0 where
  empty_value : FieldValue
  non_negative_integer : ℕ → FieldValue
  unsigned_64 : ℕ → FieldValue
  range : List ℕ → FieldValue
  nack : ℕ → FieldValue
  cache_policy : ℕ → FieldValue

pub data Helper : Type 0 where
  empty_helper : Helper
  integer_helper : Helper
  unsigned_64_helper : Helper
  range_helper : Helper
  nack_helper : Helper
  cache_policy_helper : Helper

-- EncodeHelper::encode
unfoldable pub encode_value : ℕ → FieldValue → Result Block
encode_value t empty_value = make_empty_block t
encode_value t (non_negative_integer n) = make_non_negative_integer_block t n
encode_value t (unsigned_64 n) = make_binary_block t (native_to_big 8 n)
encode_value t (range bytes) = make_binary_block t bytes
encode_value t (nack m_reason) = encode_nack m_reason
encode_value t (cache_policy m_policy) = encode_cache_policy m_policy

-- DecodeHelper::decode
unfoldable pub decode_value : Helper → Block → Result FieldValue
decode_value empty_helper wire = do
  guard (value_size wire == 0) (must_be_empty (type wire))
  ok empty_value
decode_value integer_helper wire = do n ← read_block_integer wire; ok (non_negative_integer n)
decode_value unsigned_64_helper wire = do
  guard (value_size wire == 8) (must_be_64_bits (type wire))
  ok (unsigned_64 (big_to_native 0 (value wire)))
decode_value range_helper wire = do
  guard (not (value_size wire == 0)) (cannot_be_empty (type wire))
  ok (range (value wire))
decode_value nack_helper wire = do m_reason ← decode_nack wire; ok (nack m_reason)
decode_value cache_policy_helper wire = do
  m_policy ← decode_cache_policy wire
  ok (cache_policy m_policy)

-- FieldDecl::decode
unfoldable pub decode_field : ℕ → Helper → Block → Result FieldValue
decode_field t helper wire = do
  guard (type wire == t) (unexpected_type (type wire))
  decode_value helper wire

abbrev pub helper_of : FieldValue → Helper
helper_of empty_value = empty_helper
helper_of (non_negative_integer n) = integer_helper
helper_of (unsigned_64 n) = unsigned_64_helper
helper_of (range bytes) = range_helper
helper_of (nack m_reason) = nack_helper
helper_of (cache_policy m_policy) = cache_policy_helper

-- Values that C++ holds and a field of TLV-TYPE `t` can carry: 64-bit numbers, some bytes but not
-- none, and in fields of their own types a reason and the policy NO_CACHE.
unfoldable pub IsFieldValue : ℕ → FieldValue → Type 0
IsFieldValue t empty_value = Unit
IsFieldValue t (non_negative_integer n) = n < u64_mod
IsFieldValue t (unsigned_64 n) = n < u64_mod
IsFieldValue t (range bytes) = (1 ≤ length bytes) × (length bytes < u64_mod)
IsFieldValue t (nack m_reason) = (t ≡ nack_type) × (m_reason < int_mod)
IsFieldValue t (cache_policy m_policy) = (t ≡ cache_policy_type) × (m_policy ≡ 1)

decode_unsigned_64 :
    (t : ℕ) (bytes : List ℕ)
    → length bytes ≡ 8
    → decode_field t unsigned_64_helper (element t bytes) ≡ ok (unsigned_64 (big_to_native 0 bytes))
unfolding decode_field decode_value
decode_unsigned_64 t bytes h =
    let same : (t == t) ≡ true = ground arith in
    let width : (length bytes == 8) ≡ true = ground arith in rw (same, width)

-- A value of one of six kinds (no value, an integer in the shortest form, an integer of eight
-- bytes, some bytes but not none, a NackHeader with a reason that is not negative, and a
-- CachePolicy that is NO_CACHE), whose numbers and sizes fit 64 bits, made into an element of any
-- TLV-TYPE from 1 to 2^32 - 1, or for the two classes of their own TLV-TYPE, is read back by
-- FieldDecl::decode with the helper of its kind.
pub decode_field-encode_value :
    (t : ℕ) (v : FieldValue)
    → 1 ≤ t
    → t < u32_mod
    → IsFieldValue t v
    → (encode_value t v >>= decode_field t (helper_of v)) ≡ ok v
unfolding encode_value decode_field decode_value IsFieldValue
decode_field-encode_value t empty_value legal fits is =
    let same : (t == t) ≡ true = ground arith in
    rw (make_empty_block-lem t (record { legal = legal; fits = fits; sized = omega arith }), same)
decode_field-encode_value t (non_negative_integer n) legal fits is =
    let same : (t == t) ≡ true = ground arith in
    rw (make_non_negative_integer_block-lem t n legal fits, same, read_block_integer-element t n is)
decode_field-encode_value t (unsigned_64 n) legal fits is =
    let bytes = native_to_big 8 n in
    let eight : length bytes ≡ 8 = length-native_to_big 8 n in
    let made =
      make_binary_block-lem t bytes (record { legal = legal; fits = fits; sized = omega arith }) in
    rw made (
      decode_unsigned_64 t bytes eight
      ∙ ap (λ m. ok (unsigned_64 m)) (big_to_native-native_to_big 8 n is))
decode_field-encode_value t (range bytes) legal fits (some_bytes, is) =
    let same : (t == t) ≡ true = ground arith in
    let made = make_binary_block-lem t bytes (record { legal = legal; fits = fits; sized = is }) in
    let present : (length bytes == 0) ≡ false = ground arith in rw (made, same, present)
decode_field-encode_value t (nack m_reason) legal fits (own, is) =
    let same : (nack_type == t) ≡ true = ground arith in
    rw (encode_nack-element m_reason, same, decode_nack-element m_reason is)
decode_field-encode_value t (cache_policy m_policy) legal fits (own, is) =
    let same : (cache_policy_type == t) ≡ true = ground arith in
    rw (is, encode_cache_policy-element, same, decode_cache_policy-element)
