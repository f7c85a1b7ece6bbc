-- ===== src/Component.antt =====
-- ndn-cxx/name-component.hpp, name-component.cpp and impl/name-component-types.hpp. A component is
-- a block; the two global conventions are passed as arguments, and sections of five functions that
-- differ in a marker and a TLV-TYPE are one function of the kind of number.
pub mod Numbers
pub mod Kinds
pub mod Order
pub mod Canonical
pub mod Compare
pub mod Successor
pub mod Values
pub mod Advance
pub mod Least
pub mod Wire
mod Runs
use ndn_cxx_gm.Base.{
  ℕ, zero, suc, ◌+◌, ◌-◌, ◌*◌, ◌%◌, ◌^◌, ◌≤◌, ◌<◌, ◌≡◌, List, [], ◌∷◌, ◌++◌, Bool, true, false, not,
  ◌&&◌, ◌||◌, ltb, leb, ◌==◌, if◌then◌else◌, length, take, drop, ok, err, ◌>>=◌, ◌>>◌, guard, min,
  compare, Ordering, bit_and,
}
use ndn_cxx_gm.Base.Bits.{u32_mod, u64_mod}
use ndn_cxx_gm.Base.Memory.{memcmp, is_eq}
use ndn_cxx_gm.Errors.{
  Result, not_a_component, wrong_digest_length, not_a_number, no_such_marker, not_of_kind,
  unknown_convention,
}
use ndn_cxx_gm.Tlv.{
  contiguous, read_non_negative_integer, size_of_non_negative_integer, size_of_var_number,
}
use ndn_cxx_gm.Encoder.{
  new_encoder, prepend_bytes, prepend_non_negative_integer, prepend_var_number,
}
use ndn_cxx_gm.Block.{Block, type, value, value_size, has_wire, wire_bytes, m_size, of_encoder}
use ndn_cxx_gm.Block.Helpers.{
  make_non_negative_integer_block, make_binary_block, read_block_integer,
}

-- Convention, and its values as an enumeration of flags.
pub data Convention : Type 0 where
  marker_convention : Convention
  typed_convention : Convention
  either_convention : Convention

abbrev pub to_underlying : Convention → ℕ
to_underlying marker_convention = 1
to_underlying typed_convention = 2
to_underlying either_convention = 3

-- g_conventionEncoding and g_conventionDecoding.
pub record Conventions : Type 0 where
  pub encoding : Convention
  pub decoding : Convention

unfoldable pub set_convention_encoding : Conventions → Convention → Result Conventions
set_convention_encoding g marker_convention = ok (record g { encoding = marker_convention })
set_convention_encoding g typed_convention = ok (record g { encoding = typed_convention })
set_convention_encoding g either_convention = err unknown_convention

unfoldable pub set_convention_decoding : Conventions → Convention → Conventions
set_convention_decoding g convention = record g { decoding = convention }

abbrev pub can_decode_marker_convention : Convention → Bool
can_decode_marker_convention decoding = not (bit_and (to_underlying decoding) 1 == 0)

abbrev pub can_decode_typed_convention : Convention → Bool
can_decode_typed_convention decoding = not (bit_and (to_underlying decoding) 2 == 0)

-- tlv::GenericNameComponent and the digest components' TLV-TYPEs.
abbrev pub generic_name_component : ℕ
generic_name_component = 8

abbrev pub implicit_sha256_digest_component : ℕ
implicit_sha256_digest_component = 1

abbrev pub parameters_sha256_digest_component : ℕ
parameters_sha256_digest_component = 2

-- util::Sha256::DIGEST_SIZE
abbrev pub digest_size : ℕ
digest_size = 32

-- ComponentTypeTable::get(type).check(comp): only the digest types have a rule.
unfoldable pub check_type : Block → Result (Unit {0})
check_type comp =
    if (type comp == implicit_sha256_digest_component)
      || (type comp == parameters_sha256_digest_component)
    then guard (value_size comp == digest_size) wrong_digest_length
    else ok tt

-- ensureValid
unfoldable pub ensure_valid : Block → Result (Unit {0})
ensure_valid comp = do
  guard (not (ltb (type comp) 1 || ltb 65535 (type comp))) (not_a_component (type comp))
  check_type comp

-- Component(const Block& wire)
unfoldable pub component : Block → Result Block
component wire = do ensure_valid wire; ok wire

-- Component(type, span value)
unfoldable pub component_of : ℕ → List ℕ → Result Block
component_of type value = do b ← make_binary_block type value; component b

-- isNumber, isNumberWithMarker
unfoldable pub is_number : Block → Bool
is_number c =
    (value_size c == 1) || (value_size c == 2) || (value_size c == 4) || (value_size c == 8)

-- `value()[0] == marker`
abbrev pub starts_with : ℕ → List ℕ → Bool
starts_with marker [] = false
starts_with marker (b ∷ bs) = b == marker

unfoldable pub is_number_with_marker : Block → ℕ → Bool
is_number_with_marker c marker =
    ((value_size c == 2) || (value_size c == 3) || (value_size c == 5) || (value_size c == 9))
    && starts_with marker (value c)

-- toNumber, toNumberWithMarker
unfoldable pub to_number : Block → Result ℕ
to_number c = do guard (is_number c) not_a_number; read_block_integer c

unfoldable pub to_number_with_marker : Block → ℕ → Result ℕ
to_number_with_marker c marker = do
  guard (is_number_with_marker c marker) no_such_marker
  (number, rest) ← read_non_negative_integer contiguous (value_size c - 1) (drop 1 (value c))
  ok number

-- The five kinds of numbers, with the marker and the TLV-TYPE of each.
pub data NumberKind : Type 0 where
  segment : NumberKind
  byte_offset : NumberKind
  version : NumberKind
  timestamp : NumberKind
  sequence_number : NumberKind

abbrev pub marker_of : NumberKind → ℕ
marker_of segment = 0
marker_of byte_offset = 251
marker_of version = 253
marker_of timestamp = 252
marker_of sequence_number = 254

abbrev pub type_of : NumberKind → ℕ
type_of segment = 50
type_of byte_offset = 52
type_of version = 54
type_of timestamp = 56
type_of sequence_number = 58

-- isVersion, isSegment, isByteOffset, isTimestamp, isSequenceNumber
unfoldable pub is_kind : Convention → NumberKind → Block → Bool
is_kind decoding kind c =
    (can_decode_marker_convention decoding
      && (type c == generic_name_component)
      && is_number_with_marker c (marker_of kind))
    || (can_decode_typed_convention decoding && (type c == type_of kind) && is_number c)

-- toVersion, toSegment, toByteOffset, toSequenceNumber, and toTimestamp up to its microseconds.
unfoldable pub to_kind : Convention → NumberKind → Block → Result ℕ
to_kind decoding kind c =
    if can_decode_marker_convention decoding && (type c == generic_name_component)
    then to_number_with_marker c (marker_of kind)
    else if can_decode_typed_convention decoding && (type c == type_of kind)
    then to_number c
    else err not_of_kind

-- fromNumber
unfoldable pub from_number : ℕ → ℕ → Result Block
from_number number type = do b ← make_non_negative_integer_block type number; component b

-- fromNumberWithMarker; the estimator adds the sizes of what the encoder is given.
unfoldable pub from_number_with_marker : ℕ → ℕ → Result Block
from_number_with_marker marker number =
    let value_length = size_of_non_negative_integer number + 1 in
    let total_length =
      value_length + size_of_var_number value_length + size_of_var_number generic_name_component in
    let encoder = new_encoder total_length 0 in
    let encoder' = (prepend_non_negative_integer encoder number).0 in
    let encoder'' = (prepend_bytes encoder' (marker ∷ [])).0 in
    let encoder''' = (prepend_var_number encoder'' value_length).0 in
    let written = (prepend_var_number encoder''' generic_name_component).0 in
    do b ← of_encoder written true; component b

-- fromVersion, fromSegment, fromByteOffset, fromSequenceNumber, and fromTimestamp of microseconds.
unfoldable pub from_kind : Convention → NumberKind → ℕ → Result Block
from_kind marker_convention kind n = from_number_with_marker (marker_of kind) n
from_kind typed_convention kind n = from_number n (type_of kind)
from_kind either_convention kind n = from_number n (type_of kind)
