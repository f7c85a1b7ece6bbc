-- ===== src/Block.antt =====
-- ndn-cxx/encoding/block.hpp and block.cpp. The shared buffer and the four iterators into it are
-- the bytes that they delimit (`Store`); sub-elements hold their own bytes. Buffers are never
-- written after a block refers to them, so that sharing them is not observable.
pub mod Elements
pub mod Wire
pub mod Parsing
pub mod Tiling
pub mod Outcomes
pub mod Helpers
pub mod RoundTrip
pub mod Changes
pub mod Encoding
mod Runs
use ndn_cxx_gm.Base.{
  ℕ, zero, suc, ◌+◌, ◌-◌, ◌*◌, ◌<◌, ◌≤◌, ◌≡◌, List, [], ◌∷◌, ◌++◌, Bool, true, false, not, ◌&&◌,
  ◌||◌, Option, none, some, ltb, leb, ◌==◌, if◌then◌else◌, length, take, drop, ok, err, ◌>>=◌, ◌>>◌,
  guard,
}
use ndn_cxx_gm.Base.Memory.{memcmp, is_eq}
use ndn_cxx_gm.Errors.{
  Result, not_enough_bytes, buffer_is_empty, length_mismatch, wire_is_empty, invalid_block_size,
  empty_value, null_buffer,
}
use ndn_cxx_gm.Tlv.{
  contiguous, input, read_type, read_type?, read_var_number, read_var_number?, size_of_var_number,
}
use ndn_cxx_gm.Encoder.{Encoder, contents, prepend_bytes, prepend_var_number, new_encoder, reserve}

-- `no_buffer`: m_buffer is null. `only_value`: m_begin == m_end, and [m_valueBegin, m_valueEnd) is
-- the value. `wire`: [m_begin, m_valueBegin) is the header and [m_valueBegin, m_end) the value.
pub data Store : Type 0 where
  no_buffer : Store
  only_value : List ℕ → Store
  wire : List ℕ → List ℕ → Store

-- m_type, the buffer and its iterators, m_size, m_elements.
mutual
  pub data Block : Type 0 where
    block : ℕ → Store → ℕ → Blocks → Block

  pub data Blocks : Type 0 where
    nil : Blocks
    cons : Block → Blocks → Blocks

abbrev pub type : Block → ℕ
type (block t s n es) = t

abbrev pub store : Block → Store
store (block t s n es) = s

abbrev pub m_size : Block → ℕ
m_size (block t s n es) = n

abbrev pub elements : Block → Blocks
elements (block t s n es) = es

-- A range of sub-elements as a list.
abbrev pub to_list : Blocks → List Block
to_list nil = []
to_list (cons b bs) = b ∷ to_list bs

abbrev pub of_list : List Block → Blocks
of_list [] = nil
of_list (b ∷ bs) = cons b (of_list bs)

-- Block()
abbrev pub invalid : Block
invalid = block 0 no_buffer 0 nil

abbrev pub is_valid : Block → Bool
is_valid b = not (type b == 0)

-- hasWire(), hasValue()
abbrev pub has_wire : Block → Bool
has_wire b = elim (store b) [
  | no_buffer ↦ false
  | only_value v ↦ false
  | wire h v ↦ not (length h + length v == 0)
]

abbrev pub has_value : Block → Bool
has_value b = elim (store b) [ no_buffer ↦ false | only_value v ↦ true | wire h v ↦ true ]

-- The bytes of [m_valueBegin, m_valueEnd), and of [m_begin, m_end).
abbrev pub value : Block → List ℕ
value b = elim (store b) [ no_buffer ↦ [] | only_value v ↦ v | wire h v ↦ v ]

abbrev pub wire_bytes : Block → List ℕ
wire_bytes b = elim (store b) [ no_buffer ↦ [] | only_value v ↦ [] | wire h v ↦ h ++ v ]

-- value_size()
abbrev pub value_size : Block → ℕ
value_size b = if has_value b then length (value b) else 0

-- The bytes over which an iterator moved.
abbrev pub passed : List ℕ → List ℕ → List ℕ
passed bytes rest = take (length bytes - length rest) bytes

-- Block(span), and Block(const uint8_t*, size_t).
unfoldable pub of_span : List ℕ → Result Block
of_span buffer = do
  (type, pos) ← read_type contiguous buffer
  (length', pos') ← read_var_number contiguous pos
  guard (leb length' (length pos')) not_enough_bytes
  let header = passed buffer pos'
  let value' = take length' pos'
  ok (block type (wire header value') (length header + length value') nil)

-- Block(buffer, begin, end, verifyLength) on the bytes of [begin, end), which lie in a buffer of
-- `buffer_size` bytes; so too Block(EncodingBuffer) and Block(ConstBufferPtr).
unfoldable pub of_range : ℕ → List ℕ → Bool → Result Block
of_range buffer_size range verify_length = do
  guard (not (buffer_size == 0)) buffer_is_empty
  (type, pos) ← read_type contiguous range
  (length', pos') ← read_var_number contiguous pos
  guard (not (verify_length && not (length' == length pos'))) length_mismatch
  ok (block type (wire (passed range pos') pos') (length range) nil)

-- Encoder::block
abbrev pub of_encoder : Encoder → Bool → Result Block
of_encoder e verify_length = of_range (length e.buffer) (contents e) verify_length

-- Block(type)
unfoldable pub of_type : ℕ → Block
of_type type = block type no_buffer (size_of_var_number type + size_of_var_number 0) nil

-- Block(type, ConstBufferPtr value)
unfoldable pub of_value : ℕ → List ℕ → Block
of_value type value =
    block type (only_value value)
      (size_of_var_number type + size_of_var_number (length value) + length value) nil

-- begin(), end() and wire(), which throw where the block has no wire encoding.
abbrev pub get_wire : Block → Result (List ℕ)
get_wire b = if has_wire b then ok (wire_bytes b) else err wire_is_empty

-- Block(type, const Block& value)
unfoldable pub of_block : ℕ → Block → Result Block
of_block type value = do
  guard (has_value value) null_buffer
  bytes ← get_wire value
  ok (of_value type bytes)

-- fromBuffer(buffer, offset): `false` is `none`.
unfoldable pub from_buffer : List ℕ → ℕ → Option Block
from_buffer buffer offset =
    let begin = drop offset buffer in
    elim (read_type? contiguous begin) [
      | none ↦ none
      | some (type, pos) ↦ elim (read_var_number? contiguous pos) [
        | none ↦ none
        | some (length', pos') ↦
            if ltb (length pos') length'
            then none
            else let header = passed begin pos' in
              let value' = take length' pos' in
              some (block type (wire header value') (length header + length value') nil)
      ]
    ]

-- fromBuffer(span)
unfoldable pub from_span : List ℕ → Option Block
unfolding from_buffer
from_span buffer = from_buffer buffer 0

-- size()
unfoldable pub get_size : Block → Result ℕ
get_size b = if is_valid b then ok (m_size b) else err invalid_block_size

-- blockFromValue()
unfoldable pub block_from_value : Block → Result Block
block_from_value b =
    if value_size b == 0 then err empty_value else of_range (length (value b)) (value b) true

-- reset(), resetWire()
abbrev pub reset : Block → Block
reset b = invalid

abbrev pub reset_wire : Block → Block
reset_wire b = block (type b) no_buffer (m_size b) (elements b)

-- operator==
unfoldable pub equals : Block → Block → Bool
equals lhs rhs =
    (type lhs == type rhs)
    && (value_size lhs == value_size rhs)
    && ((value_size lhs == 0) || is_eq (memcmp (value_size lhs) (value lhs) (value rhs)))
