-- ===== src/Tlv.antt =====
-- ndn-cxx/encoding/tlv.hpp: VAR-NUMBER, TLV-TYPE and NonNegativeInteger.
-- An iterator pair [begin, end) is the list of the bytes from `begin` on; an advanced `begin` is the
-- list that is left. `false` of a noexcept reader is `none`, a thrown tlv::Error is `err`.
pub mod BigEndian
pub mod Numbers
pub mod Reading
mod Runs
use ndn_cxx_gm.Base.{
  ℕ, zero, suc, ◌+◌, ◌*◌, ◌/◌, ◌%◌, ◌^◌, ◌<◌, ◌≤◌, ◌≡◌, List, [], ◌∷◌, ◌++◌, Bool, true, false, not,
  ◌&&◌, ◌||◌, Option, none, some, ltb, leb, ◌==◌, if◌then◌else◌, length, take, drop, bit_and,
  bit_or, arith, ok, err, ◌>>=◌, ◌>>◌, guard, ◌-◌,
}
use ndn_cxx_gm.Base.Bits.{u32_mod, u64_mod}
use ndn_cxx_gm.Errors.{
  Error, Result, or_throw, empty_buffer, insufficient_data, illegal_type, invalid_number_length,
  insufficient_number_data,
}

-- `type <= 31 || (type & 0x01)`
unfoldable pub is_critical_type : ℕ → Bool
is_critical_type type = leb type 31 || not (bit_and type 0x01 == 0)

-- What `shouldSelectContiguousReadNumber` decides from the iterator's type.
pub data IteratorKind : Type 0 where
  contiguous input : IteratorKind

-- ReadNumberSlow: `number = (number << 8) | *begin`, in a uint64_t, for `size` rounds.
unfoldable pub read_number_slow : ℕ → List ℕ → ℕ → Option (ℕ × List ℕ)
read_number_slow zero bytes number = some (number, bytes)
read_number_slow (suc size) [] number = none
read_number_slow (suc size) (b ∷ bytes) number =
    read_number_slow size bytes (bit_or (number * 2 ^ 8 % u64_mod) b)

-- `boost::endian::big_to_native` of the bytes that `memcpy` put into a word.
abbrev pub big_to_native : ℕ → List ℕ → ℕ
big_to_native acc [] = acc
big_to_native acc (b ∷ bytes) = big_to_native (acc * 256 + b) bytes

-- One case of the switch in ReadNumberFast.
unfoldable pub read_word : ℕ → List ℕ → Option (ℕ × List ℕ)
read_word size bytes = some (big_to_native 0 (take size bytes), drop size bytes)

-- ReadNumberFast; the default case of the switch is unreachable.
unfoldable pub read_number_fast : ℕ → List ℕ → Option (ℕ × List ℕ)
unfolding read_word
read_number_fast size bytes =
    if ltb (length bytes) size
    then none
    else if size == 1
    then read_word 1 bytes
    else if size == 2
    then read_word 2 bytes
    else if size == 4
    then read_word 4 bytes
    else if size == 8
    then read_word 8 bytes
    else none

unfoldable pub read_number : IteratorKind → ℕ → List ℕ → Option (ℕ × List ℕ)
read_number contiguous size bytes = read_number_fast size bytes
read_number input size bytes = read_number_slow size bytes 0

-- readVarNumber, noexcept.
unfoldable pub read_var_number? : IteratorKind → List ℕ → Option (ℕ × List ℕ)
read_var_number? kind [] = none
read_var_number? kind (first_octet ∷ bytes) =
    if ltb first_octet 253
    then some (first_octet, bytes)
    else read_number kind (if first_octet == 253 then 2 else if first_octet == 254 then 4 else 8)
        bytes

-- The test of both `readType` functions on the number read.
abbrev pub is_legal_type : ℕ → Bool
is_legal_type number = not (number == 0 || ltb (u32_mod - 1) number)

-- readType, noexcept.
unfoldable pub read_type? : IteratorKind → List ℕ → Option (ℕ × List ℕ)
read_type? kind bytes = elim (read_var_number? kind bytes) [
  | none ↦ none
  | some (number, rest) ↦ if is_legal_type number then some (number, rest) else none
]

-- readVarNumber, which throws.
unfoldable pub read_var_number : IteratorKind → List ℕ → Result (ℕ × List ℕ)
read_var_number kind [] = err empty_buffer
read_var_number kind (b ∷ bytes) = or_throw (read_var_number? kind (b ∷ bytes)) insufficient_data

-- readType, which throws.
unfoldable pub read_type : IteratorKind → List ℕ → Result (ℕ × List ℕ)
read_type kind bytes = do
  (type, rest) ← read_var_number kind bytes
  guard (is_legal_type type) (illegal_type type)
  ok (type, rest)

unfoldable pub size_of_var_number : ℕ → ℕ
size_of_var_number number =
    if ltb number 253
    then 1
    else if leb number (2 ^ 16 - 1)
    then 3
    else if leb number (2 ^ 32 - 1)
    then 5
    else 9

-- The bytes of `boost::endian::native_to_big` of a word of `size` bytes.
abbrev pub native_to_big : ℕ → ℕ → List ℕ
native_to_big zero n = []
native_to_big (suc size) n = native_to_big size (n / 256) ++ (n % 256 ∷ [])

-- writeVarNumber: what is put on the stream, and the length that is returned.
unfoldable pub write_var_number : ℕ → List ℕ × ℕ
write_var_number number =
    if ltb number 253
    then (number % 256 ∷ [], 1)
    else if leb number (2 ^ 16 - 1)
    then (253 ∷ native_to_big 2 (number % 2 ^ 16), 3)
    else if leb number (2 ^ 32 - 1)
    then (254 ∷ native_to_big 4 (number % 2 ^ 32), 5)
    else (255 ∷ native_to_big 8 number, 9)

-- readNonNegativeInteger
unfoldable pub read_non_negative_integer : IteratorKind → ℕ → List ℕ → Result (ℕ × List ℕ)
read_non_negative_integer kind size bytes =
    if not (size == 1) && not (size == 2) && not (size == 4) && not (size == 8)
    then err (invalid_number_length size)
    else elim (read_number kind size bytes) [ none ↦ err insufficient_number_data | some p ↦ ok p ]

unfoldable pub size_of_non_negative_integer : ℕ → ℕ
size_of_non_negative_integer integer =
    if leb integer (2 ^ 8 - 1)
    then 1
    else if leb integer (2 ^ 16 - 1)
    then 2
    else if leb integer (2 ^ 32 - 1)
    then 4
    else 8

-- writeNonNegativeInteger: what is put on the stream, and the length that is returned.
unfoldable pub write_non_negative_integer : ℕ → List ℕ × ℕ
write_non_negative_integer integer =
    if leb integer (2 ^ 8 - 1)
    then (integer % 256 ∷ [], 1)
    else if leb integer (2 ^ 16 - 1)
    then (native_to_big 2 (integer % 2 ^ 16), 2)
    else if leb integer (2 ^ 32 - 1)
    then (native_to_big 4 (integer % 2 ^ 32), 4)
    else (native_to_big 8 integer, 8)
