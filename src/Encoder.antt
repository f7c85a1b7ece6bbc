-- ===== src/Encoder.antt =====
-- ndn-cxx/encoding/encoder.hpp, encoder.cpp and estimator.hpp, estimator.cpp, and the integer and
-- binary block writers of block-helpers.cpp. The buffer is the list of its bytes; `m_begin` and
-- `m_end` are offsets from its start. Sizes stay below 2^64 and do not wrap.
pub mod Contents
pub mod Numbers
pub mod Estimator
mod Runs
use ndn_cxx_gm.Base.{
  ℕ, zero, suc, ◌+◌, ◌-◌, ◌*◌, ◌/◌, ◌%◌, ◌^◌, ◌<◌, ◌≤◌, ◌≡◌, List, [], ◌∷◌, ◌++◌, Bool, true, false,
  ltb, leb, if◌then◌else◌, length, take, drop, replicate,
}
use ndn_cxx_gm.Tlv.{native_to_big}

pub record Encoder : Type 0 where
  pub buffer : List ℕ
  pub begin : ℕ
  pub end : ℕ

-- Encoder(totalReserve, reserveFromBack). A new Buffer is zeroed.
unfoldable pub new_encoder : ℕ → ℕ → Encoder
new_encoder total_reserve reserve_from_back =
    let pos =
      total_reserve - (if ltb reserve_from_back total_reserve then reserve_from_back else 0) in
    record { buffer = replicate total_reserve 0; begin = pos; end = pos }

-- The bytes of [m_begin, m_end).
abbrev pub contents : Encoder → List ℕ
contents e = take (e.end - e.begin) (drop e.begin e.buffer)

abbrev pub size : Encoder → ℕ
size e = e.end - e.begin

unfoldable pub reserve : Encoder → ℕ → Bool → Encoder
reserve e size add_in_front =
    let len = length e.buffer in
    let size' = if ltb size len then len else size in
    if add_in_front
    then record {
      buffer = replicate (size' - len) 0 ++ e.buffer;
      begin = size' - (len - e.begin);
      end = size' - (len - e.end);
    }
    else record { buffer = e.buffer ++ replicate (size' - len) 0; begin = e.begin; end = e.end }

unfoldable pub reserve_back : Encoder → ℕ → Encoder
unfolding reserve
reserve_back e size =
    if ltb (length e.buffer) (e.end + size) then reserve e (length e.buffer * 2 + size) false else e

unfoldable pub reserve_front : Encoder → ℕ → Encoder
unfolding reserve
reserve_front e size = if ltb e.begin size then reserve e (length e.buffer * 2 + size) true else e

-- `std::copy(first, last, pos)` into the buffer.
abbrev pub copy : List ℕ → ℕ → List ℕ → List ℕ
copy bytes pos buffer = take pos buffer ++ (bytes ++ drop (pos + length bytes) buffer)

-- prependRange and prependBytes: the encoder afterwards, and the length that is returned.
unfoldable pub prepend_bytes : Encoder → List ℕ → Encoder × ℕ
prepend_bytes e bytes =
    let len = length bytes in
    let e' = reserve_front e len in
    let pos = e'.begin - len in (record e' { buffer = copy bytes pos e'.buffer; begin = pos }, len)

-- appendRange and appendBytes.
unfoldable pub append_bytes : Encoder → List ℕ → Encoder × ℕ
append_bytes e bytes =
    let len = length bytes in
    let e' = reserve_back e len in
    (record e' { buffer = copy bytes e'.end e'.buffer; end = e'.end + len }, len)

unfoldable pub prepend_var_number : Encoder → ℕ → Encoder × ℕ
prepend_var_number e n =
    if ltb n 253
    then ((prepend_bytes e (n % 256 ∷ [])).0, 1)
    else if leb n (2 ^ 16 - 1)
    then ((prepend_bytes (prepend_bytes e (native_to_big 2 (n % 2 ^ 16))).0 (253 ∷ [])).0, 3)
    else if leb n (2 ^ 32 - 1)
    then ((prepend_bytes (prepend_bytes e (native_to_big 4 (n % 2 ^ 32))).0 (254 ∷ [])).0, 5)
    else ((prepend_bytes (prepend_bytes e (native_to_big 8 n)).0 (255 ∷ [])).0, 9)

unfoldable pub append_var_number : Encoder → ℕ → Encoder × ℕ
append_var_number e n =
    if ltb n 253
    then ((append_bytes e (n % 256 ∷ [])).0, 1)
    else if leb n (2 ^ 16 - 1)
    then ((append_bytes (append_bytes e (253 ∷ [])).0 (native_to_big 2 (n % 2 ^ 16))).0, 3)
    else if leb n (2 ^ 32 - 1)
    then ((append_bytes (append_bytes e (254 ∷ [])).0 (native_to_big 4 (n % 2 ^ 32))).0, 5)
    else ((append_bytes (append_bytes e (255 ∷ [])).0 (native_to_big 8 n)).0, 9)

unfoldable pub prepend_non_negative_integer : Encoder → ℕ → Encoder × ℕ
prepend_non_negative_integer e n =
    if leb n (2 ^ 8 - 1)
    then prepend_bytes e (n % 256 ∷ [])
    else if leb n (2 ^ 16 - 1)
    then prepend_bytes e (native_to_big 2 (n % 2 ^ 16))
    else if leb n (2 ^ 32 - 1)
    then prepend_bytes e (native_to_big 4 (n % 2 ^ 32))
    else prepend_bytes e (native_to_big 8 n)

unfoldable pub append_non_negative_integer : Encoder → ℕ → Encoder × ℕ
append_non_negative_integer e n =
    if leb n (2 ^ 8 - 1)
    then append_bytes e (n % 256 ∷ [])
    else if leb n (2 ^ 16 - 1)
    then append_bytes e (native_to_big 2 (n % 2 ^ 16))
    else if leb n (2 ^ 32 - 1)
    then append_bytes e (native_to_big 4 (n % 2 ^ 32))
    else append_bytes e (native_to_big 8 n)

-- prependByteArrayBlock, and encoding::prependBinaryBlock on an Encoder.
unfoldable pub prepend_binary_block : Encoder → ℕ → List ℕ → Encoder × ℕ
prepend_binary_block e type array =
    let (e₁, n₁) = prepend_bytes e array in
    let (e₂, n₂) = prepend_var_number e₁ (length array) in
    let (e₃, n₃) = prepend_var_number e₂ type in (e₃, n₁ + n₂ + n₃)

-- appendByteArrayBlock
unfoldable pub append_binary_block : Encoder → ℕ → List ℕ → Encoder × ℕ
append_binary_block e type array =
    let (e₁, n₁) = append_var_number e type in
    let (e₂, n₂) = append_var_number e₁ (length array) in
    let (e₃, n₃) = append_bytes e₂ array in (e₃, n₁ + n₂ + n₃)

-- encoding::prependNonNegativeIntegerBlock on an Encoder.
unfoldable pub prepend_non_negative_integer_block : Encoder → ℕ → ℕ → Encoder × ℕ
prepend_non_negative_integer_block e type value =
    let (e₁, n₁) = prepend_non_negative_integer e value in
    let (e₂, n₂) = prepend_var_number e₁ n₁ in
    let (e₃, n₃) = prepend_var_number e₂ type in (e₃, n₁ + n₂ + n₃)

-- encoding::prependEmptyBlock on an Encoder.
unfoldable pub prepend_empty_block : Encoder → ℕ → Encoder × ℕ
prepend_empty_block e type =
    let (e₁, n₁) = prepend_var_number e 0 in
    let (e₂, n₂) = prepend_var_number e₁ type in (e₂, n₁ + n₂)
