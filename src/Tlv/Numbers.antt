-- ===== src/Tlv/Numbers.antt =====
-- The readers and writers of tlv.hpp agree: slow and fast readers, noexcept and throwing readers,
-- sizes, and reading back what was written.
use ndn_cxx_gm.Base.{
  ℕ, zero, suc, ◌+◌, ◌*◌, ◌^◌, ◌<◌, ◌≤◌, ◌≡◌, sym, ◌∙◌, List, [], ◌∷◌, ◌++◌, length, All, take,
  drop, none, some, arith, ◌⊎◌, inl, inr, take-append, length-append, drop-append, dec_lt, subst,
  ◌%◌, ok,
}
use ndn_cxx_gm.Base.Bits.{IsByte, u64_mod}
use ndn_cxx_gm.Tlv.{
  IteratorKind, contiguous, input, big_to_native, native_to_big, read_number, read_number_fast,
  read_number_slow, read_var_number?, write_var_number, read_non_negative_integer,
  size_of_var_number, write_non_negative_integer, size_of_non_negative_integer,
}
use ndn_cxx_gm.Tlv.BigEndian.{
  length-native_to_big, native_to_big-IsByte, big_to_native-native_to_big,
  read_number_slow-big_to_native, read_number_slow-short,
}

-- The sizes that the readers are called with.
abbrev pub IsWidth : ℕ → Type 0
IsWidth size = (size ≡ 1) ⊎ (size ≡ 2) ⊎ (size ≡ 4) ⊎ (size ≡ 8)

IsWidth-elim {ℓ} : (P : ℕ → Type ℓ) → P 1 → P 2 → P 4 → P 8 → (size : ℕ) → IsWidth size → P size
IsWidth-elim P p1 p2 p4 p8 size (inl e) = subst P (sym e) p1
IsWidth-elim P p1 p2 p4 p8 size (inr (inl e)) = subst P (sym e) p2
IsWidth-elim P p1 p2 p4 p8 size (inr (inr (inl e))) = subst P (sym e) p4
IsWidth-elim P p1 p2 p4 p8 size (inr (inr (inr e))) = subst P (sym e) p8

pub fast_value :
    (size : ℕ) (bytes : List ℕ)
    → IsWidth size
    → size ≤ length bytes
    → read_number_fast size bytes ≡ some (big_to_native 0 (take size bytes), drop size bytes)
unfolding read_number_fast
fast_value size bytes w =
    IsWidth-elim
      (λ k.
        k ≤ length bytes
        → read_number_fast k bytes ≡ some (big_to_native 0 (take k bytes), drop k bytes))
      (λ h. ground arith) (λ h. ground arith) (λ h. ground arith) (λ h. ground arith) size w

width_fits : (size : ℕ) → IsWidth size → (0 + 1) * 256 ^ size ≤ u64_mod
width_fits =
    IsWidth-elim (λ k. (0 + 1) * 256 ^ k ≤ u64_mod) (omega arith) (omega arith) (omega arith)
      (omega arith)

slow_value :
    (size : ℕ) (bytes : List ℕ)
    → IsWidth size
    → All IsByte (take size bytes)
    → size ≤ length bytes
    → read_number_slow size bytes 0 ≡ some (big_to_native 0 (take size bytes), drop size bytes)
slow_value size bytes w all h =
    read_number_slow-big_to_native size bytes 0 all h (width_fits size w)

fast_short : (size : ℕ) (bytes : List ℕ) → length bytes < size → read_number_fast size bytes ≡ none
unfolding read_number_fast
fast_short size bytes h = ground arith

-- Either reader returns the big-endian value of the first `size` bytes.
pub read_number-value :
    (kind : IteratorKind) (size : ℕ) (bytes : List ℕ)
    → IsWidth size
    → All IsByte (take size bytes)
    → size ≤ length bytes
    → read_number kind size bytes ≡ some (big_to_native 0 (take size bytes), drop size bytes)
unfolding read_number
read_number-value contiguous size bytes w all h = fast_value size bytes w h
read_number-value input size bytes w all h = slow_value size bytes w all h

pub read_number-short :
    (kind : IteratorKind) (size : ℕ) (bytes : List ℕ)
    → length bytes < size
    → read_number kind size bytes ≡ none
unfolding read_number
read_number-short contiguous size bytes h = fast_short size bytes h
read_number-short input size bytes h = read_number_slow-short size bytes 0 h

All-take : (n : ℕ) (bytes : List ℕ) → All IsByte bytes → All IsByte (take n bytes)
All-take zero bytes h = tt
All-take (suc n) [] h = tt
All-take (suc n) (b ∷ bytes) h = (h.0, All-take n bytes h.1)

-- For each size that the callers pass, the byte-by-byte reader and the memcpy reader return the
-- same on every byte sequence: the same number and rest, or both a failure.
pub slow-eq-fast :
    (size : ℕ) (bytes : List ℕ)
    → IsWidth size
    → All IsByte bytes
    → read_number_slow size bytes 0 ≡ read_number_fast size bytes
slow-eq-fast size bytes w all = elim (dec_lt (length bytes) size) [
  | yes short ↦ read_number_slow-short size bytes 0 short ∙ sym (fast_short size bytes short)
  | no enough ↦
      slow_value size bytes w (All-take size bytes all) (omega arith)
      ∙ sym (fast_value size bytes w (omega arith))
]

-- A word written in network order is read back, whatever follows it.
pub read_number-native_to_big :
    (kind : IteratorKind) (size n : ℕ) (rest : List ℕ)
    → IsWidth size
    → n < 256 ^ size
    → read_number kind size (native_to_big size n ++ rest) ≡ some (n, rest)
read_number-native_to_big kind size n rest w h =
    let len = length-native_to_big size n in
    let word = take-append size (native_to_big size n) rest len in
    read_number-value kind size (native_to_big size n ++ rest) w
      (rw word (native_to_big-IsByte size n))
      (rw (length-append (native_to_big size n) rest, len) (omega arith))
    ∙ rw (
      word,
      drop-append size (native_to_big size n) rest len,
      big_to_native-native_to_big size n h,
    )

-- readVarNumber reads back what writeVarNumber wrote for a 64-bit number, from either kind of
-- iterator, and stops behind it.
pub read_var_number-write :
    (kind : IteratorKind) (n : ℕ) (rest : List ℕ)
    → n < u64_mod
    → read_var_number? kind ((write_var_number n).0 ++ rest) ≡ some (n, rest)
unfolding read_var_number? write_var_number
read_var_number-write kind n rest h = ground (
  arith,
  read_number-native_to_big kind 2 n rest,
  read_number-native_to_big kind 4 n rest,
  read_number-native_to_big kind 8 n rest,
)

-- readNonNegativeInteger, given the length that was written, reads a 64-bit number back and stops
-- behind it.
pub read_non_negative_integer-write :
    (kind : IteratorKind) (n : ℕ) (rest : List ℕ)
    → n < u64_mod
    → read_non_negative_integer kind
        (size_of_non_negative_integer n)
        ((write_non_negative_integer n).0 ++ rest)
      ≡ ok (n, rest)
unfolding read_non_negative_integer size_of_non_negative_integer write_non_negative_integer
read_non_negative_integer-write kind n rest h = ground (
  arith,
  read_number-native_to_big kind 1 n rest,
  read_number-native_to_big kind 2 n rest,
  read_number-native_to_big kind 4 n rest,
  read_number-native_to_big kind 8 n rest,
)

-- What each writer of numbers returns is what the size function answers, and the number of bytes
-- that it wrote.
pub write_sizes :
    (n : ℕ)
    → ((write_var_number n).1 ≡ size_of_var_number n)
      × (length (write_var_number n).0 ≡ size_of_var_number n)
      × ((write_non_negative_integer n).1 ≡ size_of_non_negative_integer n)
      × (length (write_non_negative_integer n).0 ≡ size_of_non_negative_integer n)
unfolding write_var_number size_of_var_number size_of_non_negative_integer
    write_non_negative_integer
write_sizes n = ground (
  arith,
  length-native_to_big 2 (n % 2 ^ 16),
  length-native_to_big 4 (n % 2 ^ 32),
  length-native_to_big 8 n,
)

pub write_var_number-IsByte : (n : ℕ) → All IsByte (write_var_number n).0
unfolding write_var_number
write_var_number-IsByte n = ground (
  arith,
  native_to_big-IsByte 2 (n % 2 ^ 16),
  native_to_big-IsByte 4 (n % 2 ^ 32),
  native_to_big-IsByte 8 n,
)

pub write_non_negative_integer-IsByte : (n : ℕ) → All IsByte (write_non_negative_integer n).0
unfolding write_non_negative_integer
write_non_negative_integer-IsByte n = ground (
  arith,
  native_to_big-IsByte 2 (n % 2 ^ 16),
  native_to_big-IsByte 4 (n % 2 ^ 32),
  native_to_big-IsByte 8 n,
)
