-- ===== src/Tlv/BigEndian.antt =====
-- Words in network order.
use ndn_cxx_gm.Base.{
  ℕ, zero, suc, ◌+◌, ◌*◌, ◌/◌, ◌%◌, ◌^◌, ◌<◌, ◌≡◌, refl, ap, ◌∙◌, List, [], ◌∷◌, ◌++◌, length,
  length-append, All, All-append, take, drop, none, some, arith, bit_or, compare, ◌≤◌,
}
use ndn_cxx_gm.Base.Bits.{IsByte, u64_mod, bit_or_shift}
use ndn_cxx_gm.Base.Memory.{then_by, memcmp, memcmp-append, then_by-eq}
use ndn_cxx_gm.Tlv.{native_to_big, big_to_native, read_number_slow}
use native.Mathlib.Nat.{pow-suc, one-le-pow}

pub length-native_to_big : (k n : ℕ) → length (native_to_big k n) ≡ k
length-native_to_big zero n = refl
length-native_to_big (suc k) n =
    length-append (native_to_big k (n / 256)) (n % 256 ∷ [])
    ∙ omega (arith, length-native_to_big k (n / 256))

pub native_to_big-IsByte : (k n : ℕ) → All IsByte (native_to_big k n)
native_to_big-IsByte zero n = tt
native_to_big-IsByte (suc k) n =
    All-append IsByte (native_to_big k (n / 256)) (n % 256 ∷ []) (native_to_big-IsByte k (n / 256))
      (omega arith, tt)

pub big_to_native-append :
    (acc : ℕ) (xs ys : List ℕ)
    → big_to_native acc (xs ++ ys) ≡ big_to_native (big_to_native acc xs) ys
big_to_native-append acc [] ys = refl
big_to_native-append acc (x ∷ xs) ys = big_to_native-append (acc * 256 + x) xs ys

-- A word comes back from its bytes.
pub big_to_native-native_to_big : (k n : ℕ) → n < 256 ^ k → big_to_native 0 (native_to_big k n) ≡ n
big_to_native-native_to_big zero n h = omega (arith, h)
big_to_native-native_to_big (suc k) n h =
    big_to_native-append 0 (native_to_big k (n / 256)) (n % 256 ∷ [])
    ∙ omega (arith, big_to_native-native_to_big k (n / 256) (omega (arith, pow-suc 256 k)))

compare_digits :
    (a b : ℕ) → then_by (compare (a / 256) (b / 256)) (compare (a % 256) (b % 256)) ≡ compare a b
compare_digits a b = ground arith

-- The order of words is the order of their bytes in memory.
pub memcmp-native_to_big :
    (k a b : ℕ)
    → a < 256 ^ k
    → b < 256 ^ k
    → memcmp k (native_to_big k a) (native_to_big k b) ≡ compare a b
unfolding memcmp
memcmp-native_to_big zero a b h h' = ground arith
memcmp-native_to_big (suc k) a b h h' =
    memcmp-append k 1 (suc k) (native_to_big k (a / 256)) (native_to_big k (b / 256)) (a % 256 ∷ [])
      (b % 256 ∷ []) (length-native_to_big k (a / 256)) (length-native_to_big k (b / 256))
      (omega arith)
    ∙ ground (
      arith,
      memcmp-native_to_big k (a / 256) (b / 256) (omega (arith, pow-suc 256 k))
          (omega (arith, pow-suc 256 k)),
      compare_digits a b,
      then_by-eq (compare (a % 256) (b % 256)),
    )

shift_in :
    (b number : ℕ)
    → IsByte b
    → (number + 1) * 256 ≤ u64_mod
    → bit_or (number * 2 ^ 8 % u64_mod) b ≡ number * 256 + b
shift_in b number h fits =
    let e : number * 2 ^ 8 % u64_mod ≡ number * 256 = omega arith in rw e (bit_or_shift number b h)

room : (size number : ℕ) → (number + 1) * 256 ^ suc size ≤ u64_mod → (number + 1) * 256 ≤ u64_mod
room size number fits =
    let pos : 1 ≤ 256 ^ size = one-le-pow size 256 (omega arith) in
    let grow : (number + 1) * 256 * 1 ≤ (number + 1) * 256 * 256 ^ size = grind arith in
    omega (arith, ap (λ (t : ℕ). (number + 1) * t) (pow-suc 256 size))

next_fits :
    (size b number : ℕ)
    → IsByte b
    → (number + 1) * 256 ^ suc size ≤ u64_mod
    → (number * 256 + b + 1) * 256 ^ size ≤ u64_mod
next_fits size b number h fits =
    let low : (b + 1) * 256 ^ size ≤ 256 * 256 ^ size = grind arith in
    omega (arith, ap (λ (t : ℕ). (number + 1) * t) (pow-suc 256 size))

-- On the bytes of a word the slow reader's uint64_t never wraps, and accumulates the same number.
pub read_number_slow-big_to_native :
    (size : ℕ) (bytes : List ℕ) (number : ℕ)
    → All IsByte (take size bytes)
    → size ≤ length bytes
    → (number + 1) * 256 ^ size ≤ u64_mod
    → read_number_slow size bytes number
      ≡ some (big_to_native number (take size bytes), drop size bytes)
unfolding read_number_slow
read_number_slow-big_to_native zero bytes number all le fits = refl
read_number_slow-big_to_native (suc size) [] number all le fits = absurd (omega arith)
read_number_slow-big_to_native (suc size) (b ∷ bytes) number all le fits =
    rw (shift_in b number all.0 (room size number fits)) (
      read_number_slow-big_to_native size bytes (number * 256 + b) all.1 (omega arith)
        (next_fits size b number all.0 fits))

pub read_number_slow-short :
    (size : ℕ) (bytes : List ℕ) (number : ℕ)
    → length bytes < size
    → read_number_slow size bytes number ≡ none
unfolding read_number_slow
read_number_slow-short zero bytes number h = absurd (omega arith)
read_number_slow-short (suc size) [] number h = refl
read_number_slow-short (suc size) (b ∷ bytes) number h =
    read_number_slow-short size bytes _ (omega arith)
