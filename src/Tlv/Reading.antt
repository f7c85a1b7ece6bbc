-- ===== src/Tlv/Reading.antt =====
-- What a successful read says about the bytes, and how the readers of tlv.hpp relate.
use ndn_cxx_gm.Base.{
  if◌then◌else◌, ℕ, zero, suc, ◌+◌, ◌*◌, ◌^◌, ◌<◌, ◌≤◌, ◌≡◌, ◌↔◌, refl, ap, List, [], ◌∷◌, ◌++◌,
  length, All, take, drop, Option, none, some, arith, ◌>>=◌, ◌>>◌, guard, inl, inr, ok, err, dec_lt,
  Bool-cases, length-take, subst, ◌≢◌, ltb, take-append-drop, ◌==◌, Option-cases,
}
use ndn_cxx_gm.Base.Bits.{IsByte, u32_mod, u64_mod}
use ndn_cxx_gm.Errors.{Result, insufficient_data, or_throw-eq-ok, illegal_type}
use ndn_cxx_gm.Tlv.{
  IteratorKind, big_to_native, read_number, read_var_number?, read_type?, read_var_number,
  read_type, size_of_var_number, is_legal_type,
}
use ndn_cxx_gm.Tlv.Numbers.{IsWidth, read_number-value, read_number-short}
use native.Mathlib.Nat.{pow-suc}

All-take : (n : ℕ) (bytes : List ℕ) → All IsByte bytes → All IsByte (take n bytes)
All-take zero bytes h = tt
All-take (suc n) [] h = tt
All-take (suc n) (b ∷ bytes) h = (h.0, All-take n bytes h.1)

big_to_native-lt :
    (k acc : ℕ) (bytes : List ℕ)
    → length bytes ≡ k
    → All IsByte bytes
    → big_to_native acc bytes < (acc + 1) * 256 ^ k
big_to_native-lt zero acc [] e h = omega arith
big_to_native-lt zero acc (b ∷ bytes) e h = absurd (omega arith)
big_to_native-lt (suc k) acc [] e h = absurd (omega arith)
big_to_native-lt (suc k) acc (b ∷ bytes) e h =
    let low : (b + 1) * 256 ^ k ≤ 256 * 256 ^ k = grind arith in
    omega (
      arith,
      big_to_native-lt k (acc * 256 + b) bytes (omega arith) h.1,
      ap (λ (t : ℕ). (acc + 1) * t) (pow-suc 256 k),
    )

-- A word that was read: its bytes stand in front, it fits them, and the rest follows.
read_number-splits :
    (kind : IteratorKind) (size n : ℕ) (bytes rest : List ℕ)
    → IsWidth size
    → All IsByte bytes
    → read_number kind size bytes ≡ some (n, rest)
    → (take size bytes ++ rest ≡ bytes) × (length (take size bytes) ≡ size) × (n < 256 ^ size)
read_number-splits kind size n bytes rest w all h = elim (dec_lt (length bytes) size) [
  | yes short ↦ cc (read_number-short kind size bytes short)
  | no enough ↦
      let value = read_number-value kind size bytes w (All-take size bytes all) (omega arith) in
      let e : rest ≡ drop size bytes = cc in
      let e' : n ≡ big_to_native 0 (take size bytes) = cc in
      let len : length (take size bytes) ≡ size = omega (arith, length-take size bytes) in
      (
        rw e (take-append-drop size bytes),
        len,
        omega (arith, big_to_native-lt size 0 (take size bytes) len (All-take size bytes all)),
      )
]

-- A VAR-NUMBER in front of `rest`: a uint64_t, in no fewer bytes than its size and at most nine.
abbrev pub Splits : List ℕ → ℕ → List ℕ → Type 0
Splits bytes n rest =
    (n < u64_mod)
    × ((front : List ℕ) × (front ++ rest ≡ bytes)
        × (size_of_var_number n ≤ length front)
        × (length front ≤ 9))

size_of_var_number_word :
    (size n : ℕ) → IsWidth size → size ≢ 1 → n < 256 ^ size → size_of_var_number n ≤ size + 1
unfolding size_of_var_number
size_of_var_number_word size n (inl e) ne h = absurd (ne e)
size_of_var_number_word size n (inr (inl e)) ne h =
    let h' : n < 256 ^ 2 = subst (λ k. n < 256 ^ k) e h in ground arith
size_of_var_number_word size n (inr (inr (inl e))) ne h =
    let h' : n < 256 ^ 4 = subst (λ k. n < 256 ^ k) e h in ground arith
size_of_var_number_word size n (inr (inr (inr e))) ne h = ground arith

word_fits : (size n : ℕ) → IsWidth size → n < 256 ^ size → n < u64_mod
word_fits size n (inl e) h = let h' : n < 256 ^ 1 = subst (λ k. n < 256 ^ k) e h in omega arith
word_fits size n (inr (inl e)) h =
    let h' : n < 256 ^ 2 = subst (λ k. n < 256 ^ k) e h in omega arith
word_fits size n (inr (inr (inl e))) h =
    let h' : n < 256 ^ 4 = subst (λ k. n < 256 ^ k) e h in omega arith
word_fits size n (inr (inr (inr e))) h =
    let h' : n < 256 ^ 8 = subst (λ k. n < 256 ^ k) e h in omega arith

word-Splits :
    (kind : IteratorKind) (b size n : ℕ) (bytes rest : List ℕ)
    → IsWidth size
    → size ≢ 1
    → size ≤ 8
    → All IsByte bytes
    → read_number kind size bytes ≡ some (n, rest)
    → Splits (b ∷ bytes) n rest
word-Splits kind b size n bytes rest w ne le all h =
    let (tiles, len, fits) = read_number-splits kind size n bytes rest w all h in
    (
      word_fits size n w fits,
      (
        b ∷ take size bytes,
        ap (λ r. b ∷ r) tiles,
        omega (arith, size_of_var_number_word size n w ne fits),
        omega arith,
      ),
    )

-- A VAR-NUMBER that was read from bytes stands in front of the rest, is below 2^64, and took at
-- most nine bytes and at least the size that sizeOfVarNumber answers.
pub read_var_number?-Splits :
    (kind : IteratorKind) (bytes : List ℕ) (n : ℕ) (rest : List ℕ)
    → All IsByte bytes
    → read_var_number? kind bytes ≡ some (n, rest)
    → Splits bytes n rest
unfolding read_var_number?
read_var_number?-Splits kind [] n rest all h = cc
read_var_number?-Splits kind (b ∷ bytes) n rest all h = elim (Bool-cases (ltb b 253)) [
  | inl small ↦
      let h' : ◌≡◌ {A = Option (ℕ × List ℕ)} (some (b, bytes)) (some (n, rest)) = rw small at h in
      let e : b ≡ n = cc in
      let e' : bytes ≡ rest = cc in
      (omega arith, (b ∷ [], rw e', unfold size_of_var_number in ground arith, omega arith))
  | inr big ↦ elim (Bool-cases (b == 253)) [
    | inl two ↦
        word-Splits kind b 2 n bytes rest (inr (inl refl)) (omega arith) (omega arith) all.1
          (rw (big, two) at h)
    | inr more ↦ elim (Bool-cases (b == 254)) [
      | inl four ↦
          word-Splits kind b 4 n bytes rest (inr (inr (inl refl))) (omega arith) (omega arith) all.1
            (rw (big, more, four) at h)
      | inr eight ↦
          word-Splits kind b 8 n bytes rest (inr (inr (inr refl))) (omega arith) (omega arith) all.1
            (rw (big, more, eight) at h)
    ]
  ]
]

read_var_number?-nil : (kind : IteratorKind) → read_var_number? kind [] ≡ none
unfolding read_var_number?
read_var_number?-nil kind = refl

-- The throwing readVarNumber returns exactly when the noexcept one succeeds, with the same number
-- and rest.
pub read_var_number-agrees :
    (kind : IteratorKind) (bytes : List ℕ) (p : ℕ × List ℕ)
    → (read_var_number kind bytes ≡ ok p) ↔ (read_var_number? kind bytes ≡ some p)
unfolding read_var_number
read_var_number-agrees kind [] p = (λ h. cc, λ h. cc (read_var_number?-nil kind))
read_var_number-agrees kind (b ∷ bytes) p =
    or_throw-eq-ok (read_var_number? kind (b ∷ bytes)) insufficient_data p

type_test :
    (r : Result (ℕ × List ℕ)) (o : Option (ℕ × List ℕ)) (p : ℕ × List ℕ)
    → ((q : ℕ × List ℕ) → (r ≡ ok q) ↔ (o ≡ some q))
    → ((do (type, rest) ← r; guard (is_legal_type type) (illegal_type type); ok (type, rest))
        ≡ ok p)
      ↔ ((elim o [
        | none ↦ none
        | some (number, rest) ↦ if is_legal_type number then some (number, rest) else none
      ])
          ≡ some p)
type_test (ok q) none p h = cc ((h q).0 refl)
type_test (err e) (some q) p h = cc ((h q).1 refl)
type_test (err e) none p h = (λ k. cc, λ k. cc)
type_test (ok q) (some (n, rest)) p h =
    let e : q ≡ (n, rest) = cc ((h q).0 refl) in
    rw e (elim (Bool-cases (is_legal_type n)) [
      | inl t ↦ rw t (λ k. cc, λ k. cc)
      | inr f ↦ rw f (λ k. cc, λ k. cc)
    ])

-- The throwing readType returns exactly when the noexcept one succeeds, with the same number and
-- rest.
pub read_type-agrees :
    (kind : IteratorKind) (bytes : List ℕ) (p : ℕ × List ℕ)
    → (read_type kind bytes ≡ ok p) ↔ (read_type? kind bytes ≡ some p)
unfolding read_type read_type?
read_type-agrees kind bytes p =
    type_test (read_var_number kind bytes) (read_var_number? kind bytes) p
      (read_var_number-agrees kind bytes)

-- The noexcept readType succeeds exactly where readVarNumber does with a number from 1 to 2^32 -
-- 1, and answers that number.
pub read_type?-legal :
    (kind : IteratorKind) (bytes : List ℕ) (type : ℕ) (rest : List ℕ)
    → (read_type? kind bytes ≡ some (type, rest))
      ↔ ((read_var_number? kind bytes ≡ some (type, rest)) × (1 ≤ type) × (type < u32_mod))
unfolding read_type?
read_type?-legal kind bytes type rest = elim (Option-cases (read_var_number? kind bytes)) [
  | inl e ↦ rw e (λ h. cc, λ h. cc)
  | inr (q, e) ↦ rw e (ground arith)
]
