-- ===== src/Component/Values.antt =====
-- Values as big-endian numbers: their order is memcmp's, and `increment` adds one.
use ndn_cxx_gm.Base.{
  ℕ, zero, suc, ◌+◌, ◌*◌, ◌%◌, ◌^◌, ◌≡◌, ◌<◌, refl, sym, ap, ◌∙◌, List, [], ◌∷◌, true, false,
  length, arith, All, compare, if◌then◌else◌, Bool-cases, inl, inr, Bool, ◌==◌, dec_lt, subst, ◌⊎◌,
  length-append, All-append,
}
use ndn_cxx_gm.Base.Bits.{IsByte}
use ndn_cxx_gm.Base.Memory.{memcmp, then_by, then_by_assoc}
use ndn_cxx_gm.Tlv.{big_to_native}
use ndn_cxx_gm.Component.Successor.{increment, next_value}
use native.Mathlib.Nat.{add-mul, mul_assoc, mul_comm, pow-suc}
use ndn_cxx_gm.Tlv.BigEndian.{big_to_native-append}

abbrev pub number : List ℕ → ℕ
number v = big_to_native 0 v

big_to_native-acc : (acc : ℕ) (v : List ℕ) → big_to_native acc v ≡ acc * 256 ^ length v + number v
big_to_native-acc acc [] = omega arith
big_to_native-acc acc (b ∷ bs) =
    let z : 0 * 256 + b ≡ b = omega arith in
    let first_digit : number (b ∷ bs) ≡ b * 256 ^ length bs + number bs =
      ap (λ a. big_to_native a bs) z ∙ big_to_native-acc b bs in
    big_to_native-acc (acc * 256 + b) bs
    ∙ distribute acc b (256 ^ length bs) (number bs) (256 ^ suc (length bs)) (number (b ∷ bs))
        (pow-suc 256 (length bs)) first_digit
  where
    distribute : (a b p m q n : ℕ) → q ≡ p * 256 → n ≡ b * p + m → (a * 256 + b) * p + m ≡ a * q + n
    distribute a b p m q n e e' =
        rw (e, e')
          (omega
            (arith, add-mul (a * 256) b p, mul_assoc a 256 p, ap (λ t. a * t) (mul_comm 256 p)))

pub number_cons : (b : ℕ) (bs : List ℕ) → number (b ∷ bs) ≡ b * 256 ^ length bs + number bs
number_cons b bs =
    let z : 0 * 256 + b ≡ b = omega arith in ap (λ a. big_to_native a bs) z ∙ big_to_native-acc b bs

pub number-lt : (v : List ℕ) → All IsByte v → number v < 256 ^ length v
number-lt [] h = omega arith
number-lt (b ∷ bs) h =
    let ih = number-lt bs h.1 in
    let n = number_cons b bs in
    let p = pow-suc 256 (length bs) in
    let byte : b < 256 = h.0 in
    digit b (256 ^ length bs) (number bs) (number (b ∷ bs)) (256 ^ suc (length bs)) byte ih n p
  where
    digit : (b p m n q : ℕ) → b < 256 → m < p → n ≡ b * p + m → q ≡ p * 256 → n < q
    digit b p m n q h h' e e' = grind arith

digit_order :
    (a b x y : ℕ)
    → x < 256
    → y < 256
    → compare (a * 256 + x) (b * 256 + y) ≡ then_by (compare a b) (compare x y)
digit_order a b x y h h' = ground arith

-- Of byte strings of one length, memcmp compares the numbers.
memcmp-big_to_native :
    (n a b : ℕ) (xs ys : List ℕ)
    → length xs ≡ n
    → length ys ≡ n
    → All IsByte xs
    → All IsByte ys
    → then_by (compare a b) (memcmp n xs ys) ≡ compare (big_to_native a xs) (big_to_native b ys)
unfolding memcmp
memcmp-big_to_native zero a b [] [] h h' all all' = ground arith
memcmp-big_to_native zero a b (x ∷ xs) ys h h' all all' = absurd (omega arith)
memcmp-big_to_native zero a b [] (y ∷ ys) h h' all all' = absurd (omega arith)
memcmp-big_to_native (suc n) a b [] ys h h' all all' = absurd (omega arith)
memcmp-big_to_native (suc n) a b (x ∷ xs) [] h h' all all' = absurd (omega arith)
memcmp-big_to_native (suc n) a b (x ∷ xs) (y ∷ ys) h h' all all' =
    let byte : x < 256 = all.0 in
    let byte' : y < 256 = all'.0 in
    sym (then_by_assoc (compare a b) (compare x y) (memcmp n xs ys))
    ∙ ap (λ o. then_by o (memcmp n xs ys)) (sym (digit_order a b x y byte byte'))
    ∙ memcmp-big_to_native n (a * 256 + x) (b * 256 + y) xs ys (omega arith) (omega arith) all.1
        all'.1

kept_digit : (b p r m x n : ℕ) → r + 0 ≡ m + 1 → x ≡ b * p + r → n ≡ b * p + m → x + 0 ≡ n + 1
kept_digit b p r m x n h e e' = omega arith

carried_digit :
    (b p r m q x n : ℕ)
    → b < 256
    → r + p ≡ m + 1
    → q ≡ p * 256
    → x ≡ (b + 1) % 256 * p + r
    → n ≡ b * p + m
    → x + (if (b + 1) % 256 == 0 then q else 0) ≡ n + 1
carried_digit b p r m q x n h sum e e' e'' = elim (dec_lt b 255) [
  | yes l ↦
      let d : (b + 1) % 256 ≡ suc b = omega arith in
      let t : ((b + 1) % 256 == 0) ≡ false = ground arith in
      rw (t, e', e'', d) (omega (arith, add-mul b 1 p))
  | no l ↦
      let d : (b + 1) % 256 ≡ 0 = omega arith in
      let t : ((b + 1) % 256 == 0) ≡ true = ground arith in
      let all : b ≡ 255 = omega arith in rw (t, e', e'', d, e, all) (omega arith)
]

-- increment adds one, and carries out exactly where the value has no other digit than 255.
pub record Increments (v : List ℕ) : Type 0 where
  pub same_length : length (increment v).1 ≡ length v
  pub plus_one :
      number (increment v).1 + (if (increment v).0 then 256 ^ length v else 0) ≡ number v + 1
  pub bytes : All IsByte (increment v).1

pub increment-Increments : (v : List ℕ) → All IsByte v → Increments v
increment-Increments [] h = record { same_length = refl; plus_one = omega arith; bytes = h }
increment-Increments (b ∷ bs) h =
    let ih = increment-Increments bs h.1 in
    let rest = increment bs in
    let byte : b < 256 = h.0 in
    let n = number_cons b bs in
    let p = pow-suc 256 (length bs) in
    let sum = ih.plus_one in
    elim (Bool-cases rest.0) [
      | inl e ↦
          let new = (b + 1) % 256 in
          let m = number_cons new rest.1 ∙ ap (λ l. new * 256 ^ l + number rest.1) ih.same_length in
          record {
            same_length = rw e (omega (arith, ih.same_length));
            plus_one = rw e (
                carried_digit b (256 ^ length bs) (number rest.1) (number bs)
                  (256 ^ suc (length bs)) (number (new ∷ rest.1)) (number (b ∷ bs)) byte
                  (carry sum e) p m n);
            bytes = rw e (omega arith, ih.bytes);
          }
      | inr e ↦
          let m = number_cons b rest.1 ∙ ap (λ l. b * 256 ^ l + number rest.1) ih.same_length in
          record {
            same_length = rw e (omega (arith, ih.same_length));
            plus_one = rw e (
                kept_digit b (256 ^ length bs) (number rest.1) (number bs) (number (b ∷ rest.1))
                  (number (b ∷ bs)) (carry sum e) m n);
            bytes = rw e (byte, ih.bytes);
          }
    ]
  where
    carry :
        {o : Bool}
        → number (increment bs).1 + (if (increment bs).0 then 256 ^ length bs else 0)
          ≡ number bs + 1
        → (increment bs).0 ≡ o
        → number (increment bs).1 + (if o then 256 ^ length bs else 0) ≡ number bs + 1
    carry sum e =
        subst (λ o. number (increment bs).1 + (if o then 256 ^ length bs else 0) ≡ number bs + 1) e
          sum

pub memcmp-number :
    (xs ys : List ℕ)
    → length ys ≡ length xs
    → All IsByte xs
    → All IsByte ys
    → memcmp (length xs) xs ys ≡ compare (number xs) (number ys)
memcmp-number xs ys h all all' = memcmp-big_to_native (length xs) 0 0 xs ys refl h all all'

-- The next value: as long and one more, or one byte longer and zero where there is none more.
abbrev pub Follows : List ℕ → Type 0
Follows v =
    (((increment v).0 ≡ false)
      × (length (next_value v) ≡ length v)
      × (number (next_value v) ≡ number v + 1))
    ⊎ (((increment v).0 ≡ true)
        × (length (next_value v) ≡ length v + 1)
        × (number (next_value v) ≡ 0)
        × (number v + 1 ≡ 256 ^ length v))

pub next_value-Follows : (v : List ℕ) → All IsByte v → Follows v × All IsByte (next_value v)
next_value-Follows v h =
    let i = increment-Increments v h in
    let bound = number-lt v h in
    let extended = big_to_native-append 0 (increment v).1 (0 ∷ []) in
    elim (Bool-cases (increment v).0) [
      | inr e ↦
          let sum = at_carry i.plus_one e in
          (inl (e, rw e i.same_length, rw e (omega (arith, sum))), rw e i.bytes)
      | inl e ↦
          let sum = at_carry i.plus_one e in
          (
            inr (
              e,
              rw e (omega (arith, length-append (increment v).1 (0 ∷ []), i.same_length)),
              rw e (omega (arith, extended, sum, bound)),
              omega (arith, sum, bound),
            ),
            rw e (All-append IsByte (increment v).1 (0 ∷ []) i.bytes (omega arith, tt)),
          )
    ]
  where
    at_carry :
        {o : Bool}
        → number (increment v).1 + (if (increment v).0 then 256 ^ length v else 0) ≡ number v + 1
        → (increment v).0 ≡ o
        → number (increment v).1 + (if o then 256 ^ length v else 0) ≡ number v + 1
    at_carry sum e =
        subst (λ o. number (increment v).1 + (if o then 256 ^ length v else 0) ≡ number v + 1) e sum
