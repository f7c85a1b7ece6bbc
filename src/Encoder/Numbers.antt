-- ===== src/Encoder/Numbers.antt =====
-- The number and block writers of the encoder, by the bytes that they put in front or behind.
use ndn_cxx_gm.Base.{
  ℕ, ◌+◌, ◌-◌, ◌%◌, ◌^◌, ◌≡◌, refl, sym, ap, ◌∙◌, List, [], ◌∷◌, ◌++◌, length, length-append, arith,
  ltb, append_assoc, Bool-cases, inl, leb, inr, ◌≤◌,
}
use ndn_cxx_gm.Tlv.{write_var_number, write_non_negative_integer, native_to_big}
use ndn_cxx_gm.Tlv.BigEndian.{length-native_to_big}
use ndn_cxx_gm.Encoder.{
  Encoder, contents, prepend_bytes, append_bytes, prepend_var_number, append_var_number,
  prepend_non_negative_integer, append_non_negative_integer,
}
use ndn_cxx_gm.Encoder.Contents.{
  IsValid, prepend_bytes-contents, append_bytes-contents, prepend_bytes-room,
}

-- Where there was room, the call moved `m_begin` back and left the buffer where it was.
abbrev pub StaysIn : Encoder → List ℕ → Encoder → Type 0
StaysIn e bytes e' =
    length bytes ≤ e.begin
    → (e'.begin + length bytes ≡ e.begin) × (length e'.buffer ≡ length e.buffer) × (e'.end ≡ e.end)

-- The call put `bytes` in front of the contents and returned their number.
pub record Prepends (e : Encoder) (bytes : List ℕ) (r : Encoder × ℕ) : Type 0 where
  pub valid : IsValid r.0
  pub front : contents r.0 ≡ bytes ++ contents e
  pub count : r.1 ≡ length bytes
  pub room : StaysIn e bytes r.0

-- The call put `bytes` behind the contents and returned their number.
pub record Appends (e : Encoder) (bytes : List ℕ) (r : Encoder × ℕ) : Type 0 where
  pub valid : IsValid r.0
  pub back : contents r.0 ≡ contents e ++ bytes
  pub count : r.1 ≡ length bytes

pub prepend_bytes-Prepends :
    (e : Encoder) (bytes : List ℕ) → IsValid e → Prepends e bytes (prepend_bytes e bytes)
prepend_bytes-Prepends e bytes v =
    let (v', c, n) = prepend_bytes-contents e bytes v in
    record { valid = v'; front = c; count = n; room = prepend_bytes-room e bytes v }

append_bytes-Appends :
    (e : Encoder) (bytes : List ℕ) → IsValid e → Appends e bytes (append_bytes e bytes)
append_bytes-Appends e bytes v =
    let (v', c, n) = append_bytes-contents e bytes v in record { valid = v'; back = c; count = n }

StaysIn-then :
    (e : Encoder) (xs ys : List ℕ) (e' e'' : Encoder)
    → StaysIn e xs e'
    → StaysIn e' ys e''
    → StaysIn e (ys ++ xs) e''
StaysIn-then e xs ys e' e'' p s fits =
    let len = length-append ys xs in
    let first = p (omega arith) in
    let second = s (omega (arith, first.0)) in
    (omega (arith, first.0, second.0), second.1 ∙ first.1, second.2 ∙ first.2)

-- Two calls one after the other, the second in front of the first.
pub Prepends-then :
    (e : Encoder) (xs ys : List ℕ) (r q : Encoder × ℕ) (n : ℕ)
    → Prepends e xs r
    → Prepends r.0 ys q
    → n ≡ r.1 + q.1
    → Prepends e (ys ++ xs) (q.0, n)
Prepends-then e xs ys r q n p s h = record {
  valid = s.valid;
  front = s.front ∙ ap (λ t. ys ++ t) p.front ∙ sym (append_assoc ys xs (contents e));
  count = omega (arith, length-append ys xs, p.count, s.count);
  room = λ fits. StaysIn-then e xs ys r.0 q.0 p.room s.room fits;
}

Appends-then :
    (e : Encoder) (xs ys : List ℕ) (r q : Encoder × ℕ) (n : ℕ)
    → Appends e xs r
    → Appends r.0 ys q
    → n ≡ r.1 + q.1
    → Appends e (xs ++ ys) (q.0, n)
Appends-then e xs ys r q n p s h = record {
  valid = s.valid;
  back = s.back ∙ ap (λ t. t ++ ys) p.back ∙ append_assoc (contents e) xs ys;
  count = omega (arith, length-append xs ys, p.count, s.count);
}

word-Prepends :
    (e : Encoder) (mark size n : ℕ)
    → IsValid e
    → Prepends e
        (mark ∷ native_to_big size n)
        ((prepend_bytes (prepend_bytes e (native_to_big size n)).0 (mark ∷ [])).0, size + 1)
word-Prepends e mark size n v =
    let p = prepend_bytes-Prepends e (native_to_big size n) v in
    let q = prepend_bytes-Prepends (prepend_bytes e (native_to_big size n)).0 (mark ∷ []) p.valid in
    Prepends-then e (native_to_big size n) (mark ∷ []) _ _ (size + 1) p q
      (omega (arith, p.count, q.count, length-native_to_big size n))

word-Appends :
    (e : Encoder) (mark size n : ℕ)
    → IsValid e
    → Appends e
        (mark ∷ native_to_big size n)
        ((append_bytes (append_bytes e (mark ∷ [])).0 (native_to_big size n)).0, size + 1)
word-Appends e mark size n v =
    let p = append_bytes-Appends e (mark ∷ []) v in
    let q = append_bytes-Appends (append_bytes e (mark ∷ [])).0 (native_to_big size n) p.valid in
    Appends-then e (mark ∷ []) (native_to_big size n) _ _ (size + 1) p q
      (omega (arith, p.count, q.count, length-native_to_big size n))

-- prependVarNumber puts what writeVarNumber writes in front of the contents, returns its length,
-- and does not move the buffer where there was room.
pub prepend_var_number-Prepends :
    (e : Encoder) (n : ℕ) → IsValid e → Prepends e (write_var_number n).0 (prepend_var_number e n)
unfolding prepend_var_number write_var_number
prepend_var_number-Prepends e n v = elim (Bool-cases (ltb n 253)) [
  | inl a ↦
      let p = prepend_bytes-Prepends e (n % 256 ∷ []) v in
      rw a (record { valid = p.valid; front = p.front; count = refl; room = p.room })
  | inr a ↦ elim (Bool-cases (leb n (2 ^ 16 - 1))) [
    | inl b ↦ rw (a, b) (word-Prepends e 253 2 (n % 2 ^ 16) v)
    | inr b ↦ elim (Bool-cases (leb n (2 ^ 32 - 1))) [
      | inl c ↦ rw (a, b, c) (word-Prepends e 254 4 (n % 2 ^ 32) v)
      | inr c ↦ rw (a, b, c) (word-Prepends e 255 8 n v)
    ]
  ]
]

-- AppendVarNumber puts what writeVarNumber writes behind the contents and returns its length.
pub append_var_number-Appends :
    (e : Encoder) (n : ℕ) → IsValid e → Appends e (write_var_number n).0 (append_var_number e n)
unfolding append_var_number write_var_number
append_var_number-Appends e n v = elim (Bool-cases (ltb n 253)) [
  | inl a ↦
      let p = append_bytes-Appends e (n % 256 ∷ []) v in
      rw a (record { valid = p.valid; back = p.back; count = refl })
  | inr a ↦ elim (Bool-cases (leb n (2 ^ 16 - 1))) [
    | inl b ↦ rw (a, b) (word-Appends e 253 2 (n % 2 ^ 16) v)
    | inr b ↦ elim (Bool-cases (leb n (2 ^ 32 - 1))) [
      | inl c ↦ rw (a, b, c) (word-Appends e 254 4 (n % 2 ^ 32) v)
      | inr c ↦ rw (a, b, c) (word-Appends e 255 8 n v)
    ]
  ]
]

pub prepend_non_negative_integer-Prepends :
    (e : Encoder) (n : ℕ)
    → IsValid e
    → Prepends e (write_non_negative_integer n).0 (prepend_non_negative_integer e n)
unfolding prepend_non_negative_integer write_non_negative_integer
prepend_non_negative_integer-Prepends e n v = elim (Bool-cases (leb n (2 ^ 8 - 1))) [
  | inl a ↦ rw a (prepend_bytes-Prepends e (n % 256 ∷ []) v)
  | inr a ↦ elim (Bool-cases (leb n (2 ^ 16 - 1))) [
    | inl b ↦ rw (a, b) (prepend_bytes-Prepends e (native_to_big 2 (n % 2 ^ 16)) v)
    | inr b ↦ elim (Bool-cases (leb n (2 ^ 32 - 1))) [
      | inl c ↦ rw (a, b, c) (prepend_bytes-Prepends e (native_to_big 4 (n % 2 ^ 32)) v)
      | inr c ↦ rw (a, b, c) (prepend_bytes-Prepends e (native_to_big 8 n) v)
    ]
  ]
]

pub append_non_negative_integer-Appends :
    (e : Encoder) (n : ℕ)
    → IsValid e
    → Appends e (write_non_negative_integer n).0 (append_non_negative_integer e n)
unfolding append_non_negative_integer write_non_negative_integer
append_non_negative_integer-Appends e n v = elim (Bool-cases (leb n (2 ^ 8 - 1))) [
  | inl a ↦ rw a (append_bytes-Appends e (n % 256 ∷ []) v)
  | inr a ↦ elim (Bool-cases (leb n (2 ^ 16 - 1))) [
    | inl b ↦ rw (a, b) (append_bytes-Appends e (native_to_big 2 (n % 2 ^ 16)) v)
    | inr b ↦ elim (Bool-cases (leb n (2 ^ 32 - 1))) [
      | inl c ↦ rw (a, b, c) (append_bytes-Appends e (native_to_big 4 (n % 2 ^ 32)) v)
      | inr c ↦ rw (a, b, c) (append_bytes-Appends e (native_to_big 8 n) v)
    ]
  ]
]
