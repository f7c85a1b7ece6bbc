-- ===== src/Component/Canonical.antt =====
-- The NDN canonical order, and that compare decides it by either of its ways.
use ndn_cxx_gm.Base.{
  ℕ, zero, suc, ◌+◌, ◌-◌, ◌%◌, ◌^◌, ◌≡◌, ◌≤◌, ◌<◌, ◌≢◌, refl, sym, ap, ◌∙◌, List, [], ◌∷◌, ◌++◌,
  Bool, true, false, length, length-append, append_assoc, arith, ltb, leb, ◌==◌, Bool-cases, min,
  compare, Ordering, dec_lt, inl, ℕ_discrete, ◌⊎◌, inr, subst, ap₂,
}
use ndn_cxx_gm.Base
use ndn_cxx_gm.Base.Bits.{u64_mod}
use ndn_cxx_gm.Base.Memory.{memcmp, memcmp-append, memcmp_refl, then_by, compare_refl}
use ndn_cxx_gm.Tlv.{write_var_number, size_of_var_number, native_to_big}
use ndn_cxx_gm.Tlv.BigEndian.{memcmp-native_to_big, length-native_to_big}
use ndn_cxx_gm.Tlv.Numbers.{write_sizes}

-- Canonical order: by TLV-TYPE, then_by by TLV-LENGTH, then_by by the bytes.
abbrev pub canonical : ℕ → List ℕ → ℕ → List ℕ → Ordering
canonical t v t' v' =
    then_by (Base.compare t t')
      (then_by (Base.compare (length v) (length v')) (memcmp (length v) v v'))

-- A first difference decides.
memcmp_first :
    (x y k : ℕ) (xs ys : List ℕ) → x ≢ y → memcmp (suc k) (x ∷ xs) (y ∷ ys) ≡ Base.compare x y
unfolding memcmp
memcmp_first x y k xs ys h = ground arith

-- The bytes of two words in front of anything.
memcmp_words :
    (mark k a b n : ℕ) (xs ys : List ℕ)
    → a ≢ b
    → a < 256 ^ k
    → b < 256 ^ k
    → suc k ≤ n
    → memcmp n (mark ∷ (native_to_big k a ++ xs)) (mark ∷ (native_to_big k b ++ ys))
      ≡ Base.compare a b
unfolding memcmp
memcmp_words mark k a b zero xs ys ne h h' le = absurd (omega arith)
memcmp_words mark k a b (suc n) xs ys ne h h' le =
    let split =
      memcmp-append k (n - k) n (native_to_big k a) (native_to_big k b) xs ys
        (length-native_to_big k a) (length-native_to_big k b) (omega arith) in
    ground (arith, split, memcmp-native_to_big k a b h h', compare_refl mark)

-- The first octet, the number of bytes behind it, and which numbers have these.
abbrev Class : ℕ → ℕ → ℕ → Type 0
Class n mark k =
    ((n < 253) × (mark ≡ n) × (k ≡ 0))
    ⊎ ((253 ≤ n) × (n < 2 ^ 16) × (mark ≡ 253) × (k ≡ 2))
    ⊎ ((2 ^ 16 ≤ n) × (n < 2 ^ 32) × (mark ≡ 254) × (k ≡ 4))
    ⊎ ((2 ^ 32 ≤ n) × (mark ≡ 255) × (k ≡ 8))

record Form (n : ℕ) : Type 0 where
  mark : ℕ
  width : ℕ
  class : Class n mark width
  bytes : (write_var_number n).0 ≡ mark ∷ native_to_big width n
  size : size_of_var_number n ≡ suc width

form : (n : ℕ) → Form n
unfolding write_var_number size_of_var_number
form n = elim (dec_lt n 253) [
  | yes h ↦
      let t : ltb n 253 ≡ true = ground arith in
      let m : n % 256 ≡ n = omega arith in
      record { mark = n; width = 0; class = inl (h, refl, refl); bytes = rw (t, m); size = rw t }
  | no h ↦
      let t : ltb n 253 ≡ false = ground arith in
      elim (dec_lt n (2 ^ 16)) [
        | yes h' ↦
            let t' : leb n (2 ^ 16 - 1) ≡ true = ground arith in
            let m : n % 2 ^ 16 ≡ n = omega arith in
            record {
              mark = 253;
              width = 2;
              class = inr (inl (omega arith, h', refl, refl));
              bytes = rw (t, t') (ap (λ x. 253 ∷ native_to_big 2 x) m);
              size = rw (t, t');
            }
        | no h' ↦
            let t' : leb n (2 ^ 16 - 1) ≡ false = ground arith in
            elim (dec_lt n (2 ^ 32)) [
              | yes h'' ↦
                  let t'' : leb n (2 ^ 32 - 1) ≡ true = ground arith in
                  let m : n % 2 ^ 32 ≡ n = omega arith in
                  record {
                    mark = 254;
                    width = 4;
                    class = inr (inr (inl (omega arith, h'', refl, refl)));
                    bytes = rw (t, t', t'') (ap (λ x. 254 ∷ native_to_big 4 x) m);
                    size = rw (t, t', t'');
                  }
              | no h'' ↦
                  let t'' : leb n (2 ^ 32 - 1) ≡ false = ground arith in
                  record {
                    mark = 255;
                    width = 8;
                    class = inr (inr (inr (omega arith, refl, refl)));
                    bytes = rw (t, t', t'');
                    size = rw (t, t', t'');
                  }
            ]
      ]
]

Class-order :
    (n n' m m' k k' : ℕ)
    → Class n m k
    → Class n' m' k'
    → m ≢ m'
    → Base.compare m m' ≡ Base.compare n n'
Class-order n n' m m' k k' c c' h = ground arith

Class-width :
    (n n' m k k' : ℕ)
    → Class n m k
    → Class n' m k'
    → n ≢ n'
    → n < u64_mod
    → n' < u64_mod
    → (k' ≡ k) × (n < 256 ^ k) × (n' < 256 ^ k)
Class-width n n' m k k' c c' ne h h' = (ground arith, ground arith, ground arith)

-- The encodings of two different numbers compare as the numbers do.
pub memcmp-write_var_number-ne :
    (n n' k : ℕ) (xs ys : List ℕ)
    → n ≢ n'
    → n < u64_mod
    → n' < u64_mod
    → min (size_of_var_number n) (size_of_var_number n') ≤ k
    → memcmp k ((write_var_number n).0 ++ xs) ((write_var_number n').0 ++ ys) ≡ Base.compare n n'
memcmp-write_var_number-ne n n' zero xs ys ne h h' le =
    absurd (omega (arith, (form n).size, (form n').size))
memcmp-write_var_number-ne n n' (suc k) xs ys ne h h' le =
    let f = form n in
    let g = form n' in
    elim (ℕ_discrete f.mark g.mark) [
      | yes e ↦
          let g_class = subst (λ m. Class n' m g.width) (sym e) g.class in
          let (w, small, small') =
            Class-width n n' f.mark f.width g.width f.class g_class ne h h' in
          let g_bytes : (write_var_number n').0 ≡ f.mark ∷ native_to_big f.width n' =
            g.bytes ∙ ap₂ (λ m j. m ∷ native_to_big j n') (sym e) w in
          rw (f.bytes, g_bytes)
            (memcmp_words f.mark f.width n n' (suc k) xs ys ne small small'
              (omega (arith, f.size, g.size, w)))
      | no e ↦
          rw (f.bytes, g.bytes)
            (memcmp_first f.mark g.mark k (native_to_big f.width n ++ xs)
                (native_to_big g.width n' ++ ys) e
              ∙ Class-order n n' f.mark g.mark f.width g.width f.class g.class e)
    ]

-- Behind equal numbers, the rest decides.
pub memcmp-write_var_number-eq :
    (n k : ℕ) (xs ys : List ℕ)
    → size_of_var_number n ≤ k
    → memcmp k ((write_var_number n).0 ++ xs) ((write_var_number n).0 ++ ys)
      ≡ memcmp (k - size_of_var_number n) xs ys
memcmp-write_var_number-eq n k xs ys le =
    memcmp-append (size_of_var_number n) (k - size_of_var_number n) k (write_var_number n).0
      (write_var_number n).0 xs ys (write_sizes n).1 (write_sizes n).1 (omega arith)
    ∙ ap (λ o. then_by o (memcmp (k - size_of_var_number n) xs ys))
        (memcmp_refl (size_of_var_number n) (write_var_number n).0)
