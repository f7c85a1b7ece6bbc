-- ===== src/Base/Memory.antt =====
-- `memcmp` of the C library on byte sequences, and the order of three-way comparisons.
use Prim.Native.Nat.{ℕ, zero, suc, ◌+◌, compare, Ordering}
use mathlib.Core.Bool.{Bool, true, false}
use mathlib.Core.Path.{◌≡◌, refl, sym, ap, ◌∙◌}
use mathlib.Core.List.{List, [], ◌∷◌, ◌++◌}
use native.Mathlib.Omega.{arith}
use ndn_cxx_gm.Base.Lists.{length}

-- The sign of the first comparison, or of the second where the first finds no difference.
abbrev pub then_by : Ordering → Ordering → Ordering
then_by Ordering.lt q = Ordering.lt
then_by Ordering.eq q = q
then_by Ordering.gt q = Ordering.gt

abbrev pub flip : Ordering → Ordering
flip Ordering.lt = Ordering.gt
flip Ordering.eq = Ordering.eq
flip Ordering.gt = Ordering.lt

abbrev pub is_eq : Ordering → Bool
is_eq Ordering.eq = true
is_eq _ = false

-- The sign of `memcmp(p, q, n)`. The code never passes an `n` above either length.
unfoldable pub memcmp : ℕ → List ℕ → List ℕ → Ordering
memcmp zero xs ys = Ordering.eq
memcmp (suc n) [] ys = Ordering.eq
memcmp (suc n) (x ∷ xs) [] = Ordering.eq
memcmp (suc n) (x ∷ xs) (y ∷ ys) = then_by (compare x y) (memcmp n xs ys)

pub compare_refl : (x : ℕ) → compare x x ≡ Ordering.eq
compare_refl x = ground arith

pub compare-eq : (x y : ℕ) → compare x y ≡ Ordering.eq → x ≡ y
compare-eq x y h = ground arith

pub then_by_assoc : (p q r : Ordering) → then_by (then_by p q) r ≡ then_by p (then_by q r)
then_by_assoc Ordering.lt q r = refl
then_by_assoc Ordering.eq q r = refl
then_by_assoc Ordering.gt q r = refl

pub then_by-eq : (p : Ordering) → then_by p Ordering.eq ≡ p
then_by-eq Ordering.lt = refl
then_by-eq Ordering.eq = refl
then_by-eq Ordering.gt = refl

-- Two parts of equal length are compared one after the other.
pub memcmp-append :
    (n m k : ℕ) (xs ys xs' ys' : List ℕ)
    → length xs ≡ n
    → length ys ≡ n
    → k ≡ n + m
    → memcmp k (xs ++ xs') (ys ++ ys') ≡ then_by (memcmp n xs ys) (memcmp m xs' ys')
unfolding memcmp
memcmp-append zero m k [] [] xs' ys' h h' e = ap (λ t. memcmp t xs' ys') (omega arith)
memcmp-append zero m k (x ∷ xs) ys xs' ys' h h' e = absurd (omega arith)
memcmp-append zero m k [] (y ∷ ys) xs' ys' h h' e = absurd (omega arith)
memcmp-append (suc n) m zero xs ys xs' ys' h h' e = absurd (omega arith)
memcmp-append (suc n) m (suc k) [] ys xs' ys' h h' e = absurd (omega arith)
memcmp-append (suc n) m (suc k) (x ∷ xs) [] xs' ys' h h' e = absurd (omega arith)
memcmp-append (suc n) m (suc k) (x ∷ xs) (y ∷ ys) xs' ys' h h' e =
    ap (then_by (compare x y))
      (memcmp-append n m k xs ys xs' ys' (omega arith) (omega arith) (omega arith))
    ∙ sym (then_by_assoc (compare x y) (memcmp n xs ys) (memcmp m xs' ys'))

pub memcmp_refl : (n : ℕ) (xs : List ℕ) → memcmp n xs xs ≡ Ordering.eq
unfolding memcmp
memcmp_refl zero xs = refl
memcmp_refl (suc n) [] = refl
memcmp_refl (suc n) (x ∷ xs) = ground (arith, memcmp_refl n xs)

-- Equal under `memcmp` over the whole length is equal.
pub memcmp-eq :
    (n : ℕ) (xs ys : List ℕ)
    → length xs ≡ n
    → length ys ≡ n
    → memcmp n xs ys ≡ Ordering.eq
    → xs ≡ ys
unfolding memcmp
memcmp-eq zero [] [] h h' e = refl
memcmp-eq zero (x ∷ xs) ys h h' e = absurd (omega arith)
memcmp-eq zero [] (y ∷ ys) h h' e = absurd (omega arith)
memcmp-eq (suc n) [] ys h h' e = absurd (omega arith)
memcmp-eq (suc n) (x ∷ xs) [] h h' e = absurd (omega arith)
memcmp-eq (suc n) (x ∷ xs) (y ∷ ys) h h' e = ground (arith, memcmp-eq n xs ys)

pub memcmp-flip : (n : ℕ) (xs ys : List ℕ) → memcmp n ys xs ≡ flip (memcmp n xs ys)
unfolding memcmp
memcmp-flip zero xs ys = refl
memcmp-flip (suc n) [] [] = refl
memcmp-flip (suc n) [] (y ∷ ys) = refl
memcmp-flip (suc n) (x ∷ xs) [] = refl
memcmp-flip (suc n) (x ∷ xs) (y ∷ ys) = ground (arith, memcmp-flip n xs ys)
