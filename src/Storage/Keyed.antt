-- ===== src/Storage/Keyed.antt =====
-- The multi-index containers of ndn-cxx/ims, as lists of values found by a key that no two of them
-- share: InMemoryStorage::Cache by full name, and the policies' CleanupIndex by entry.
use ndn_cxx_gm.Base.{
  ◌+◌, ◌≤◌, ◌≡◌, List, [], ◌∷◌, ◌++◌, Bool, true, false, Option, none, some, length, arith, refl,
  if◌then◌else◌, Bool-cases,
}
use mathlib.Core.Logic.{ite, if_pos, if_neg, inl, inr}

module _ {K A : Type 0} (same : Discrete K) (key : A → K) where
  -- index::find(k), and whether it is not the end.
  unfoldable pub lookup : K → List A → Option A
  lookup k [] = none
  lookup k (x ∷ xs) = ite (same (key x) k) (some x) (lookup k xs)

  unfoldable pub holds : K → List A → Bool
  holds k [] = false
  holds k (x ∷ xs) = ite (same (key x) k) true (holds k xs)

  -- erase(it), where `it` is find(k).
  unfoldable pub erase_key : K → List A → List A
  erase_key k [] = []
  erase_key k (x ∷ xs) = ite (same (key x) k) xs (x ∷ erase_key k xs)

  -- insert(x) where values are kept in the order of insertion: a value whose key is there stays.
  unfoldable pub insert_last : A → List A → List A
  insert_last x xs = if holds (key x) xs then xs else xs ++ x ∷ []

  -- No two values have one key.
  abbrev pub IsUnique : List A → Type 0
  IsUnique [] = Unit
  IsUnique (x ∷ xs) = (holds (key x) xs ≡ false) × IsUnique xs

  pub holds-append :
      (k : K) (xs : List A) (x : A)
      → holds k (xs ++ x ∷ []) ≡ ite (same (key x) k) true (holds k xs)
  unfolding holds
  holds-append k [] x = refl
  holds-append k (y ∷ xs) x = ground (arith, holds-append k xs x)

  pub append-IsUnique :
      (xs : List A) (x : A) → IsUnique xs → holds (key x) xs ≡ false → IsUnique (xs ++ x ∷ [])
  unfolding holds
  append-IsUnique [] x u h = (refl, tt)
  append-IsUnique (y ∷ xs) x u h =
      (ground (arith, holds-append (key y) xs x, u.0), append-IsUnique xs x u.1 (ground arith))

  pub holds-insert_last :
      (k : K) (xs : List A) (x : A)
      → holds k (insert_last x xs) ≡ ite (same (key x) k) true (holds k xs)
  unfolding insert_last
  holds-insert_last k xs x = ground (arith, holds-append k xs x)

  pub insert_last-IsUnique : (xs : List A) (x : A) → IsUnique xs → IsUnique (insert_last x xs)
  unfolding insert_last
  insert_last-IsUnique xs x u = elim (Bool-cases (holds (key x) xs)) [
    | inl e ↦ rw e u
    | inr e ↦ rw e (append-IsUnique xs x u e)
  ]

  pub holds-erase_key :
      (j k : K) (xs : List A)
      → IsUnique xs
      → holds j (erase_key k xs) ≡ ite (same k j) false (holds j xs)
  unfolding holds erase_key
  holds-erase_key j k [] u = ground arith
  holds-erase_key j k (x ∷ xs) u = ground (arith, holds-erase_key j k xs, u.0)

  pub erase_key-IsUnique : (k : K) (xs : List A) → IsUnique xs → IsUnique (erase_key k xs)
  unfolding holds erase_key
  erase_key-IsUnique k [] u = tt
  erase_key-IsUnique k (x ∷ xs) u = elim (same (key x) k) [
    | yes p ↦ rw (if_pos _ p) u.1
    | no p ↦
        rw (if_neg _ p)
          (ground (arith, holds-erase_key (key x) k xs u.1, u.0), erase_key-IsUnique k xs u.1)
  ]

  pub length-erase_key :
      (k : K) (xs : List A) → holds k xs ≡ true → length (erase_key k xs) + 1 ≡ length xs
  unfolding holds erase_key
  length-erase_key k [] h = cc
  length-erase_key k (x ∷ xs) h = ground (arith, length-erase_key k xs)

  pub erase_key_absent : (k : K) (xs : List A) → holds k xs ≡ false → erase_key k xs ≡ xs
  unfolding holds erase_key
  erase_key_absent k [] h = refl
  erase_key_absent k (x ∷ xs) h = ground (arith, erase_key_absent k xs)

  pub length-pos_of_holds : (k : K) (xs : List A) → holds k xs ≡ true → 1 ≤ length xs
  unfolding holds
  length-pos_of_holds k [] h = cc
  length-pos_of_holds k (x ∷ xs) h = omega arith
