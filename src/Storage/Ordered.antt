-- ===== src/Storage/Ordered.antt =====
-- The order by full name of InMemoryStorage::Cache, and what changes of the cache keep.
use ndn_cxx_gm.Base.{◌≡◌, inl, inr, refl, List, [], ◌∷◌, true, false, All, arith, Bool-cases}
use mathlib.Core.Logic.{if_pos, if_neg}
use ndn_cxx_gm.Storage.{Packets, Entry, full_name, Policy}
use ndn_cxx_gm.Storage.Keyed.{IsUnique, holds, erase_key}
use ndn_cxx_gm.Storage.Operations.{cache_insert, mark_stale}

module _ {K D : Type 0} (packets : Packets K D) where
  open packets use {same, less, less_irrefl, less_trans, less_total}

  -- Every entry of the list comes after the name.
  abbrev pub AreAfter : K → List (Entry D) → Type 0
  AreAfter name = All (λ e. less name (full_name packets e) ≡ true)

  abbrev pub IsOrdered : List (Entry D) → Type 0
  IsOrdered [] = Unit
  IsOrdered (x ∷ cache) = AreAfter (full_name packets x) cache × IsOrdered cache

  erase_key-AreAfter :
      (name k : K) (cache : List (Entry D))
      → AreAfter name cache
      → AreAfter name (erase_key same (full_name packets) k cache)
  unfolding erase_key
  erase_key-AreAfter name k [] h = tt
  erase_key-AreAfter name k (x ∷ cache) h = elim (same (full_name packets x) k) [
    | yes p ↦ rw (if_pos _ p) h.1
    | no p ↦ rw (if_neg _ p) (h.0, erase_key-AreAfter name k cache h.1)
  ]

  pub erase_key-IsOrdered :
      (k : K) (cache : List (Entry D))
      → IsOrdered cache
      → IsOrdered (erase_key same (full_name packets) k cache)
  unfolding erase_key
  erase_key-IsOrdered k [] h = tt
  erase_key-IsOrdered k (x ∷ cache) h = elim (same (full_name packets x) k) [
    | yes p ↦ rw (if_pos _ p) h.1
    | no p ↦
        rw (if_neg _ p)
          (erase_key-AreAfter (full_name packets x) k cache h.0, erase_key-IsOrdered k cache h.1)
  ]

  AreAfter-trans :
      (a b : K) (cache : List (Entry D)) → less a b ≡ true → AreAfter b cache → AreAfter a cache
  AreAfter-trans a b [] l h = tt
  AreAfter-trans a b (x ∷ cache) l h =
      (less_trans a b (full_name packets x) l h.0, AreAfter-trans a b cache l h.1)

  pub AreAfter-absent :
      (name : K) (cache : List (Entry D))
      → AreAfter name cache
      → holds same (full_name packets) name cache ≡ false
  unfolding holds
  AreAfter-absent name [] h = refl
  AreAfter-absent name (x ∷ cache) h =
      ground (arith, AreAfter-absent name cache, less_irrefl name, h.0)

  pub IsOrdered-IsUnique :
      (cache : List (Entry D)) → IsOrdered cache → IsUnique same (full_name packets) cache
  IsOrdered-IsUnique [] h = tt
  IsOrdered-IsUnique (x ∷ cache) h =
      (AreAfter-absent (full_name packets x) cache h.0, IsOrdered-IsUnique cache h.1)

  module _ (policy : Policy K) where
    cache_insert-AreAfter :
        (name : K) (e : Entry D) (cache : List (Entry D))
        → less name (full_name packets e) ≡ true
        → AreAfter name cache
        → AreAfter name (cache_insert packets policy e cache)
    unfolding cache_insert
    cache_insert-AreAfter name e [] l h = (l, tt)
    cache_insert-AreAfter name e (x ∷ cache) l h =
        elim (Bool-cases (less (full_name packets x) (full_name packets e))) [
          | inl before ↦ rw (before, cache_insert) (h.0, cache_insert-AreAfter name e cache l h.1)
          | inr here ↦ rw (here, cache_insert) (l, h)
        ]

    less-of-ne : (a b : K) → less a b ≡ false → ¬ (a ≡ b) → less b a ≡ true
    less-of-ne a b l n = elim (Bool-cases (less b a)) [
      | inl h ↦ h
      | inr h ↦ absurd (n (less_total a b l h))
    ]

    pub cache_insert-IsOrdered :
        (e : Entry D) (cache : List (Entry D))
        → IsOrdered cache
        → holds same (full_name packets) (full_name packets e) cache ≡ false
        → IsOrdered (cache_insert packets policy e cache)
    unfolding cache_insert holds
    cache_insert-IsOrdered e [] h absent = (tt, tt)
    cache_insert-IsOrdered e (x ∷ cache) h absent =
        elim (Bool-cases (less (full_name packets x) (full_name packets e))) [
          | inl before ↦
              rw (before, cache_insert)
                (
                  cache_insert-AreAfter (full_name packets x) e cache before h.0,
                  cache_insert-IsOrdered e cache h.1 (ground arith),
                )
          | inr here ↦
              let after : less (full_name packets e) (full_name packets x) ≡ true =
                less-of-ne (full_name packets x) (full_name packets e) here (λ p. ground arith) in
              rw (here, cache_insert)
                (
                  (
                    after,
                    AreAfter-trans (full_name packets e) (full_name packets x) cache after h.0,
                  ),
                  h,
                )
        ]

    mark_stale-AreAfter :
        (name k : K) (cache : List (Entry D))
        → AreAfter name cache
        → AreAfter name (mark_stale packets policy k cache)
    unfolding mark_stale
    mark_stale-AreAfter name k [] h = tt
    mark_stale-AreAfter name k (x ∷ cache) h = elim (same (full_name packets x) k) [
      | yes p ↦ rw (if_pos _ p) h
      | no p ↦ rw (if_neg _ p) (h.0, mark_stale-AreAfter name k cache h.1)
    ]

    pub mark_stale-IsOrdered :
        (k : K) (cache : List (Entry D))
        → IsOrdered cache
        → IsOrdered (mark_stale packets policy k cache)
    unfolding mark_stale
    mark_stale-IsOrdered k [] h = tt
    mark_stale-IsOrdered k (x ∷ cache) h = elim (same (full_name packets x) k) [
      | yes p ↦ rw (if_pos _ p) h
      | no p ↦
          rw (if_neg _ p) (
            mark_stale-AreAfter (full_name packets x) k cache h.0,
            mark_stale-IsOrdered k cache h.1,
          )
    ]
