-- ===== src/Storage/Eviction.antt =====
-- The order in which the policies of ndn-cxx/ims evict: the history of a cleanup index, and the
-- place in it of the value that evictItem takes.
use ndn_cxx_gm.Base.{
  ℕ, suc, ◌≤◌, ◌<◌, ◌≡◌, ◌∙◌, refl, subst, List, [], ◌∷◌, ◌++◌, true, false, some, length, All,
  arith,
}
use mathlib.Core.Logic.{ite, if_pos, if_neg}
use ndn_cxx_gm.Storage.{fifo, persistent, Slot, Policy, lru, lfu}
use ndn_cxx_gm.Storage.Slots.{after_insert-IsUnique, after_access-IsUnique, victim-holds}
use ndn_cxx_gm.Storage.Keyed.{
  erase_key-IsUnique, holds, erase_key, insert_last, IsUnique, holds-erase_key,
}
use ndn_cxx_gm.Storage.Policies.{entry_of, after_insert, after_access, before_erase, next_victim}

module _ {K : Type 0} (same : Discrete K) where
  -- The uses that count, the latest first: arrivals for fifo, arrivals and accesses for lru.
  abbrev pub noted : Policy K → K → List K → List K
  noted lru k log = k ∷ log
  noted _ k log = log

  -- The cleanup indices that the calls of the base class lead to, each with its log: afterInsert of
  -- an entry that is not there, afterAccess of one that is, and the erasure of any.
  pub data History (policy : Policy K) : List (Slot K) → List K → Type 0 where
    start : History policy [] []
    arrived :
        {index : List (Slot K)} {log : List K} (k : K)
        → History policy index log
        → holds same entry_of k index ≡ false
        → History policy (after_insert same policy k index) (k ∷ log)
    touched :
        {index : List (Slot K)} {log : List K} (k : K)
        → History policy index log
        → holds same entry_of k index ≡ true
        → History policy (after_access same policy k index) (noted policy k log)
    erased :
        {index : List (Slot K)} {log : List K} (k : K)
        → History policy index log
        → History policy (erase_key same entry_of k index) log

  -- The time of the last use in the log, 0 where there is none.
  unfoldable pub last_use : K → List K → ℕ
  last_use k [] = 0
  last_use k (j ∷ log) = ite (same j k) (suc (length log)) (last_use k log)

  abbrev IsByUse : List K → List (Slot K) → Type 0
  IsByUse log [] = Unit
  IsByUse log (x ∷ index) =
      All (λ y. last_use x.entry log < last_use y.entry log) index × IsByUse log index

  last_use-le : (k : K) (log : List K) → last_use k log ≤ length log
  unfolding last_use
  last_use-le k [] = omega arith
  last_use-le k (j ∷ log) = ground (arith, last_use-le k log)

  All-noted :
      (k : K) (x : Slot K) (log : List K) (index : List (Slot K))
      → ¬ (k ≡ x.entry)
      → holds same entry_of k index ≡ false
      → All (λ y. last_use x.entry log < last_use y.entry log) index
      → All (λ y. last_use x.entry (k ∷ log) < last_use y.entry (k ∷ log)) index
  unfolding last_use holds
  All-noted k x log [] n h a = tt
  All-noted k x log (y ∷ index) n h a = (ground arith, All-noted k x log index n (ground arith) a.1)

  -- A use of another entry keeps the order.
  IsByUse-noted :
      (k : K) (log : List K) (index : List (Slot K))
      → holds same entry_of k index ≡ false
      → IsByUse log index
      → IsByUse (k ∷ log) index
  unfolding holds
  IsByUse-noted k log [] h a = tt
  IsByUse-noted k log (x ∷ index) h a = (
    All-noted k x log index (λ p. ground arith) (ground arith) a.0,
    IsByUse-noted k log index (ground arith) a.1,
  )

  All-last :
      (k : K) (x z : Slot K) (log : List K) (index : List (Slot K))
      → ¬ (k ≡ x.entry)
      → z.entry ≡ k
      → All (λ y. last_use x.entry (k ∷ log) < last_use y.entry (k ∷ log)) index
      → All (λ y. last_use x.entry (k ∷ log) < last_use y.entry (k ∷ log)) (index ++ z ∷ [])
  unfolding last_use
  All-last k x z log [] n e a = (ground (arith, last_use-le x.entry log), tt)
  All-last k x z log (y ∷ index) n e a = (a.0, All-last k x z log index n e a.1)

  IsByUse-last :
      (k : K) (z : Slot K) (log : List K) (index : List (Slot K))
      → holds same entry_of k index ≡ false
      → z.entry ≡ k
      → IsByUse (k ∷ log) index
      → IsByUse (k ∷ log) (index ++ z ∷ [])
  unfolding holds
  IsByUse-last k z log [] h e a = (tt, tt)
  IsByUse-last k z log (x ∷ index) h e a = (
    All-last k x z log index (λ p. ground arith) e a.0,
    IsByUse-last k z log index (ground arith) e a.1,
  )

  All-erase_key {κ} :
      (P : Slot K → Type κ) (k : K) (index : List (Slot K))
      → All P index
      → All P (erase_key same entry_of k index)
  unfolding erase_key
  All-erase_key P k [] a = a
  All-erase_key P k (x ∷ index) a = elim (same x.entry k) [
    | yes p ↦ rw (if_pos _ p) a.1
    | no p ↦ rw (if_neg _ p) (a.0, All-erase_key P k index a.1)
  ]

  IsByUse-erase_key :
      (k : K) (log : List K) (index : List (Slot K))
      → IsByUse log index
      → IsByUse log (erase_key same entry_of k index)
  unfolding erase_key
  IsByUse-erase_key k log [] a = a
  IsByUse-erase_key k log (x ∷ index) a = elim (same x.entry k) [
    | yes p ↦ rw (if_pos _ p) a.1
    | no p ↦ rw (if_neg _ p) (All-erase_key _ k index a.0, IsByUse-erase_key k log index a.1)
  ]

  -- afterInsert of an entry that is not there puts it last.
  IsByUse-insert_last :
      (k : K) (log : List K) (index : List (Slot K))
      → holds same entry_of k index ≡ false
      → IsByUse log index
      → IsByUse (k ∷ log) (insert_last same entry_of (record { entry = k; frequency = 0 }) index)
  unfolding insert_last
  IsByUse-insert_last k log index h a =
      rw h (IsByUse-last k _ log index h refl (IsByUse-noted k log index h a))

  History-IsUnique :
      {policy : Policy K} {index : List (Slot K)} {log : List K}
      → History policy index log
      → IsUnique same entry_of index
  History-IsUnique start = tt
  History-IsUnique {policy = policy} (arrived {index} k h absent) =
      after_insert-IsUnique same policy k index (History-IsUnique h)
  History-IsUnique {policy = policy} (touched {index} k h held) =
      after_access-IsUnique same policy k index (History-IsUnique h)
  History-IsUnique (erased {index} k h) =
      erase_key-IsUnique same entry_of k index (History-IsUnique h)

  -- An entry that was erased is not there.
  holds-erase_key_self :
      (k : K) (index : List (Slot K))
      → IsUnique same entry_of index
      → holds same entry_of k (erase_key same entry_of k index) ≡ false
  holds-erase_key_self k index u = holds-erase_key same entry_of k k index u ∙ ground arith

  -- The policies that evict the first value of a sequence.
  abbrev pub IsSequenced : Policy K → Type 0
  IsSequenced fifo = Unit
  IsSequenced lru = Unit
  IsSequenced _ = ⊥

  stored-IsByUse :
      (policy : Policy K) (k : K) (log : List K) (index : List (Slot K))
      → IsSequenced policy
      → holds same entry_of k index ≡ false
      → IsByUse log index
      → IsByUse (k ∷ log) (after_insert same policy k index)
  unfolding after_insert
  stored-IsByUse fifo k log index q h a = IsByUse-insert_last k log index h a
  stored-IsByUse lru k log index q h a = IsByUse-insert_last k log index h a
  stored-IsByUse (lfu b) k log index q h a = absurd q
  stored-IsByUse persistent k log index q h a = absurd q

  accessed-IsByUse :
      (policy : Policy K) (k : K) (log : List K) (index : List (Slot K))
      → IsSequenced policy
      → IsUnique same entry_of index
      → IsByUse log index
      → IsByUse (noted policy k log) (after_access same policy k index)
  unfolding after_access before_erase
  accessed-IsByUse fifo k log index q u a = a
  accessed-IsByUse lru k log index q u a =
      stored-IsByUse lru k log (erase_key same entry_of k index) tt (holds-erase_key_self k index u)
        (IsByUse-erase_key k log index a)
  accessed-IsByUse (lfu b) k log index q u a = absurd q
  accessed-IsByUse persistent k log index q u a = absurd q

  History-IsByUse :
      {policy : Policy K} {index : List (Slot K)} {log : List K}
      → IsSequenced policy
      → History policy index log
      → IsByUse log index
  History-IsByUse q start = tt
  History-IsByUse {policy = policy} q (arrived {index} {log} k h absent) =
      stored-IsByUse policy k log index q absent (History-IsByUse q h)
  History-IsByUse {policy = policy} q (touched {index} {log} k h held) =
      accessed-IsByUse policy k log index q (History-IsUnique h) (History-IsByUse q h)
  History-IsByUse q (erased {index} {log} k h) = IsByUse-erase_key k log index (History-IsByUse q h)

  All-lt-le :
      (x : Slot K) (log : List K) (index : List (Slot K))
      → All (λ y. last_use x.entry log < last_use y.entry log) index
      → All (λ y. last_use x.entry log ≤ last_use y.entry log) index
  All-lt-le x log [] a = tt
  All-lt-le x log (y ∷ index) a = (omega arith, All-lt-le x log index a.1)

  victim_first :
      (policy : Policy K) (log : List K) (index : List (Slot K)) (x : Slot K)
      → IsSequenced policy
      → IsByUse log index
      → next_victim policy index ≡ some x
      → All (λ y. last_use x.entry log ≤ last_use y.entry log) index
  unfolding next_victim
  victim_first (lfu b) log index x q a h = absurd q
  victim_first persistent log index x q a h = absurd q
  victim_first fifo log [] x q a h = tt
  victim_first fifo log (y ∷ index) x q a h =
      let e : y ≡ x = ground arith in
      subst (λ z. All (λ w. last_use z.entry log ≤ last_use w.entry log) (y ∷ index)) e
        (omega arith, All-lt-le y log index a.0)
  victim_first lru log [] x q a h = tt
  victim_first lru log (y ∷ index) x q a h =
      let e : y ≡ x = ground arith in
      subst (λ z. All (λ w. last_use z.entry log ≤ last_use w.entry log) (y ∷ index)) e
        (omega arith, All-lt-le y log index a.0)

  -- For FIFO and LRU, and every cleanup index that insertions of entries that are not there,
  -- accesses of entries that are, and erasures lead to, the value that evictItem takes is in the
  -- index, and no other entry of the index was used longer ago: since its insertion for FIFO,
  -- since its last insertion or access for LRU.
  pub victim-oldest :
      (policy : Policy K) (index : List (Slot K)) (log : List K) (x : Slot K)
      → IsSequenced policy
      → History policy index log
      → next_victim policy index ≡ some x
      → (holds same entry_of x.entry index ≡ true)
        × All (λ y. last_use x.entry log ≤ last_use y.entry log) index
  victim-oldest policy index log x q h taken = (
    victim-holds same policy index x taken,
    victim_first policy log index x q (History-IsByUse q h) taken,
  )
