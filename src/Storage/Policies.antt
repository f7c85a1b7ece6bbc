-- ===== src/Storage/Policies.antt =====
-- The replacement policies of ndn-cxx/ims: evictItem, afterInsert, beforeErase and afterAccess of
-- the derived classes.
use ndn_cxx_gm.Base.{◌+◌, ◌%◌, List, [], ◌∷◌, Bool, true, false, Option, none, some}
use ndn_cxx_gm.Storage.{
  Packets, Slot, Policy, fifo, lru, lfu, persistent, Storage, erase_impl, Bool, List, Option, ◌∷◌,
  ite, none, false, some, ◌+◌, true, ◌%◌,
}
use ndn_cxx_gm.Storage.Keyed.{insert_last, erase_key}
use ndn_cxx_gm.Base.Bits.{u64_mod}

abbrev pub entry_of : {K : Type 0} → Slot K → K
entry_of x = x.entry

module _ {K : Type 0} (same : Discrete K) where
  -- afterInsert
  unfoldable pub after_insert : Policy K → K → List (Slot K) → List (Slot K)
  after_insert persistent entry index = index
  after_insert fifo entry index =
      insert_last same entry_of (record { entry = entry; frequency = 0 }) index
  after_insert lru entry index =
      insert_last same entry_of (record { entry = entry; frequency = 0 }) index
  after_insert (lfu b) entry index =
      insert_last same entry_of (record { entry = entry; frequency = 0 }) index

  -- beforeErase
  unfoldable pub before_erase : Policy K → K → List (Slot K) → List (Slot K)
  before_erase persistent entry index = index
  before_erase fifo entry index = erase_key same entry_of entry index
  before_erase lru entry index = erase_key same entry_of entry index
  before_erase (lfu b) entry index = erase_key same entry_of entry index

  -- modify(find(entry), &incrementFrequency)
  unfoldable pub increment_frequency : K → List (Slot K) → List (Slot K)
  increment_frequency entry [] = []
  increment_frequency entry (x ∷ index) =
      ite (same x.entry entry) (record x { frequency = (x.frequency + 1) % u64_mod } ∷ index)
        (x ∷ increment_frequency entry index)

  -- afterAccess
  unfoldable pub after_access : Policy K → K → List (Slot K) → List (Slot K)
  unfolding after_insert before_erase
  after_access persistent entry index = index
  after_access fifo entry index = index
  after_access lru entry index = after_insert lru entry (before_erase lru entry index)
  after_access (lfu b) entry index = increment_frequency entry index

-- begin() of the index by arrival, by used time or by frequency.
unfoldable pub next_victim : {K : Type 0} → Policy K → List (Slot K) → Option (Slot K)
next_victim persistent index = none
next_victim (lfu b) index = b.begin index
next_victim fifo [] = none
next_victim fifo (x ∷ index) = some x
next_victim lru [] = none
next_victim lru (x ∷ index) = some x

module _ {K D : Type 0} (packets : Packets K D) (policy : Policy K) where
  open packets use {same}

  -- eraseImpl and the erasure of the slot.
  unfoldable pub evict : K → Storage K D → Storage K D
  evict victim s =
      let erased = erase_impl packets victim s in
      record erased { cleanup_index = erase_key same entry_of victim erased.cleanup_index }

  -- evictItem
  unfoldable pub evict_item : Storage K D → Storage K D × Bool
  evict_item s = elim (next_victim policy s.cleanup_index) [
    | none ↦ (s, false)
    | some x ↦ (evict x.entry s, true)
  ]
