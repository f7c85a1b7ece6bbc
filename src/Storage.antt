-- ===== src/Storage.antt =====
-- ndn-cxx/ims: InMemoryStorage and its derived classes. What the storage asks of names and packets
-- is a record of operations and laws. A derived class is a `Policy`; an entry is identified by the
-- full name of its packet, and the pool of empty entries by their number.
pub mod Keyed
pub mod Policies
pub mod Capacity
pub mod Operations
pub mod Ordered
pub mod Slots
pub mod Invariant
pub mod Resizing
pub mod Storing
pub mod Erasing
pub mod Finding
pub mod Complete
pub mod Names
pub mod Safety
pub mod Limits
pub mod Eviction
mod Runs
use ndn_cxx_gm.Base.{
  ℕ, zero, suc, ◌+◌, ◌-◌, ◌*◌, ◌%◌, ◌≤◌, ◌<◌, ◌≡◌, List, [], ◌∷◌, Bool, true, false, Option, none,
  some, ltb, leb, ◌==◌, ◌&&◌, ◌||◌, not, if◌then◌else◌, length, ok, err, ◌>>=◌, min, max, All,
}
use ndn_cxx_gm.Base.Bits.{u64_mod}
use ndn_cxx_gm.Base
use ndn_cxx_gm.Storage.Keyed.{lookup, holds, erase_key, insert_last}
use mathlib.Core.Logic.{ite}
use mathlib.Core.List.{Mem}

-- What the storage calls of Name, K, and of Data, D: Name's order and prefixes, Data::getName and
-- Data::getFullName, with the laws of Name's order.
pub record Packets (K D : Type 0) : Type 0 where
  pub same : Discrete K
  pub less : K → K → Bool
  pub is_prefix_of : K → K → Bool
  pub get_name : D → K
  pub get_full_name : D → K
  pub less_irrefl : (a : K) → less a a ≡ false
  pub less_trans : (a b c : K) → less a b ≡ true → less b c ≡ true → less a c ≡ true
  pub less_total : (a b : K) → less a b ≡ false → less b a ≡ false → a ≡ b

-- How prefixes lie in the order of names.
pub record PrefixLaws {K D : Type 0} (packets : Packets K D) : Type 0 where
  pub prefix_first : (p a : K) → packets.is_prefix_of p a ≡ true → packets.less a p ≡ false
  pub prefix_convex :
      (p a b : K)
      → packets.is_prefix_of p b ≡ true
      → packets.less a p ≡ false
      → packets.less b a ≡ false
      → packets.is_prefix_of p a ≡ true

-- InMemoryStorageEntry, without the event that clears m_isFresh.
pub record Entry (D : Type 0) : Type 0 where
  pub packet : D
  pub is_fresh : Bool

-- InMemoryStorageLfu::CleanupEntry; the other policies do not use the frequency.
pub record Slot (K : Type 0) : Type 0 where
  pub entry : K
  pub frequency : ℕ

-- The frequency index of boost::multi_index, of which only this is documented: begin() is a value
-- with the least frequency, and the end where there is no value.
pub record ByFrequency (K : Type 0) : Type 0 where
  pub begin : List (Slot K) → Option (Slot K)
  pub begin_none : (l : List (Slot K)) → begin l ≡ none → l ≡ []
  pub begin_mem : (l : List (Slot K)) (x : Slot K) → begin l ≡ some x → Mem x l
  pub begin_least :
      (l : List (Slot K)) (x : Slot K) → begin l ≡ some x → All (λ y. x.frequency ≤ y.frequency) l

-- The derived classes.
pub data Policy (K : Type 0) : Type 0 where
  fifo : Policy K
  lru : Policy K
  lfu : ByFrequency K → Policy K
  persistent : Policy K

pub data StorageError : Type 0 where
  -- InMemoryStorage::Error
  cannot_reduce : StorageError
  -- top() and pop() of an empty stack, which is undefined
  no_free_entry : StorageError
  -- the fuel of a loop's model ran out
  stuck : StorageError

pub record Storage (K D : Type 0) : Type 0 where
  pub limit : ℕ
  pub capacity : ℕ
  pub n_packets : ℕ
  pub free_entries : ℕ
  pub cache : List (Entry D)
  pub cleanup_index : List (Slot K)

abbrev pub Result : Type 0 → Type 0
Result A = Base.Result StorageError A

-- m_initCapacity
abbrev pub init_capacity : ℕ
init_capacity = 16

-- The constructor, with init().
unfoldable pub init : {K D : Type 0} → ℕ → Storage K D
init limit =
    let capacity =
      if not (limit == u64_mod - 1) && ltb limit init_capacity then limit else init_capacity in
    record {
      limit = limit;
      capacity = capacity;
      n_packets = 0;
      free_entries = capacity;
      cache = [];
      cleanup_index = [];
    }

-- isFull()
abbrev pub is_full : {K D : Type 0} → Storage K D → Bool
is_full s = leb s.capacity s.n_packets

module _ {K D : Type 0} (packets : Packets K D) where
  open packets use {same, get_full_name}

  abbrev pub full_name : Entry D → K
  full_name e = get_full_name e.packet

  -- freeEntry, of the entry that find(name) gives.
  unfoldable pub free_entry : K → Storage K D → Storage K D
  free_entry name s = record s {
    cache = erase_key same full_name name s.cache;
    free_entries = s.free_entries + 1;
    n_packets = (s.n_packets + u64_mod - 1) % u64_mod;
  }

  -- eraseImpl
  unfoldable pub erase_impl : K → Storage K D → Storage K D
  erase_impl name s = if holds same full_name name s.cache then free_entry name s else s
