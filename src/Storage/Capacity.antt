-- ===== src/Storage/Capacity.antt =====
-- ndn-cxx/ims/in-memory-storage.cpp: setCapacity.
use ndn_cxx_gm.Base.{
  ℕ, zero, suc, ◌+◌, ◌-◌, true, false, ltb, leb, if◌then◌else◌, length, ok, err, ◌>>=◌, max,
}
use ndn_cxx_gm.Storage.{
  Packets, Policy, Storage, Result, cannot_reduce, no_free_entry, stuck, init_capacity, ℕ, err, ok,
  ◌-◌,
}
use ndn_cxx_gm.Storage.Policies.{evict_item}

-- `delete m_freeEntries.top(); m_freeEntries.pop();`, `count` times.
unfoldable pub pop_entries : ℕ → ℕ → Result ℕ
pop_entries zero free = ok free
pop_entries (suc count) zero = err no_free_entry
pop_entries (suc count) (suc free) = pop_entries count free

module _ {K D : Type 0} (packets : Packets K D) (policy : Policy K) where
  -- `while (size() > m_capacity) { if (!evictItem() && --nAllowedFailures < 0) throw; }`
  unfoldable pub evict_loop : ℕ → ℕ → Storage K D → Result (Storage K D)
  evict_loop zero failures s = err stuck
  evict_loop (suc fuel) failures s = elim (ltb s.capacity s.n_packets) [
    | false ↦ ok s
    | true ↦ elim (evict_item packets policy s).1 [
      | true ↦ evict_loop fuel failures (evict_item packets policy s).0
      | false ↦ elim failures [
        | zero ↦ err cannot_reduce
        | suc failures' ↦ evict_loop fuel failures' (evict_item packets policy s).0
      ]
    ]
  ]

  -- The push or pop loop that makes the pool agree with the new capacity.
  unfoldable pub resize_pool : ℕ → Storage K D → Result (Storage K D)
  resize_pool old_capacity s =
      if leb old_capacity s.capacity
      then ok (record s { free_entries = s.free_entries + (s.capacity - old_capacity) })
      else do
        free ← pop_entries (old_capacity - s.capacity) s.free_entries
        ok (record s { free_entries = free })

  -- setCapacity
  unfoldable pub set_capacity : ℕ → Storage K D → Result (Storage K D)
  set_capacity capacity s = do
    let failures = s.n_packets - max capacity init_capacity
    let fuel = length s.cleanup_index + failures + 1
    resized ← evict_loop fuel failures (record s { capacity = max capacity init_capacity })
    resize_pool s.capacity resized
