-- ===== src/Storage/Limits.antt =====
-- A storage of ndn-cxx/ims whose limit is below the initial capacity: setCapacity never goes below
-- m_initCapacity, so an erase raises the capacity above the limit.
use ndn_cxx_gm.Base.{
  ℕ, ◌*◌, ◌/◌, ◌%◌, ◌<◌, ◌≡◌, inr, lt→ltb, ◌∙◌, refl, true, false, leb, ok, err, min, arith,
}
use ndn_cxx_gm.Storage.{Packets, Policy, Storage, init_capacity, init, no_free_entry}
use ndn_cxx_gm.Storage.Operations.{
  insert, erase, shrink, grow, store_packet, lower_bound, erase_loop,
}
use ndn_cxx_gm.Storage.Capacity.{set_capacity, pop_entries}
use ndn_cxx_gm.Storage.Invariant.{IsSound, cache_holds}
use ndn_cxx_gm.Storage.Storing.{insert-below_limit}
use ndn_cxx_gm.Storage.Safety.{init-IsSound}
use ndn_cxx_gm.Storage.Resizing.{set_capacity_lem}
use ndn_cxx_gm.Base.Bits.{u64_mod}

module _ {K D : Type 0} (packets : Packets K D) (policy : Policy K) where
  erase-init :
      (limit : ℕ) (prefix : K)
      → erase packets policy prefix true (init limit) ≡ shrink packets policy (init limit)
  unfolding erase init lower_bound erase_loop
  erase-init limit prefix = refl

  shrink-set_capacity :
      (s t : Storage K D)
      → (2 * s.n_packets) % u64_mod < s.free_entries
      → set_capacity packets policy (s.capacity / 2) s ≡ ok t
      → shrink packets policy s ≡ ok t
  unfolding shrink
  shrink-set_capacity s t less runs =
      rw (lt→ltb ((2 * s.n_packets) % u64_mod) s.free_entries less, runs, shrink)

  -- A new storage has no packet, and its capacity is its limit where that is below 16.
  init_small :
      (limit : ℕ)
      → limit < init_capacity
      → ((init {K = K} {D = D} limit).n_packets ≡ 0)
        × ((init {K = K} {D = D} limit).free_entries ≡ limit)
        × ((init {K = K} {D = D} limit).capacity ≡ limit)
        × ((init {K = K} {D = D} limit).limit ≡ limit)
  unfolding init
  init_small limit small = ground arith

  -- erase of an empty storage whose limit is positive and below 16 returns and raises its
  -- capacity to 16, above the limit.
  pub erase-small_limit :
      (limit : ℕ) (prefix : K)
      → 0 < limit
      → limit < init_capacity
      → (t : Storage K D) × (erase packets policy prefix true (init limit) ≡ ok t)
        × (t.capacity ≡ init_capacity)
        × (t.limit ≡ limit)
  erase-small_limit limit prefix pos small =
      let (n, f, c, l) = init_small limit small in
      let (t, runs, r) =
        set_capacity_lem packets policy ((init {K = K} {D = D} limit).capacity / 2) (init limit)
          (init-IsSound packets policy limit) (omega arith) (inr (omega arith)) in
      (
        t,
        erase-init limit prefix ∙ shrink-set_capacity (init limit) t (omega arith) runs,
        omega (arith, r.new_capacity),
        r.same_limit ∙ l,
      )

  -- insert of a packet that is not there, into a storage that keeps the invariant, has a limit
  -- below 16, the capacity 16 and 16 packets, neither grows nor evicts, and takes an entry from
  -- an empty pool.
  pub insert-small_limit :
      (d : D) (s : Storage K D)
      → IsSound packets policy s
      → s.limit < init_capacity
      → s.capacity ≡ init_capacity
      → s.n_packets ≡ init_capacity
      → s.free_entries ≡ 0
      → cache_holds packets policy (packets.get_full_name d) s ≡ false
      → insert packets policy d s ≡ err no_free_entry
  unfolding grow store_packet pop_entries
  insert-small_limit d s z small c n f absent =
      let wanted : ℕ = min ((2 * s.capacity) % u64_mod) s.limit in
      let (t, runs, r) =
        set_capacity_lem packets policy wanted s z (omega arith) (inr (omega arith)) in
      let full : leb s.capacity s.n_packets ≡ true = ground arith in
      let none_free : t.free_entries ≡ 0 = omega (arith, r.pooled, r.kept, r.new_capacity) in
      insert-below_limit packets policy d s t absent (λ e. absurd (omega arith))
        (rw (full, runs, grow))
      ∙ rw (none_free, store_packet)
