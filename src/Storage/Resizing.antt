-- ===== src/Storage/Resizing.antt =====
-- setCapacity of ndn-cxx/ims/in-memory-storage.cpp: its loop ends, and from a state that is sound it
-- returns.
use ndn_cxx_gm.Base.{
  ℕ, zero, suc, ◌+◌, ◌-◌, ◌≤◌, ◌<◌, ◌≡◌, ◌⊎◌, inl, inr, ltb→lt, leb→le, Option-cases, >>=-ne-err,
  ◌∙◌, refl, sym, ap, List, [], ◌∷◌, true, false, ltb, leb, length, ok, err, min, max, arith,
  Bool-cases,
}
use ndn_cxx_gm.Storage.{
  Packets, Policy, Storage, stuck, erase_impl, free_entry, full_name, init_capacity, Entry,
}
use ndn_cxx_gm.Storage.Keyed.{holds, length-erase_key}
use ndn_cxx_gm.Storage.Policies.{entry_of, next_victim, evict, evict_item}
use ndn_cxx_gm.Storage.Capacity.{pop_entries, evict_loop, resize_pool, set_capacity}
use ndn_cxx_gm.Storage.Slots.{victim-holds, Evicts, victim-none}
use ndn_cxx_gm.Storage.Invariant.{
  IsSound, Released, slots_hold, cache_holds, evict-Released, evict-IsSound,
}

pub pop_entries_lem : (count free : ℕ) → count ≤ free → pop_entries count free ≡ ok (free - count)
unfolding pop_entries
pop_entries_lem zero free h = ap ok (omega arith)
pop_entries_lem (suc count) zero h = absurd (omega arith)
pop_entries_lem (suc count) (suc free) h =
    pop_entries_lem count free (omega arith) ∙ ap ok (omega arith)

pop_entries-ne-stuck : (count free : ℕ) → ¬ (pop_entries count free ≡ err stuck)
unfolding pop_entries
pop_entries-ne-stuck zero free = ground arith
pop_entries-ne-stuck (suc count) zero = ground arith
pop_entries-ne-stuck (suc count) (suc free) = pop_entries-ne-stuck count free

module _ {K D : Type 0} (packets : Packets K D) (policy : Policy K) where
  open packets use {same}

  -- A victim was found, and the slots are one fewer.
  evict_item-shorter :
      (s : Storage K D)
      → (evict_item packets policy s).1 ≡ true
      → length (evict_item packets policy s).0.cleanup_index + 1 ≡ length s.cleanup_index
  unfolding evict_item evict erase_impl free_entry
  evict_item-shorter s h = elim (Option-cases (next_victim policy s.cleanup_index)) [
    | inl e ↦ ground arith
    | inr (x, e) ↦
        let held = victim-holds same policy s.cleanup_index x e in
        let shorter = length-erase_key same entry_of x.entry s.cleanup_index held in ground arith
  ]

  evict_item-unchanged :
      (s : Storage K D)
      → (evict_item packets policy s).1 ≡ false
      → (evict_item packets policy s).0 ≡ s
  unfolding evict_item
  evict_item-unchanged s h = ground arith

  evict_loop-ne-stuck :
      (fuel failures : ℕ) (s : Storage K D)
      → length s.cleanup_index + failures < fuel
      → ¬ (evict_loop packets policy fuel failures s ≡ err stuck)
  unfolding evict_loop
  evict_loop-ne-stuck zero failures s h = absurd (omega arith)
  evict_loop-ne-stuck (suc fuel) zero s h =
      ground
        (arith, evict_item-shorter s, evict_loop-ne-stuck fuel zero (evict_item packets policy s).0)
  evict_loop-ne-stuck (suc fuel) (suc failures) s h = ground (
    arith,
    evict_item-shorter s,
    evict_item-unchanged s,
    evict_loop-ne-stuck fuel (suc failures) (evict_item packets policy s).0,
    evict_loop-ne-stuck fuel failures (evict_item packets policy s).0,
  )

  resize_pool-ne-stuck :
      (old : ℕ) (s : Storage K D) → ¬ (resize_pool packets policy old s ≡ err stuck)
  unfolding resize_pool
  resize_pool-ne-stuck old s =
      ground (arith, pop_entries-ne-stuck (old - s.capacity) s.free_entries)

  -- The eviction loop of setCapacity ends from every state, with one round for each value of the
  -- cleanup index, one for each failure that is allowed, and one more.
  pub set_capacity-ne-stuck :
      (capacity : ℕ) (s : Storage K D) → ¬ (set_capacity packets policy capacity s ≡ err stuck)
  unfolding set_capacity
  set_capacity-ne-stuck capacity s =
      >>=-ne-err _ _ stuck (evict_loop-ne-stuck _ _ _ (omega arith))
        (resize_pool-ne-stuck s.capacity)

  empty_list :
      (cache : List (Entry D))
      → ((k : K) → holds same entry_of k [] ≡ holds same (full_name packets) k cache)
      → ¬ (0 < length cache)
  unfolding holds
  empty_list [] h p = omega arith
  empty_list (x ∷ cache) h p = ground (arith, h (full_name packets x))

  empty-cache :
      (s : Storage K D)
      → s.cleanup_index ≡ []
      → ((k : K) → slots_hold packets policy k s ≡ cache_holds packets policy k s)
      → ¬ (0 < length s.cache)
  empty-cache s h tracked = empty_list s.cache (λ k. ap (holds same entry_of k) (sym h) ∙ tracked k)

  -- With a packet in the cache, a policy that evicts has a victim there.
  pub evict_item_lem :
      (s : Storage K D)
      → IsSound packets policy s
      → Evicts policy
      → 0 < s.n_packets
      → (v : K) × (evict_item packets policy s ≡ (evict packets policy v s, true))
        × (cache_holds packets policy v s ≡ true)
  unfolding evict_item
  evict_item_lem s sound e pos = elim (Option-cases (next_victim policy s.cleanup_index)) [
    | inr (x, h) ↦ (
      x.entry,
      rw (h, evict_item),
      sym (sound.tracked e x.entry) ∙ victim-holds same policy s.cleanup_index x h,
    )
    | inl h ↦ absurd (
        empty-cache s (victim-none same policy s.cleanup_index e h) (sound.tracked e)
          (omega (arith, sound.counted)))
  ]

  pub record Settled (s t : Storage K D) : Type 0 where
    pub sound : IsSound packets policy t
    pub total : t.n_packets + t.free_entries ≡ s.n_packets + s.free_entries
    pub kept : t.n_packets ≡ min s.n_packets s.capacity
    pub unchanged :
        s.n_packets ≤ s.capacity → (t.cache ≡ s.cache) × (t.cleanup_index ≡ s.cleanup_index)
    pub same_capacity : t.capacity ≡ s.capacity
    pub same_limit : t.limit ≡ s.limit

  Settled-Released :
      (s t u : Storage K D)
      → s.capacity < s.n_packets
      → Released packets policy s t
      → Settled t u
      → Settled s u
  Settled-Released s t u over r z = record {
    sound = z.sound;
    total = omega (arith, r.fewer, r.pooled, z.total);
    kept = omega (arith, r.fewer, r.same_capacity, z.kept);
    unchanged = λ fits. absurd (omega arith);
    same_capacity = z.same_capacity ∙ r.same_capacity;
    same_limit = z.same_limit ∙ r.same_limit;
  }

  round_lem :
      (fuel failures : ℕ) (s t : Storage K D)
      → ltb s.capacity s.n_packets ≡ true
      → evict_item packets policy s ≡ (t, true)
      → evict_loop packets policy (suc fuel) failures s ≡ evict_loop packets policy fuel failures t
  unfolding evict_loop
  round_lem fuel failures s t over taken = ground arith

  -- A round that evicts, before the rounds that remain.
  evicted_round :
      (fuel failures : ℕ) (s : Storage K D)
      → IsSound packets policy s
      → Evicts policy
      → s.n_packets - s.capacity < suc fuel
      → ltb s.capacity s.n_packets ≡ true
      → ((t : Storage K D)
          → IsSound packets policy t
          → Evicts policy ⊎ (t.n_packets ≤ t.capacity)
          → t.n_packets - t.capacity < fuel
          → (u : Storage K D) × (evict_loop packets policy fuel failures t ≡ ok u) × Settled t u)
      → (u : Storage K D) × (evict_loop packets policy (suc fuel) failures s ≡ ok u) × Settled s u
  evicted_round fuel failures s sound evicts h over rest =
      let over' = ltb→lt s.capacity s.n_packets over in
      let (v, taken, held) = evict_item_lem s sound evicts (omega arith) in
      let r = evict-Released packets policy v s sound held in
      let (u, runs, z) =
        rest (evict packets policy v s) (evict-IsSound packets policy v s sound held) (inl evicts)
          (omega (arith, r.fewer, r.same_capacity)) in
      (u, round_lem fuel failures s _ over taken ∙ runs, Settled-Released s _ u over' r z)

  -- The loop evicts down to the capacity and throws nothing.
  evict_loop_lem :
      (fuel failures : ℕ) (s : Storage K D)
      → IsSound packets policy s
      → Evicts policy ⊎ (s.n_packets ≤ s.capacity)
      → s.n_packets - s.capacity < fuel
      → (t : Storage K D) × (evict_loop packets policy fuel failures s ≡ ok t) × Settled s t
  unfolding evict_loop
  evict_loop_lem zero failures s sound e h = absurd (omega arith)
  evict_loop_lem (suc fuel) failures s sound e h = elim (Bool-cases (ltb s.capacity s.n_packets)) [
    | inr fits ↦ (
      s,
      rw (fits, evict_loop),
      record {
        sound = sound;
        total = refl;
        kept = ground arith;
        unchanged = λ fits. (refl, refl);
        same_capacity = refl;
        same_limit = refl;
      },
    )
    | inl over ↦ elim e [
      | inr none_over ↦ absurd (omega (arith, ltb→lt s.capacity s.n_packets over))
      | inl evicts ↦
          evicted_round fuel failures s sound evicts h over (evict_loop_lem fuel failures)
    ]
  ]

  with_capacity-IsSound :
      (capacity : ℕ) (s : Storage K D)
      → IsSound packets policy s
      → IsSound packets policy (record s { capacity = capacity })
  with_capacity-IsSound capacity s z = record {
    counted = z.counted;
    fits = z.fits;
    unique = z.unique;
    ordered = z.ordered;
    slots_unique = z.slots_unique;
    tracked = z.tracked;
  }

  with_pool-IsSound :
      (free : ℕ) (s : Storage K D)
      → IsSound packets policy s
      → IsSound packets policy (record s { free_entries = free })
  with_pool-IsSound free s z = record {
    counted = z.counted;
    fits = z.fits;
    unique = z.unique;
    ordered = z.ordered;
    slots_unique = z.slots_unique;
    tracked = z.tracked;
  }

  -- The pool and the cache together hold one entry for each unit of capacity.
  abbrev pub IsPooled : Storage K D → Type 0
  IsPooled s = s.n_packets + s.free_entries ≡ s.capacity

  pub record Resized (capacity : ℕ) (s t : Storage K D) : Type 0 where
    pub sound : IsSound packets policy t
    pub pooled : IsPooled t
    pub kept : t.n_packets ≡ min s.n_packets (max capacity init_capacity)
    pub unchanged :
        s.n_packets ≤ max capacity init_capacity
        → (t.cache ≡ s.cache) × (t.cleanup_index ≡ s.cleanup_index)
    pub new_capacity : t.capacity ≡ max capacity init_capacity
    pub same_limit : t.limit ≡ s.limit

  resize_pool_lem :
      (old : ℕ) (s : Storage K D)
      → s.n_packets + s.free_entries ≡ old
      → s.n_packets ≤ s.capacity
      → (free : ℕ) × (resize_pool packets policy old s ≡ ok (record s { free_entries = free }))
        × (s.n_packets + free ≡ s.capacity)
  unfolding resize_pool
  resize_pool_lem old s total fits = elim (Bool-cases (leb old s.capacity)) [
    | inl more ↦ (
      s.free_entries + (s.capacity - old),
      rw (more, resize_pool),
      omega (arith, leb→le old s.capacity more),
    )
    | inr less ↦
        let fewer : s.capacity < old = ground arith in
        (
          s.free_entries - (old - s.capacity),
          rw (less, pop_entries_lem (old - s.capacity) s.free_entries (omega arith), resize_pool),
          omega arith,
        )
  ]

  -- setCapacity returns: it evicts down to the larger of the request and 16, and the pool agrees
  -- with the new capacity.
  pub set_capacity_lem :
      (capacity : ℕ) (s : Storage K D)
      → IsSound packets policy s
      → IsPooled s
      → Evicts policy ⊎ (s.n_packets ≤ max capacity init_capacity)
      → (t : Storage K D) × (set_capacity packets policy capacity s ≡ ok t) × Resized capacity s t
  unfolding set_capacity
  set_capacity_lem capacity s sound pooled e =
      let (u, runs, z) =
        evict_loop_lem (length s.cleanup_index + (s.n_packets - max capacity init_capacity) + 1)
          (s.n_packets - max capacity init_capacity)
          (record s { capacity = max capacity init_capacity }) (with_capacity-IsSound _ s sound) e
          (omega arith) in
      let (free, resizes, total) =
        resize_pool_lem s.capacity u (z.total ∙ pooled) (omega (arith, z.kept, z.same_capacity)) in
      (
        record u { free_entries = free },
        rw (runs, resizes, set_capacity),
        record {
          sound = with_pool-IsSound free u z.sound;
          pooled = total;
          kept = z.kept;
          unchanged = z.unchanged;
          new_capacity = z.same_capacity;
          same_limit = z.same_limit;
        },
      )
