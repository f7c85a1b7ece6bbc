-- ===== src/Storage/Storing.antt =====
-- insert of ndn-cxx/ims/in-memory-storage.cpp, from a state that keeps the storage's invariant.
use ndn_cxx_gm.Base.{
  ℕ, ◌+◌, ◌-◌, ◌*◌, ◌%◌, ◌^◌, ◌≤◌, ◌<◌, ◌≡◌, ◌⊎◌, inl, inr, leb→le, ◌∙◌, refl, List, [], ◌∷◌, true,
  false, leb, ◌==◌, length, ok, min, arith, Bool-cases, ℕ_discrete,
}
use mathlib.Core.Logic.{ite}
use ndn_cxx_gm.Storage.{
  Packets, Entry, Policy, Storage, init_capacity, erase_impl, free_entry, full_name,
}
use ndn_cxx_gm.Storage.Keyed.{holds, IsUnique, holds-erase_key}
use ndn_cxx_gm.Storage.Ordered.{cache_insert-IsOrdered}
use ndn_cxx_gm.Storage.Policies.{evict, after_insert}
use ndn_cxx_gm.Storage.Operations.{cache_insert, store_packet, grow, replace, insert}
use ndn_cxx_gm.Storage.Resizing.{pop_entries_lem, IsPooled, set_capacity_lem, evict_item_lem}
use ndn_cxx_gm.Storage.Slots.{Evicts, after_insert-IsUnique, holds-after_insert}
use ndn_cxx_gm.Storage.Invariant.{IsSound, evict-Released, evict-IsSound, cache_holds}
use ndn_cxx_gm.Base.Bits.{u64_mod}

module _ {K D : Type 0} (packets : Packets K D) (policy : Policy K) where
  open packets use {same, get_full_name}

  holds-cache_insert :
      (k : K) (e : Entry D) (cache : List (Entry D))
      → holds same (full_name packets) k (cache_insert packets policy e cache)
        ≡ ite (same (full_name packets e) k) true (holds same (full_name packets) k cache)
  unfolding holds cache_insert
  holds-cache_insert k e [] = refl
  holds-cache_insert k e (x ∷ cache) = ground (arith, holds-cache_insert k e cache)

  cache_insert-IsUnique :
      (e : Entry D) (cache : List (Entry D))
      → IsUnique same (full_name packets) cache
      → holds same (full_name packets) (full_name packets e) cache ≡ false
      → IsUnique same (full_name packets) (cache_insert packets policy e cache)
  unfolding holds cache_insert
  cache_insert-IsUnique e [] u h = (refl, tt)
  cache_insert-IsUnique e (x ∷ cache) u h =
      ground
        (arith, cache_insert-IsUnique e cache, holds-cache_insert (full_name packets x) e cache)

  length-cache_insert :
      (e : Entry D) (cache : List (Entry D))
      → length (cache_insert packets policy e cache) ≡ length cache + 1
  unfolding cache_insert
  length-cache_insert e [] = omega arith
  length-cache_insert e (x ∷ cache) = ground (arith, length-cache_insert e cache)

  -- What holds between the operations of a storage whose limit is at least 16.
  pub record IsValid (s : Storage K D) : Type 0 where
    pub sound : IsSound packets policy s
    pub pooled : IsPooled packets policy s
    pub floor : init_capacity ≤ s.capacity
    pub bounded : s.capacity ≤ s.limit
    pub limited : s.limit < u64_mod
    pub evictable : Evicts policy ⊎ (s.limit ≡ u64_mod - 1)

  pub record IsStored (d : D) (s t : Storage K D) : Type 0 where
    pub valid : IsValid t
    pub holds_it : cache_holds packets policy (get_full_name d) t ≡ true
    pub same_limit : t.limit ≡ s.limit

  store_packet-IsSound :
      (d : D) (free : ℕ) (s : Storage K D)
      → IsSound packets policy s
      → s.n_packets + 1 < u64_mod
      → cache_holds packets policy (get_full_name d) s ≡ false
      → IsSound packets policy (record s {
        free_entries = free;
        n_packets = (s.n_packets + 1) % u64_mod;
        cache = cache_insert packets policy (record { packet = d; is_fresh = true }) s.cache;
        cleanup_index = after_insert same policy (get_full_name d) s.cleanup_index;
      })
  store_packet-IsSound d free s z small absent =
      let longer = length-cache_insert (record { packet = d; is_fresh = true }) s.cache in
      let counted = z.counted in
      record {
        counted = omega arith;
        fits = omega arith;
        unique =
            cache_insert-IsUnique (record { packet = d; is_fresh = true }) s.cache z.unique absent;
        ordered =
            cache_insert-IsOrdered packets policy (record { packet = d; is_fresh = true }) s.cache
              z.ordered absent;
        slots_unique =
            after_insert-IsUnique same policy (get_full_name d) s.cleanup_index z.slots_unique;
        tracked = λ e k. rw (
          holds-after_insert same policy k (get_full_name d) s.cleanup_index e,
          holds-cache_insert k (record { packet = d; is_fresh = true }) s.cache,
          z.tracked e k,
        );
      }

  store_packet_lem :
      (d : D) (s : Storage K D)
      → IsValid s
      → cache_holds packets policy (get_full_name d) s ≡ false
      → 0 < s.free_entries
      → (t : Storage K D) × (store_packet packets policy d s ≡ ok t) × IsStored d s t
  unfolding store_packet
  store_packet_lem d s v absent pos =
      let pooled = v.pooled in
      let bounded = v.bounded in
      let limited = v.limited in
      (
        record s {
          free_entries = s.free_entries - 1;
          n_packets = (s.n_packets + 1) % u64_mod;
          cache = cache_insert packets policy (record { packet = d; is_fresh = true }) s.cache;
          cleanup_index = after_insert same policy (get_full_name d) s.cleanup_index;
        },
        rw (pop_entries_lem 1 s.free_entries (omega arith), store_packet),
        record {
          valid = record {
            sound = store_packet-IsSound d (s.free_entries - 1) s v.sound (omega arith) absent;
            pooled = omega arith;
            floor = v.floor;
            bounded = v.bounded;
            limited = v.limited;
            evictable = v.evictable;
          };
          holds_it =
              holds-cache_insert (get_full_name d) (record { packet = d; is_fresh = true }) s.cache
              ∙ ground arith;
          same_limit = refl;
        },
      )

  -- A free entry was made, and no packet came to the cache.
  record HasRoom (s t : Storage K D) : Type 0 where
    valid : IsValid t
    room : 0 < t.free_entries
    absent :
        (k : K) → cache_holds packets policy k s ≡ false → cache_holds packets policy k t ≡ false
    same_limit : t.limit ≡ s.limit

  evict-HasRoom :
      (v : K) (s : Storage K D)
      → IsValid s
      → cache_holds packets policy v s ≡ true
      → HasRoom s (evict packets policy v s)
  unfolding evict erase_impl free_entry
  evict-HasRoom v s z held =
      let r = evict-Released packets policy v s z.sound held in
      record {
        valid = record {
          sound = evict-IsSound packets policy v s z.sound held;
          pooled = omega (arith, r.fewer, r.pooled, r.same_capacity, z.pooled);
          floor = omega (arith, r.same_capacity, z.floor);
          bounded = omega (arith, r.same_capacity, r.same_limit, z.bounded);
          limited = omega (arith, r.same_limit, z.limited);
          evictable = rw r.same_limit z.evictable;
        };
        room = omega (arith, r.pooled);
        absent = λ k h.
            rw held
              (holds-erase_key same (full_name packets) k v s.cache z.sound.unique ∙ ground arith);
        same_limit = r.same_limit;
      }

  replace-HasRoom :
      (s : Storage K D)
      → IsValid s
      → s.n_packets < 2 ^ 63
      → s.limit ≡ s.capacity
      → HasRoom s (replace packets policy true s)
  unfolding replace
  replace-HasRoom s z small reached = elim (Bool-cases (leb s.capacity s.n_packets)) [
    | inr room ↦
        rw (room, replace)
          (record {
            valid = z;
            room = ground (arith, z.pooled);
            absent = λ k h. h;
            same_limit = refl;
          })
    | inl full ↦
        let over = leb→le s.capacity s.n_packets full in
        elim z.evictable [
          | inr unlimited ↦ absurd (omega arith)
          | inl evicts ↦
              let (v, taken, held) =
                evict_item_lem packets policy s z.sound evicts (omega (arith, z.floor)) in
              rw (full, taken, replace) (evict-HasRoom v s z held)
        ]
  ]

  grow-HasRoom :
      (s : Storage K D)
      → IsValid s
      → s.n_packets < 2 ^ 63
      → ¬ (s.limit ≡ s.capacity)
      → (t : Storage K D) × (grow packets policy false s ≡ ok t) × HasRoom s t
  unfolding grow
  grow-HasRoom s z small below_limit = elim (Bool-cases (leb s.capacity s.n_packets)) [
    | inr room ↦ (
      s,
      rw (room, grow),
      record { valid = z; room = ground (arith, z.pooled); absent = λ k h. h; same_limit = refl },
    )
    | inl full ↦
        let over = leb→le s.capacity s.n_packets full in
        let wanted : ℕ = min ((2 * s.capacity) % u64_mod) s.limit in
        let pooled = z.pooled in
        let bounded = z.bounded in
        let floor = z.floor in
        let less : s.capacity < s.limit = ground arith in
        let (t, runs, r) =
          set_capacity_lem packets policy wanted s z.sound z.pooled (inr (omega arith)) in
        (
          t,
          rw (full, runs, grow),
          record {
            valid = record {
              sound = r.sound;
              pooled = r.pooled;
              floor = omega (arith, r.new_capacity);
              bounded = omega (arith, r.new_capacity, r.same_limit);
              limited = omega (arith, r.same_limit, z.limited);
              evictable = rw r.same_limit z.evictable;
            };
            room = omega (arith, r.pooled, r.kept, r.new_capacity);
            absent = λ k h. rw (r.unchanged (omega arith)).0 h;
            same_limit = r.same_limit;
          },
        )
  ]

  insert-at_limit :
      (d : D) (s : Storage K D)
      → cache_holds packets policy (get_full_name d) s ≡ false
      → s.limit ≡ s.capacity
      → insert packets policy d s ≡ store_packet packets policy d (replace packets policy true s)
  unfolding insert grow
  insert-at_limit d s absent reached =
      let test : (s.limit == s.capacity) ≡ true = ground arith in rw (absent, test) (ground arith)

  pub insert-below_limit :
      (d : D) (s u : Storage K D)
      → cache_holds packets policy (get_full_name d) s ≡ false
      → ¬ (s.limit ≡ s.capacity)
      → grow packets policy false s ≡ ok u
      → insert packets policy d s ≡ store_packet packets policy d u
  unfolding insert replace
  insert-below_limit d s u absent below_limit grows =
      let test : (s.limit == s.capacity) ≡ false = ground arith in
      rw (absent, test, grows) (ground arith)

  -- insert returns from every valid state and leads to one that holds the packet.
  pub insert_lem :
      (d : D) (s : Storage K D)
      → IsValid s
      → s.n_packets < 2 ^ 63
      → (t : Storage K D) × (insert packets policy d s ≡ ok t) × IsStored d s t
  unfolding insert
  insert_lem d s z small = elim (Bool-cases (cache_holds packets policy (get_full_name d) s)) [
    | inl held ↦ (s, rw (held, insert), record { valid = z; holds_it = held; same_limit = refl })
    | inr absent ↦ elim (ℕ_discrete s.limit s.capacity) [
      | yes reached ↦
          let r = replace-HasRoom s z small reached in
          let (t, runs, stored) =
            store_packet_lem d (replace packets policy true s) r.valid (r.absent _ absent) r.room in
          (
            t,
            insert-at_limit d s absent reached ∙ runs,
            record {
              valid = stored.valid;
              holds_it = stored.holds_it;
              same_limit = stored.same_limit ∙ r.same_limit;
            },
          )
      | no below_limit ↦
          let (u, grows, r) = grow-HasRoom s z small below_limit in
          let (t, runs, stored) = store_packet_lem d u r.valid (r.absent _ absent) r.room in
          (
            t,
            insert-below_limit d s u absent below_limit grows ∙ runs,
            record {
              valid = stored.valid;
              holds_it = stored.holds_it;
              same_limit = stored.same_limit ∙ r.same_limit;
            },
          )
    ]
  ]
