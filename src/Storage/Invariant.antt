-- ===== src/Storage/Invariant.antt =====
-- The invariant of InMemoryStorage: the counters agree with the cache, and the cleanup index of the
-- policy holds the entries of the cache. Evicting, removing and storing keep it.
use ndn_cxx_gm.Base.{◌+◌, ◌<◌, ◌≡◌, ◌∙◌, refl, Bool, true, length, arith}
use ndn_cxx_gm.Storage.{Packets, Entry, Policy, Storage, erase_impl, free_entry, full_name}
use ndn_cxx_gm.Storage.Keyed.{
  holds, IsUnique, holds-erase_key, erase_key-IsUnique, length-erase_key, length-pos_of_holds,
}
use ndn_cxx_gm.Storage.Operations.{remove, access}
use ndn_cxx_gm.Storage.Slots.{
  Evicts, before_erase-IsUnique, holds-before_erase, after_access-IsUnique, holds-after_access,
}
use ndn_cxx_gm.Storage.Ordered.{IsOrdered, erase_key-IsOrdered}
use ndn_cxx_gm.Storage.Policies.{entry_of, evict}
use ndn_cxx_gm.Base.Bits.{u64_mod}

module _ {K D : Type 0} (packets : Packets K D) (policy : Policy K) where
  open packets use {same, get_full_name}

  abbrev pub slots_hold : K → Storage K D → Bool
  slots_hold k s = holds same entry_of k s.cleanup_index

  abbrev pub cache_holds : K → Storage K D → Bool
  cache_holds k s = holds same (full_name packets) k s.cache

  pub record IsSound (s : Storage K D) : Type 0 where
    pub counted : s.n_packets ≡ length s.cache
    pub fits : s.n_packets < u64_mod
    pub unique : IsUnique same (full_name packets) s.cache
    pub ordered : IsOrdered packets s.cache
    pub slots_unique : IsUnique same entry_of s.cleanup_index
    pub tracked : Evicts policy → (k : K) → slots_hold k s ≡ cache_holds k s

  -- One packet fewer, and one entry more in the pool.
  pub record Released (s t : Storage K D) : Type 0 where
    pub fewer : t.n_packets + 1 ≡ s.n_packets
    pub pooled : t.free_entries ≡ s.free_entries + 1
    pub same_capacity : t.capacity ≡ s.capacity
    pub same_limit : t.limit ≡ s.limit

  pub evict-Released :
      (victim : K) (s : Storage K D)
      → IsSound s
      → cache_holds victim s ≡ true
      → Released s (evict packets policy victim s)
  unfolding evict erase_impl free_entry
  evict-Released victim s sound h =
      let pos = length-pos_of_holds same (full_name packets) victim s.cache h in
      let counted = sound.counted in
      let fits = sound.fits in
      rw h (record { fewer = omega arith; pooled = refl; same_capacity = refl; same_limit = refl })

  pub evict-IsSound :
      (victim : K) (s : Storage K D)
      → IsSound s
      → cache_holds victim s ≡ true
      → IsSound (evict packets policy victim s)
  unfolding evict erase_impl free_entry
  evict-IsSound victim s sound h =
      let pos = length-pos_of_holds same (full_name packets) victim s.cache h in
      let shorter = length-erase_key same (full_name packets) victim s.cache h in
      let counted = sound.counted in
      let fits = sound.fits in
      rw h (record {
        counted = omega arith;
        fits = omega arith;
        unique = erase_key-IsUnique same (full_name packets) victim s.cache sound.unique;
        ordered = erase_key-IsOrdered packets victim s.cache sound.ordered;
        slots_unique = erase_key-IsUnique same entry_of victim s.cleanup_index sound.slots_unique;
        tracked = λ e k. rw (
          holds-erase_key same entry_of k victim s.cleanup_index sound.slots_unique,
          holds-erase_key same (full_name packets) k victim s.cache sound.unique,
          sound.tracked e k,
        );
      })

  -- Removing an entry of the cache, as erase does.
  pub remove-Released :
      (entry : K) (s : Storage K D)
      → IsSound s
      → cache_holds entry s ≡ true
      → Released s (remove packets policy entry s)
  unfolding remove free_entry
  remove-Released entry s sound h =
      let pos = length-pos_of_holds same (full_name packets) entry s.cache h in
      let counted = sound.counted in
      let fits = sound.fits in
      record { fewer = omega arith; pooled = refl; same_capacity = refl; same_limit = refl }

  pub remove-IsSound :
      (entry : K) (s : Storage K D)
      → IsSound s
      → cache_holds entry s ≡ true
      → IsSound (remove packets policy entry s)
  unfolding remove free_entry
  remove-IsSound entry s sound h =
      let pos = length-pos_of_holds same (full_name packets) entry s.cache h in
      let shorter = length-erase_key same (full_name packets) entry s.cache h in
      let counted = sound.counted in
      let fits = sound.fits in
      record {
        counted = omega arith;
        fits = omega arith;
        unique = erase_key-IsUnique same (full_name packets) entry s.cache sound.unique;
        ordered = erase_key-IsOrdered packets entry s.cache sound.ordered;
        slots_unique = before_erase-IsUnique same policy entry s.cleanup_index sound.slots_unique;
        tracked = λ e k. rw (
          holds-before_erase same policy k entry s.cleanup_index e sound.slots_unique,
          holds-erase_key same (full_name packets) k entry s.cache sound.unique,
          sound.tracked e k,
        );
      }

  -- An access of an entry of the cache, as find does.
  pub access-IsSound :
      (e : Entry D) (s : Storage K D)
      → IsSound s
      → cache_holds (full_name packets e) s ≡ true
      → IsSound (access packets policy e s)
  access-IsSound e s sound h = record {
    counted = sound.counted;
    fits = sound.fits;
    unique = sound.unique;
    ordered = sound.ordered;
    slots_unique =
        after_access-IsUnique same policy (full_name packets e) s.cleanup_index sound.slots_unique;
    tracked = λ ev k.
        holds-after_access same policy k (full_name packets e) s.cleanup_index sound.slots_unique
          (sound.tracked ev (full_name packets e) ∙ h)
        ∙ sound.tracked ev k;
  }
