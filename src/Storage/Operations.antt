-- ===== src/Storage/Operations.antt =====
-- ndn-cxx/ims/in-memory-storage.cpp: insert, find and erase.
use ndn_cxx_gm.Base.{
  ◌+◌, ◌*◌, ◌/◌, ◌%◌, List, [], ◌∷◌, Bool, true, false, not, ◌&&◌, Option, none, some, ltb, ◌==◌,
  if◌then◌else◌, ok, ◌>>=◌, min,
}
use ndn_cxx_gm.Storage.{
  Packets, Entry, Policy, Storage, Result, is_full, full_name, free_entry, Bool, List, Option, ite,
}
use ndn_cxx_gm.Storage.Keyed.{lookup, holds}
use ndn_cxx_gm.Storage.Policies.{evict_item, after_insert, before_erase, after_access}
use ndn_cxx_gm.Storage.Capacity.{pop_entries, set_capacity}
use ndn_cxx_gm.Base.Bits.{u64_mod}

-- What find(const Interest&) asks of the interest.
pub record Interest (K D : Type 0) : Type 0 where
  pub name : K
  pub must_be_fresh : Bool
  pub matches_data : D → Bool

module _ {K D : Type 0} (packets : Packets K D) (policy : Policy K) where
  open packets use {same, less, is_prefix_of, get_name, get_full_name}

  -- m_cache.insert(entry), in the order of full names.
  unfoldable pub cache_insert : Entry D → List (Entry D) → List (Entry D)
  cache_insert e [] = e ∷ []
  cache_insert e (x ∷ cache) =
      if less (full_name packets x) (full_name packets e)
      then x ∷ cache_insert e cache
      else e ∷ x ∷ cache

  -- lower_bound(name): the entries before it, and those from it on.
  unfoldable pub below : K → List (Entry D) → List (Entry D)
  below name [] = []
  below name (x ∷ cache) = if less (full_name packets x) name then x ∷ below name cache else []

  unfoldable pub lower_bound : K → List (Entry D) → List (Entry D)
  lower_bound name [] = []
  lower_bound name (x ∷ cache) =
      if less (full_name packets x) name then lower_bound name cache else x ∷ cache

  -- From `top()` to the end of insert.
  unfoldable pub store_packet : D → Storage K D → Result (Storage K D)
  store_packet d s = do
    free ← pop_entries 1 s.free_entries
    ok (record s {
      free_entries = free;
      n_packets = (s.n_packets + 1) % u64_mod;
      cache = cache_insert (record { packet = d; is_fresh = true }) s.cache;
      cleanup_index = after_insert same policy (get_full_name d) s.cleanup_index;
    })

  -- `if (isFull() && !doesReachLimit)`
  unfoldable pub grow : Bool → Storage K D → Result (Storage K D)
  grow reaches_limit s =
      if is_full s && not reaches_limit
      then set_capacity packets policy (min ((2 * s.capacity) % u64_mod) s.limit) s
      else ok s

  -- `if (isFull() && doesReachLimit)`
  unfoldable pub replace : Bool → Storage K D → Storage K D
  replace reaches_limit s =
      if is_full s && reaches_limit then (evict_item packets policy s).0 else s

  -- insert
  unfoldable pub insert : D → Storage K D → Result (Storage K D)
  insert d s = if holds same (full_name packets) (get_full_name d) s.cache then ok s else do
    let reaches_limit = s.limit == s.capacity
    grown ← grow reaches_limit s
    store_packet d (replace reaches_limit grown)

  abbrev pub access : Entry D → Storage K D → Storage K D
  access e s = record s {
    cleanup_index = after_access same policy (full_name packets e) s.cleanup_index;
  }

  -- find(const Name&)
  unfoldable pub find_name : K → Storage K D → Storage K D × Option D
  find_name name s = elim (lower_bound name s.cache) [
    | [] ↦ (s, none)
    | e ∷ after ↦
        if is_prefix_of name (full_name packets e) then (access e s, some e.packet) else (s, none)
  ]

  -- findNextFresh, where the interest asks for fresh data.
  unfoldable pub next_candidate : Bool → List (Entry D) → List (Entry D)
  next_candidate must_be_fresh [] = []
  next_candidate must_be_fresh (e ∷ cache) =
      if must_be_fresh && not e.is_fresh then next_candidate must_be_fresh cache else e ∷ cache

  -- The loop of selectChild to the right of the starting point.
  unfoldable pub select_right : Interest K D → List (Entry D) → Option (Entry D)
  select_right interest [] = none
  select_right interest (e ∷ cache) =
      if interest.must_be_fresh && not e.is_fresh
      then select_right interest cache
      else if is_prefix_of interest.name (full_name packets e)
      then (if interest.matches_data e.packet then some e else select_right interest cache)
      else none

  -- selectChild
  unfoldable pub select_child : Interest K D → List (Entry D) → Option (Entry D)
  select_child interest start = elim (next_candidate interest.must_be_fresh start) [
    | [] ↦ none
    | e ∷ after ↦ if interest.matches_data e.packet then some e else select_right interest after
  ]

  -- The iterator one to the left of `lower_bound`, where there is one.
  unfoldable pub step_back : List (Entry D) → List (Entry D) → List (Entry D)
  step_back [] after = after
  step_back (x ∷ []) after = x ∷ after
  step_back (x ∷ y ∷ before) after = step_back (y ∷ before) after

  -- The entry that the scan from the lower bound gives.
  unfoldable pub candidate : Interest K D → List (Entry D) → Option (Entry D)
  candidate interest cache = elim (lower_bound interest.name cache) [
    | [] ↦ none
    | x ∷ after ↦ select_child interest (step_back (below interest.name cache) (x ∷ after))
  ]

  -- The access and the result, where the scan gave an entry.
  unfoldable pub accessed : Option (Entry D) → Storage K D → Storage K D × Option D
  accessed none s = (s, none)
  accessed (some e) s = (access e s, some e.packet)

  -- find(const Interest&)
  unfoldable pub find_interest : Interest K D → Storage K D → Storage K D × Option D
  find_interest interest s = elim (lookup same (full_name packets) interest.name s.cache) [
    | some e ↦ (s, some e.packet)
    | none ↦ accessed (candidate interest s.cache) s
  ]

  -- `beforeErase(*it); freeEntry(it);`
  unfoldable pub remove : K → Storage K D → Storage K D
  remove entry s =
      free_entry packets entry
        (record s { cleanup_index = before_erase same policy entry s.cleanup_index })

  -- The loop of erase over the entries from the lower bound on.
  unfoldable pub erase_loop : K → List (Entry D) → Storage K D → Storage K D
  erase_loop prefix [] s = s
  erase_loop prefix (e ∷ rest) s =
      if is_prefix_of prefix (get_name e.packet)
      then erase_loop prefix rest (remove (full_name packets e) s)
      else s

  -- `if (m_freeEntries.size() > (2 * size())) setCapacity(getCapacity() / 2);`
  unfoldable pub shrink : Storage K D → Result (Storage K D)
  shrink s =
      if ltb ((2 * s.n_packets) % u64_mod) s.free_entries
      then set_capacity packets policy (s.capacity / 2) s
      else ok s

  -- erase
  unfoldable pub erase : K → Bool → Storage K D → Result (Storage K D)
  erase prefix true s = shrink (erase_loop prefix (lower_bound prefix s.cache) s)
  erase prefix false s =
      if holds same (full_name packets) prefix s.cache then shrink (remove prefix s) else ok s

  -- The event that scheduleMarkStale sets: `m_isFresh = false`.
  unfoldable pub mark_stale : K → List (Entry D) → List (Entry D)
  mark_stale name [] = []
  mark_stale name (x ∷ cache) =
      ite (same (full_name packets x) name) (record x { is_fresh = false } ∷ cache)
        (x ∷ mark_stale name cache)
