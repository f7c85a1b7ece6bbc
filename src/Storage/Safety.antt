-- ===== src/Storage/Safety.antt =====
-- The life of a storage of ndn-cxx/ims: the states that its operations lead to.
use ndn_cxx_gm.Base.{
  ℕ, ◌+◌, ◌-◌, ◌^◌, ◌≤◌, ◌<◌, ◌≡◌, ◌⊎◌, ◌∙◌, refl, sym, subst, Bool, true, length, ok, arith,
  ok-injective,
}
use ndn_cxx_gm.Storage.{Packets, Policy, Storage, init_capacity, init}
use ndn_cxx_gm.Storage.Keyed.{holds}
use ndn_cxx_gm.Storage.Operations.{Interest, insert, erase, find_name, find_interest, mark_stale}
use ndn_cxx_gm.Storage.Slots.{Evicts}
use ndn_cxx_gm.Storage.Invariant.{IsSound, cache_holds, slots_hold}
use ndn_cxx_gm.Storage.Storing.{IsValid, insert_lem}
use ndn_cxx_gm.Storage.Erasing.{erase_lem}
use ndn_cxx_gm.Storage.Finding.{find_name-IsValid, find_interest-IsValid, mark_stale-IsValid}
use ndn_cxx_gm.Base.Bits.{u64_mod}

module _ {K D : Type 0} (packets : Packets K D) (policy : Policy K) where
  -- One call of a user, or the event of an entry; memory holds fewer than 2^63 packets.
  pub data Step (s t : Storage K D) : Type 0 where
    inserting : (d : D) → s.n_packets < 2 ^ 63 → insert packets policy d s ≡ ok t → Step s t
    erasing :
        (prefix : K) (is_prefix : Bool)
        → s.n_packets < 2 ^ 63
        → erase packets policy prefix is_prefix s ≡ ok t
        → Step s t
    finding : (name : K) → (find_name packets policy name s).0 ≡ t → Step s t
    matching :
        (interest : Interest K D) → (find_interest packets policy interest s).0 ≡ t → Step s t
    expiring :
        (name : K) → record s { cache = mark_stale packets policy name s.cache } ≡ t → Step s t

  pub data Reach (s : Storage K D) : Storage K D → Type 0 where
    here : Reach s s
    next : {t u : Storage K D} → Reach s t → Step t u → Reach s u

  pub init-IsSound : (limit : ℕ) → IsSound packets policy (init limit)
  unfolding init holds
  init-IsSound limit = record {
    counted = refl;
    fits = omega arith;
    unique = tt;
    ordered = tt;
    slots_unique = tt;
    tracked = λ e k. refl;
  }

  init-IsValid :
      (limit : ℕ)
      → init_capacity ≤ limit
      → limit < u64_mod
      → Evicts policy ⊎ (limit ≡ u64_mod - 1)
      → IsValid packets policy (init limit)
  unfolding init
  init-IsValid limit floor limited e = record {
    sound = init-IsSound limit;
    pooled = ground arith;
    floor = ground arith;
    bounded = ground arith;
    limited = limited;
    evictable = e;
  }

  Step-IsValid :
      {s t : Storage K D} → Step s t → IsValid packets policy s → IsValid packets policy t
  Step-IsValid {s} {t} (inserting d small runs) z =
      let (u, runs', stored) = insert_lem packets policy d s z small in
      subst (IsValid packets policy) (ok-injective (sym runs' ∙ runs)) stored.valid
  Step-IsValid {s} {t} (erasing prefix is_prefix small runs) z =
      let (u, runs', valid, _) = erase_lem packets policy prefix is_prefix s z small in
      subst (IsValid packets policy) (ok-injective (sym runs' ∙ runs)) valid
  Step-IsValid {s} {t} (finding name e) z =
      subst (IsValid packets policy) e (find_name-IsValid packets policy name s z)
  Step-IsValid {s} {t} (matching interest e) z =
      subst (IsValid packets policy) e (find_interest-IsValid packets policy interest s z)
  Step-IsValid {s} {t} (expiring name e) z =
      subst (IsValid packets policy) e (mark_stale-IsValid packets policy name s z)

  Reach-IsValid :
      {s t : Storage K D} → IsValid packets policy s → Reach s t → IsValid packets policy t
  Reach-IsValid z here = z
  Reach-IsValid z (next r st) = Step-IsValid st (Reach-IsValid z r)

  -- In every state that a storage whose limit is at least 16, and whose policy evicts or which
  -- has no limit, reaches by insert, erase, both finds and the expiry of entries, while it holds
  -- fewer than 2^63 packets at each insert and erase, size() is the number of entries in the
  -- cache, these and the pool together are the capacity, the capacity is at most the limit, and
  -- with a policy that evicts the cleanup index holds exactly the full names of the cache.
  pub Reach-Safe :
      (limit : ℕ) (s : Storage K D)
      → init_capacity ≤ limit
      → limit < u64_mod
      → Evicts policy ⊎ (limit ≡ u64_mod - 1)
      → Reach (init limit) s
      → (s.n_packets ≡ length s.cache)
        × (s.n_packets + s.free_entries ≡ s.capacity)
        × (s.capacity ≤ s.limit)
        × (Evicts policy → (k : K) → slots_hold packets policy k s ≡ cache_holds packets policy k s)
  Reach-Safe limit s floor limited e r =
      let z = Reach-IsValid (init-IsValid limit floor limited e) r in
      (z.sound.counted, z.pooled, z.bounded, z.sound.tracked)

  -- In every state that a storage whose limit is at least 16, and whose policy evicts or which
  -- has no limit, reaches, with fewer than 2^63 packets, insert returns: it finds an entry in the
  -- pool and evicts without an exception; the cache then holds the packet under its full name,
  -- and the state after it is reached too.
  pub Reach-insert :
      (limit : ℕ) (s : Storage K D) (d : D)
      → init_capacity ≤ limit
      → limit < u64_mod
      → Evicts policy ⊎ (limit ≡ u64_mod - 1)
      → Reach (init limit) s
      → s.n_packets < 2 ^ 63
      → (t : Storage K D) × (insert packets policy d s ≡ ok t)
        × (cache_holds packets policy (packets.get_full_name d) t ≡ true)
        × Reach (init limit) t
  Reach-insert limit s d floor limited e r small =
      let z = Reach-IsValid (init-IsValid limit floor limited e) r in
      let (t, runs, stored) = insert_lem packets policy d s z small in
      (t, runs, stored.holds_it, next r (inserting d small runs))
