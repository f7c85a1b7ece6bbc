-- ===== src/Storage/Erasing.antt =====
-- erase of ndn-cxx/ims/in-memory-storage.cpp, from a state that keeps the storage's invariant.
use ndn_cxx_gm.Base.{
  ◌*◌, ◌/◌, ◌%◌, ◌^◌, ◌≤◌, ◌<◌, ◌≡◌, inl, inr, ltb→lt, ◌∙◌, refl, List, [], ◌∷◌, Bool, true, false,
  ltb, ok, arith, Bool-cases,
}
use ndn_cxx_gm.Storage.{Packets, Entry, Policy, Storage, free_entry, full_name}
use ndn_cxx_gm.Storage.Keyed.{holds, IsUnique, holds-erase_key}
use ndn_cxx_gm.Storage.Operations.{lower_bound, erase_loop, remove, shrink, erase}
use ndn_cxx_gm.Storage.Resizing.{set_capacity_lem}
use ndn_cxx_gm.Storage.Invariant.{IsSound, cache_holds, remove-IsSound, remove-Released}
use ndn_cxx_gm.Storage.Storing.{IsValid}
use ndn_cxx_gm.Base.Bits.{u64_mod}

module _ {K D : Type 0} (packets : Packets K D) (policy : Policy K) where
  open packets use {same, get_full_name, is_prefix_of, get_name}

  -- The entries that a loop is still to see are in the cache.
  abbrev AreCached : List (Entry D) → Storage K D → Type 0
  AreCached rest s =
      (k : K) → holds same (full_name packets) k rest ≡ true → cache_holds packets policy k s ≡ true

  remove-IsValid :
      (entry : K) (s : Storage K D)
      → IsValid packets policy s
      → cache_holds packets policy entry s ≡ true
      → IsValid packets policy (remove packets policy entry s)
  unfolding remove free_entry
  remove-IsValid entry s z held =
      let r = remove-Released packets policy entry s z.sound held in
      record {
        sound = remove-IsSound packets policy entry s z.sound held;
        pooled = omega (arith, r.fewer, z.pooled);
        floor = z.floor;
        bounded = z.bounded;
        limited = z.limited;
        evictable = z.evictable;
      }

  remove-AreCached :
      (e : Entry D) (rest : List (Entry D)) (s : Storage K D)
      → IsSound packets policy s
      → IsUnique same (full_name packets) (e ∷ rest)
      → AreCached (e ∷ rest) s
      → AreCached rest (remove packets policy (full_name packets e) s)
  unfolding remove free_entry holds
  remove-AreCached e rest s z u cached k h =
      let erased =
        holds-erase_key same (full_name packets) k (full_name packets e) s.cache z.unique in
      ground (arith, cached k, u.0, erased)

  head_held :
      (e : Entry D) (rest : List (Entry D))
      → holds same (full_name packets) (full_name packets e) (e ∷ rest) ≡ true
  unfolding holds
  head_held e rest = ground arith

  erase_loop-fewer :
      (prefix : K) (rest : List (Entry D)) (s : Storage K D)
      → IsValid packets policy s
      → IsUnique same (full_name packets) rest
      → AreCached rest s
      → (erase_loop packets policy prefix rest s).n_packets ≤ s.n_packets
  unfolding erase_loop
  erase_loop-fewer prefix [] s z u cached = omega arith
  erase_loop-fewer prefix (e ∷ rest) s z u cached =
      elim (Bool-cases (is_prefix_of prefix (get_name e.packet))) [
        | inr no_more ↦ rw (no_more, erase_loop) (omega arith)
        | inl below_prefix ↦
            let held = cached (full_name packets e) (head_held e rest) in
            let r = remove-Released packets policy (full_name packets e) s z.sound held in
            rw (below_prefix, erase_loop)
              (omega (
                arith,
                r.fewer,
                erase_loop-fewer prefix rest (remove packets policy (full_name packets e) s)
                    (remove-IsValid (full_name packets e) s z held) u.1
                    (remove-AreCached e rest s z.sound u cached),
              ))
      ]

  erase_loop-IsValid :
      (prefix : K) (rest : List (Entry D)) (s : Storage K D)
      → IsValid packets policy s
      → IsUnique same (full_name packets) rest
      → AreCached rest s
      → IsValid packets policy (erase_loop packets policy prefix rest s)
  unfolding erase_loop
  erase_loop-IsValid prefix [] s z u cached = z
  erase_loop-IsValid prefix (e ∷ rest) s z u cached =
      elim (Bool-cases (is_prefix_of prefix (get_name e.packet))) [
        | inr no_more ↦ rw (no_more, erase_loop) z
        | inl below_prefix ↦
            rw (below_prefix, erase_loop)
              (erase_loop-IsValid prefix rest (remove packets policy (full_name packets e) s)
                (remove-IsValid (full_name packets e) s z
                  (cached (full_name packets e) (head_held e rest)))
                u.1 (remove-AreCached e rest s z.sound u cached))
      ]

  erase_loop-same_limit :
      (prefix : K) (rest : List (Entry D)) (s : Storage K D)
      → (erase_loop packets policy prefix rest s).limit ≡ s.limit
  unfolding erase_loop remove free_entry
  erase_loop-same_limit prefix [] s = refl
  erase_loop-same_limit prefix (e ∷ rest) s =
      ground
        (arith, erase_loop-same_limit prefix rest (remove packets policy (full_name packets e) s))

  shrink_lem :
      (s : Storage K D)
      → IsValid packets policy s
      → s.n_packets < 2 ^ 63
      → (t : Storage K D) × (shrink packets policy s ≡ ok t)
        × IsValid packets policy t
        × (t.limit ≡ s.limit)
        × (t.cache ≡ s.cache)
  unfolding shrink
  shrink_lem s z small = elim (Bool-cases (ltb ((2 * s.n_packets) % u64_mod) s.free_entries)) [
    | inr keep ↦ (s, rw (keep, shrink), z, refl, refl)
    | inl less ↦
        let less' = ltb→lt ((2 * s.n_packets) % u64_mod) s.free_entries less in
        let pooled = z.pooled in
        let bounded = z.bounded in
        let floor = z.floor in
        let (t, runs, r) =
          set_capacity_lem packets policy (s.capacity / 2) s z.sound z.pooled (inr (omega arith)) in
        (
          t,
          rw (less, runs, shrink),
          record {
            sound = r.sound;
            pooled = r.pooled;
            floor = omega (arith, r.new_capacity);
            bounded = omega (arith, r.new_capacity, r.same_limit);
            limited = omega (arith, r.same_limit, z.limited);
            evictable = rw r.same_limit z.evictable;
          },
          r.same_limit,
          (r.unchanged (omega arith)).0,
        )
  ]

  holds-lower_bound :
      (k name : K) (cache : List (Entry D))
      → holds same (full_name packets) k (lower_bound packets policy name cache) ≡ true
      → holds same (full_name packets) k cache ≡ true
  unfolding holds lower_bound
  holds-lower_bound k name [] h = h
  holds-lower_bound k name (x ∷ cache) h = ground (arith, holds-lower_bound k name cache)

  lower_bound-IsUnique :
      (name : K) (cache : List (Entry D))
      → IsUnique same (full_name packets) cache
      → IsUnique same (full_name packets) (lower_bound packets policy name cache)
  unfolding lower_bound
  lower_bound-IsUnique name [] u = tt
  lower_bound-IsUnique name (x ∷ cache) u =
      elim (Bool-cases (packets.less (full_name packets x) name)) [
        | inl before ↦ rw (before, lower_bound) (lower_bound-IsUnique name cache u.1)
        | inr here ↦ rw (here, lower_bound) u
      ]

  -- erase returns from every valid state and leads to a valid one.
  pub erase_lem :
      (prefix : K) (is_prefix : Bool) (s : Storage K D)
      → IsValid packets policy s
      → s.n_packets < 2 ^ 63
      → (t : Storage K D) × (erase packets policy prefix is_prefix s ≡ ok t)
        × IsValid packets policy t
        × (t.limit ≡ s.limit)
  unfolding erase
  erase_lem prefix true s z small =
      let u = lower_bound-IsUnique prefix s.cache z.sound.unique in
      let cached = λ (k : K). holds-lower_bound k prefix s.cache in
      let (t, runs, valid, same_limit, _) =
        shrink_lem (erase_loop packets policy prefix (lower_bound packets policy prefix s.cache) s)
          (erase_loop-IsValid prefix (lower_bound packets policy prefix s.cache) s z u cached)
          (omega (
            arith,
            erase_loop-fewer prefix (lower_bound packets policy prefix s.cache) s z u cached,
          )) in
      (
        t,
        runs,
        valid,
        same_limit ∙ erase_loop-same_limit prefix (lower_bound packets policy prefix s.cache) s,
      )
  erase_lem prefix false s z small = elim (Bool-cases (cache_holds packets policy prefix s)) [
    | inr absent ↦ (s, rw (absent, erase), z, refl)
    | inl held ↦
        let r = remove-Released packets policy prefix s z.sound held in
        let (t, runs, valid, same_limit, _) =
          shrink_lem (remove packets policy prefix s) (remove-IsValid prefix s z held)
            (omega (arith, r.fewer)) in
        (t, rw (held, runs, erase), valid, same_limit ∙ r.same_limit)
  ]
