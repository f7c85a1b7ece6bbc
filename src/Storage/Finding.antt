-- ===== src/Storage/Finding.antt =====
-- find of ndn-cxx/ims/in-memory-storage.cpp: what it returns is in the cache and matches, and the
-- invariant is kept.
use ndn_cxx_gm.Base.{
  ◌≡◌, ◌⊎◌, inl, inr, Option-cases, ◌∙◌, refl, sym, subst, List, [], ◌∷◌, ◌++◌, Bool, true, false,
  not, ◌&&◌, some, length, arith, Bool-cases,
}
use mathlib.Core.Logic.{if_pos, if_neg}
use ndn_cxx_gm.Storage.{Packets, Entry, Policy, Storage, full_name}
use ndn_cxx_gm.Storage.Keyed.{holds, lookup, IsUnique}
use ndn_cxx_gm.Storage.Ordered.{mark_stale-IsOrdered}
use ndn_cxx_gm.Storage.Operations.{
  candidate, accessed, Interest, lower_bound, below, step_back, next_candidate, select_right,
  select_child, find_name, find_interest, access, mark_stale,
}
use ndn_cxx_gm.Storage.Invariant.{access-IsSound}
use ndn_cxx_gm.Storage.Storing.{IsValid}

-- The entry is one of the list.
abbrev pub IsIn : {D : Type 0} → Entry D → List (Entry D) → Type 0
IsIn e [] = ⊥
IsIn e (x ∷ cache) = (e ≡ x) ⊎ IsIn e cache

module _ {K D : Type 0} (packets : Packets K D) (policy : Policy K) where
  open packets use {same, is_prefix_of}

  -- What the interest asks of an entry that selectChild returns.
  abbrev pub Satisfies : Interest K D → Entry D → Type 0
  Satisfies interest e =
      (interest.matches_data e.packet ≡ true) × ((interest.must_be_fresh && not e.is_fresh) ≡ false)

  pub holds-IsIn :
      (e : Entry D) (cache : List (Entry D))
      → IsIn e cache
      → holds same (full_name packets) (full_name packets e) cache ≡ true
  unfolding holds
  holds-IsIn e [] h = absurd h
  holds-IsIn e (x ∷ cache) (inl h) = ground arith
  holds-IsIn e (x ∷ cache) (inr h) = ground (arith, holds-IsIn e cache h)

  lookup-IsIn :
      (k : K) (cache : List (Entry D)) (e : Entry D)
      → lookup same (full_name packets) k cache ≡ some e
      → IsIn e cache × (full_name packets e ≡ k)
  unfolding lookup
  lookup-IsIn k [] e h = absurd (cc h)
  lookup-IsIn k (x ∷ cache) e h = elim (same (full_name packets x) k) [
    | yes p ↦ (inl (ground arith), ground arith)
    | no p ↦ let (later, found) = lookup-IsIn k cache e (ground arith) in (inr later, found)
  ]

  pub lower_bound-IsIn :
      (name : K) (cache : List (Entry D)) (e : Entry D)
      → IsIn e (lower_bound packets policy name cache)
      → IsIn e cache
  unfolding lower_bound
  lower_bound-IsIn name [] e h = h
  lower_bound-IsIn name (x ∷ cache) e h =
      elim (Bool-cases (packets.less (full_name packets x) name)) [
        | inl before ↦ inr (lower_bound-IsIn name cache e (rw (before, lower_bound) at h))
        | inr here ↦ rw (here, lower_bound) at h
      ]

  next_candidate-IsIn :
      (fresh : Bool) (cache : List (Entry D)) (e : Entry D)
      → IsIn e (next_candidate packets policy fresh cache)
      → IsIn e cache
  unfolding next_candidate
  next_candidate-IsIn fresh [] e h = h
  next_candidate-IsIn fresh (x ∷ cache) e h = elim (Bool-cases (fresh && not x.is_fresh)) [
    | inl stale ↦ inr (next_candidate-IsIn fresh cache e (rw (stale, next_candidate) at h))
    | inr here ↦ rw (here, next_candidate) at h
  ]

  next_candidate-fresh :
      (fresh : Bool) (cache after : List (Entry D)) (e : Entry D)
      → next_candidate packets policy fresh cache ≡ e ∷ after
      → (fresh && not e.is_fresh) ≡ false
  unfolding next_candidate
  next_candidate-fresh fresh [] after e h = absurd (cc h)
  next_candidate-fresh fresh (x ∷ cache) after e h =
      ground (arith, next_candidate-fresh fresh cache after e)

  select_right_lem :
      (interest : Interest K D) (cache : List (Entry D)) (e : Entry D)
      → select_right packets policy interest cache ≡ some e
      → IsIn e cache × Satisfies interest e
  unfolding select_right
  select_right_lem interest [] e h = absurd (cc h)
  select_right_lem interest (x ∷ cache) e h =
      elim (Bool-cases (interest.must_be_fresh && not x.is_fresh)) [
        | inl stale ↦
            let (later, good) = select_right_lem interest cache e (rw (stale, select_right) at h) in
            (inr later, good)
        | inr fresh ↦ elim (Bool-cases (is_prefix_of interest.name (full_name packets x))) [
          | inr out ↦ absurd (ground arith)
          | inl in_prefix ↦ elim (Bool-cases (interest.matches_data x.packet)) [
            | inl matching ↦
                let here : e ≡ x = ground arith in (inl here, (ground arith, ground arith))
            | inr other ↦
                let (later, good) =
                  select_right_lem interest cache e
                    (rw (fresh, in_prefix, other, select_right) at h) in
                (inr later, good)
          ]
        ]
      ]

  first_or_right :
      (interest : Interest K D) (cache found : List (Entry D)) (e : Entry D)
      → next_candidate packets policy interest.must_be_fresh cache ≡ found
      → select_child packets policy interest cache ≡ some e
      → IsIn e cache × Satisfies interest e
  unfolding select_child
  first_or_right interest cache [] e c h = absurd (ground arith)
  first_or_right interest cache (x ∷ after) e c h =
      elim (Bool-cases (interest.matches_data x.packet)) [
        | inl matching ↦
            let here : e ≡ x = ground arith in
            let fresh = next_candidate-fresh interest.must_be_fresh cache after x c in
            (
              next_candidate-IsIn interest.must_be_fresh cache e (rw c (inl here)),
              (ground arith, ground arith),
            )
        | inr other ↦
            let (later, good) =
              select_right_lem interest after e (rw (c, other, select_child) at h) in
            (next_candidate-IsIn interest.must_be_fresh cache e (rw c (inr later)), good)
      ]

  select_child_lem :
      (interest : Interest K D) (cache : List (Entry D)) (e : Entry D)
      → select_child packets policy interest cache ≡ some e
      → IsIn e cache × Satisfies interest e
  unfolding select_child
  select_child_lem interest cache e h =
      first_or_right interest cache (next_candidate packets policy interest.must_be_fresh cache) e
        refl h

  below-append-lower_bound :
      (name : K) (cache : List (Entry D))
      → below packets policy name cache ++ lower_bound packets policy name cache ≡ cache
  unfolding below lower_bound
  below-append-lower_bound name [] = refl
  below-append-lower_bound name (x ∷ cache) = ground (arith, below-append-lower_bound name cache)

  step_back_part :
      (before after : List (Entry D)) (e : Entry D)
      → IsIn e (step_back packets policy before after)
      → IsIn e (before ++ after)
  unfolding step_back
  step_back_part [] after e h = h
  step_back_part (x ∷ []) after e h = h
  step_back_part (x ∷ y ∷ before) after e h = inr (step_back_part (y ∷ before) after e h)

  step_back-IsIn :
      (name : K) (cache : List (Entry D)) (e : Entry D)
      → IsIn e (
          step_back packets policy
            (below packets policy name cache)
            (lower_bound packets policy name cache))
      → IsIn e cache
  step_back-IsIn name cache e h =
      subst (λ l. IsIn e l) (below-append-lower_bound name cache)
        (step_back_part (below packets policy name cache) (lower_bound packets policy name cache) e
          h)

  scanned :
      (interest : Interest K D) (cache found : List (Entry D)) (e : Entry D)
      → lower_bound packets policy interest.name cache ≡ found
      → candidate packets policy interest cache ≡ some e
      → IsIn e cache × Satisfies interest e
  unfolding candidate
  scanned interest cache [] e l h = absurd (ground arith)
  scanned interest cache (x ∷ after) e l h =
      let (there, good) =
        select_child_lem interest
          (step_back packets policy (below packets policy interest.name cache) (x ∷ after)) e
          (rw (l, candidate) at h) in
      (step_back-IsIn interest.name cache e (rw l there), good)

  -- A packet that find(const Interest&) returns is the packet of an entry of the cache, and that
  -- entry has the interest's name as its full name, or matchesData accepts its packet and it is
  -- fresh if the interest asks for it.
  pub find_interest-Satisfies :
      (interest : Interest K D) (s : Storage K D) (d : D)
      → (find_interest packets policy interest s).1 ≡ some d
      → (e : Entry D) × (e.packet ≡ d)
        × IsIn e s.cache
        × ((full_name packets e ≡ interest.name) ⊎ Satisfies interest e)
  unfolding find_interest accessed
  find_interest-Satisfies interest s d h =
      elim (Option-cases (lookup same (full_name packets) interest.name s.cache)) [
        | inr (e, l) ↦
            let (there, named) = lookup-IsIn interest.name s.cache e l in
            (e, ground arith, there, inl named)
        | inl l ↦ elim (Option-cases (candidate packets policy interest s.cache)) [
          | inl c ↦ absurd (ground arith)
          | inr (e, c) ↦
              let (there, good) =
                scanned interest s.cache (lower_bound packets policy interest.name s.cache) e refl
                  c in
              (e, ground arith, there, inr good)
        ]
      ]

  access-IsValid :
      (e : Entry D) (s : Storage K D)
      → IsValid packets policy s
      → IsIn e s.cache
      → IsValid packets policy (access packets policy e s)
  access-IsValid e s z there = record {
    sound = access-IsSound packets policy e s z.sound (holds-IsIn e s.cache there);
    pooled = z.pooled;
    floor = z.floor;
    bounded = z.bounded;
    limited = z.limited;
    evictable = z.evictable;
  }

  -- Both finds keep the invariant.
  pub find_interest-IsValid :
      (interest : Interest K D) (s : Storage K D)
      → IsValid packets policy s
      → IsValid packets policy (find_interest packets policy interest s).0
  unfolding find_interest accessed
  find_interest-IsValid interest s z =
      elim (Option-cases (lookup same (full_name packets) interest.name s.cache)) [
        | inr (e, l) ↦ rw (l, find_interest) z
        | inl l ↦ elim (Option-cases (candidate packets policy interest s.cache)) [
          | inl c ↦ rw (l, c, find_interest) z
          | inr (e, c) ↦
              let (there, _) =
                scanned interest s.cache (lower_bound packets policy interest.name s.cache) e refl
                  c in
              rw (l, c, find_interest) (access-IsValid e s z there)
        ]
      ]

  first_entry :
      (name : K) (s : Storage K D) (found : List (Entry D))
      → lower_bound packets policy name s.cache ≡ found
      → IsValid packets policy s
      → IsValid packets policy (find_name packets policy name s).0
  unfolding find_name
  first_entry name s [] l z = rw (l, find_name) z
  first_entry name s (e ∷ after) l z = elim (Bool-cases (is_prefix_of name (full_name packets e))) [
    | inl p ↦
        rw (l, p, find_name)
          (access-IsValid e s z (lower_bound-IsIn name s.cache e (rw l (inl refl))))
    | inr p ↦ rw (l, p, find_name) z
  ]

  pub find_name-IsValid :
      (name : K) (s : Storage K D)
      → IsValid packets policy s
      → IsValid packets policy (find_name packets policy name s).0
  find_name-IsValid name s z = first_entry name s (lower_bound packets policy name s.cache) refl z

  -- The event of scheduleMarkStale changes only the freshness.
  holds-mark_stale :
      (k name : K) (cache : List (Entry D))
      → holds same (full_name packets) k (mark_stale packets policy name cache)
        ≡ holds same (full_name packets) k cache
  unfolding holds mark_stale
  holds-mark_stale k name [] = refl
  holds-mark_stale k name (x ∷ cache) = ground (arith, holds-mark_stale k name cache)

  mark_stale-IsUnique :
      (name : K) (cache : List (Entry D))
      → IsUnique same (full_name packets) cache
      → IsUnique same (full_name packets) (mark_stale packets policy name cache)
  unfolding mark_stale
  mark_stale-IsUnique name [] u = tt
  mark_stale-IsUnique name (x ∷ cache) u = elim (same (full_name packets x) name) [
    | yes p ↦ rw (if_pos _ p) u
    | no p ↦ rw (if_neg _ p) (
      holds-mark_stale (full_name packets x) name cache ∙ u.0,
      mark_stale-IsUnique name cache u.1,
    )
  ]

  length-mark_stale :
      (name : K) (cache : List (Entry D))
      → length (mark_stale packets policy name cache) ≡ length cache
  unfolding mark_stale
  length-mark_stale name [] = refl
  length-mark_stale name (x ∷ cache) = ground (arith, length-mark_stale name cache)

  pub mark_stale-IsValid :
      (name : K) (s : Storage K D)
      → IsValid packets policy s
      → IsValid packets policy (record s { cache = mark_stale packets policy name s.cache })
  mark_stale-IsValid name s z = record {
    sound = record {
      counted = z.sound.counted ∙ sym (length-mark_stale name s.cache);
      fits = z.sound.fits;
      unique = mark_stale-IsUnique name s.cache z.sound.unique;
      ordered = mark_stale-IsOrdered packets policy name s.cache z.sound.ordered;
      slots_unique = z.sound.slots_unique;
      tracked = λ e k. z.sound.tracked e k ∙ sym (holds-mark_stale k name s.cache);
    };
    pooled = z.pooled;
    floor = z.floor;
    bounded = z.bounded;
    limited = z.limited;
    evictable = z.evictable;
  }
