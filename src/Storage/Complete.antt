-- ===== src/Storage/Complete.antt =====
-- find of ndn-cxx/ims/in-memory-storage.cpp misses no entry: in a cache in order, the scan from the
-- lower bound meets every entry whose full name begins with the name.
use ndn_cxx_gm.Base.{
  ◌≡◌, ◌↔◌, inl, inr, Option-cases, ◌∙◌, refl, sym, ap, List, [], ◌∷◌, true, false, not, ◌&&◌, none,
  some, All, arith, Bool-cases,
}
use ndn_cxx_gm.Storage.{PrefixLaws, Packets, Entry, full_name, Policy, Storage, lookup}
use ndn_cxx_gm.Storage.Ordered.{AreAfter, IsOrdered}
use ndn_cxx_gm.Storage.Finding.{IsIn, lower_bound-IsIn, Satisfies}
use ndn_cxx_gm.Storage.Operations.{
  Interest, lower_bound, select_right, find_name, select_child, next_candidate, candidate,
  find_interest, step_back, accessed, below,
}

module _ {K D : Type 0} (packets : Packets K D) (prefixes : PrefixLaws packets)
    (policy : Policy K) where
  open packets use {same, less, is_prefix_of, less_irrefl, less_trans}
  open prefixes use {prefix_first, prefix_convex}

  less_of_AreAfter :
      (name : K) (cache : List (Entry D)) (e : Entry D)
      → AreAfter packets name cache
      → IsIn e cache
      → less name (full_name packets e) ≡ true
  less_of_AreAfter name [] e h i = absurd i
  less_of_AreAfter name (x ∷ cache) e h (inl p) = rw p h.0
  less_of_AreAfter name (x ∷ cache) e h (inr i) = less_of_AreAfter name cache e h.1 i

  less_asym : (a b : K) → less a b ≡ true → less b a ≡ false
  less_asym a b h = ground (arith, less_trans a b a, less_irrefl a)

  -- An entry between the name and one that begins with it begins with it.
  head_prefix :
      (name : K) (x : Entry D) (cache : List (Entry D)) (e : Entry D)
      → IsOrdered packets (x ∷ cache)
      → less (full_name packets x) name ≡ false
      → IsIn e (x ∷ cache)
      → is_prefix_of name (full_name packets e) ≡ true
      → is_prefix_of name (full_name packets x) ≡ true
  head_prefix name x cache e o h (inl p) q = rw (← p) q
  head_prefix name x cache e o h (inr i) q =
      prefix_convex name (full_name packets x) (full_name packets e) q h (
        less_asym (full_name packets x) (full_name packets e)
          (less_of_AreAfter (full_name packets x) cache e o.0 i))

  -- The lower bound keeps the entry, and its first value begins with the name.
  lower_bound_lem :
      (name : K) (cache : List (Entry D)) (e : Entry D)
      → IsOrdered packets cache
      → IsIn e cache
      → is_prefix_of name (full_name packets e) ≡ true
      → (x : Entry D) × (after : List (Entry D)) × (lower_bound packets policy name cache
          ≡ x ∷ after)
        × IsOrdered packets (x ∷ after)
        × IsIn e (x ∷ after)
        × (less (full_name packets x) name ≡ false)
  unfolding lower_bound
  lower_bound_lem name [] e o i q = absurd i
  lower_bound_lem name (y ∷ cache) e o i q = elim (Bool-cases (less (full_name packets y) name)) [
    | inr here ↦ (y, cache, rw (here, lower_bound), o, i, here)
    | inl before ↦ elim i [
      | inl p ↦
          absurd (ground (arith, prefix_first name (full_name packets e), ap (full_name packets) p))
      | inr later ↦
          let (x, after, l, o', i', h) = lower_bound_lem name cache e o.1 later q in
          (x, after, rw (before, l, lower_bound), o', i', h)
    ]
  ]

  no_hit :
      (name : K) (s : Storage K D)
      → ((e : Entry D) → IsIn e s.cache → is_prefix_of name (full_name packets e) ≡ false)
      → (found : List (Entry D)) → lower_bound packets policy name s.cache ≡ found
      → (find_name packets policy name s).1 ≡ none
  unfolding find_name
  no_hit name s f [] l = rw (l, find_name)
  no_hit name s f (x ∷ after) l =
      let out = f x (lower_bound-IsIn packets policy name s.cache x (rw l (inl refl))) in
      rw (l, out, find_name)

  -- find(const Name&) returns no packet exactly where no full name begins with the name.
  pub find_name-none :
      (name : K) (s : Storage K D)
      → IsOrdered packets s.cache
      → ((find_name packets policy name s).1 ≡ none)
        ↔ ((e : Entry D) → IsIn e s.cache → is_prefix_of name (full_name packets e) ≡ false)
  unfolding find_name
  find_name-none name s o = (
    λ h e i. elim (Bool-cases (is_prefix_of name (full_name packets e))) [
      | inr p ↦ p
      | inl q ↦
          let (x, after, l, o', i', here) = lower_bound_lem name s.cache e o i q in
          let q' = head_prefix name x after e o' here i' q in
          let hit : (find_name packets policy name s).1 ≡ some x.packet = rw (l, q', find_name) in
          absurd (cc (sym h ∙ hit))
    ],
    λ f. no_hit name s f (lower_bound packets policy name s.cache) refl,
  )

  select_right_hits :
      (interest : Interest K D) (cache : List (Entry D)) (e : Entry D)
      → IsOrdered packets cache
      → All (λ x. less (full_name packets x) interest.name ≡ false) cache
      → IsIn e cache
      → is_prefix_of interest.name (full_name packets e) ≡ true
      → Satisfies packets policy interest e
      → ¬ (select_right packets policy interest cache ≡ none)
  unfolding select_right
  select_right_hits interest [] e o b i q good = absurd i
  select_right_hits interest (x ∷ cache) e o b i q good =
      let here = head_prefix interest.name x cache e o b.0 i q in
      elim i [
        | inl p ↦
            let m : interest.matches_data x.packet ≡ true = rw (← p) good.0 in
            let fresh : (interest.must_be_fresh && not x.is_fresh) ≡ false = rw (← p) good.1 in
            rw (fresh, here, m, select_right) (λ h. cc)
        | inr later ↦
            let rest = select_right_hits interest cache e o.1 b.1 later q good in
            ground (arith, rest)
      ]

  -- All that find(const Interest&) asks of the entry `e` among entries from the name on.
  record Sought (interest : Interest K D) (cache : List (Entry D)) (e : Entry D) : Type 0 where
    ordered : IsOrdered packets cache
    from : All (λ x. less (full_name packets x) interest.name ≡ false) cache
    there : IsIn e cache
    prefix : is_prefix_of interest.name (full_name packets e) ≡ true
    good : Satisfies packets policy interest e

  Sought-tail :
      (interest : Interest K D) (x : Entry D) (cache : List (Entry D)) (e : Entry D)
      → Sought interest (x ∷ cache) e
      → IsIn e cache
      → Sought interest cache e
  Sought-tail interest x cache e z later = record {
    ordered = z.ordered.1;
    from = z.from.1;
    there = later;
    prefix = z.prefix;
    good = z.good;
  }

  select_child_hits :
      (interest : Interest K D) (cache : List (Entry D)) (e : Entry D)
      → Sought interest cache e
      → ¬ (select_child packets policy interest cache ≡ none)
  unfolding select_child next_candidate
  select_child_hits interest [] e z = absurd z.there
  select_child_hits interest (x ∷ cache) e z =
      elim (Bool-cases (interest.must_be_fresh && not x.is_fresh)) [
        | inl stale ↦ elim z.there [
          | inl p ↦ absurd (ground (arith, z.good.1, ap (λ (y : Entry D). y.is_fresh) p))
          | inr later ↦
              rw (stale, select_child, next_candidate)
                (select_child_hits interest cache e (Sought-tail interest x cache e z later))
        ]
        | inr fresh ↦ elim (Bool-cases (interest.matches_data x.packet)) [
          | inl m ↦ rw (fresh, m, select_child, next_candidate) (λ h. cc)
          | inr m ↦ elim z.there [
            | inl p ↦ absurd (ground (arith, z.good.0, ap (λ (y : Entry D). y.packet) p))
            | inr later ↦
                rw (fresh, m, select_child, next_candidate)
                  (select_right_hits interest cache e z.ordered.1 z.from.1 later z.prefix z.good)
          ]
        ]
      ]

  one_back :
      (interest : Interest K D) (y : Entry D) (cache : List (Entry D)) (e : Entry D)
      → Sought interest cache e
      → ¬ (select_child packets policy interest (y ∷ cache) ≡ none)
  unfolding select_child next_candidate
  one_back interest y cache e z = elim (Bool-cases (interest.must_be_fresh && not y.is_fresh)) [
    | inl stale ↦ rw (stale, select_child, next_candidate) (select_child_hits interest cache e z)
    | inr fresh ↦ elim (Bool-cases (interest.matches_data y.packet)) [
      | inl m ↦ rw (fresh, m, select_child, next_candidate) (λ h. cc)
      | inr m ↦
          rw (fresh, m, select_child, next_candidate)
            (select_right_hits interest cache e z.ordered z.from z.there z.prefix z.good)
    ]
  ]

  -- The entry before the lower bound, at which selectChild may start, hides nothing.
  step_back_hits :
      (interest : Interest K D) (before cache : List (Entry D)) (e : Entry D)
      → Sought interest cache e
      → ¬ (select_child packets policy interest (step_back packets policy before cache) ≡ none)
  unfolding step_back
  step_back_hits interest [] cache e z = select_child_hits interest cache e z
  step_back_hits interest (y ∷ []) cache e z = one_back interest y cache e z
  step_back_hits interest (y ∷ y' ∷ before) cache e z =
      step_back_hits interest (y' ∷ before) cache e z

  AreAfter-from :
      (name : K) (x : Entry D) (after : List (Entry D))
      → less (full_name packets x) name ≡ false
      → AreAfter packets (full_name packets x) after
      → All (λ y. less (full_name packets y) name ≡ false) after
  AreAfter-from name x [] h a = tt
  AreAfter-from name x (y ∷ after) h a = (
    elim (Bool-cases (less (full_name packets y) name)) [
      | inr f ↦ f
      | inl t ↦
          absurd (cc (sym h ∙ less_trans (full_name packets x) (full_name packets y) name a.0 t))
    ],
    AreAfter-from name x after h a.1,
  )

  candidate_hits :
      (interest : Interest K D) (cache : List (Entry D)) (e : Entry D)
      → IsOrdered packets cache
      → IsIn e cache
      → is_prefix_of interest.name (full_name packets e) ≡ true
      → Satisfies packets policy interest e
      → ¬ (candidate packets policy interest cache ≡ none)
  unfolding candidate
  candidate_hits interest cache e o i q good =
      let (x, after, l, o', i', here) = lower_bound_lem interest.name cache e o i q in
      rw (l, candidate)
        (step_back_hits interest (below packets policy interest.name cache) (x ∷ after) e (record {
          ordered = o';
          from = (here, AreAfter-from interest.name x after here o'.0);
          there = i';
          prefix = q;
          good = good;
        }))

  -- find(const Interest&) returns a packet wherever there is one.
  pub find_interest-some :
      (interest : Interest K D) (s : Storage K D) (e : Entry D)
      → IsOrdered packets s.cache
      → IsIn e s.cache
      → is_prefix_of interest.name (full_name packets e) ≡ true
      → Satisfies packets policy interest e
      → (d : D) × ((find_interest packets policy interest s).1 ≡ some d)
  unfolding find_interest accessed
  find_interest-some interest s e o i q good =
      elim (Option-cases (lookup same (full_name packets) interest.name s.cache)) [
        | inr (x, l) ↦ (x.packet, rw (l, find_interest))
        | inl l ↦ elim (Option-cases (candidate packets policy interest s.cache)) [
          | inl c ↦ absurd (candidate_hits interest s.cache e o i q good c)
          | inr (x, c) ↦ (x.packet, rw (l, c, find_interest))
        ]
      ]
