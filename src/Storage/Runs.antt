-- ===== src/Storage/Runs.antt =====
-- The storage of ndn-cxx/ims with names of numbered components: the laws of its interface hold, and
-- the operations run on packets.
use ndn_cxx_gm.Base.{
  ℕ, zero, suc, ◌+◌, ◌≤◌, ◌<◌, ◌≡◌, ◌↔◌, ◌⊎◌, inl, ◌∙◌, refl, sym, List, [], ◌∷◌, ◌++◌, Bool, true,
  false, none, some, ltb, ◌==◌, if◌then◌else◌, length, All, ok, err, arith, ℕ_discrete, ap, inr,
}
use ndn_cxx_gm.Storage.{
  Packets, lru, Storage, init, Entry, Slot, fifo, full_name, no_free_entry, erase_key,
}
use ndn_cxx_gm.Storage.Keyed.{lookup, erase_key, holds, insert_last}
use ndn_cxx_gm.Storage.Keyed.{IsUnique}
use ndn_cxx_gm.Storage.Ordered.{AreAfter, IsOrdered, AreAfter-absent, IsOrdered-IsUnique}
use ndn_cxx_gm.Storage.Invariant.{IsSound, cache_holds, slots_hold}
use ndn_cxx_gm.Storage.Slots.{Evicts}
use ndn_cxx_gm.Storage.Finding.{IsIn, Satisfies, find_interest-Satisfies}
use ndn_cxx_gm.Storage.Names.{key_packets, find_interest-hits, find_name-eq-none_iff}
use ndn_cxx_gm.Block.{Block, block, no_buffer, nil, cons}
use ndn_cxx_gm.Block.Parsing.{element}
use ndn_cxx_gm.Component.Compare.{IsComparable}
use ndn_cxx_gm.Component.Order
use ndn_cxx_gm.Base.Memory.{memcmp}
use ndn_cxx_gm.Name
use ndn_cxx_gm.Name.Keys.{Key, HasKey}
use ndn_cxx_gm.Storage.Safety.{Reach, here, next, inserting, Reach-Safe, Reach-insert}
use ndn_cxx_gm.Storage.Limits.{insert-small_limit}
use ndn_cxx_gm.Storage.Eviction.{History, start, arrived, touched, last_use, victim-oldest}
use ndn_cxx_gm.Storage.Policies.{after_insert, after_access, entry_of, next_victim, before_erase}
use ndn_cxx_gm.Storage.Capacity.{pop_entries}
use ndn_cxx_gm.Storage.Operations.{
  accessed, insert, cache_insert, store_packet, grow, replace, Interest, find_interest, find_name,
  candidate, lower_bound, below, step_back, select_child, next_candidate,
}

record Packet : Type 0 where
  name : List ℕ
  digest : ℕ

names_same : Discrete (List ℕ)
unfolding ℕ_discrete
names_same [] [] = yes refl
names_same [] (y ∷ b) = no (λ p. cc)
names_same (x ∷ a) [] = no (λ p. cc)
names_same (x ∷ a) (y ∷ b) = elim (ℕ_discrete x y) [
  | no n ↦ no (λ p. n (cc p))
  | yes e ↦ elim (names_same a b) [ no n ↦ no (λ p. n (cc p)) | yes f ↦ yes (cc (e, f)) ]
]

names_less : List ℕ → List ℕ → Bool
names_less a [] = false
names_less [] (y ∷ b) = true
names_less (x ∷ a) (y ∷ b) = if x == y then names_less a b else ltb x y

names_prefix : List ℕ → List ℕ → Bool
names_prefix [] b = true
names_prefix (x ∷ a) [] = false
names_prefix (x ∷ a) (y ∷ b) = if x == y then names_prefix a b else false

names_less_irrefl : (a : List ℕ) → names_less a a ≡ false
unfolding names_less
names_less_irrefl [] = refl
names_less_irrefl (x ∷ a) = ground (arith, names_less_irrefl a)

names_less_trans :
    (a b c : List ℕ) → names_less a b ≡ true → names_less b c ≡ true → names_less a c ≡ true
unfolding names_less
names_less_trans a b [] h k = k
names_less_trans [] b (z ∷ c) h k = refl
names_less_trans (x ∷ a) [] (z ∷ c) h k = cc
names_less_trans (x ∷ a) (y ∷ b) (z ∷ c) h k = ground (arith, names_less_trans a b c)

names_less-total : (a b : List ℕ) → names_less a b ≡ false → names_less b a ≡ false → a ≡ b
unfolding names_less
names_less-total [] [] h k = refl
names_less-total [] (y ∷ b) h k = cc
names_less-total (x ∷ a) [] h k = cc
names_less-total (x ∷ a) (y ∷ b) h k = ground (arith, names_less-total a b)

abbrev packets : Packets (List ℕ) Packet
packets = record {
  same = names_same;
  less = names_less;
  is_prefix_of = names_prefix;
  get_name = λ d. d.name;
  get_full_name = λ d. d.name ++ d.digest ∷ [];
  less_irrefl = names_less_irrefl;
  less_trans = names_less_trans;
  less_total = names_less-total;
}

abbrev packet_a : Packet
packet_a = record { name = 1 ∷ 2 ∷ []; digest = 7 }

abbrev packet_b : Packet
packet_b = record { name = 1 ∷ []; digest = 9 }

abbrev with_a : Storage (List ℕ) Packet
with_a = record {
  limit = 16;
  capacity = 16;
  n_packets = 1;
  free_entries = 15;
  cache = record { packet = packet_a; is_fresh = true } ∷ [];
  cleanup_index = record { entry = 1 ∷ 2 ∷ 7 ∷ []; frequency = 0 } ∷ [];
}

insert-first : insert packets lru packet_a (init 16) ≡ ok with_a
unfolding insert init holds grow replace store_packet pop_entries cache_insert after_insert
    insert_last
insert-first = refl

-- Packets named by one number each, from `k` on, and their slots.
abbrev numbered : ℕ → Entry Packet
numbered k = record { packet = record { name = k ∷ []; digest = 0 }; is_fresh = true }

cache_from : ℕ → ℕ → List (Entry Packet)
cache_from k zero = []
cache_from k (suc n) = numbered k ∷ cache_from (suc k) n

slots_from : ℕ → ℕ → List (Slot (List ℕ))
slots_from k zero = []
slots_from k (suc n) = record { entry = k ∷ 0 ∷ []; frequency = 0 } ∷ slots_from (suc k) n

cache_from-AreAfter :
    (j k n : ℕ) → j < k → AreAfter packets (full_name packets (numbered j)) (cache_from k n)
unfolding cache_from names_less
cache_from-AreAfter j k zero h = tt
cache_from-AreAfter j k (suc n) h = (ground arith, cache_from-AreAfter j (suc k) n (omega arith))

cache_from-IsOrdered : (k n : ℕ) → IsOrdered packets (cache_from k n)
unfolding cache_from
cache_from-IsOrdered k zero = tt
cache_from-IsOrdered k (suc n) =
    (cache_from-AreAfter k (suc k) n (omega arith), cache_from-IsOrdered (suc k) n)

slots_from-hold :
    (name : List ℕ) (k n : ℕ)
    → holds names_same entry_of name (slots_from k n)
      ≡ holds names_same (full_name packets) name (cache_from k n)
unfolding cache_from slots_from holds
slots_from-hold name k zero = refl
slots_from-hold name k (suc n) = ground (arith, slots_from-hold name (suc k) n)

length-cache_from : (k n : ℕ) → length (cache_from k n) ≡ n
unfolding cache_from
length-cache_from k zero = refl
length-cache_from k (suc n) = omega (arith, length-cache_from (suc k) n)

slots_from-IsUnique : (k n : ℕ) → IsUnique names_same entry_of (slots_from k n)
unfolding slots_from
slots_from-IsUnique k zero = tt
slots_from-IsUnique k (suc n) = (
  slots_from-hold (k ∷ 0 ∷ []) (suc k) n
      ∙ AreAfter-absent packets (k ∷ 0 ∷ []) (cache_from (suc k) n)
          (cache_from-AreAfter k (suc k) n (omega arith)),
  slots_from-IsUnique (suc k) n,
)

-- A storage with limit 3 that holds 16 packets.
abbrev over_limit : Storage (List ℕ) Packet
over_limit = record {
  limit = 3;
  capacity = 16;
  n_packets = 16;
  free_entries = 0;
  cache = cache_from 0 16;
  cleanup_index = slots_from 0 16;
}

over_limit-IsSound : IsSound packets fifo over_limit
over_limit-IsSound = record {
  counted = sym (length-cache_from 0 16);
  fits = omega arith;
  unique = IsOrdered-IsUnique packets (cache_from 0 16) (cache_from-IsOrdered 0 16);
  ordered = cache_from-IsOrdered 0 16;
  slots_unique = slots_from-IsUnique 0 16;
  tracked = λ e name. slots_from-hold name 0 16;
}

over_limit-absent : holds names_same (full_name packets) (20 ∷ 1 ∷ []) (cache_from 0 16) ≡ false
unfolding holds cache_from names_same ℕ_discrete
over_limit-absent = refl

insert-small_limit_example :
    insert packets fifo (record { name = 20 ∷ []; digest = 1 }) over_limit ≡ err no_free_entry
insert-small_limit_example =
    insert-small_limit packets fifo (record { name = 20 ∷ []; digest = 1 }) over_limit
      over_limit-IsSound (omega arith) refl refl refl over_limit-absent

Reach-Safe_example :
    (with_a.n_packets ≡ length with_a.cache)
    × (with_a.n_packets + with_a.free_entries ≡ with_a.capacity)
    × (with_a.capacity ≤ with_a.limit)
    × (Evicts {K = List ℕ} lru
        → (k : List ℕ) → slots_hold packets lru k with_a ≡ cache_holds packets lru k with_a)
unfolding init
Reach-Safe_example =
    Reach-Safe packets lru 16 with_a (omega arith) (omega arith) (inl tt)
      (next here (inserting packet_a (omega arith) insert-first))

Reach-insert_example :
    (t : Storage (List ℕ) Packet) × (insert packets lru packet_b with_a ≡ ok t)
    × (cache_holds packets lru (1 ∷ 9 ∷ []) t ≡ true)
    × Reach packets lru (init 16) t
unfolding init
Reach-insert_example =
    Reach-insert packets lru 16 with_a packet_b (omega arith) (omega arith) (inl tt)
      (next here (inserting packet_a (omega arith) insert-first)) (omega arith)

abbrev below_1 : Interest (List ℕ) Packet
below_1 = record { name = 1 ∷ []; must_be_fresh = true; matches_data = λ d. d.digest == 7 }

find_a : (find_interest packets lru below_1 with_a).1 ≡ some packet_a
unfolding find_interest accessed candidate lookup lower_bound below step_back select_child
    next_candidate names_less names_same ℕ_discrete
find_a = refl

find_interest-Satisfies_example :
    (e : Entry Packet) × (e.packet ≡ packet_a)
    × IsIn e with_a.cache
    × ((full_name packets e ≡ (1 ∷ [])) ⊎ Satisfies packets lru below_1 e)
find_interest-Satisfies_example = find_interest-Satisfies packets lru below_1 with_a packet_a find_a

-- The name of one component `A`, and the name of two, `A` and `B`.
abbrev name_a : Block
name_a = block 7 no_buffer 2 (cons (element 8 (65 ∷ [])) nil)

abbrev name_ab : Block
name_ab = block 7 no_buffer 2 (cons (element 8 (65 ∷ [])) (cons (element 8 (66 ∷ [])) nil))

abbrev key_a : Key
key_a = (8 ∷ 1 ∷ 65 ∷ []) ∷ []

abbrev key_ab : Key
key_ab = (8 ∷ 1 ∷ 65 ∷ []) ∷ (8 ∷ 1 ∷ 66 ∷ []) ∷ []

byte-IsComparable : (b : ℕ) → IsComparable 8 (b ∷ [])
byte-IsComparable b = record { legal = omega arith; fits = omega arith; sized = omega arith }

a-HasKey : HasKey name_a key_a
a-HasKey = (((8, 65 ∷ [], byte-IsComparable 65, inl refl, refl), tt), omega arith)

ab-HasKey : HasKey name_ab key_ab
ab-HasKey = (
  (
    (8, 65 ∷ [], byte-IsComparable 65, inl refl, refl),
    ((8, 66 ∷ [], byte-IsComparable 66, inl refl, refl), tt),
  ),
  omega arith,
)

-- A packet is its full name.
abbrev keys : Packets Key Key
keys = key_packets (λ k. k) (λ k. k)

abbrev entry_ab : Entry Key
entry_ab = record { packet = key_ab; is_fresh = true }

abbrev with_ab : Storage Key Key
with_ab = record {
  limit = 16;
  capacity = 16;
  n_packets = 1;
  free_entries = 15;
  cache = entry_ab ∷ [];
  cleanup_index = record { entry = key_ab; frequency = 0 } ∷ [];
}

abbrev for_a : Interest Key Key
for_a = record { name = key_a; matches_data = λ d. true; must_be_fresh = false }

a-is_prefix_of : Name.is_prefix_of name_a name_ab ≡ true
unfolding Name.is_prefix_of Name.same_loop Order.equals memcmp
a-is_prefix_of = refl

find_interest-hits_example : (d : Key) × ((find_interest keys lru for_a with_ab).1 ≡ some d)
find_interest-hits_example =
    find_interest-hits (λ (k : Key). k) (λ k. k) lru for_a with_ab entry_ab name_a name_ab a-HasKey
      ab-HasKey (tt, tt) (inl refl) a-is_prefix_of (refl, refl)

ab_keyed : (e : Entry Key) → IsIn e with_ab.cache → HasKey name_ab e.packet
ab_keyed e (inl p) = rw (ap (λ (x : Entry Key). x.packet) p) ab-HasKey
ab_keyed e (inr i) = absurd i

find_name-eq-none_iff_example :
    ((find_name keys lru key_a with_ab).1 ≡ none)
    ↔ ((e : Entry Key) → IsIn e with_ab.cache → Name.is_prefix_of name_a name_ab ≡ false)
find_name-eq-none_iff_example =
    find_name-eq-none_iff (λ (k : Key). k) (λ k. k) lru name_a key_a (λ e. name_ab) with_ab a-HasKey
      ab_keyed (tt, tt)

-- Stored 1 and 2, then 1 is accessed: 2 is evicted.
abbrev slot : ℕ → Slot ℕ
slot k = record { entry = k; frequency = 0 }

two_used : History ℕ_discrete lru (slot 2 ∷ slot 1 ∷ []) (1 ∷ 2 ∷ 1 ∷ [])
unfolding after_insert after_access before_erase insert_last holds erase_key ℕ_discrete
two_used = touched 1 (arrived 2 (arrived 1 start refl) refl) refl

victim_2 : next_victim {K = ℕ} lru (slot 2 ∷ slot 1 ∷ []) ≡ some (slot 2)
unfolding next_victim
victim_2 = refl

victim-oldest_example :
    (holds ℕ_discrete entry_of 2 (slot 2 ∷ slot 1 ∷ []) ≡ true)
    × All
        (λ y. last_use ℕ_discrete 2 (1 ∷ 2 ∷ 1 ∷ []) ≤ last_use ℕ_discrete y.entry (1 ∷ 2 ∷ 1 ∷ []))
        (slot 2 ∷ slot 1 ∷ [])
victim-oldest_example =
    victim-oldest ℕ_discrete lru (slot 2 ∷ slot 1 ∷ []) (1 ∷ 2 ∷ 1 ∷ []) (slot 2) tt two_used
      victim_2
