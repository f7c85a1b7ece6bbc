-- ===== src/Storage/Names.antt =====
-- ndn-cxx/ims with the order and the prefixes that name.cpp gives names in the shortest form: a name
-- is its key.
use ndn_cxx_gm.Base.{
  ◌≡◌, ◌↔◌, ◌⊎◌, inl, inr, ◌∙◌, refl, sym, Bool, true, false, none, some, Ordering, ap,
}
use ndn_cxx_gm.Base.Memory.{flip}
use ndn_cxx_gm.Storage.{Packets, PrefixLaws, Policy, Entry, Storage}
use ndn_cxx_gm.Storage.Ordered.{IsOrdered}
use ndn_cxx_gm.Storage.Operations.{Interest, find_name, find_interest}
use ndn_cxx_gm.Storage.Finding.{IsIn, Satisfies}
use ndn_cxx_gm.Storage.Complete.{find_name-none, find_interest-some}
use ndn_cxx_gm.Name.Lex.{
  Ordering-cases, lex-IsOrder, compare-IsOrder, lex, prefix_above, prefix_between,
}
use ndn_cxx_gm.Name.Keys.{HasKey, compare-key, Key, key_compare, key_prefix, key_compare-IsOrder}
use ndn_cxx_gm.Base
use ndn_cxx_gm.Block.{Block}
use ndn_cxx_gm.Name

abbrev pub is_lt : Ordering → Bool
is_lt Ordering.lt = true
is_lt Ordering.eq = false
is_lt Ordering.gt = false

pub lt_of : (o : Ordering) → is_lt o ≡ true → o ≡ Ordering.lt
lt_of Ordering.lt h = refl
lt_of Ordering.eq h = cc
lt_of Ordering.gt h = cc

not_lt : (o : Ordering) → is_lt o ≡ false → o ≡ Ordering.lt → ⊥
not_lt Ordering.lt h e = cc
not_lt Ordering.eq h e = cc
not_lt Ordering.gt h e = cc

never_lt : (o : Ordering) → (o ≡ Ordering.lt → ⊥) → is_lt o ≡ false
never_lt Ordering.lt h = absurd (h refl)
never_lt Ordering.eq h = refl
never_lt Ordering.gt h = refl

-- operator< of Name
abbrev pub key_less : Key → Key → Bool
key_less a b = is_lt (key_compare a b)

pub same_key : Discrete Key
same_key a b = elim (Ordering-cases (key_compare a b)) [
  | inl l ↦ no (λ p. cc (sym l ∙ ap (key_compare a) (sym p) ∙ key_compare-IsOrder.same a))
  | inr (inl e) ↦ yes (key_compare-IsOrder.only a b e)
  | inr (inr g) ↦ no (λ p. cc (sym g ∙ ap (key_compare a) (sym p) ∙ key_compare-IsOrder.same a))
]

pub key_total : (a b : Key) → key_less a b ≡ false → key_less b a ≡ false → a ≡ b
key_total a b h k = elim (Ordering-cases (key_compare a b)) [
  | inl l ↦ absurd (not_lt (key_compare a b) h l)
  | inr (inl e) ↦ key_compare-IsOrder.only a b e
  | inr (inr g) ↦ absurd (not_lt (key_compare b a) k (key_compare-IsOrder.flips a b ∙ ap flip g))
]

module _ {D : Type 0} (get_name get_full_name : D → Key) where
  -- The names of packets in the shortest form, as the storage sees them.
  abbrev pub key_packets : Packets Key D
  key_packets = record {
    same = same_key;
    less = key_less;
    is_prefix_of = key_prefix;
    get_name = get_name;
    get_full_name = get_full_name;
    less_irrefl = λ a. ap is_lt (key_compare-IsOrder.same a);
    less_trans = λ a b c h k.
        ap is_lt
          (key_compare-IsOrder.trans a b c (lt_of (key_compare a b) h) (lt_of (key_compare b c) k));
    less_total = key_total;
  }

  key_prefixes : PrefixLaws key_packets
  key_prefixes = record {
    prefix_first = λ p a h.
        never_lt (key_compare a p)
          (prefix_above (lex Base.compare) (lex-IsOrder Base.compare compare-IsOrder) p a h);
    prefix_convex = λ p a b h k l.
        prefix_between (lex Base.compare) (lex-IsOrder Base.compare compare-IsOrder) p a b h
          (not_lt (key_compare a p) k) (not_lt (key_compare b a) l);
  }

  -- In a cache in the order of full names, where names are ordered by the TLV-TYPE, TLV-LENGTH
  -- and bytes of their components: if the interest's name and the full name of an entry have
  -- fewer than 2^31 components, each in the shortest wire encoding, as a value or as a TLV-TYPE
  -- alone, with a TLV-TYPE from 1 to 65535 and fewer than 2^31 bytes, isPrefixOf holds of them,
  -- matchesData accepts the packet of the entry, and it is fresh if the interest asks for it,
  -- then find(const Interest&) returns a packet.
  pub find_interest-hits :
      (policy : Policy Key) (interest : Interest Key D) (s : Storage Key D) (e : Entry D)
      (name full : Block)
      → HasKey name interest.name
      → HasKey full (get_full_name e.packet)
      → IsOrdered key_packets s.cache
      → IsIn e s.cache
      → Name.is_prefix_of name full ≡ true
      → Satisfies key_packets policy interest e
      → (d : D) × ((find_interest key_packets policy interest s).1 ≡ some d)
  find_interest-hits policy interest s e name full n f o i p good =
      let same = (compare-key name full interest.name (get_full_name e.packet) n f).1 in
      find_interest-some key_packets key_prefixes policy interest s e o i (sym same ∙ p) good

  -- In a cache in the order of full names, where names are ordered by the TLV-TYPE, TLV-LENGTH
  -- and bytes of their components, and for a name and full names of fewer than 2^31 components,
  -- each in the shortest wire encoding, as a value or as a TLV-TYPE alone, with a TLV-TYPE from 1
  -- to 65535 and fewer than 2^31 bytes: find(const Name&) returns no packet exactly where
  -- isPrefixOf holds of the name and of no full name in the cache.
  pub find_name-eq-none_iff :
      (policy : Policy Key) (name : Block) (key : Key) (full : Entry D → Block) (s : Storage Key D)
      → HasKey name key
      → ((e : Entry D) → IsIn e s.cache → HasKey (full e) (get_full_name e.packet))
      → IsOrdered key_packets s.cache
      → ((find_name key_packets policy key s).1 ≡ none)
        ↔ ((e : Entry D) → IsIn e s.cache → Name.is_prefix_of name (full e) ≡ false)
  find_name-eq-none_iff policy name key full s n f o =
      let (to, back) = find_name-none key_packets key_prefixes policy key s o in
      let same = λ (e : Entry D) (i : IsIn e s.cache).
        (compare-key name (full e) key (get_full_name e.packet) n (f e i)).1 in
      (λ h e i. same e i ∙ to h e i, λ h. back (λ e i. sym (same e i) ∙ h e i))
