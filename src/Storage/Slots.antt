-- ===== src/Storage/Slots.antt =====
-- The cleanup index of the policies of ndn-cxx/ims: which entries it holds after each call.
use ndn_cxx_gm.Base.{◌≡◌, ◌∙◌, refl, sym, ap, List, [], ◌∷◌, true, false, none, some, arith}
use mathlib.Core.List.{Mem, not-mem-nil, mem-cons}
use mathlib.Core.Logic.Or
use mathlib.Core.Bool.{Bool-set}
use mathlib.Core.Logic.{ite, if_pos, if_neg}
use ndn_cxx_gm.Storage.{Slot, Policy, fifo, lru, lfu, persistent}
use ndn_cxx_gm.Storage.Keyed.{
  holds, IsUnique, holds-insert_last, insert_last-IsUnique, holds-erase_key, erase_key-IsUnique,
}
use ndn_cxx_gm.Storage.Policies.{
  entry_of, after_insert, before_erase, after_access, increment_frequency, next_victim,
}

-- evictItem is not the persistent storage's, which evicts nothing.
abbrev pub Evicts : {K : Type 0} → Policy K → Type 0
Evicts persistent = ⊥
Evicts _ = Unit

module _ {K : Type 0} (same : Discrete K) where
  holds_of_mem : (x : Slot K) (l : List (Slot K)) → Mem x l → holds same entry_of x.entry l ≡ true
  unfolding holds
  holds_of_mem x [] m = absurd (not-mem-nil m)
  holds_of_mem x (y ∷ l) m = elim (same y.entry x.entry) [
    | yes p ↦ rw (if_pos _ p)
    | no p ↦ rw (if_neg _ p) (
        Or.elim (Bool-set _ _) (mem-cons.0 m) (λ e. absurd (p (ap entry_of (sym e))))
          (λ r. holds_of_mem x l r))
  ]

  pub victim-holds :
      (policy : Policy K) (l : List (Slot K)) (x : Slot K)
      → next_victim policy l ≡ some x
      → holds same entry_of x.entry l ≡ true
  unfolding next_victim holds
  victim-holds persistent l x h = cc
  victim-holds (lfu b) l x h = holds_of_mem x l (b.begin_mem l x h)
  victim-holds fifo [] x h = cc
  victim-holds fifo (y ∷ l) x h = ground arith
  victim-holds lru [] x h = cc
  victim-holds lru (y ∷ l) x h = ground arith

  pub victim-none :
      (policy : Policy K) (l : List (Slot K)) → Evicts policy → next_victim policy l ≡ none → l ≡ []
  unfolding next_victim
  victim-none persistent l e h = absurd e
  victim-none (lfu b) l e h = b.begin_none l h
  victim-none fifo [] e h = refl
  victim-none fifo (y ∷ l) e h = cc
  victim-none lru [] e h = refl
  victim-none lru (y ∷ l) e h = cc

  pub before_erase-IsUnique :
      (p : Policy K) (entry : K) (l : List (Slot K))
      → IsUnique same entry_of l
      → IsUnique same entry_of (before_erase same p entry l)
  unfolding before_erase
  before_erase-IsUnique persistent entry l u = u
  before_erase-IsUnique fifo entry l u = erase_key-IsUnique same entry_of entry l u
  before_erase-IsUnique lru entry l u = erase_key-IsUnique same entry_of entry l u
  before_erase-IsUnique (lfu b) entry l u = erase_key-IsUnique same entry_of entry l u

  pub holds-before_erase :
      (p : Policy K) (k entry : K) (l : List (Slot K))
      → Evicts p
      → IsUnique same entry_of l
      → holds same entry_of k (before_erase same p entry l)
        ≡ ite (same entry k) false (holds same entry_of k l)
  unfolding before_erase
  holds-before_erase persistent k entry l e u = absurd e
  holds-before_erase fifo k entry l e u = holds-erase_key same entry_of k entry l u
  holds-before_erase lru k entry l e u = holds-erase_key same entry_of k entry l u
  holds-before_erase (lfu b) k entry l e u = holds-erase_key same entry_of k entry l u

  pub after_insert-IsUnique :
      (p : Policy K) (entry : K) (l : List (Slot K))
      → IsUnique same entry_of l
      → IsUnique same entry_of (after_insert same p entry l)
  unfolding after_insert
  after_insert-IsUnique persistent entry l u = u
  after_insert-IsUnique fifo entry l u = insert_last-IsUnique same entry_of l _ u
  after_insert-IsUnique lru entry l u = insert_last-IsUnique same entry_of l _ u
  after_insert-IsUnique (lfu b) entry l u = insert_last-IsUnique same entry_of l _ u

  pub holds-after_insert :
      (p : Policy K) (k entry : K) (l : List (Slot K))
      → Evicts p
      → holds same entry_of k (after_insert same p entry l)
        ≡ ite (same entry k) true (holds same entry_of k l)
  unfolding after_insert
  holds-after_insert persistent k entry l e = absurd e
  holds-after_insert fifo k entry l e = holds-insert_last same entry_of k l _
  holds-after_insert lru k entry l e = holds-insert_last same entry_of k l _
  holds-after_insert (lfu b) k entry l e = holds-insert_last same entry_of k l _

  pub holds-increment_frequency :
      (k entry : K) (l : List (Slot K))
      → holds same entry_of k (increment_frequency same entry l) ≡ holds same entry_of k l
  unfolding holds increment_frequency
  holds-increment_frequency k entry [] = refl
  holds-increment_frequency k entry (x ∷ l) = ground (arith, holds-increment_frequency k entry l)

  pub increment_frequency-IsUnique :
      (entry : K) (l : List (Slot K))
      → IsUnique same entry_of l
      → IsUnique same entry_of (increment_frequency same entry l)
  unfolding increment_frequency
  increment_frequency-IsUnique entry [] u = tt
  increment_frequency-IsUnique entry (x ∷ l) u = elim (same x.entry entry) [
    | yes p ↦ rw (if_pos _ p) u
    | no p ↦
        rw (if_neg _ p) (
          holds-increment_frequency x.entry entry l ∙ u.0,
          increment_frequency-IsUnique entry l u.1,
        )
  ]

  pub after_access-IsUnique :
      (p : Policy K) (entry : K) (l : List (Slot K))
      → IsUnique same entry_of l
      → IsUnique same entry_of (after_access same p entry l)
  unfolding after_access
  after_access-IsUnique persistent entry l u = u
  after_access-IsUnique fifo entry l u = u
  after_access-IsUnique lru entry l u =
      after_insert-IsUnique lru entry _ (before_erase-IsUnique lru entry l u)
  after_access-IsUnique (lfu b) entry l u = increment_frequency-IsUnique entry l u

  pub holds-after_access :
      (p : Policy K) (k entry : K) (l : List (Slot K))
      → IsUnique same entry_of l
      → holds same entry_of entry l ≡ true
      → holds same entry_of k (after_access same p entry l) ≡ holds same entry_of k l
  unfolding after_access
  holds-after_access persistent k entry l u h = refl
  holds-after_access fifo k entry l u h = refl
  holds-after_access lru k entry l u h =
      rw
        (
          holds-after_insert lru k entry (before_erase same lru entry l) tt,
          holds-before_erase lru k entry l tt u,
        )
        (ground arith)
  holds-after_access (lfu b) k entry l u h = holds-increment_frequency k entry l
