-- ===== src/Delegations/Changing.antt =====
-- What the operations of delegation-list.cpp keep of the delegations of a list.
use ndn_cxx_gm.Base.{
  ◌==◌, ◌≤◌, ℕ, suc, ◌+◌, ◌≡◌, inl, inr, ◌∙◌, refl, ap, List, [], ◌∷◌, ◌++◌, Bool, true, false, not,
  ◌&&◌, Option, none, if◌then◌else◌, arith, Bool-cases,
}
use ndn_cxx_gm.Name
use ndn_cxx_gm.Block.{Block}
use ndn_cxx_gm.Delegations.Sorting.{in_order, IsOrdered, change-IsOrdered, sorting}
use ndn_cxx_gm.Delegations.{
  Delegation, DelegationList, ins_replace, ins_append, ins_skip, less, insert_sorted, insert_impl,
  is_erased, erase_loop, erase_impl, has_name, insert, insert_all, empty_list, sort,
}

-- How many delegations pass a test.
unfoldable pub count_if : (Delegation → Bool) → List Delegation → ℕ
count_if P [] = 0
count_if P (d ∷ ds) = let rest = count_if P ds in if P d then suc rest else rest

pub count_if-insert_sorted :
    (P : Delegation → Bool) (del : Delegation) (ds : List Delegation)
    → count_if P (insert_sorted del ds) ≡ count_if P (del ∷ ds)
unfolding insert_sorted count_if
count_if-insert_sorted P del [] = refl
count_if-insert_sorted P del (d ∷ ds) = elim (Bool-cases (less del d)) [
  | inl e ↦ rw e refl
  | inr e ↦ rw (e, count_if-insert_sorted P del ds) (go (P d) (P del) (count_if P ds))
]
  where
    go :
        (a b : Bool) (n : ℕ)
        → (if a then suc (if b then suc n else n) else (if b then suc n else n))
          ≡ (if b then suc (if a then suc n else n) else (if a then suc n else n))
    go true true n = refl
    go true false n = refl
    go false true n = refl
    go false false n = refl

count_if-back :
    (P : Delegation → Bool) (del : Delegation) (ds : List Delegation)
    → count_if P (ds ++ (del ∷ [])) ≡ count_if P (del ∷ ds)
unfolding count_if
count_if-back P del [] = refl
count_if-back P del (d ∷ ds) = ground (arith, count_if-back P del ds)

pub count_if-insert_impl :
    (P : Delegation → Bool) (del : Delegation) (l : DelegationList)
    → count_if P (insert_impl del l).dels ≡ count_if P (del ∷ l.dels)
unfolding insert_impl
count_if-insert_impl P del l = elim (Bool-cases l.is_sorted) [
  | inl e ↦ rw e (count_if-insert_sorted P del l.dels)
  | inr e ↦ rw e (count_if-back P del l.dels)
]

pub count_if-insert_all :
    (P : Delegation → Bool) (ds : List Delegation) (l : DelegationList)
    → count_if P (insert_all ds l).dels ≡ count_if P ds + count_if P l.dels
unfolding insert_all count_if
count_if-insert_all P [] l = omega arith
count_if-insert_all P (d ∷ ds) l =
    let one = count_if-insert_impl P d l in
    let rest = count_if-insert_all P ds (insert_impl d l) in ground (arith, one, rest)

-- How many delegations that pass a test eraseImpl leaves.
count_if-erase_loop :
    (P erased : Delegation → Bool) (ds : List Delegation)
    → count_if P (erase_loop erased ds).0 ≡ count_if (λ d. not (erased d) && P d) ds
unfolding erase_loop count_if
count_if-erase_loop P erased [] = refl
count_if-erase_loop P erased (d ∷ ds) = elim (Bool-cases (erased d)) [
  | inl e ↦ rw e (count_if-erase_loop P erased ds)
  | inr e ↦ rw (e, count_if-erase_loop P erased ds) refl
]

erased-count_if :
    (erased : Delegation → Bool) (ds : List Delegation)
    → (erase_loop erased ds).1 ≡ count_if erased ds
unfolding erase_loop count_if
erased-count_if erased [] = refl
erased-count_if erased (d ∷ ds) = elim (Bool-cases (erased d)) [
  | inl e ↦ rw (e, erased-count_if erased ds) refl
  | inr e ↦ rw (e, erased-count_if erased ds) refl
]

-- The test of INS_SKIP answers true where a delegation has the name.
has_name-count_if :
    (name : Block) (ds : List Delegation)
    → has_name name ds ≡ not (count_if (λ d. Name.equals d.name name) ds == 0)
unfolding has_name count_if
has_name-count_if name [] = refl
has_name-count_if name (d ∷ ds) = elim (Bool-cases (Name.equals d.name name)) [
  | inl e ↦ rw e (ground arith)
  | inr e ↦ rw (e, has_name-count_if name ds) refl
]

skip_or_insert :
    (P : Delegation → Bool) (del : Delegation) (l : DelegationList) (b : Bool)
    → has_name del.name l.dels ≡ b
    → (b ≡ true → insert ins_skip del l ≡ (l, false))
      × (b ≡ false
          → ((insert ins_skip del l).1 ≡ true)
            × (count_if P (insert ins_skip del l).0.dels ≡ count_if P (del ∷ l.dels)))
unfolding insert
skip_or_insert P del l true h = (λ p. rw h refl, λ p. absurd (cc p))
skip_or_insert P del l false h =
    (λ p. absurd (cc p), λ p. rw h (refl, count_if-insert_impl P del l))

-- What insert does to the number of delegations that pass any test: INS_REPLACE adds the new
-- delegation and leaves those of other names, INS_APPEND adds it and leaves all, and INS_SKIP
-- leaves the list as it is and answers false where the number of delegations whose name equals
-- the new one is positive, and where it is zero adds the delegation, leaves all, and answers
-- true.
pub insert-count_if :
    (P : Delegation → Bool) (del : Delegation) (l : DelegationList)
    → let named = count_if (λ d. Name.equals d.name del.name) l.dels in
      (count_if P (insert ins_replace del l).0.dels
        ≡ count_if P (del ∷ []) + count_if (λ d. not (Name.equals d.name del.name) && P d) l.dels)
      × (count_if P (insert ins_append del l).0.dels ≡ count_if P (del ∷ []) + count_if P l.dels)
      × (1 ≤ named → insert ins_skip del l ≡ (l, false))
      × (named ≡ 0 → (insert ins_skip del l).1 ≡ true)
      × (named ≡ 0
          → count_if P (insert ins_skip del l).0.dels ≡ count_if P (del ∷ []) + count_if P l.dels)
unfolding insert erase_impl
insert-count_if P del l =
    let left = (erase_impl none del.name l).0 in
    let test = has_name-count_if del.name l.dels in
    let (skipped, inserted) = skip_or_insert P del l _ test in
    (
      count_if-insert_impl P del left
          ∙ one_more P del left.dels
          ∙ ap (λ n. count_if P (del ∷ []) + n)
              (count_if-erase_loop P (is_erased none del.name) l.dels ∙ unfold is_erased in refl),
      count_if-insert_impl P del l ∙ one_more P del l.dels,
      λ h. skipped (ground (arith, h)),
      λ h. (inserted (ground (arith, h))).0,
      λ h. (inserted (ground (arith, h))).1 ∙ one_more P del l.dels,
    )
  where
    one_more :
        (P : Delegation → Bool) (del : Delegation) (ds : List Delegation)
        → count_if P (del ∷ ds) ≡ count_if P (del ∷ []) + count_if P ds
    one_more P del ds = unfold count_if in ground arith

-- eraseImpl, with or without a preference, leaves of the delegations that pass any test those that
-- do not have the name and the preference, and answers how many it erased.
pub erase_impl-count_if :
    (P : Delegation → Bool) (preference : Option ℕ) (name : Block) (l : DelegationList)
    → let r = erase_impl preference name l in
      let erased = is_erased preference name in
      (count_if P r.0.dels ≡ count_if (λ d. not (erased d) && P d) l.dels)
      × (r.1 ≡ count_if erased l.dels)
unfolding erase_impl
erase_impl-count_if P preference name l = (
  count_if-erase_loop P (is_erased preference name) l.dels,
  erased-count_if (is_erased preference name) l.dels,
)

pub insert_impl-is_sorted :
    (sorted : Bool) (ds : List Delegation) (d : Delegation)
    → (insert_impl d (record { is_sorted = sorted; dels = ds })).is_sorted ≡ sorted
unfolding insert_impl
insert_impl-is_sorted true ds d = refl
insert_impl-is_sorted false ds d = refl

pub insert_all-is_sorted :
    (ds : List Delegation) (l : DelegationList) → (insert_all ds l).is_sorted ≡ l.is_sorted
unfolding insert_all
insert_all-is_sorted [] l = refl
insert_all-is_sorted (d ∷ ds) l =
    insert_all-is_sorted ds (insert_impl d l) ∙ insert_impl-is_sorted l.is_sorted l.dels d

sort_parts :
    (P : Delegation → Bool) (sorted : Bool) (ds : List Delegation)
    → let s = sort (record { is_sorted = sorted; dels = ds }) in
      (s.is_sorted ≡ true) × (count_if P s.dels ≡ count_if P ds)
unfolding sort
sort_parts P true ds = (refl, refl)
sort_parts P false ds = (
  insert_all-is_sorted ds (empty_list true),
  count_if-insert_all P ds (empty_list true) ∙ unfold count_if in omega arith,
)

-- The list after sort() says that it is sorted and has its preferences in order, with as many
-- delegations that pass any test as before, for every list that, if it says that it is sorted,
-- has its preferences in order.
pub sort-count_if :
    (P : Delegation → Bool) (l : DelegationList)
    → IsOrdered l
    → ((sort l).is_sorted ≡ true)
      × (in_order 0 (sort l).dels ≡ true)
      × (count_if P (sort l).dels ≡ count_if P l.dels)
sort-count_if P l h =
    let (sorted, same) = sort_parts P l.is_sorted l.dels in
    let ordered : in_order 0 (sort l).dels ≡ true =
      unfold IsOrdered in (change-IsOrdered sorting l h) sorted in
    (sorted, ordered, same)
