-- ===== src/Delegations/Sorting.antt =====
-- The order of the delegations of a list (delegation-list.cpp) by their preferences.
use ndn_cxx_gm.Base.{
  ℕ, ◌≤◌, ◌≡◌, inl, inr, refl, List, [], ◌∷◌, Bool, true, false, ◌&&◌, Option, none, leb, arith,
  Bool-cases,
}
use ndn_cxx_gm.Block.{Block}
use ndn_cxx_gm.Delegations.{
  Delegation, DelegationList, InsertConflictResolution, ins_replace, ins_append, ins_skip, less,
  insert_sorted, insert_impl, is_erased, erase_loop, erase_impl, has_name, insert, insert_all,
  empty_list, sort,
}

-- The preferences are `p` or more and do not go down.
unfoldable pub in_order : ℕ → List Delegation → Bool
in_order p [] = true
in_order p (d ∷ ds) = leb p d.preference && in_order d.preference ds

-- A list that says that it is sorted is.
unfoldable pub IsOrdered : DelegationList → Type 0
IsOrdered l = l.is_sorted ≡ true → in_order 0 l.dels ≡ true

in_order_mono :
    (p q : ℕ) (ds : List Delegation) → p ≤ q → in_order q ds ≡ true → in_order p ds ≡ true
unfolding in_order
in_order_mono p q [] le h = refl
in_order_mono p q (d ∷ ds) le h = ground (arith, le, h)

pub insert_sorted-in_order :
    (p : ℕ) (del : Delegation) (ds : List Delegation)
    → p ≤ del.preference
    → in_order p ds ≡ true
    → in_order p (insert_sorted del ds) ≡ true
unfolding insert_sorted in_order less
insert_sorted-in_order p del [] le h = ground (arith, le)
insert_sorted-in_order p del (d ∷ ds) le h =
    ground (arith, le, h, insert_sorted-in_order d.preference del ds)

erase_loop-in_order :
    (p : ℕ) (erased : Delegation → Bool) (ds : List Delegation)
    → in_order p ds ≡ true
    → in_order p (erase_loop erased ds).0 ≡ true
unfolding erase_loop in_order
erase_loop-in_order p erased [] h = refl
erase_loop-in_order p erased (d ∷ ds) h =
    let rest = erase_loop-in_order d.preference erased ds (ground (arith, h)) in
    let le : p ≤ d.preference = ground (arith, h) in
    elim (Bool-cases (erased d)) [
      | inl e ↦ rw e (in_order_mono p d.preference _ le rest)
      | inr e ↦ rw (e, rest) (ground (arith, h))
    ]

pub insert_impl-IsOrdered :
    (del : Delegation) (l : DelegationList) → IsOrdered l → IsOrdered (insert_impl del l)
unfolding insert_impl IsOrdered
insert_impl-IsOrdered del l h = elim (Bool-cases l.is_sorted) [
  | inl s ↦ rw s (λ t. insert_sorted-in_order 0 del l.dels (omega arith) (h s))
  | inr s ↦ rw s (λ t. cc)
]

erase_impl-IsOrdered :
    (preference : Option ℕ) (name : Block) (l : DelegationList)
    → IsOrdered l
    → IsOrdered (erase_impl preference name l).0
unfolding erase_impl IsOrdered
erase_impl-IsOrdered preference name l h =
    λ s. erase_loop-in_order 0 (is_erased preference name) l.dels (h s)

insert-IsOrdered :
    (r : InsertConflictResolution) (del : Delegation) (l : DelegationList)
    → IsOrdered l
    → IsOrdered (insert r del l).0
unfolding insert
insert-IsOrdered ins_replace del l h =
    insert_impl-IsOrdered del _ (erase_impl-IsOrdered none del.name l h)
insert-IsOrdered ins_append del l h = insert_impl-IsOrdered del l h
insert-IsOrdered ins_skip del l h = elim (Bool-cases (has_name del.name l.dels)) [
  | inl e ↦ rw e h
  | inr e ↦ rw e (insert_impl-IsOrdered del l h)
]

insert_all-IsOrdered :
    (ds : List Delegation) (l : DelegationList) → IsOrdered l → IsOrdered (insert_all ds l)
unfolding insert_all
insert_all-IsOrdered [] l h = h
insert_all-IsOrdered (d ∷ ds) l h =
    insert_all-IsOrdered ds (insert_impl d l) (insert_impl-IsOrdered d l h)

sort-IsOrdered :
    (sorted : Bool) (ds : List Delegation)
    → IsOrdered (record { is_sorted = sorted; dels = ds })
    → IsOrdered (sort (record { is_sorted = sorted; dels = ds }))
unfolding sort
sort-IsOrdered true ds h = h
sort-IsOrdered false ds h =
    insert_all-IsOrdered ds (empty_list true) (unfold IsOrdered in_order in λ t. refl)

-- The operations that change a list, each with every argument.
pub data Change : Type 0 where
  inserting : InsertConflictResolution → Delegation → Change
  erasing : Option ℕ → Block → Change
  sorting : Change

abbrev pub change : Change → DelegationList → DelegationList
change (inserting r del) l = (insert r del l).0
change (erasing preference name) l = (erase_impl preference name l).0
change sorting l = sort l

-- insert under each resolution, each overload of erase, and sort() leave a list that, if it says
-- that it is sorted, has its preferences in order, where the list before is such a list.
pub change-IsOrdered : (c : Change) (l : DelegationList) → IsOrdered l → IsOrdered (change c l)
change-IsOrdered (inserting r del) l h = insert-IsOrdered r del l h
change-IsOrdered (erasing preference name) l h = erase_impl-IsOrdered preference name l h
change-IsOrdered sorting l h = sort-IsOrdered l.is_sorted l.dels h
