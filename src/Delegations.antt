-- ===== src/Delegations.antt =====
-- ndn-cxx/delegation.hpp, delegation-list.hpp and delegation-list.cpp: the delegations of a link,
-- which are kept sorted or in the order of their insertion. A name is the block of Name.
pub mod Sorting
pub mod Changing
pub mod Decoding
pub mod Encoding
mod Runs
use ndn_cxx_gm.Base.{
  ℕ, zero, suc, ◌+◌, ◌-◌, ◌*◌, ◌/◌, ◌%◌, ◌^◌, ◌≤◌, ◌<◌, ◌≡◌, ◌↔◌, ◌⊎◌, inl, inr, ltb→lt, leb→le,
  lt→ltb, Option-cases, >>=-ne-err, ◌∙◌, refl, sym, ap, ap₂, subst, List, [], ◌∷◌, ◌++◌, Bool, true,
  false, not, ◌&&◌, ◌||◌, Option, none, some, ltb, leb, ◌==◌, if◌then◌else◌, length, get_elem?,
  take, drop, All, ok, err, ◌>>=◌, ◌>>◌, guard, min, max, arith, Bool-cases, >>=-eq-ok, dec_le,
  dec_lt, ℕ_discrete, length-append, append_assoc, append-nil, map, take-append, drop-append,
  take-append-drop, length-take, length-drop, ok-injective, ◌≢◌,
}
use Prim.Native.Nat.{lt, eq, gt}
use ndn_cxx_gm.Errors.{
  Error, Result, not_delegations, not_a_delegation, missing_preference, invalid_preference,
  missing_name, invalid_name, empty_delegation_list,
}
use ndn_cxx_gm.Encoder.{Encoder, prepend_non_negative_integer_block, prepend_var_number}
use ndn_cxx_gm.Block.{Block, Blocks, nil, cons, type, elements, of_type}
use ndn_cxx_gm.Block.Elements
use ndn_cxx_gm.Block.Helpers.{read_block_integer}
use ndn_cxx_gm.Name
use ndn_cxx_gm.Name.{tlv_name}
use ndn_cxx_gm.Name.Wire.{encode_name}

-- Delegation
pub record Delegation : Type 0 where
  pub preference : ℕ
  pub name : Block

-- m_isSorted, m_dels
pub record DelegationList : Type 0 where
  pub is_sorted : Bool
  pub dels : List Delegation

pub data InsertConflictResolution : Type 0 where
  ins_replace : InsertConflictResolution
  ins_append : InsertConflictResolution
  ins_skip : InsertConflictResolution

abbrev pub link_preference : ℕ
link_preference = 30

abbrev pub link_delegation : ℕ
link_delegation = 31

-- isValidTlvType
unfoldable pub is_valid_tlv_type : ℕ → Bool
is_valid_tlv_type t = (t == 21) || (t == 30)

-- operator< of Name
unfoldable pub name_less : Block → Block → Bool
name_less lhs rhs = elim (Name.compare lhs rhs) [ lt ↦ true | eq ↦ false | gt ↦ false ]

-- operator< of Delegation
unfoldable pub less : Delegation → Delegation → Bool
less lhs rhs =
    ltb lhs.preference rhs.preference
    || (not (ltb rhs.preference lhs.preference) && name_less lhs.name rhs.name)

-- std::upper_bound, on delegations in their order, and the insertion at that position
unfoldable pub insert_sorted : Delegation → List Delegation → List Delegation
insert_sorted del [] = del ∷ []
insert_sorted del (d ∷ ds) =
    let rest = insert_sorted del ds in if less del d then del ∷ d ∷ ds else d ∷ rest

-- insertImpl
unfoldable pub insert_impl : Delegation → DelegationList → DelegationList
insert_impl del l =
    if l.is_sorted
    then record { is_sorted = l.is_sorted; dels = insert_sorted del l.dels }
    else record { is_sorted = l.is_sorted; dels = l.dels ++ (del ∷ []) }

-- The condition in eraseImpl
unfoldable pub is_erased : Option ℕ → Block → Delegation → Bool
is_erased none name d = Name.equals d.name name
is_erased (some p) name d = (d.preference == p) && Name.equals d.name name

-- The loop of eraseImpl: what is left, and nErased
unfoldable pub erase_loop : (Delegation → Bool) → List Delegation → List Delegation × ℕ
erase_loop erased [] = ([], 0)
erase_loop erased (d ∷ ds) =
    let (left, n) = erase_loop erased ds in if erased d then (left, suc n) else (d ∷ left, n)

-- eraseImpl, and with it the three overloads of erase
unfoldable pub erase_impl : Option ℕ → Block → DelegationList → DelegationList × ℕ
erase_impl preference name l =
    let (left, n) = erase_loop (is_erased preference name) l.dels in
    (record { is_sorted = l.is_sorted; dels = left }, n)

-- std::any_of in insert
unfoldable pub has_name : Block → List Delegation → Bool
has_name name [] = false
has_name name (d ∷ ds) = Name.equals d.name name || has_name name ds

-- insert
unfoldable pub insert :
    InsertConflictResolution → Delegation → DelegationList → DelegationList × Bool
insert ins_replace del l = (insert_impl del (erase_impl none del.name l).0, true)
insert ins_append del l = (insert_impl del l, true)
insert ins_skip del l = if has_name del.name l.dels then (l, false) else (insert_impl del l, true)

-- The loop of sort()
unfoldable pub insert_all : List Delegation → DelegationList → DelegationList
insert_all [] l = l
insert_all (d ∷ ds) l = insert_all ds (insert_impl d l)

abbrev pub empty_list : Bool → DelegationList
empty_list sorted = record { is_sorted = sorted; dels = [] }

-- sort()
unfoldable pub sort : DelegationList → DelegationList
sort l = if l.is_sorted then l else insert_all l.dels (empty_list true)

-- A nested exception: every error of the call becomes the given one.
abbrev pub or_else {ℓ} : {A : Type ℓ} → Result A → Error → Result A
or_else (ok a) e = ok a
or_else (err x) e = err e

-- wireDecode: the fields of one delegation
unfoldable pub decode_fields : Blocks → Result Delegation
decode_fields nil = err missing_preference
decode_fields (cons val nil) = do
  guard (type val == link_preference) missing_preference
  preference ← or_else (read_block_integer val) invalid_preference
  err missing_name
decode_fields (cons val (cons val' rest)) = do
  guard (type val == link_preference) missing_preference
  preference ← or_else (read_block_integer val) invalid_preference
  guard (type val' == tlv_name) missing_name
  let (name, outcome) = Name.wire_decode (of_type tlv_name) val'
  done ← or_else outcome invalid_name
  ok (record { preference = preference; name = name })

-- wireDecode: one delegation
unfoldable pub decode_delegation : Block → Result Delegation
decode_delegation del = do
  guard (type del == link_delegation) (not_a_delegation (type del))
  let (parsed, outcome) = Elements.parse del
  done ← outcome
  decode_fields (elements parsed)

-- The loop of wireDecode: where it throws, the delegations in front stay in the list.
unfoldable pub decode_loop : Blocks → DelegationList → DelegationList × Result (Unit {0})
decode_loop nil l = (l, ok tt)
decode_loop (cons b bs) l = elim (decode_delegation b) [
  | ok del ↦ decode_loop bs (insert_impl del l)
  | err e ↦ (l, err e)
]

-- The last statement of wireDecode
unfoldable pub check_empty : DelegationList × Result (Unit {0}) → DelegationList × Result (Unit {0})
check_empty (l, err e) = (l, err e)
check_empty (l, ok done) = (l, guard (not (length l.dels == 0)) empty_delegation_list)

-- wireDecode
unfoldable pub wire_decode : DelegationList → Block → Bool → DelegationList × Result (Unit {0})
wire_decode l b want_sort =
    if not (is_valid_tlv_type (type b))
    then (l, err (not_delegations (type b)))
    else let (parsed, outcome) = Elements.parse b in
      elim outcome [
        | err e ↦ (empty_list want_sort, err e)
        | ok done ↦ check_empty (decode_loop (elements parsed) (empty_list want_sort))
      ]
