-- ===== src/Name.antt =====
-- ndn-cxx/name.hpp and name.cpp. A name is its only field m_wire, a block whose sub-elements are the
-- components. An index outside the range, where `get` has no defined behaviour, is `none`.
pub mod Loops
pub mod Prefixes
pub mod Lexicographic
pub mod Lex
pub mod Keys
pub mod Wire
mod Runs
use ndn_cxx_gm.Base.{
  ℕ, zero, suc, ◌+◌, ◌-◌, ◌%◌, List, [], ◌∷◌, Bool, true, false, not, ◌&&◌, Option, none, some, ltb,
  leb, ◌==◌, if◌then◌else◌, length, get_elem?, set, ok, err, ◌>>=◌, ◌>>◌, guard, min, Ordering,
}
use ndn_cxx_gm.Base.Bits.{u32_mod, u64_mod}
use ndn_cxx_gm.Base.Memory.{then_by}
use ndn_cxx_gm.Errors.{Result, out_of_bounds, not_a_name}
use ndn_cxx_gm.Encoder.{Encoder, new_encoder, prepend_bytes, prepend_var_number}
use ndn_cxx_gm.Tlv.{size_of_var_number}
use ndn_cxx_gm.Block.{
  Block, block, Blocks, nil, cons, type, store, m_size, elements, value, value_size, has_wire,
  to_list, of_list, of_type, of_encoder, reset_wire,
}
use ndn_cxx_gm.Block.Elements.{parse, push_back}
use ndn_cxx_gm.Block.Elements
use ndn_cxx_gm.Component.Order
use ndn_cxx_gm.Component.Order.{sign}
use ndn_cxx_gm.Component.Successor
use ndn_cxx_gm.Component.{component_of}

-- ssize_t: `negsuc n` is -(n + 1).
pub data ℤ : Type 0 where
  pos : ℕ → ℤ
  negsuc : ℕ → ℤ

-- tlv::Name, Name::npos
abbrev pub tlv_name : ℕ
tlv_name = 7

abbrev pub npos : ℕ
npos = u64_mod - 1

abbrev pub components : Block → List Block
components name = to_list (elements name)

-- size()
abbrev pub size : Block → ℕ
size name = length (components name)

-- The index after `if (i < 0) i += size();`, where it is not negative.
abbrev pub resolve : ℤ → ℕ → Option ℕ
resolve (pos i) n = some i
resolve (negsuc i) n = if ltb i n then some (n - suc i) else none

-- get(i), which does not check the index.
abbrev pub get : Block → ℕ → Option Block
get name i = get_elem? (components name) i

-- at(i)
unfoldable pub at_index : Block → ℤ → Result Block
at_index name i = elim (resolve i (size name)) [
  | none ↦ err out_of_bounds
  | some i' ↦ elim (get name i') [ none ↦ err out_of_bounds | some c ↦ ok c ]
]

-- append(const Component&)
unfoldable pub append : Block → Block → Block
unfolding push_back
append name comp = push_back name comp

-- The loop of getSubName, with `count` rounds left.
unfoldable pub sub_name_loop : ℕ → ℕ → Block → Block → Result Block
sub_name_loop zero i name result = ok result
sub_name_loop (suc count) i name result = do
  comp ← at_index name (pos i)
  sub_name_loop count (suc i) name (append result comp)

-- getSubName
unfoldable pub get_sub_name : Block → ℤ → ℕ → Result Block
get_sub_name name i_start_component n_components =
    let i_start : ℕ = elim (resolve i_start_component (size name)) [ none ↦ 0 | some i ↦ i ] in
    let i_end =
      if n_components == npos
      then size name
      else min (size name) ((i_start + n_components) % u64_mod) in
    sub_name_loop (i_end - i_start) i_start name (of_type tlv_name)

-- getPrefix
unfoldable pub get_prefix : Block → ℤ → Result Block
unfolding get_sub_name
get_prefix name (pos n) = get_sub_name name (pos 0) n
get_prefix name (negsuc n) = get_sub_name name (pos 0) ((size name + (u64_mod - suc n)) % u64_mod)

-- The loop of append(const PartialName&), with `count` rounds left.
unfoldable pub append_loop : ℕ → ℕ → Block → Block → Result Block
append_loop zero i name result = ok result
append_loop (suc count) i name result = do
  comp ← at_index name (pos i)
  append_loop count (suc i) name (append result comp)

-- append(const PartialName&); appending a name to itself first copies it.
unfoldable pub append_name : Block → Block → Result Block
append_name this name = append_loop (size name) 0 name this

-- set(i, component)
unfoldable pub set_component : Block → ℤ → Block → Option Block
set_component name i comp = elim (resolve i (size name)) [
  | none ↦ none
  | some i' ↦
      if ltb i' (size name)
      then some (
          block (type name) (store (reset_wire name)) (m_size name)
            (of_list (set (components name) i' comp)))
      else none
]

-- erase(i)
unfoldable pub erase : Block → ℤ → Option Block
erase name i = elim (resolve i (size name)) [
  | none ↦ none
  | some i' ↦ if ltb i' (size name) then some (Elements.erase name i' (suc i')) else none
]

-- clear()
unfoldable pub clear : Block → Block
clear name = of_type tlv_name

-- One round of the loops of isPrefixOf and of equals, given what the rounds after it answer.
abbrev pub same_round : Option Block → Option Block → Bool → Bool
same_round none d rest = true
same_round (some c) none rest = true
same_round (some c) (some d) rest = Order.equals c d && rest

-- The loops of isPrefixOf and of equals, over the components in [i, i + count).
unfoldable pub same_loop : ℕ → ℕ → List Block → List Block → Bool
same_loop zero i cs ds = true
same_loop (suc count) i cs ds =
    same_round (get_elem? cs i) (get_elem? ds i) (same_loop count (suc i) cs ds)

-- isPrefixOf
unfoldable pub is_prefix_of : Block → Block → Bool
is_prefix_of name other =
    if ltb (size other) (size name)
    then false
    else same_loop (size name) 0 (components name) (components other)

-- equals
unfoldable pub equals : Block → Block → Bool
equals name other =
    if not (size name == size other)
    then false
    else same_loop (size name) 0 (components name) (components other)

-- One round of the loop of compare, given the sign that the rounds after it return.
abbrev pub compare_round : Option Block → Option Block → Ordering → Ordering
compare_round none d rest = Ordering.eq
compare_round (some c) none rest = Ordering.eq
compare_round (some c) (some d) rest = then_by (Order.compare c d) rest

-- The loop of compare, over `count` components from pos1 + i and from pos2 + i.
unfoldable pub compare_loop : ℕ → ℕ → ℕ → ℕ → List Block → List Block → Ordering
compare_loop zero i pos1 pos2 cs ds = Ordering.eq
compare_loop (suc count) i pos1 pos2 cs ds =
    compare_round (get_elem? cs (pos1 + i)) (get_elem? ds (pos2 + i))
      (compare_loop count (suc i) pos1 pos2 cs ds)

-- compare(pos1, count1, other, pos2, count2): the sign. The last difference is of size_t, as `int`.
unfoldable pub compare_range : Block → ℕ → ℕ → Block → ℕ → ℕ → Ordering
compare_range name pos1 count1 other pos2 count2 =
    let count1' = min count1 ((size name + u64_mod - pos1) % u64_mod) in
    let count2' = min count2 ((size other + u64_mod - pos2) % u64_mod) in
    then_by (compare_loop (min count1' count2') 0 pos1 pos2 (components name) (components other))
      (sign ((count1' + u64_mod - count2') % u64_mod % u32_mod))

-- compare(other)
unfoldable pub compare : Block → Block → Ordering
compare name other = compare_range name 0 npos other 0 npos

-- getSuccessor of the empty name: "/sha256digest=00...00".
unfoldable pub first_name : Result Block
first_name = do c ← component_of 1 (Successor.get_min_value 1); ok (append (of_type tlv_name) c)

-- getSuccessor of another name: its last component is replaced by that component's successor.
unfoldable pub advance_last : Block → Result Block
advance_last name = do
  prefix ← get_prefix name (negsuc 0)
  last ← at_index name (negsuc 0)
  next ← Successor.get_successor last
  ok (append prefix next)

-- getSuccessor
unfoldable pub get_successor : Block → Result Block
unfolding first_name advance_last
get_successor name = if size name == 0 then first_name else advance_last name

-- Name(const Block&), and wireDecode: m_wire afterwards, and whether the call returned.
unfoldable pub of_wire : Block → Block × Result (Unit {0})
of_wire wire = parse wire

unfoldable pub wire_decode : Block → Block → Block × Result (Unit {0})
wire_decode name wire =
    if not (type wire == tlv_name) then (name, err (not_a_name (type wire))) else parse wire
