-- ===== src/Delegations/Runs.antt =====
-- The theorems on lists of delegations at concrete inputs.
use ndn_cxx_gm.Base.{◌+◌, ◌≤◌, ◌≡◌, refl, [], ◌∷◌, Bool, true, false, not, ◌&&◌, ◌==◌, ok}
use ndn_cxx_gm.Name
use ndn_cxx_gm.Block.{Block, block, wire, no_buffer, nil, cons, elements}
use ndn_cxx_gm.Block.Elements
use ndn_cxx_gm.Tlv.{
  read_type, read_var_number, read_var_number?, read_non_negative_integer, read_number,
  read_number_fast,
}
use ndn_cxx_gm.Block.Helpers.{read_block_integer}
use ndn_cxx_gm.Delegations.{
  check_empty, decode_loop, decode_delegation, decode_fields, insert_sorted,
}
use ndn_cxx_gm.Delegations.{
  Delegation, DelegationList, ins_replace, ins_append, ins_skip, insert, insert_impl, sort,
  wire_decode, empty_list, is_valid_tlv_type,
}
use ndn_cxx_gm.Delegations.Sorting.{in_order, IsOrdered, inserting, change, change-IsOrdered}
use ndn_cxx_gm.Delegations.Changing.{count_if, insert-count_if, sort-count_if}
use ndn_cxx_gm.Encoder.{Encoder}
use ndn_cxx_gm.Delegations.Decoding.{count_decoded, wire_decode-count_if}

abbrev name_a : Block
name_a =
    block 7 (wire (7 ∷ 3 ∷ []) (8 ∷ 1 ∷ 65 ∷ [])) 5
      (cons (block 8 (wire (8 ∷ 1 ∷ []) (65 ∷ [])) 3 nil) nil)

abbrev far : Delegation
far = record { preference = 10; name = name_a }

abbrev near : Delegation
near = record { preference = 5; name = block 7 no_buffer 2 nil }

abbrev unsorted : DelegationList
unsorted = record { is_sorted = false; dels = far ∷ near ∷ [] }

abbrev is_ten : Delegation → Bool
is_ten d = d.preference == 10

unsorted-IsOrdered : IsOrdered unsorted
unfolding IsOrdered
unsorted-IsOrdered = λ h. cc

one-IsOrdered : IsOrdered (record { is_sorted = true; dels = near ∷ [] })
unfolding IsOrdered in_order
one-IsOrdered = λ h. refl

change-IsOrdered_example :
    IsOrdered (change (inserting ins_replace far) (record { is_sorted = true; dels = near ∷ [] }))
change-IsOrdered_example = change-IsOrdered (inserting ins_replace far) _ one-IsOrdered

insert-count_if_example :
    let named = count_if (λ d. Name.equals d.name name_a) (far ∷ near ∷ []) in
    (count_if is_ten (insert ins_replace far unsorted).0.dels
      ≡ count_if is_ten (far ∷ [])
        + count_if (λ d. not (Name.equals d.name name_a) && is_ten d) (far ∷ near ∷ []))
    × (count_if is_ten (insert ins_append far unsorted).0.dels
        ≡ count_if is_ten (far ∷ []) + count_if is_ten (far ∷ near ∷ []))
    × (1 ≤ named → insert ins_skip far unsorted ≡ (unsorted, false))
    × (named ≡ 0 → (insert ins_skip far unsorted).1 ≡ true)
    × (named ≡ 0
        → count_if is_ten (insert ins_skip far unsorted).0.dels
          ≡ count_if is_ten (far ∷ []) + count_if is_ten (far ∷ near ∷ []))
insert-count_if_example = insert-count_if is_ten far unsorted

sort-count_if_example :
    ((sort unsorted).is_sorted ≡ true)
    × (in_order 0 (sort unsorted).dels ≡ true)
    × (count_if is_ten (sort unsorted).dels ≡ count_if is_ten (far ∷ near ∷ []))
sort-count_if_example = sort-count_if is_ten unsorted unsorted-IsOrdered

abbrev content : Block
content = block 30 (wire (30 ∷ 10 ∷ []) (31 ∷ 8 ∷ 30 ∷ 1 ∷ 10 ∷ 7 ∷ 3 ∷ 8 ∷ 1 ∷ 65 ∷ [])) 12 nil

content_decodes :
    wire_decode (empty_list true) content true
    ≡ (record { is_sorted = true; dels = far ∷ [] }, ok tt)
unfolding wire_decode is_valid_tlv_type Elements.parse Elements.parse_loop Elements.next_element
    read_type read_var_number read_var_number? check_empty decode_loop decode_delegation
    decode_fields read_block_integer read_non_negative_integer read_number read_number_fast
    Name.wire_decode insert_impl insert_sorted
content_decodes = refl

wire_decode-count_if_example :
    (is_valid_tlv_type 30 ≡ true)
    × ((Elements.parse content).1 ≡ ok tt)
    × (true ≡ true)
    × (true ≡ true → in_order 0 (far ∷ []) ≡ true)
    × (1 ≤ 1)
    × (count_if is_ten (far ∷ []) ≡ count_decoded is_ten (elements (Elements.parse content).0))
wire_decode-count_if_example =
    wire_decode-count_if is_ten (empty_list true) (record { is_sorted = true; dels = far ∷ [] })
      content true content_decodes
