-- ===== src/Lp/Runs.antt =====
-- The theorems on NDNLPv2 packets and fields at concrete inputs.
use ndn_cxx_gm.Base.{
  ℕ, ◌≤◌, ◌≡◌, ◌↔◌, refl, [], ◌∷◌, true, false, none, ok, err, ◌>>=◌, arith, ◌≢◌, ap, ◌⊎◌, suc, sym,
  ok-injective,
}
use ndn_cxx_gm.Errors.{Error, Result, front_of_empty, field_cannot_be_repeated, cache_policy_unset}
use ndn_cxx_gm.Block.{Block, block, wire, Blocks, nil, cons, type, elements}
use ndn_cxx_gm.Block.Parsing.{element, append}
use ndn_cxx_gm.Block.Elements.{parse, parse_loop, next_element}
use ndn_cxx_gm.Tlv.{
  write_var_number, read_type, read_var_number, read_var_number?, read_number, read_number_fast,
}
use ndn_cxx_gm.Lp.{
  decode_fields, check_fields, check_order, field_info, extract_all, extract_field_info,
  set_can_ignore, compare_field_sort_order, fragment, ack, count, add, set_field, get_field,
  wire_decode, wire_encode,
}
use ndn_cxx_gm.Lp.Headers.{encode_cache_policy, get_reason}
use ndn_cxx_gm.Lp.Field.{nack, cache_policy, IsFieldValue, encode_value, decode_field, nack_helper}
use ndn_cxx_gm.Lp.Field.{decode_field-encode_value}
use ndn_cxx_gm.Lp.Order.{are_fields, is_allowed, may_follow, place}
use ndn_cxx_gm.Lp.Access.{get_field-set_field}
use ndn_cxx_gm.Lp.Sending.{
  wire_decode-are_fields, wire_decode-count, add-are_fields, wire_encode-wire_decode,
  wire_encode_empty,
}

abbrev mark : Block
mark = element 832 (1 ∷ [])

abbrev payload : Block
payload = element 80 (5 ∷ 0 ∷ [])

-- A packet of a congestion mark and a fragment, as it is received, and parsed.
abbrev received : Block
received = element 100 (253 ∷ 3 ∷ 64 ∷ 1 ∷ 1 ∷ 80 ∷ 2 ∷ 5 ∷ 0 ∷ [])

abbrev packet : Block
packet =
    block 100 (wire (100 ∷ 9 ∷ []) (253 ∷ 3 ∷ 64 ∷ 1 ∷ 1 ∷ 80 ∷ 2 ∷ 5 ∷ 0 ∷ [])) 11
      (cons mark (cons payload nil))

wire_decode-are_fields_example :
    (wire_decode received ≡ ok packet)
    ↔ ((parse received ≡ (packet, ok tt)) × (are_fields none (elements packet) ≡ true))
wire_decode-are_fields_example = wire_decode-are_fields received packet refl

received_decodes : wire_decode received ≡ ok packet
unfolding wire_decode decode_fields check_fields check_order parse parse_loop next_element
    write_var_number read_type read_var_number field_info extract_all extract_field_info
    set_can_ignore compare_field_sort_order read_var_number? read_number read_number_fast
received_decodes = refl

wire_decode-count_example :
    ((t : ℕ) → t ≢ ack → count t (elements packet) ≤ 1)
    × ((es : Blocks) (e : Block) (rest : Blocks)
        → elements packet ≡ append es (cons e rest)
        → type e ≡ fragment
        → rest ≡ nil)
wire_decode-count_example = wire_decode-count received packet refl received_decodes

packet_in_order : are_fields none (elements packet) ≡ true
unfolding are_fields is_allowed may_follow place
packet_in_order = refl

ack_allowed : is_allowed 836 ≡ true
unfolding is_allowed
ack_allowed = refl

ack_typed :
    (field : Block)
    → ◌≡◌ {A = Result Block} (ok (element 836 (0 ∷ []))) (ok field)
    → type field ≡ 836
ack_typed field h = ap type (sym (ok-injective h))

mark_typed : (field : Block) → ◌≡◌ {A = Result Block} (ok mark) (ok field) → type field ≡ 832
mark_typed field h = ap type (sym (ok-injective h))

add-are_fields_example :
    let encoded : Result Block = ok (element 836 (0 ∷ [])) in
    let added = add true 836 encoded packet in
    let before = count 836 (elements packet) in
    (836 ≢ ack → 1 ≤ before → added ≡ err field_cannot_be_repeated)
    × ((836 ≡ ack) ⊎ (before ≡ 0)
        → ((e : Error) → encoded ≡ err e → added ≡ err e)
          × ((field : Block)
              → encoded ≡ ok field
              → (p : Block) × (added ≡ ok p)
                × (are_fields none (elements p) ≡ true)
                × (count 836 (elements p) ≡ suc before)))
add-are_fields_example =
    add-are_fields 836 (ok (element 836 (0 ∷ []))) packet ack_typed ack_allowed packet_in_order

get_field-set_field_example :
    let encoded : Result Block = ok mark in
    let r = set_field false 832 encoded packet in
    ((field : Block)
      → encoded ≡ ok field
      → (r.1 ≡ ok tt) × (get_field 832 0 r.0 ≡ ok field) × (count 832 (elements r.0) ≡ 1))
    × ((e : Error) → encoded ≡ err e → (r.1 ≡ err e) × (count 832 (elements r.0) ≡ 0))
    × ((s index : ℕ) → s ≢ 832 → get_field s index r.0 ≡ get_field s index packet)
get_field-set_field_example = get_field-set_field false 832 (ok mark) packet mark_typed

wire_encode-wire_decode_example :
    (wire_decode (element 5 (7 ∷ 0 ∷ [])) >>= wire_encode) ≡ ok (element 5 (7 ∷ 0 ∷ []))
unfolding write_var_number
wire_encode-wire_decode_example = wire_encode-wire_decode 5 (7 ∷ 0 ∷ []) refl (omega arith)

-- wireDecode accepts a packet whose fragment has no bytes.
empty_fragment_decodes :
    wire_decode (element 100 (80 ∷ 0 ∷ []))
    ≡ ok (
        block 100
          (wire (100 ∷ 2 ∷ []) (80 ∷ 0 ∷ []))
          4
          (cons (block 80 (wire (80 ∷ 0 ∷ []) []) 2 nil) nil))
unfolding wire_decode decode_fields check_fields check_order parse parse_loop next_element
    write_var_number read_type read_var_number field_info extract_all extract_field_info
    set_can_ignore compare_field_sort_order read_var_number? read_number read_number_fast
empty_fragment_decodes = refl

wire_encode_empty_example :
    wire_encode (
      block 100
        (wire (100 ∷ 2 ∷ []) (80 ∷ 0 ∷ []))
        4
        (cons (block 80 (wire (80 ∷ 0 ∷ []) []) 2 nil) nil))
    ≡ err front_of_empty
wire_encode_empty_example =
    wire_encode_empty
      (block 100 (wire (100 ∷ 2 ∷ []) (80 ∷ 0 ∷ [])) 4
        (cons (block 80 (wire (80 ∷ 0 ∷ []) []) 2 nil) nil))
      (80 ∷ 0 ∷ []) 2 refl

congested : IsFieldValue 800 (nack 50)
unfolding IsFieldValue
congested = (refl, omega arith)

decode_field-encode_value_example :
    (encode_value 800 (nack 50) >>= decode_field 800 nack_helper) ≡ ok (nack 50)
decode_field-encode_value_example =
    decode_field-encode_value 800 (nack 50) (omega arith) (omega arith) congested

-- A policy that was not set is not encoded, and a reason that is no enumerator is read as none.
unset_policy : encode_value 820 (cache_policy 0) ≡ err cache_policy_unset
unfolding encode_value encode_cache_policy
unset_policy = refl

unknown_reason : get_reason 51 ≡ 0
unfolding get_reason
unknown_reason = refl
