-- ===== src/Delegations/Encoding.antt =====
-- wireEncode of delegation-list.cpp, on an encoder, and what wireDecode makes of what it wrote.
use ndn_cxx_gm.Base.{ℕ, ◌+◌, ◌<◌, List, [], ◌∷◌, ◌++◌, not, ◌==◌, length, ok, ◌>>◌, guard}
use ndn_cxx_gm.Errors.{Result, empty_delegation_list, illegal_list_type}
use ndn_cxx_gm.Base.Bits.{u64_mod}
use ndn_cxx_gm.Tlv.{write_non_negative_integer, write_var_number}
use ndn_cxx_gm.Encoder.{Encoder, prepend_var_number, prepend_non_negative_integer_block}
use ndn_cxx_gm.Block.{Block, block, wire, no_buffer, Blocks, nil, cons, elements}
use ndn_cxx_gm.Block.Elements
use ndn_cxx_gm.Block.Encoding.{encodings}
use ndn_cxx_gm.Block.Parsing.{AreElements, element, decoded}
use ndn_cxx_gm.Name
use ndn_cxx_gm.Name.{tlv_name}
use ndn_cxx_gm.Name.Wire.{encode_name, AreLeaves}
use ndn_cxx_gm.Delegations.{
  Delegation, DelegationList, link_preference, link_delegation, is_valid_tlv_type,
}

-- wireEncode: one delegation
unfoldable pub encode_delegation : Delegation → Encoder → Encoder × ℕ
encode_delegation d encoder =
    let (e₁, n₁) = encode_name d.name encoder in
    let (e₂, n₂) = prepend_non_negative_integer_block e₁ link_preference d.preference in
    let (e₃, n₃) = prepend_var_number e₂ (n₁ + n₂) in
    let (e₄, n₄) = prepend_var_number e₃ link_delegation in (e₄, n₁ + n₂ + n₃ + n₄)

-- The loop of wireEncode, from the last delegation to the first
unfoldable pub encode_loop : List Delegation → Encoder → Encoder × ℕ
encode_loop [] encoder = (encoder, 0)
encode_loop (d ∷ ds) encoder =
    let (e₁, n₁) = encode_loop ds encoder in let (e₂, n₂) = encode_delegation d e₁ in (e₂, n₁ + n₂)

-- wireEncode
unfoldable pub wire_encode : DelegationList → ℕ → Encoder → Result (Encoder × ℕ)
wire_encode l t encoder = do
  guard (is_valid_tlv_type t) (illegal_list_type t)
  guard (not (length l.dels == 0)) empty_delegation_list
  let (e₁, n₁) = encode_loop l.dels encoder
  let (e₂, n₂) = prepend_var_number e₁ n₁
  let (e₃, n₃) = prepend_var_number e₂ t
  ok (e₃, n₁ + n₂ + n₃)

-- The element that a delegation stands for.
abbrev pub as_element : Delegation → Block
as_element d = block link_delegation no_buffer 0 (
    cons (element link_preference (write_non_negative_integer d.preference).0)
      (cons (block tlv_name no_buffer 0 (elements d.name)) nil))

abbrev pub as_elements : List Delegation → Blocks
as_elements [] = nil
as_elements (d ∷ ds) = cons (as_element d) (as_elements ds)

unfoldable pub AreWritable : List Delegation → Type 0
AreWritable [] = Unit
AreWritable (d ∷ ds) =
    (AreLeaves (elements d.name)
      × AreElements (elements d.name)
      × (d.preference < u64_mod)
      × (length (encodings (elements d.name)) < u64_mod)
      × (length (encodings (elements (as_element d))) < u64_mod))
    × AreWritable ds

-- An element after parse().
abbrev pub parsed : ℕ → Blocks → Block
parsed t bs =
    let v = encodings bs in
    let header = (write_var_number t).0 ++ (write_var_number (length v)).0 in
    block t (wire header v) (length header + length v) (decoded bs)

-- A delegation as it is read back: its name has a wire, and components with wires.
abbrev pub read_back : Delegation → Delegation
read_back d = record { preference = d.preference; name = parsed tlv_name (elements d.name) }
