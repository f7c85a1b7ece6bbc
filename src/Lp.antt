-- ===== src/Lp.antt =====
-- ndn-cxx/lp/packet.hpp and packet.cpp: NDNLPv2 packets, and the field set of lp/fields.hpp. A packet
-- is its field m_wire. The operations of a field take and give its element; lp/field-decl.hpp, which
-- makes and reads elements, is in Lp/Field.
pub mod Headers
pub mod Field
pub mod Order
pub mod Access
pub mod Sending
mod Runs
use ndn_cxx_gm.Base.{
  ℕ, zero, suc, ◌+◌, ◌-◌, ◌*◌, ◌/◌, ◌%◌, ◌^◌, ◌≤◌, ◌<◌, ◌≡◌, ◌↔◌, ◌⊎◌, inl, inr, ltb→lt, leb→le,
  lt→ltb, Option-cases, >>=-ne-err, ◌∙◌, refl, sym, ap, ap₂, subst, List, [], ◌∷◌, ◌++◌, Bool, true,
  false, not, ◌&&◌, ◌||◌, Option, none, some, ltb, leb, ◌==◌, if◌then◌else◌, length, get_elem?,
  take, drop, All, ok, err, ◌>>=◌, ◌>>◌, guard, min, max, arith, Bool-cases, >>=-eq-ok, dec_le,
  dec_lt, ℕ_discrete, length-append, append_assoc, append-nil, map, take-append, drop-append,
  take-append-drop, length-take, length-drop, ok-injective, bit_and,
}
use ndn_cxx_gm.Errors.{
  Error, Result, not_lp_packet, unrecognized_field, repeated_field, wrong_sort_order,
  field_cannot_be_repeated, index_out_of_range, front_of_empty,
}
use ndn_cxx_gm.Block.{Block, Blocks, nil, cons, type, elements, of_type, get_wire}
use ndn_cxx_gm.Block.Elements
use ndn_cxx_gm.Block.Wire.{encode}
use ndn_cxx_gm.Block.Helpers.{make_binary_block}

abbrev pub lp_packet : ℕ
lp_packet = 100

abbrev pub fragment : ℕ
fragment = 80

abbrev pub ack : ℕ
ack = 836

-- FieldDecl: TlvType, IsRepeatable, and getLocationSortOrder of FieldLocation.
pub record Declared : Type 0 where
  pub tlv_type : ℕ
  pub is_repeatable : Bool
  pub location : ℕ

abbrev pub header_field : ℕ → Declared
header_field t = record { tlv_type = t; is_repeatable = false; location = 1 }

-- FieldSet, less the first
abbrev pub header_fields : List Declared
header_fields =
    header_field 81
    ∷ header_field 82
    ∷ header_field 83
    ∷ header_field 98
    ∷ header_field 800
    ∷ header_field 816
    ∷ header_field 812
    ∷ header_field 820
    ∷ header_field 832
    ∷ record { tlv_type = ack; is_repeatable = true; location = 1 }
    ∷ header_field 840
    ∷ header_field 844
    ∷ header_field 848
    ∷ []

-- FieldSet
abbrev pub field_set : List Declared
field_set = record { tlv_type = fragment; is_repeatable = false; location = 2 } ∷ header_fields

pub record FieldInfo : Type 0 where
  pub tlv_type : ℕ
  pub is_recognized : Bool
  pub can_ignore : Bool
  pub is_repeatable : Bool
  pub location_sort_order : ℕ

-- ExtractFieldInfo, for one declaration
unfoldable pub extract_field_info : Declared → FieldInfo → FieldInfo
extract_field_info d info =
    if d.tlv_type == info.tlv_type
    then record {
      tlv_type = info.tlv_type;
      is_recognized = true;
      can_ignore = false;
      is_repeatable = d.is_repeatable;
      location_sort_order = d.location;
    }
    else info

-- boost::mpl::for_each
unfoldable pub extract_all : List Declared → FieldInfo → FieldInfo
extract_all [] info = info
extract_all (d ∷ ds) info = extract_all ds (extract_field_info d info)

-- The last statement of FieldInfo(tlv)
unfoldable pub set_can_ignore : FieldInfo → FieldInfo
set_can_ignore info = if info.is_recognized then info else record {
  tlv_type = info.tlv_type;
  is_recognized = info.is_recognized;
  can_ignore = leb 800 info.tlv_type && leb info.tlv_type 959 && (bit_and info.tlv_type 3 == 0);
  is_repeatable = info.is_repeatable;
  location_sort_order = info.location_sort_order;
}

-- The default member initializers of FieldInfo, and tlvType
abbrev pub blank_info : ℕ → FieldInfo
blank_info tlv = record {
  tlv_type = tlv;
  is_recognized = false;
  can_ignore = false;
  is_repeatable = false;
  location_sort_order = 1;
}

-- FieldInfo(tlv)
unfoldable pub field_info : ℕ → FieldInfo
field_info tlv = set_can_ignore (extract_all field_set (blank_info tlv))

unfoldable pub compare_field_sort_order : FieldInfo → FieldInfo → Bool
compare_field_sort_order first second =
    ltb first.location_sort_order second.location_sort_order
    || ((first.location_sort_order == second.location_sort_order)
        && ltb first.tlv_type second.tlv_type)

-- `if (!isFirst) …`
unfoldable pub check_order : Option FieldInfo → FieldInfo → Result (Unit {0})
check_order none info = ok tt
check_order (some prev) info =
    if (info.tlv_type == prev.tlv_type) && not info.is_repeatable
    then err (repeated_field info.tlv_type)
    else if not (info.tlv_type == prev.tlv_type) && not (compare_field_sort_order prev info)
    then err wrong_sort_order
    else ok tt

-- The loop of wireDecode over the fields
unfoldable pub check_fields : Option FieldInfo → Blocks → Result (Unit {0})
check_fields prev nil = ok tt
check_fields prev (cons e es) = do
  let info = field_info (type e)
  guard (info.is_recognized || info.can_ignore) (unrecognized_field (type e))
  check_order prev info
  check_fields (some info) es

-- count<FIELD>()
unfoldable pub count : ℕ → Blocks → ℕ
count t nil = 0
count t (cons e es) = let rest = count t es in if type e == t then suc rest else rest

unfoldable pub compare_pos : ℕ → Block → Bool
compare_pos first second = compare_field_sort_order (field_info first) (field_info (type second))

-- std::upper_bound with comparePos, on fields in their order
unfoldable pub upper_bound : ℕ → Blocks → ℕ
upper_bound t nil = 0
upper_bound t (cons e es) = let rest = upper_bound t es in if compare_pos t e then 0 else suc rest

-- add<FIELD>(value): `encoded` is what FIELD::encode and buffer.block() make of the value, an element
-- or an exception.
unfoldable pub add : Bool → ℕ → Result Block → Block → Result Block
add is_repeatable t encoded m_wire = do
  guard (is_repeatable || (count t (elements m_wire) == 0)) field_cannot_be_repeated
  field ← encoded
  ok (Elements.insert m_wire (upper_bound t (elements m_wire)) field)

-- clear<FIELD>()
unfoldable pub clear : ℕ → Block → Block
clear t m_wire = Elements.remove m_wire t

-- A call that throws leaves the packet as it was then.
abbrev pub or_left : Block → Result Block → Block × Result (Unit {0})
or_left left (ok m_wire) = (m_wire, ok tt)
or_left left (err e) = (left, err e)

-- set<FIELD>(value): the packet afterwards, from which FIELD was cleared also where add throws.
unfoldable pub set_field : Bool → ℕ → Result Block → Block → Block × Result (Unit {0})
set_field is_repeatable t encoded m_wire =
    let cleared = clear t m_wire in or_left cleared (add is_repeatable t encoded cleared)

-- The loop of get<FIELD>(index), up to FIELD::decode
unfoldable pub get_from : ℕ → ℕ → Blocks → Result Block
get_from t index nil = err index_out_of_range
get_from t zero (cons e es) = let rest = get_from t zero es in if type e == t then ok e else rest
get_from t (suc index) (cons e es) =
    let found = get_from t index es in
    let rest = get_from t (suc index) es in if type e == t then found else rest

-- get<FIELD>(index)
abbrev pub get_field : ℕ → ℕ → Block → Result Block
get_field t index m_wire = get_from t index (elements m_wire)

-- list<FIELD>()
unfoldable pub list : ℕ → Blocks → List Block
list t nil = []
list t (cons e es) = let rest = list t es in if type e == t then e ∷ rest else rest

-- The loop of remove<FIELD>(index): the position to erase
unfoldable pub position_of : ℕ → ℕ → Blocks → Result ℕ
position_of t index nil = err index_out_of_range
position_of t zero (cons e es) =
    let rest = position_of t zero es in if type e == t then ok 0 else (do at ← rest; ok (suc at))
position_of t (suc index) (cons e es) =
    let found = position_of t index es in
    let rest = position_of t (suc index) es in
    do at ← (if type e == t then found else rest); ok (suc at)

-- remove<FIELD>(index)
unfoldable pub remove_field : ℕ → ℕ → Block → Result Block
remove_field t index m_wire = do
  at ← position_of t index (elements m_wire)
  ok (Elements.erase m_wire at (suc at))

-- wireDecode: the branch of a bare network packet
unfoldable pub decode_bare : Block → Result Block
decode_bare w = do
  bytes ← get_wire w
  add false fragment (make_binary_block fragment bytes) (of_type lp_packet)

-- wireDecode: the branch of an LpPacket
unfoldable pub decode_fields : Block → Result Block
decode_fields w = do
  let (parsed, outcome) = Elements.parse w
  done ← outcome
  check_fields none (elements parsed)
  ok parsed

-- wireDecode
unfoldable pub wire_decode : Block → Result Block
wire_decode w =
    if (type w == 5) || (type w == 6)
    then decode_bare w
    else if type w == lp_packet
    then decode_fields w
    else err (not_lp_packet (type w))

-- front(), which is undefined on an empty container
abbrev pub front : Blocks → Result Block
front nil = err front_of_empty
front (cons e es) = ok e

-- wireEncode: the network packet in a fragment
unfoldable pub unwrap : Block → Result Block
unwrap field = do
  let (parsed, outcome) = Elements.parse field
  done ← outcome
  front (elements parsed)

-- wireEncode, on the elements of m_wire
unfoldable pub encode_packet : Block → Blocks → Result Block
encode_packet m_wire nil = ok (encode m_wire)
encode_packet m_wire (cons e nil) = if type e == fragment then unwrap e else ok (encode m_wire)
encode_packet m_wire (cons e (cons e' es)) = ok (encode m_wire)

-- wireEncode
unfoldable pub wire_encode : Block → Result Block
wire_encode m_wire = encode_packet m_wire (elements m_wire)
