-- ===== src/Lp/Headers.antt =====
-- ndn-cxx/lp/nack-header.cpp and cache-policy.cpp: field values that have classes. A NackHeader is its
-- m_reason and a CachePolicy its m_policy, an enumerator or another `int` that is not negative; fields
-- are made by wireEncode(encoder), which does not read the wire that the object keeps.
use ndn_cxx_gm.Base.{
  ℕ, ◌+◌, ◌-◌, ◌≤◌, ◌<◌, ◌≡◌, ◌∙◌, ap, subst, List, ◌++◌, true, not, ◌||◌, ◌==◌, leb, length,
  append-nil, if◌then◌else◌, ok, err, ◌>>=◌, ◌>>◌, guard, arith,
}
use ndn_cxx_gm.Errors.{
  Result, not_a_nack, not_a_nack_reason, cache_policy_unset, not_a_cache_policy,
  not_a_cache_policy_type, empty_cache_policy, unknown_cache_policy, number_too_large,
}
use ndn_cxx_gm.Tlv.{write_var_number, write_non_negative_integer, size_of_var_number}
use ndn_cxx_gm.Tlv.Numbers.{write_sizes}
use ndn_cxx_gm.Encoder.{
  Encoder, new_encoder, prepend_var_number, prepend_non_negative_integer_block,
}
use ndn_cxx_gm.Encoder.Contents.{new_encoder-contents}
use ndn_cxx_gm.Encoder.Estimator.{
  tlv, length-tlv, estimate_non_negative_integer_block, header-Prepends,
  prepend_non_negative_integer_block-Prepends,
}
use ndn_cxx_gm.Base.Bits.{u32_mod}
use ndn_cxx_gm.Block.{Block, Blocks, block, nil, cons, wire, type, elements, of_encoder}
use ndn_cxx_gm.Block.Elements.{parse}
use ndn_cxx_gm.Block.Encoding.{encoding-body, encodings}
use ndn_cxx_gm.Block.Parsing.{IsElement, element, decoded, parse-encodings}
use ndn_cxx_gm.Block.Helpers.{
  read_block_integer, read_block_integer-element, of_encoder-Prepends, number-IsElement,
  size_of_non_negative_integer-le,
}

-- The elements Nack, NackReason, CachePolicy and CachePolicyType of lp/tlv.hpp
abbrev pub nack_type : ℕ
nack_type = 800

abbrev pub nack_reason_type : ℕ
nack_reason_type = 801

abbrev pub cache_policy_type : ℕ
cache_policy_type = 820

abbrev pub cache_policy_type_type : ℕ
cache_policy_type_type = 821

-- std::numeric_limits<int>::max() and one: `int` is the type under both enumerations.
abbrev pub int_mod : ℕ
int_mod = 2147483648

-- readNonNegativeIntegerAs of an enumeration on `int`
unfoldable pub read_block_enum : Block → Result ℕ
read_block_enum b = do
  value ← read_block_integer b
  guard (leb value (int_mod - 1)) (number_too_large (type b))
  ok value

-- An element with one number in it: the three calls of NackHeader::wireEncode and of
-- CachePolicy::wireEncode, on an encoder and on an estimator
unfoldable pub prepend_nested : ℕ → ℕ → ℕ → Encoder → Encoder × ℕ
prepend_nested outer inner n e =
    let (e₁, n₁) = prepend_non_negative_integer_block e inner n in
    let (e₂, n₂) = prepend_var_number e₁ n₁ in
    let (e₃, n₃) = prepend_var_number e₂ outer in (e₃, n₁ + n₂ + n₃)

unfoldable pub estimate_nested : ℕ → ℕ → ℕ → ℕ
estimate_nested outer inner n =
    let length' = estimate_non_negative_integer_block inner n in
    let length'' = length' + size_of_var_number length' in length'' + size_of_var_number outer

unfoldable pub make_nested : ℕ → ℕ → ℕ → Result Block
make_nested outer inner n =
    let e = new_encoder (estimate_nested outer inner n) 0 in
    of_encoder (prepend_nested outer inner n e).0 true

-- NackHeader::wireEncode
abbrev pub encode_nack : ℕ → Result Block
encode_nack m_reason = make_nested nack_type nack_reason_type m_reason

-- CachePolicy::wireEncode
unfoldable pub encode_cache_policy : ℕ → Result Block
encode_cache_policy m_policy = do
  guard (not (m_policy == 0)) cache_policy_unset
  make_nested cache_policy_type cache_policy_type_type m_policy

-- NackHeader::getReason
unfoldable pub get_reason : ℕ → ℕ
get_reason m_reason =
    if (m_reason == 50) || (m_reason == 100) || (m_reason == 150) then m_reason else 0

-- NackHeader::wireDecode: the elements
unfoldable pub decode_reason : Blocks → Result ℕ
decode_reason nil = ok 0
decode_reason (cons e es) = do
  guard (type e == nack_reason_type) (not_a_nack_reason (type e))
  read_block_enum e

-- NackHeader::wireDecode
unfoldable pub decode_nack : Block → Result ℕ
decode_nack w = do
  guard (type w == nack_type) (not_a_nack (type w))
  let (m_wire, outcome) = parse w
  done ← outcome
  decode_reason (elements m_wire)

-- CachePolicy::getPolicy
unfoldable pub get_policy : ℕ → ℕ
get_policy m_policy = if m_policy == 1 then m_policy else 0

-- CachePolicy::wireDecode: the elements
unfoldable pub decode_policy : Blocks → Result ℕ
decode_policy nil = err empty_cache_policy
decode_policy (cons e es) = do
  guard (type e == cache_policy_type_type) (not_a_cache_policy_type (type e))
  m_policy ← read_block_enum e
  guard (not (get_policy m_policy == 0)) unknown_cache_policy
  ok m_policy

-- CachePolicy::wireDecode
unfoldable pub decode_cache_policy : Block → Result ℕ
decode_cache_policy w = do
  guard (type w == cache_policy_type) (not_a_cache_policy (type w))
  let (m_wire, outcome) = parse w
  done ← outcome
  decode_policy (elements m_wire)

-- The value of an element with one number in it.
abbrev nested : ℕ → ℕ → List ℕ
nested inner n = tlv inner (write_non_negative_integer n).0

nested-IsElement :
    (outer inner n : ℕ) → 1 ≤ outer → outer < u32_mod → IsElement outer (nested inner n)
unfolding size_of_var_number
nested-IsElement outer inner n legal fits = record {
  legal = legal;
  fits = fits;
  sized = ground (
    arith,
    length-tlv inner (write_non_negative_integer n).0,
    write_sizes n,
    size_of_non_negative_integer-le n,
  );
}

make_nested-lem :
    (outer inner n : ℕ)
    → 1 ≤ outer
    → outer < u32_mod
    → make_nested outer inner n ≡ ok (element outer (nested inner n))
unfolding make_nested prepend_nested
make_nested-lem outer inner n legal fits =
    let total = estimate_nested outer inner n in
    let e = new_encoder total 0 in
    of_encoder-Prepends total 0 outer (nested inner n) _ (nested-IsElement outer inner n legal fits)
      (header-Prepends e outer (nested inner n) (prepend_non_negative_integer_block e inner n)
        (prepend_non_negative_integer_block-Prepends e inner n (new_encoder-contents total 0).0))

parse-nested :
    (outer inner n : ℕ)
    → 1 ≤ inner
    → inner < u32_mod
    → (elements (parse (element outer (nested inner n))).0
        ≡ cons (element inner (write_non_negative_integer n).0) nil)
      × ((parse (element outer (nested inner n))).1 ≡ ok tt)
unfolding decoded encodings
parse-nested outer inner n legal fits =
    let v = (write_non_negative_integer n).0 in
    let one = element inner v in
    let bytes : encodings (cons one nil) ≡ tlv inner v = append-nil _ ∙ encoding-body one in
    let header = (write_var_number outer).0 ++ (write_var_number (length (tlv inner v))).0 in
    let size = length header + length (tlv inner v) in
    let parsed : parse (element outer (nested inner n))
        ≡ (block outer (wire header (tlv inner v)) size (cons one nil), ok tt) =
      subst
        (λ x.
          parse (block outer (wire header x) size nil)
          ≡ (block outer (wire header x) size (cons one nil), ok tt))
        bytes
        (parse-encodings outer size header (cons one nil)
          (number-IsElement inner n legal fits, tt)) in
    (ap (λ r. elements r.0) parsed, ap (λ r. r.1) parsed)

read_block_enum-element :
    (t n : ℕ) → n < int_mod → read_block_enum (element t (write_non_negative_integer n).0) ≡ ok n
unfolding read_block_enum
read_block_enum-element t n h =
    let small : leb n (int_mod - 1) ≡ true = ground arith in
    rw (read_block_integer-element t n (omega arith), small)

-- The elements that a NackHeader and the policy NO_CACHE are made into.
abbrev pub nack_element : ℕ → Block
nack_element m_reason = element nack_type (nested nack_reason_type m_reason)

abbrev pub no_cache_element : Block
no_cache_element = element cache_policy_type (nested cache_policy_type_type 1)

pub encode_nack-element : (m_reason : ℕ) → encode_nack m_reason ≡ ok (nack_element m_reason)
encode_nack-element m_reason =
    make_nested-lem nack_type nack_reason_type m_reason (omega arith) (omega arith)

pub decode_nack-element :
    (m_reason : ℕ) → m_reason < int_mod → decode_nack (nack_element m_reason) ≡ ok m_reason
unfolding decode_nack decode_reason
decode_nack-element m_reason h =
    let p = parse-nested nack_type nack_reason_type m_reason (omega arith) (omega arith) in
    rw (p.1, p.0, read_block_enum-element nack_reason_type m_reason h)

pub encode_cache_policy-element : encode_cache_policy 1 ≡ ok no_cache_element
unfolding encode_cache_policy
encode_cache_policy-element =
    make_nested-lem cache_policy_type cache_policy_type_type 1 (omega arith) (omega arith)

pub decode_cache_policy-element : decode_cache_policy no_cache_element ≡ ok 1
unfolding decode_cache_policy decode_policy get_policy
decode_cache_policy-element =
    let p = parse-nested cache_policy_type cache_policy_type_type 1 (omega arith) (omega arith) in
    rw (p.1, p.0, read_block_enum-element cache_policy_type_type 1 (omega arith))
