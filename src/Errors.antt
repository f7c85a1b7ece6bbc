-- ===== src/Errors.antt =====
-- The exceptions of the packet layer: tlv::Error, the classes derived from it, and
-- std::invalid_argument. Each constructor is one `NDN_THROW` message.
use ndn_cxx_gm.Base.{ℕ, Option, none, some, ok, err, ◌≡◌, ◌↔◌}
use ndn_cxx_gm.Base

pub data Error : Type 0 where
  empty_buffer : Error
  insufficient_data : Error
  illegal_type : ℕ → Error
  invalid_number_length : ℕ → Error
  insufficient_number_data : Error
  not_enough_bytes : Error
  buffer_is_empty : Error
  length_mismatch : Error
  stream_exceeds_limit : Error
  wire_is_empty : Error
  invalid_block_size : Error
  empty_value : Error
  sub_element_exceeds : ℕ → Error
  no_sub_element : ℕ → ℕ → Error
  -- name::Component::Error
  not_a_component : ℕ → Error
  wrong_digest_length : Error
  not_a_number : Error
  no_such_marker : Error
  not_of_kind : Error
  -- Name::Error, and tlv::Error of a wrong TLV-TYPE
  out_of_bounds : Error
  not_a_name : ℕ → Error
  -- lp::Packet::Error
  not_lp_packet : ℕ → Error
  unrecognized_field : ℕ → Error
  repeated_field : ℕ → Error
  wrong_sort_order : Error
  -- lp::FieldDecl::decode
  unexpected_type : ℕ → Error
  must_be_empty : ℕ → Error
  must_be_64_bits : ℕ → Error
  cannot_be_empty : ℕ → Error
  -- lp::NackHeader, lp::CachePolicy and readNonNegativeIntegerAs
  not_a_nack : ℕ → Error
  not_a_nack_reason : ℕ → Error
  cache_policy_unset : Error
  not_a_cache_policy : ℕ → Error
  not_a_cache_policy_type : ℕ → Error
  empty_cache_policy : Error
  unknown_cache_policy : Error
  number_too_large : ℕ → Error
  -- DelegationList::Error
  not_delegations : ℕ → Error
  not_a_delegation : ℕ → Error
  missing_preference : Error
  invalid_preference : Error
  missing_name : Error
  invalid_name : Error
  empty_delegation_list : Error
  illegal_list_type : ℕ → Error
  -- std::invalid_argument
  unknown_convention : Error
  field_cannot_be_repeated : Error
  -- std::out_of_range
  index_out_of_range : Error
  -- Not an exception of the code: front() of an empty container, which is undefined.
  front_of_empty : Error
  -- Not an exception of the code: a null pointer is dereferenced, which is undefined.
  null_buffer : Error
  -- Not an exception of the code: the fuel of a loop's model ran out.
  stuck : Error

abbrev pub Result {ℓ} : Type ℓ → Type ℓ
Result A = Base.Result Error A

-- `if (!isOk) NDN_THROW(e);`
abbrev pub or_throw {ℓ} : {A : Type ℓ} → Option A → Error → Result A
or_throw none e = err e
or_throw (some a) e = ok a

pub or_throw-eq-ok {ℓ} :
    {A : Type ℓ} (o : Option A) (e : Error) (a : A) → (or_throw o e ≡ ok a) ↔ (o ≡ some a)
or_throw-eq-ok none e a = (λ h. cc, λ h. cc)
or_throw-eq-ok (some x) e a = (λ h. cc, λ h. cc)
