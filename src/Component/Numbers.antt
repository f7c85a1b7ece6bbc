-- ===== src/Component/Numbers.antt =====
-- Components that hold numbers: what the from functions make is what the to functions read.
use ndn_cxx_gm.Base.{
  refl, ℕ, ◌+◌, ◌≡◌, ◌≤◌, List, [], ◌∷◌, Bool, arith, ok, ◌<◌, ◌==◌, true, ◌||◌, false, length,
  subst, append-nil, Bool-cases, inl, inr, suc, ◌-◌,
}
use ndn_cxx_gm.Tlv.{
  write_non_negative_integer, size_of_non_negative_integer, size_of_var_number,
  read_non_negative_integer,
}
use ndn_cxx_gm.Block.Parsing.{IsElement, element}
use ndn_cxx_gm.Component.{
  segment, byte_offset, version, timestamp, sequence_number, Convention, marker_convention,
  typed_convention, either_convention, from_number, from_number_with_marker, component,
  ensure_valid, check_type, can_decode_typed_convention, can_decode_marker_convention, NumberKind,
  Block, type_of, is_kind, marker_of, contiguous, to_kind, from_kind, is_number,
  is_number_with_marker, to_number, to_number_with_marker,
}
use ndn_cxx_gm.Block.Helpers.{
  make_non_negative_integer_block-lem, size_of_non_negative_integer-le, of_encoder-Prepends,
  read_block_integer,
}
use ndn_cxx_gm.Encoder.{new_encoder, prepend_non_negative_integer, prepend_bytes}
use ndn_cxx_gm.Encoder.Numbers.{
  prepend_non_negative_integer-Prepends, prepend_bytes-Prepends, Prepends-then,
}
use ndn_cxx_gm.Encoder.Contents.{new_encoder-contents}
use ndn_cxx_gm.Tlv.Numbers.{write_sizes, read_non_negative_integer-write}
use ndn_cxx_gm.Encoder.Estimator.{header-Prepends}
use ndn_cxx_gm.Base.Bits.{u64_mod}

-- The decoding convention accepts what the encoding convention writes.
abbrev pub decodes : Convention → Convention → Bool
decodes decoding marker_convention = can_decode_marker_convention decoding
decodes decoding typed_convention = can_decode_typed_convention decoding
decodes decoding either_convention = can_decode_typed_convention decoding

-- Above the digest types, every element of a component's TLV-TYPE is valid.
pub component-element :
    (t : ℕ) (v : List ℕ) → 3 ≤ t → t ≤ 65535 → component (element t v) ≡ ok (element t v)
unfolding component ensure_valid check_type
component-element t v h h' = ground arith

from_number-lem :
    (n t : ℕ)
    → 3 ≤ t
    → t ≤ 65535
    → from_number n t ≡ ok (element t (write_non_negative_integer n).0)
unfolding from_number
from_number-lem n t h h' =
    rw (make_non_negative_integer_block-lem t n (omega arith) (omega arith))
      (component-element t (write_non_negative_integer n).0 h h')

from_number_with_marker-lem :
    (marker n : ℕ)
    → from_number_with_marker marker n ≡ ok (element 8 (marker ∷ (write_non_negative_integer n).0))
unfolding from_number_with_marker
from_number_with_marker-lem marker n =
    let bytes = (write_non_negative_integer n).0 in
    let size = size_of_non_negative_integer n in
    let total = size + 1 + size_of_var_number (size + 1) + size_of_var_number 8 in
    let e = new_encoder total 0 in
    let p = prepend_non_negative_integer-Prepends e n (new_encoder-contents total 0).0 in
    let r = prepend_non_negative_integer e n in
    let q = prepend_bytes-Prepends r.0 (marker ∷ []) p.valid in
    let both =
      Prepends-then e bytes (marker ∷ []) r (prepend_bytes r.0 (marker ∷ [])) (size + 1) p q
        (omega (arith, p.count, q.count, (write_sizes n).3)) in
    let h = header-Prepends e 8 (marker ∷ bytes) _ both in
    let is : IsElement 8 (marker ∷ bytes) = record {
      legal = omega arith;
      fits = omega arith;
      sized = omega (arith, (write_sizes n).3, size_of_non_negative_integer-le n);
    } in
    rw (of_encoder-Prepends total 0 8 (marker ∷ bytes) _ is h)
      (component-element 8 (marker ∷ bytes) (omega arith) (omega arith))

-- What is_kind and to_kind find in the two forms of a number component.
record Carries (decoding : Convention) (kind : NumberKind) (n : ℕ) (c : Block) : Type 0 where
  recognised : is_kind decoding kind c ≡ true
  read : to_kind decoding kind c ≡ ok n

type_of-range : (kind : NumberKind) → (3 ≤ type_of kind) × (type_of kind ≤ 65535)
type_of-range segment = (omega arith, omega arith)
type_of-range byte_offset = (omega arith, omega arith)
type_of-range version = (omega arith, omega arith)
type_of-range timestamp = (omega arith, omega arith)
type_of-range sequence_number = (omega arith, omega arith)

same_type : (t : ℕ) → (t == t) ≡ true
same_type t = ground arith

number_width :
    (n : ℕ)
    → let s = size_of_non_negative_integer n in
      ((s == 1 || s == 2 || s == 4 || s == 8) ≡ true)
      × ((s + 1 == 2 || s + 1 == 3 || s + 1 == 5 || s + 1 == 9) ≡ true)
unfolding size_of_non_negative_integer
number_width n = ground arith

reads_number :
    (n : ℕ)
    → n < u64_mod
    → read_non_negative_integer contiguous
        (size_of_non_negative_integer n)
        (write_non_negative_integer n).0
      ≡ ok (n, [])
reads_number n h =
    subst
      (λ b. read_non_negative_integer contiguous (size_of_non_negative_integer n) b ≡ ok (n, []))
      (append-nil (write_non_negative_integer n).0)
      (read_non_negative_integer-write contiguous n [] h)

not_generic : (kind : NumberKind) → (type_of kind == 8) ≡ false
not_generic segment = refl
not_generic byte_offset = refl
not_generic version = refl
not_generic timestamp = refl
not_generic sequence_number = refl

typed_number :
    (t n : ℕ)
    → n < u64_mod
    → (is_number (element t (write_non_negative_integer n).0) ≡ true)
      × (to_number (element t (write_non_negative_integer n).0) ≡ ok n)
unfolding is_number to_number read_block_integer
typed_number t n h =
    let size : length (write_non_negative_integer n).0 ≡ size_of_non_negative_integer n =
      (write_sizes n).3 in
    let width = (number_width n).0 in (rw (size, width), rw (size, width, reads_number n h))

marked_number :
    (t marker n : ℕ)
    → n < u64_mod
    → (is_number_with_marker (element t (marker ∷ (write_non_negative_integer n).0)) marker ≡ true)
      × (to_number_with_marker (element t (marker ∷ (write_non_negative_integer n).0)) marker
          ≡ ok n)
unfolding is_number_with_marker to_number_with_marker
marked_number t marker n h =
    let size : suc (length (write_non_negative_integer n).0) ≡ size_of_non_negative_integer n + 1 =
      omega (arith, (write_sizes n).3) in
    let back : size_of_non_negative_integer n + 1 - 1 ≡ size_of_non_negative_integer n =
      omega arith in
    let width = (number_width n).1 in
    let same = same_type marker in
    (rw (size, width, same), rw (size, width, same, back, reads_number n h))

typed-Carries :
    (decoding : Convention) (kind : NumberKind) (n : ℕ)
    → n < u64_mod
    → can_decode_typed_convention decoding ≡ true
    → Carries decoding kind n (element (type_of kind) (write_non_negative_integer n).0)
typed-Carries decoding kind n h d =
    let found = typed_number (type_of kind) n h in
    let other = not_generic kind in
    let same = same_type (type_of kind) in
    record {
      recognised =
          unfold is_kind in
          elim (Bool-cases (can_decode_marker_convention decoding)) [
            | inl e ↦ rw (e, d, other, same, found.0)
            | inr e ↦ rw (e, d, same, found.0)
          ];
      read =
          unfold to_kind in
          elim (Bool-cases (can_decode_marker_convention decoding)) [
            | inl e ↦ rw (e, d, other, same, found.1)
            | inr e ↦ rw (e, d, same, found.1)
          ];
    }

marker-Carries :
    (decoding : Convention) (kind : NumberKind) (n : ℕ)
    → n < u64_mod
    → can_decode_marker_convention decoding ≡ true
    → Carries decoding kind n (element 8 (marker_of kind ∷ (write_non_negative_integer n).0))
marker-Carries decoding kind n h d =
    let found = marked_number 8 (marker_of kind) n h in
    record {
      recognised = unfold is_kind in rw (d, found.0);
      read = unfold to_kind in rw (d, found.1);
    }

-- Where the decoding convention accepts what the encoding convention writes, each from function
-- returns a component for every 64-bit number, which its is function recognises and its to
-- function reads back.
pub from_kind-to_kind :
    (encoding decoding : Convention) (kind : NumberKind) (n : ℕ)
    → n < u64_mod
    → decodes decoding encoding ≡ true
    → (c : Block) × (from_kind encoding kind n ≡ ok c)
      × (is_kind decoding kind c ≡ true)
      × (to_kind decoding kind c ≡ ok n)
unfolding from_kind
from_kind-to_kind marker_convention decoding kind n h d =
    let c = marker-Carries decoding kind n h d in
    (_, from_number_with_marker-lem (marker_of kind) n, c.recognised, c.read)
from_kind-to_kind typed_convention decoding kind n h d =
    let c = typed-Carries decoding kind n h d in
    let (low, high) = type_of-range kind in
    (_, from_number-lem n (type_of kind) low high, c.recognised, c.read)
from_kind-to_kind either_convention decoding kind n h d =
    let c = typed-Carries decoding kind n h d in
    let (low, high) = type_of-range kind in
    (_, from_number-lem n (type_of kind) low high, c.recognised, c.read)
