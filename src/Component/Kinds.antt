-- ===== src/Component/Kinds.antt =====
-- ndn-cxx/name-component.cpp: the is functions recognise what the to functions read.
use ndn_cxx_gm.Base.{
  refl, ℕ, ◌≡◌, ◌≤◌, List, Bool, arith, ok, ◌==◌, true, ◌||◌, false, length, ◌-◌, drop, length-drop,
  ◌&&◌, ◌↔◌, guard, if◌then◌else◌, err, ◌>>◌, take, some,
}
use ndn_cxx_gm.Tlv.{read_non_negative_integer, read_number, big_to_native}
use ndn_cxx_gm.Component.{
  segment, byte_offset, version, timestamp, sequence_number, Convention, NumberKind, Block, type_of,
  is_kind, marker_of, contiguous, to_kind, is_number, is_number_with_marker, to_number,
  to_number_with_marker, starts_with, not_of_kind,
}
use ndn_cxx_gm.Block.Helpers.{read_block_integer}
use ndn_cxx_gm.Tlv.Numbers.{IsWidth, fast_value}
use ndn_cxx_gm.Block.{no_buffer, only_value, wire, value_size, value, block, only_value, wire, type}
use ndn_cxx_gm.Errors.{Result, Error}

IsWidth-test : (n : ℕ) → (n == 1 || n == 2 || n == 4 || n == 8) ≡ true → IsWidth n
IsWidth-test n h = ground arith

-- A read of a NonNegativeInteger of one of the four sizes returns where the bytes are there.
read_non_negative_integer-value :
    (size : ℕ) (bytes : List ℕ)
    → IsWidth size
    → size ≤ length bytes
    → read_non_negative_integer contiguous size bytes
      ≡ ok (big_to_native 0 (take size bytes), drop size bytes)
unfolding read_non_negative_integer
read_non_negative_integer-value size bytes w h =
    let found : read_number contiguous size bytes
        ≡ some (big_to_native 0 (take size bytes), drop size bytes) =
      unfold read_number in fast_value size bytes w h in
    ground (arith, found)

value_size-le : (c : Block) → value_size c ≤ length (value c)
value_size-le (block t no_buffer n es) = ground arith
value_size-le (block t (only_value v) n es) = ground arith
value_size-le (block t (wire h v) n es) = ground arith

to_number-returns : (c : Block) → is_number c ≡ true → (n : ℕ) × (to_number c ≡ ok n)
unfolding to_number is_number read_block_integer
to_number-returns c h =
    let e =
      read_non_negative_integer-value (value_size c) (value c) (IsWidth-test (value_size c) h)
        (value_size-le c) in
    (big_to_native 0 (take (value_size c) (value c)), rw (h, e))

both_true : (a b : Bool) → (a && b) ≡ true → (a ≡ true) × (b ≡ true)
both_true true b h = (refl, h)
both_true false b h = cc

marked_width :
    (n : ℕ)
    → (n == 2 || n == 3 || n == 5 || n == 9) ≡ true
    → (n - 1 == 1 || n - 1 == 2 || n - 1 == 4 || n - 1 == 8) ≡ true
marked_width n h = ground arith

marker_parts :
    (c : Block) (marker : ℕ)
    → is_number_with_marker c marker ≡ true
    → ((value_size c == 2 || value_size c == 3 || value_size c == 5 || value_size c == 9) ≡ true)
      × (starts_with marker (value c) ≡ true)
unfolding is_number_with_marker
marker_parts c marker h =
    both_true (value_size c == 2 || value_size c == 3 || value_size c == 5 || value_size c == 9)
      (starts_with marker (value c)) h

to_number_with_marker-returns :
    (c : Block) (marker : ℕ)
    → is_number_with_marker c marker ≡ true
    → (n : ℕ) × (to_number_with_marker c marker ≡ ok n)
unfolding to_number_with_marker
to_number_with_marker-returns c marker h =
    let parts = marker_parts c marker h in
    let room : value_size c - 1 ≤ length (drop 1 (value c)) =
      omega (arith, length-drop 1 (value c), value_size-le c) in
    let e =
      read_non_negative_integer-value (value_size c - 1) (drop 1 (value c))
        (IsWidth-test (value_size c - 1) (marked_width (value_size c) parts.0)) room in
    (big_to_native 0 (take (value_size c - 1) (drop 1 (value c))), rw (h, e))

abbrev pub Returns : Result ℕ → Type 0
Returns r = (n : ℕ) × (r ≡ ok n)

only_guarded : (b : Bool) (e : Error) (k : Result ℕ) → Returns (guard b e >> k) → b ≡ true
only_guarded true e k r = refl
only_guarded false e k r = cc (r.1)

unmarked_iff : (c : Block) → (is_number c ≡ true) ↔ Returns (to_number c)
unmarked_iff c = (to_number-returns c, λ r. unfold to_number in only_guarded _ _ _ r)

marked_iff :
    (c : Block) (marker : ℕ)
    → (is_number_with_marker c marker ≡ true) ↔ Returns (to_number_with_marker c marker)
marked_iff c marker = (
  to_number_with_marker-returns c marker,
  λ r. unfold to_number_with_marker in only_guarded _ _ _ r,
)

false-true : true ≡ false → ⊥
false-true h = cc

-- The two tests of an is function, and the branches of the to function.
branches :
    (m g a t u b : Bool) (A B : Result ℕ)
    → (g ≡ true → u ≡ false)
    → ((a ≡ true) ↔ Returns A)
    → ((b ≡ true) ↔ Returns B)
    → (((m && g && a) || (t && u && b)) ≡ true)
      ↔ Returns (if m && g then A else if t && u then B else err not_of_kind)
branches true true a t true b A B d h k = absurd (false-true (d refl))
branches true true true true false b A B d h k = h
branches true true false true false b A B d h k = h
branches true true true false false b A B d h k = h
branches true true false false false b A B d h k = h
branches true false a true true b A B d h k = k
branches true false a true false b A B d h k = (λ p. cc, λ r. cc (r.1))
branches true false a false u b A B d h k = (λ p. cc, λ r. cc (r.1))
branches false g a true true b A B d h k = k
branches false g a true false b A B d h k = (λ p. cc, λ r. cc (r.1))
branches false g a false u b A B d h k = (λ p. cc, λ r. cc (r.1))

generic_only : (t : ℕ) (kind : NumberKind) → (t == 8) ≡ true → (t == type_of kind) ≡ false
generic_only t segment h = ground arith
generic_only t byte_offset h = ground arith
generic_only t version h = ground arith
generic_only t timestamp h = ground arith
generic_only t sequence_number h = ground arith

-- The to function of a kind of number returns exactly where its is function answers true, on
-- every block and under every decoding convention.
pub is_kind-to_kind :
    (decoding : Convention) (kind : NumberKind) (c : Block)
    → (is_kind decoding kind c ≡ true) ↔ ((n : ℕ) × (to_kind decoding kind c ≡ ok n))
unfolding is_kind to_kind
is_kind-to_kind decoding kind c =
    branches _ _ _ _ _ _ _ _ (generic_only (type c) kind) (marked_iff c (marker_of kind))
      (unmarked_iff c)
