-- ===== src/Lp/Sending.antt =====
-- Decoding and encoding a packet (lp/packet.cpp): wireDecode and wireEncode.
use ndn_cxx_gm.Base.{
  sym, ap, suc, ◌⊎◌, inl, inr, ℕ, ◌+◌, ◌≤◌, ◌<◌, ◌≡◌, ◌↔◌, ◌∙◌, refl, ap₂, subst, List, [], ◌++◌,
  true, false, ◌||◌, none, ◌==◌, length, ok, err, ◌>>=◌, arith, >>=-eq-ok, length-append,
  append_assoc, append-nil, ok-injective, ◌≢◌,
}
use ndn_cxx_gm.Errors.{Error, Result, front_of_empty, field_cannot_be_repeated}
use ndn_cxx_gm.Base.Bits.{u64_mod}
use ndn_cxx_gm.Block.{Block, block, wire, Blocks, nil, cons, type, elements, of_type, get_wire}
use ndn_cxx_gm.Encoder.Estimator.{tlv, length-tlv}
use ndn_cxx_gm.Block.Parsing.{IsElement, element, append, decoded, parse-encodings, tlv-longer}
use ndn_cxx_gm.Block.Elements.{parse, insert, insert_at}
use ndn_cxx_gm.Block.Encoding.{encodings}
use ndn_cxx_gm.Tlv.{write_var_number}
use ndn_cxx_gm.Block.Helpers.{make_binary_block-lem}
use ndn_cxx_gm.Lp.{
  lp_packet, fragment, ack, count, add, check_fields, decode_fields, decode_bare, wire_decode,
  unwrap, encode_packet, wire_encode, upper_bound,
}
use ndn_cxx_gm.Lp.Order.{is_allowed, may_follow, are_fields, check_fields-are_fields, Allows}
use ndn_cxx_gm.Lp.Access.{count-insert_at, insert_at-are_fields, count_once, last_fragment}

-- WireDecode of a block of TLV-TYPE LpPacket returns exactly where parse() returns on it and the
-- sub-elements found are fields: of an allowed TLV-TYPE each, in the order of their TLV-TYPEs
-- with the fragment behind, and without repetition but for Ack. The packet is the parsed block.
pub wire_decode-are_fields :
    (w p : Block)
    → type w ≡ lp_packet
    → (wire_decode w ≡ ok p) ↔ ((parse w ≡ (p, ok tt)) × (are_fields none (elements p) ≡ true))
unfolding wire_decode decode_fields Allows
wire_decode-are_fields w p t = rw t (
  λ h.
      let (done, returned, h') = >>=-eq-ok (parse w).1 _ h in
      let (u, checked, last) = >>=-eq-ok (check_fields none (elements (parse w).0)) _ h' in
      let same : (parse w).0 ≡ p = ok-injective last in
      (
        ap₂ (λ (b : Block) (r : Result (Unit {0})). (b, r)) same returned,
        subst (λ b. are_fields none (elements b) ≡ true) same
            ((check_fields-are_fields none (elements (parse w).0) tt).0 checked),
      ),
  λ (h, fields). rw (h, (check_fields-are_fields none (elements p) tt).1 fields) refl,
)

-- The packet that wireDecode returns for a block of TLV-TYPE LpPacket has each field at most
-- once, but for Ack, and has nothing behind a fragment.
pub wire_decode-count :
    (w p : Block)
    → type w ≡ lp_packet
    → wire_decode w ≡ ok p
    → ((t : ℕ) → t ≢ ack → count t (elements p) ≤ 1)
      × ((es : Blocks) (e : Block) (rest : Blocks)
          → elements p ≡ append es (cons e rest)
          → type e ≡ fragment
          → rest ≡ nil)
wire_decode-count w p t h =
    let fields = ((wire_decode-are_fields w p t).0 h).1 in
    (
      λ s ne. count_once none s (elements p) fields ne,
      λ es e rest split is.
          last_fragment none es e rest (subst (λ b. are_fields none b ≡ true) split fields) is,
    )

-- Add<FIELD>(value), for a FIELD of an allowed TLV-TYPE, of which FIELD::encode makes its
-- elements, and that is repeatable just if it is Ack, on a packet whose fields are allowed and in
-- order: where FIELD is not Ack and the packet has one, it throws; otherwise it throws what
-- FIELD::encode throws, or returns where that returns, and the packet then has one more FIELD and
-- its fields are allowed and in order.
pub add-are_fields :
    (t : ℕ) (encoded : Result Block) (m_wire : Block)
    → ((field : Block) → encoded ≡ ok field → type field ≡ t)
    → is_allowed t ≡ true
    → are_fields none (elements m_wire) ≡ true
    → let added = add (t == ack) t encoded m_wire in
      let before = count t (elements m_wire) in
      (t ≢ ack → 1 ≤ before → added ≡ err field_cannot_be_repeated)
      × ((t ≡ ack) ⊎ (before ≡ 0)
          → ((e : Error) → encoded ≡ err e → added ≡ err e)
            × ((field : Block)
                → encoded ≡ ok field
                → (p : Block) × (added ≡ ok p)
                  × (are_fields none (elements p) ≡ true)
                  × (count t (elements p) ≡ suc before)))
unfolding add insert
add-are_fields t encoded m_wire typed at fields =
    let es = elements m_wire in
    (
      λ ne there.
          let taken : ((t == ack) || (count t es == 0)) ≡ false = ground (arith, ne, there) in
          rw taken refl,
      λ free.
          let open_ : ((t == ack) || (count t es == 0)) ≡ true = elim free [
            | inl p ↦ ground (arith, p)
            | inr p ↦ ground (arith, p)
          ] in
          rw open_ (
            λ e h. rw h refl,
            λ field h.
                let same = typed field h in
                let rest =
                  subst (λ n. are_fields none (insert_at (upper_bound n es) field es) ≡ true) same
                    (insert_at-are_fields none field es (ap is_allowed same ∙ at)
                      (unfold may_follow in refl)
                      (subst (λ n. ((n == ack) || (count n es == 0)) ≡ true) (sym same) open_)
                      fields) in
                let more : count t (insert_at (upper_bound t es) field es) ≡ suc (count t es) =
                  subst (λ n. count n (insert_at (upper_bound t es) field es) ≡ suc (count n es))
                    same (count-insert_at (upper_bound t es) field es) in
                (insert m_wire (upper_bound t es) field, rw h refl, rest, more),
          ),
    )

parse-single :
    (s n : ℕ) (h : List ℕ) (t : ℕ) (v : List ℕ)
    → IsElement t v
    → parse (block s (wire h (tlv t v)) n nil)
      ≡ (block s (wire h (tlv t v)) n (cons (element t v) nil), ok tt)
parse-single s n h t v is =
    let one = cons (element t v) nil in
    let bytes : encodings one ≡ tlv t v = unfold encodings in append-nil (tlv t v) in
    subst
      (λ b.
        parse (block s (wire h b) n nil) ≡ (block s (wire h b) n (cons (element t v) nil), ok tt))
      bytes (parse-encodings s n h one (is, tt) ∙ unfold decoded in refl)

get_wire-element : (t : ℕ) (v : List ℕ) → IsElement t v → get_wire (element t v) ≡ ok (tlv t v)
get_wire-element t v is =
    let h = (write_var_number t).0 ++ (write_var_number (length v)).0 in
    let split : h ++ v ≡ tlv t v =
      append_assoc (write_var_number t).0 (write_var_number (length v)).0 v in
    let some_bytes : (length h + length v == 0) ≡ false =
      ground (arith, length-append h v, ap (length {A = ℕ}) split, tlv-longer t v) in
    rw some_bytes (ap ok split)

-- An Interest or a Data in its shortest form, whose size fits 64 bits, is decoded as a packet
-- whose encoding is that Interest or Data again.
pub wire_encode-wire_decode :
    (t : ℕ) (v : List ℕ)
    → ((t == 5) || (t == 6)) ≡ true
    → length (tlv t v) < u64_mod
    → (wire_decode (element t v) >>= wire_encode) ≡ ok (element t v)
unfolding wire_decode decode_bare add insert count upper_bound insert_at of_type wire_encode
    encode_packet unwrap
wire_encode-wire_decode t v net fits =
    let is : IsElement t v = record {
      legal = ground (arith, net);
      fits = ground (arith, net);
      sized = omega (arith, length-tlv t v, fits);
    } in
    let outer : IsElement fragment (tlv t v) = record {
      legal = omega arith;
      fits = omega arith;
      sized = fits;
    } in
    rw (net, get_wire-element t v is, make_binary_block-lem fragment (tlv t v) outer)
      (rw (parse-single fragment _ _ t v is) refl)

-- WireEncode of a packet whose only field is a fragment without bytes takes the first element of
-- an empty container.
pub wire_encode_empty :
    (m_wire : Block) (h : List ℕ) (n : ℕ)
    → elements m_wire ≡ cons (block fragment (wire h []) n nil) nil
    → wire_encode m_wire ≡ err front_of_empty
unfolding wire_encode encode_packet unwrap parse
wire_encode_empty m_wire h n p = rw p refl
