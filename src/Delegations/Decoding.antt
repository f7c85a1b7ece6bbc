-- ===== src/Delegations/Decoding.antt =====
-- What wireDecode of delegation-list.cpp returns.
use ndn_cxx_gm.Base.{
  ℕ, suc, ◌+◌, ◌≤◌, ◌≡◌, inl, inr, ◌∙◌, refl, ap, subst, Bool, true, not, ◌==◌, if◌then◌else◌,
  length, ok, err, guard, arith, Bool-cases, Result-cases,
}
use ndn_cxx_gm.Errors.{Result, empty_delegation_list}
use ndn_cxx_gm.Block.{Block, Blocks, nil, cons, elements, type}
use ndn_cxx_gm.Block.Elements
use ndn_cxx_gm.Delegations.{
  Delegation, DelegationList, insert_impl, decode_delegation, decode_loop, check_empty, wire_decode,
  empty_list, is_valid_tlv_type,
}
use ndn_cxx_gm.Delegations.Sorting.{in_order, IsOrdered, insert_impl-IsOrdered}
use ndn_cxx_gm.Delegations.Changing.{count_if, count_if-insert_impl, insert_impl-is_sorted}

-- How many of the delegations that the elements stand for pass a test.
unfoldable pub count_decoded : (Delegation → Bool) → Blocks → ℕ
count_decoded P nil = 0
count_decoded P (cons b bs) =
    let rest = count_decoded P bs in
    elim (decode_delegation b) [ err e ↦ rest | ok del ↦ if P del then suc rest else rest ]

decode_loop-lem :
    (P : Delegation → Bool) (bs : Blocks) (l l' : DelegationList)
    → IsOrdered l
    → decode_loop bs l ≡ (l', ok tt)
    → IsOrdered l'
      × (l'.is_sorted ≡ l.is_sorted)
      × (count_if P l'.dels ≡ count_decoded P bs + count_if P l.dels)
unfolding decode_loop count_decoded count_if
decode_loop-lem P nil l l' is h =
    let same : l ≡ l' = ap (λ (p : DelegationList × Result (Unit {0})). p.0) h in
    subst
      (λ x. IsOrdered x × (x.is_sorted ≡ l.is_sorted) × (count_if P x.dels ≡ 0 + count_if P l.dels))
      same (is, refl, omega arith)
decode_loop-lem P (cons b bs) l l' is h = elim (Result-cases (decode_delegation b)) [
  | inr (e, p) ↦
      cc (ap (λ (q : DelegationList × Result (Unit {0})). q.1) (rw (p, decode_loop) at h))
  | inl (del, p) ↦
      let (is', s, n) =
        decode_loop-lem P bs (insert_impl del l) l' (insert_impl-IsOrdered del l is)
          (rw (p, decode_loop) at h) in
      let one = count_if-insert_impl P del l in
      (
        is',
        s ∙ insert_impl-is_sorted l.is_sorted l.dels del,
        rw (p, count_decoded) (ground (arith, n, one)),
      )
]

returned :
    (r : DelegationList × Result (Unit {0})) (l' : DelegationList)
    → check_empty r ≡ (l', ok tt)
    → (r ≡ (l', ok tt)) × (1 ≤ length l'.dels)
unfolding check_empty
returned (l, err e) l' h = cc (ap (λ (q : DelegationList × Result (Unit {0})). q.1) h)
returned (l, ok done) l' h =
    let same : l ≡ l' = ap (λ (p : DelegationList × Result (Unit {0})). p.0) h in
    let passed : guard (not (length l.dels == 0)) empty_delegation_list ≡ ok tt =
      ap (λ (q : DelegationList × Result (Unit {0})). q.1) h in
    let some_left : 1 ≤ length l.dels = ground (arith, passed) in
    (ap (λ x. (x, ok tt)) same, subst (λ x. 1 ≤ length x.dels) same some_left)

-- Where wireDecode returns, the TLV-TYPE is Content or ForwardingHint and parse() returned; the
-- list says that it is sorted just if that was wanted, and then has its preferences in order; it
-- is not empty, and has, for any test, as many delegations that pass it as the elements stand
-- for.
pub wire_decode-count_if :
    (P : Delegation → Bool) (l l' : DelegationList) (b : Block) (want_sort : Bool)
    → wire_decode l b want_sort ≡ (l', ok tt)
    → (is_valid_tlv_type (type b) ≡ true)
      × ((Elements.parse b).1 ≡ ok tt)
      × (l'.is_sorted ≡ want_sort)
      × (want_sort ≡ true → in_order 0 l'.dels ≡ true)
      × (1 ≤ length l'.dels)
      × (count_if P l'.dels ≡ count_decoded P (elements (Elements.parse b).0))
unfolding wire_decode
wire_decode-count_if P l l' b want_sort h = elim (Bool-cases (is_valid_tlv_type (type b))) [
  | inr bad ↦ cc (ap (λ (q : DelegationList × Result (Unit {0})). q.1) (rw (bad, wire_decode) at h))
  | inl valid ↦ elim (Result-cases (Elements.parse b).1) [
    | inr (e, p) ↦
        cc (ap (λ (q : DelegationList × Result (Unit {0})). q.1) (rw (valid, p, wire_decode) at h))
    | inl (done, p) ↦
        let run = rw (valid, p, wire_decode) at h in
        let (looped, some_left) = returned _ l' run in
        let (is, s, n) =
          decode_loop-lem P (elements (Elements.parse b).0) (empty_list want_sort) l'
            (unfold IsOrdered in_order in λ t. refl) looped in
        let n' : count_if P l'.dels ≡ count_decoded P (elements (Elements.parse b).0) =
          unfold count_if in ground (arith, n) in
        let sorted : want_sort ≡ true → in_order 0 l'.dels ≡ true =
          unfold IsOrdered in λ w. is (s ∙ w) in
        (valid, p, s, sorted, some_left, n')
  ]
]
