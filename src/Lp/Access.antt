-- ===== src/Lp/Access.antt =====
-- What the operations of lp/packet.hpp on fields keep: add<FIELD>, set<FIELD>, get<FIELD>, count<FIELD>.
use ndn_cxx_gm.Base.{
  err, ℕ, zero, suc, ◌≤◌, ◌≡◌, inl, inr, ◌∙◌, refl, sym, ap, subst, Bool, true, false, ◌||◌, Option,
  some, ltb, ◌==◌, ok, arith, Bool-cases, ℕ_discrete, ◌≢◌,
}
use ndn_cxx_gm.Errors.{Error, Result}
use ndn_cxx_gm.Block.{Block, Blocks, nil, cons, type, elements}
use ndn_cxx_gm.Block.Parsing.{append}
use ndn_cxx_gm.Block.Elements.{insert_at, remove_all, insert, remove}
use ndn_cxx_gm.Lp.{
  fragment, ack, count, compare_pos, upper_bound, add, clear, set_field, get_from, get_field,
}
use ndn_cxx_gm.Lp.Order.{
  is_allowed, place, may_follow, are_fields, compare_place, field_info-Describes,
}

compare_pos-place :
    (t : ℕ) (e : Block)
    → is_allowed t ≡ true
    → is_allowed (type e) ≡ true
    → compare_pos t e ≡ ltb (place t) (place (type e))
unfolding compare_pos
compare_pos-place t e at ae =
    compare_place t (type e) _ _ (field_info-Describes t) (field_info-Describes (type e)) at ae

-- Two fields at one place are of one TLV-TYPE.
same_place : (s t : ℕ) → is_allowed s ≡ true → is_allowed t ≡ true → place s ≡ place t → s ≡ t
unfolding is_allowed place
same_place s t a b h = ground arith

may_follow-place : (s t : ℕ) → ltb (place s) (place t) ≡ true → may_follow (some s) t ≡ true
unfolding may_follow
may_follow-place s t h = ground (arith, h)

may_follow_unless :
    (s t : ℕ)
    → is_allowed s ≡ true
    → is_allowed t ≡ true
    → ltb (place t) (place s) ≡ false
    → (s ≡ t → t ≡ ack)
    → may_follow (some s) t ≡ true
unfolding may_follow
may_follow_unless s t a b h once = elim (ℕ_discrete s t) [
  | yes p ↦ let q = once p in let r = p ∙ q in ground (arith, q, r)
  | no differ ↦
      let apart : place s ≢ place t = λ p. differ (same_place s t a b p) in ground (arith, h, apart)
]

once_more :
    (t : ℕ) (e : Block) (es : Blocks)
    → ((t == ack) || (count t (cons e es) == 0)) ≡ true
    → type e ≡ t
    → t ≡ ack
unfolding count
once_more t e es h p = ground (arith, h, p)

once_rest :
    (t : ℕ) (e : Block) (es : Blocks)
    → ((t == ack) || (count t (cons e es) == 0)) ≡ true
    → ((t == ack) || (count t es == 0)) ≡ true
unfolding count
once_rest t e es h = ground (arith, h)

pub insert_at-are_fields :
    (prev : Option ℕ) (f : Block) (es : Blocks)
    → is_allowed (type f) ≡ true
    → may_follow prev (type f) ≡ true
    → ((type f == ack) || (count (type f) es == 0)) ≡ true
    → are_fields prev es ≡ true
    → are_fields prev (insert_at (upper_bound (type f) es) f es) ≡ true
unfolding insert_at upper_bound are_fields
insert_at-are_fields prev f nil af mf once h = rw (af, mf)
insert_at-are_fields prev f (cons e es) af mf once h =
    let ae : is_allowed (type e) ≡ true = ground (arith, h) in
    let me : may_follow prev (type e) ≡ true = ground (arith, h) in
    let rest : are_fields (some (type e)) es ≡ true = ground (arith, h) in
    elim (Bool-cases (compare_pos (type f) e)) [
      | inl before ↦
          let less = sym (compare_pos-place (type f) e af ae) ∙ before in
          rw (before, af, mf, ae, rest, may_follow-place (type f) (type e) less) refl
      | inr after ↦
          let less = sym (compare_pos-place (type f) e af ae) ∙ after in
          let on = may_follow_unless (type e) (type f) ae af less (once_more (type f) e es once) in
          rw (after, ae, me)
            (insert_at-are_fields (some (type e)) f es af on (once_rest (type f) e es once) rest)
    ]

behind :
    (p t : ℕ) (es : Blocks)
    → are_fields (some p) es ≡ true
    → place t ≤ place p
    → t ≢ ack
    → count t es ≡ 0
unfolding are_fields count may_follow
behind p t nil h le ne = refl
behind p t (cons e es) h le ne = elim (ℕ_discrete (type e) t) [
  | yes same ↦ absurd (ground (arith, h, le, ap place same, ne, same))
  | no differ ↦
      let far : (type e == t) ≡ false = ground arith in
      let rest : are_fields (some (type e)) es ≡ true = ground (arith, h) in
      let on : place t ≤ place (type e) = ground (arith, h, le) in
      rw far (behind (type e) t es rest on ne)
]

-- In a list of fields in their order, a TLV-TYPE other than Ack's occurs once at most.
pub count_once :
    (prev : Option ℕ) (t : ℕ) (es : Blocks) → are_fields prev es ≡ true → t ≢ ack → count t es ≤ 1
unfolding are_fields count
count_once prev t nil h ne = ground arith
count_once prev t (cons e es) h ne =
    let rest : are_fields (some (type e)) es ≡ true = ground (arith, h) in
    elim (ℕ_discrete (type e) t) [
      | yes same ↦
          let none_on = behind (type e) t es rest (ground (arith, ap place same)) ne in
          ground (arith, none_on)
      | no differ ↦ ground (arith, count_once (some (type e)) t es rest ne)
    ]

fragment_ends : (es : Blocks) → are_fields (some fragment) es ≡ true → es ≡ nil
unfolding are_fields may_follow place is_allowed
fragment_ends nil h = refl
fragment_ends (cons e es) h = absurd (ground (arith, h))

-- and nothing is behind a fragment.
pub last_fragment :
    (prev : Option ℕ) (es : Blocks) (e : Block) (rest : Blocks)
    → are_fields prev (append es (cons e rest)) ≡ true
    → type e ≡ fragment
    → rest ≡ nil
unfolding are_fields append
last_fragment prev nil e rest h p =
    fragment_ends rest (subst (λ t. are_fields (some t) rest ≡ true) p (ground (arith, h)))
last_fragment prev (cons b es) e rest h p =
    last_fragment (some (type b)) es e rest (ground (arith, h)) p

count-remove_all : (t : ℕ) (es : Blocks) → count t (remove_all t es) ≡ 0
unfolding count remove_all
count-remove_all t nil = refl
count-remove_all t (cons e es) = ground (arith, count-remove_all t es)

get_from-remove_all :
    (t s index : ℕ) (es : Blocks) → s ≢ t → get_from s index (remove_all t es) ≡ get_from s index es
unfolding get_from remove_all
get_from-remove_all t s index nil ne = refl
get_from-remove_all t s zero (cons e es) ne = ground (arith, get_from-remove_all t s zero es ne, ne)
get_from-remove_all t s (suc index) (cons e es) ne =
    ground
      (arith, get_from-remove_all t s (suc index) es ne, get_from-remove_all t s index es ne, ne)

get_from-insert_at :
    (s index pos : ℕ) (f : Block) (es : Blocks)
    → s ≢ type f
    → get_from s index (insert_at pos f es) ≡ get_from s index es
unfolding get_from insert_at
get_from-insert_at s index pos f es ne =
    let skip : (type f == s) ≡ false = ground arith in go index pos es skip
  where
    skipped :
        (i : ℕ) (es : Blocks) → (type f == s) ≡ false → get_from s i (cons f es) ≡ get_from s i es
    skipped zero es skip = rw skip refl
    skipped (suc i) es skip = rw skip refl

    go :
        (i pos : ℕ) (es : Blocks)
        → (type f == s) ≡ false
        → get_from s i (insert_at pos f es) ≡ get_from s i es
    go i zero es skip = skipped i es skip
    go i (suc pos) nil skip = skipped i nil skip
    go zero (suc pos) (cons e es) skip = rw (go zero pos es skip) refl
    go (suc i) (suc pos) (cons e es) skip = rw (go i pos es skip, go (suc i) pos es skip) refl

get_from-new :
    (pos : ℕ) (f : Block) (es : Blocks)
    → count (type f) es ≡ 0
    → get_from (type f) 0 (insert_at pos f es) ≡ ok f
unfolding get_from insert_at count
get_from-new zero f es h = let same : (type f == type f) ≡ true = ground arith in rw same refl
get_from-new (suc pos) f nil h = let same : (type f == type f) ≡ true = ground arith in rw same refl
get_from-new (suc pos) f (cons e es) h =
    let differ : (type e == type f) ≡ false = ground (arith, h) in
    rw differ (get_from-new pos f es (ground (arith, h)))

pub count-insert_at :
    (pos : ℕ) (f : Block) (es : Blocks)
    → count (type f) (insert_at pos f es) ≡ suc (count (type f) es)
unfolding insert_at count
count-insert_at zero f es = let same : (type f == type f) ≡ true = ground arith in rw same refl
count-insert_at (suc pos) f nil =
    let same : (type f == type f) ≡ true = ground arith in rw same refl
count-insert_at (suc pos) f (cons e es) = elim (Bool-cases (type e == type f)) [
  | inl p ↦ rw (p, count-insert_at pos f es) refl
  | inr p ↦ rw (p, count-insert_at pos f es) refl
]

-- set<FIELD>(value), for a FIELD of whose TLV-TYPE FIELD::encode makes its elements, whether
-- FIELD is repeatable or not: where FIELD::encode returns, it returns, and the new field is the
-- only one of its TLV-TYPE and what get<FIELD>(0) finds; where FIELD::encode throws, it throws
-- that exception and leaves no field of that TLV-TYPE; get finds the fields of every other
-- TLV-TYPE at the same indexes as before in both cases.
pub get_field-set_field :
    (is_repeatable : Bool) (t : ℕ) (encoded : Result Block) (m_wire : Block)
    → ((field : Block) → encoded ≡ ok field → type field ≡ t)
    → let r = set_field is_repeatable t encoded m_wire in
      ((field : Block)
        → encoded ≡ ok field
        → (r.1 ≡ ok tt) × (get_field t 0 r.0 ≡ ok field) × (count t (elements r.0) ≡ 1))
      × ((e : Error) → encoded ≡ err e → (r.1 ≡ err e) × (count t (elements r.0) ≡ 0))
      × ((s index : ℕ) → s ≢ t → get_field s index r.0 ≡ get_field s index m_wire)
unfolding set_field clear add insert remove
get_field-set_field is_repeatable t (err e) m_wire typed =
    let left = remove_all t (elements m_wire) in
    let cleared : count t left ≡ 0 = count-remove_all t (elements m_wire) in
    let free : (is_repeatable || (count t left == 0)) ≡ true = ground (arith, cleared) in
    rw free (
      λ field h. absurd (cc h),
      λ e' h. (ap (λ x. err x) (cc h), cleared),
      λ s index ne. get_from-remove_all t s index (elements m_wire) ne,
    )
get_field-set_field is_repeatable t (ok field) m_wire typed =
    let left = remove_all t (elements m_wire) in
    let cleared : count t left ≡ 0 = count-remove_all t (elements m_wire) in
    let free : (is_repeatable || (count t left == 0)) ≡ true = ground (arith, cleared) in
    let pos = upper_bound t left in
    let same : type field ≡ t = typed field refl in
    let none_left : count (type field) left ≡ 0 = ap (λ n. count n left) same ∙ cleared in
    let new : get_from t 0 (insert_at pos field left) ≡ ok field =
      ap (λ n. get_from n 0 (insert_at pos field left)) (sym same)
      ∙ get_from-new pos field left none_left in
    let one : count t (insert_at pos field left) ≡ 1 =
      ap (λ n. count n (insert_at pos field left)) (sym same)
      ∙ count-insert_at pos field left
      ∙ ap suc none_left in
    rw free (
      λ field' h. (refl, new ∙ h, one),
      λ e h. absurd (cc h),
      λ s index ne.
          get_from-insert_at s index pos field left (λ q. ne (q ∙ same))
          ∙ get_from-remove_all t s index (elements m_wire) ne,
    )
