-- ===== src/Lp/Order.antt =====
-- Which fields a packet may have and in which order (lp/packet.cpp), without the table of fields.
use ndn_cxx_gm.Base.{
  ℕ, ◌≡◌, ◌↔◌, inl, inr, refl, ap, subst, List, [], ◌∷◌, Bool, true, false, ◌&&◌, ◌||◌, Option,
  none, some, ltb, leb, ◌==◌, if◌then◌else◌, All, ok, err, ◌>>◌, arith, Bool-cases, ℕ_discrete,
  bit_and,
}
use ndn_cxx_gm.Errors.{Result}
use ndn_cxx_gm.Block.{Blocks, nil, cons, type}
use ndn_cxx_gm.Lp.{
  fragment, ack, Declared, field_set, FieldInfo, blank_info, extract_field_info, extract_all,
  set_can_ignore, field_info, compare_field_sort_order, check_order, check_fields,
}

-- 80 to 83, 98, and the multiples of 4 from 800 to 959.
unfoldable pub is_allowed : ℕ → Bool
is_allowed t = (leb 80 t && leb t 83) || (t == 98) || (leb 800 t && leb t 959 && (bit_and t 3 == 0))

-- The fragment goes behind all other fields, which are sorted by their TLV-TYPE.
unfoldable pub place : ℕ → ℕ
place t = if t == fragment then 960 else t

-- Fields do not repeat, but for Ack.
unfoldable pub may_follow : Option ℕ → ℕ → Bool
may_follow none t = true
may_follow (some prev) t = ltb (place prev) (place t) || ((prev == ack) && (t == ack))

unfoldable pub are_fields : Option ℕ → Blocks → Bool
are_fields prev nil = true
are_fields prev (cons e es) =
    is_allowed (type e) && (may_follow prev (type e) && are_fields (some (type e)) es)

-- What the table says of a TLV-TYPE.
pub record Describes (t : ℕ) (info : FieldInfo) : Type 0 where
  pub same_type : info.tlv_type ≡ t
  pub place_of : info.location_sort_order ≡ (if t == fragment then 2 else 1)
  pub repeats : info.is_repeatable ≡ (t == ack)
  pub allowed : (info.is_recognized || info.can_ignore) ≡ is_allowed t

by_table :
    (P : ℕ → Type 0) (ds : List Declared) (t : ℕ)
    → All (λ (d : Declared). P d.tlv_type) ds
    → (All (λ (d : Declared). (d.tlv_type == t) ≡ false) ds → P t)
    → P t
by_table P [] t each other = other tt
by_table P (d ∷ ds) t each other = elim (ℕ_discrete d.tlv_type t) [
  | yes p ↦ subst P p each.0
  | no p ↦
      let differs : (d.tlv_type == t) ≡ false = ground arith in
      by_table P ds t each.1 (λ rest. other (differs, rest))
]

extract_all_misses :
    (ds : List Declared) (info : FieldInfo)
    → All (λ (d : Declared). (d.tlv_type == info.tlv_type) ≡ false) ds
    → extract_all ds info ≡ info
unfolding extract_all extract_field_info
extract_all_misses [] info all = refl
extract_all_misses (d ∷ ds) info all = rw all.0 (extract_all_misses ds info all.1)

computed :
    (t : ℕ) (info : FieldInfo)
    → info.tlv_type ≡ t
    → info.location_sort_order ≡ (if t == fragment then 2 else 1)
    → info.is_repeatable ≡ (t == ack)
    → (info.is_recognized || info.can_ignore) ≡ is_allowed t
    → Describes t info
computed t info p q r s = record { same_type = p; place_of = q; repeats = r; allowed = s }

unlisted-Describes :
    (t : ℕ)
    → All (λ (d : Declared). (d.tlv_type == t) ≡ false) field_set
    → Describes t (field_info t)
unfolding field_info is_allowed set_can_ignore
unlisted-Describes t all =
    let (a, (b, (c, (d, (e, rest))))) = all in
    let blank = extract_all_misses field_set (blank_info t) all in
    rw blank (computed t _ refl (ground arith) (ground arith) (ground arith))

pub field_info-Describes : (t : ℕ) → Describes t (field_info t)
unfolding field_info is_allowed set_can_ignore extract_all extract_field_info
field_info-Describes t =
    by_table (λ n. Describes n (field_info n)) field_set t
      (
        computed 80 _ refl refl refl refl,
        (
          computed 81 _ refl refl refl refl,
          (
            computed 82 _ refl refl refl refl,
            (
              computed 83 _ refl refl refl refl,
              (
                computed 98 _ refl refl refl refl,
                (
                  computed 800 _ refl refl refl refl,
                  (
                    computed 816 _ refl refl refl refl,
                    (
                      computed 812 _ refl refl refl refl,
                      (
                        computed 820 _ refl refl refl refl,
                        (
                          computed 832 _ refl refl refl refl,
                          (
                            computed 836 _ refl refl refl refl,
                            (
                              computed 840 _ refl refl refl refl,
                              (
                                computed 844 _ refl refl refl refl,
                                (computed 848 _ refl refl refl refl, (tt)),
                              ),
                            ),
                          ),
                        ),
                      ),
                    ),
                  ),
                ),
              ),
            ),
          ),
        ),
      )
      (unlisted-Describes t)

-- A test that the order of fields passes.
pub compare_place :
    (p t : ℕ) (i j : FieldInfo)
    → Describes p i
    → Describes t j
    → is_allowed p ≡ true
    → is_allowed t ≡ true
    → compare_field_sort_order i j ≡ ltb (place p) (place t)
unfolding compare_field_sort_order place is_allowed
compare_place p t i j a b ap at = ground (arith, a.same_type, a.place_of, b.same_type, b.place_of)

check_order-may_follow :
    (p t : ℕ) (i j : FieldInfo)
    → Describes p i
    → Describes t j
    → is_allowed p ≡ true
    → is_allowed t ≡ true
    → (check_order (some i) j ≡ ok tt) ↔ (may_follow (some p) t ≡ true)
unfolding check_order may_follow
check_order-may_follow p t i j a b ap at =
    let less = compare_place p t i j a b ap at in
    let ends : (t ≡ p → ltb (place p) (place t) ≡ false) = λ e. rw e (ground arith) in
    (
      λ h. ground (arith, less, h, a.same_type, b.same_type, b.repeats),
      λ h. ground (arith, less, h, ends, a.same_type, b.same_type, b.repeats),
    )

abbrev pub info_of : Option ℕ → Option FieldInfo
info_of none = none
info_of (some p) = some (field_info p)

unfoldable pub Allows : Option ℕ → Type 0
Allows none = Unit
Allows (some p) = is_allowed p ≡ true

follows :
    (prev : Option ℕ) (t : ℕ)
    → Allows prev
    → is_allowed t ≡ true
    → (check_order (info_of prev) (field_info t) ≡ ok tt) ↔ (may_follow prev t ≡ true)
unfolding Allows check_order may_follow
follows none t allows at = (λ h. refl, λ h. refl)
follows (some p) t allows at =
    check_order-may_follow p t _ _ (field_info-Describes p) (field_info-Describes t) allows at

both_hold :
    (m f : Result (Unit {0})) (b c : Bool)
    → (m ≡ ok tt) ↔ (b ≡ true)
    → (f ≡ ok tt) ↔ (c ≡ true)
    → ((m >> f) ≡ ok tt) ↔ ((b && c) ≡ true)
both_hold (ok u) f true c h k = k
both_hold (ok u) f false c h k = cc (h.0 refl)
both_hold (err e) f true c h k = cc (h.1 refl)
both_hold (err e) f false c h k = (λ p. cc, λ p. cc)

pub check_fields-are_fields :
    (prev : Option ℕ) (es : Blocks)
    → Allows prev
    → (check_fields (info_of prev) es ≡ ok tt) ↔ (are_fields prev es ≡ true)
unfolding check_fields are_fields Allows
check_fields-are_fields prev nil allows = (λ h. refl, λ h. refl)
check_fields-are_fields prev (cons e es) allows = elim (Bool-cases (is_allowed (type e))) [
  | inr no' ↦ rw ((field_info-Describes (type e)).allowed, no') (λ h. cc, λ h. cc)
  | inl at ↦
      rw ((field_info-Describes (type e)).allowed, at)
        (both_hold (check_order (info_of prev) (field_info (type e)))
          (check_fields (some (field_info (type e))) es) (may_follow prev (type e))
          (are_fields (some (type e)) es) (follows prev (type e) allows at)
          (check_fields-are_fields (some (type e)) es at))
]
