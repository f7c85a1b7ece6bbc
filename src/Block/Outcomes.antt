-- ===== src/Block/Outcomes.antt =====
-- How decoding ends: never by running out of the model's fuel, in the same way for the throwing and
-- the noexcept constructors, and what a parse() that throws leaves behind.
use ndn_cxx_gm.Base.{
  ℕ, zero, suc, ◌+◌, ◌≡◌, ◌≢◌, ◌↔◌, ◌≤◌, refl, sym, ap, ◌∙◌, subst, List, [], ◌∷◌, ◌++◌, true,
  false, if◌then◌else◌, length, length-append, drop, append_assoc, arith, All, ok, err, guard,
  ◌>>=◌, ◌>>◌, leb, some, none, inl, inr, Bool-cases, Result-cases, not, ◌||◌, ◌==◌, >>=-ne-err,
  guard-ne-err, Option, ltb, >>=-eq-ok, append-nil, leb→le, guard-eq-ok, ok-injective,
}
use ndn_cxx_gm.Base.Bits.{IsByte}
use ndn_cxx_gm.Errors.{Error, Result, stuck, sub_element_exceeds}
use ndn_cxx_gm.Tlv.{contiguous, read_type, read_var_number, read_type?, read_var_number?}
use ndn_cxx_gm.Tlv.Reading.{read_var_number-agrees, read_type-agrees}
use ndn_cxx_gm.Block.{
  Block, block, Blocks, nil, cons, wire, type, value, value_size, elements, of_span, from_span,
  not_enough_bytes, wire_bytes,
}
use ndn_cxx_gm.Block.Elements.{next_element, parse_loop, parse, snoc, after_error, is_nil}
use ndn_cxx_gm.Block.Encoding.{encoding, encodings, body, encoding-body}
use ndn_cxx_gm.Block.Parsing.{
  AreElements, decoded, append, append-snoc, element, next_element-tlv, parse-loop, append_nil,
  nil-append, encoding-longer, parse_loop_step,
}
use ndn_cxx_gm.Block.Tiling.{
  wires, AreDecoded, parse_loop-tiles, next_element-Decodes, Decodes, Decodes-wire, read-Decodes,
  All-back,
}

read_var_number-ne-stuck : (bytes : List ℕ) → read_var_number contiguous bytes ≢ err stuck
unfolding read_var_number
read_var_number-ne-stuck [] h = cc
read_var_number-ne-stuck (b ∷ bytes) h = ground arith

read_type-ne-stuck : (bytes : List ℕ) → read_type contiguous bytes ≢ err stuck
unfolding read_type
read_type-ne-stuck bytes h = ground (arith, read_var_number-ne-stuck bytes)

next_element-ne-stuck : (bytes : List ℕ) → next_element bytes ≢ err stuck
unfolding next_element
next_element-ne-stuck bytes =
    >>=-ne-err (read_type contiguous bytes) _ stuck (read_type-ne-stuck bytes) λ p.
      >>=-ne-err (read_var_number contiguous p.1) _ stuck (read_var_number-ne-stuck p.1) λ q.
        >>=-ne-err (guard (leb q.0 (length q.1)) (sub_element_exceeds p.0)) _ stuck
          (guard-ne-err (leb q.0 (length q.1)) (sub_element_exceeds p.0) stuck (λ e. cc))
          (λ u h. cc)

err-transfer {ℓ κ} :
    {A : Type ℓ} {B : Type κ} (x : Error)
    → ◌≡◌ {A = Result A} (err x) (err stuck)
    → ◌≡◌ {A = Result B} (err x) (err stuck)
err-transfer x h = ap err (cc h)

parse_loop_nil : (fuel : ℕ) (es : Blocks) → parse_loop fuel [] es ≡ (es, ok tt)
unfolding parse_loop
parse_loop_nil zero es = refl
parse_loop_nil (suc fuel) es = refl

parse_loop_fails :
    (fuel : ℕ) (bytes : List ℕ) (es : Blocks) (x : Error)
    → 1 ≤ length bytes
    → next_element bytes ≡ err x
    → parse_loop (suc fuel) bytes es ≡ (after_error x es, err x)
unfolding parse_loop
parse_loop_fails fuel [] es x pos h = absurd (omega arith)
parse_loop_fails fuel (b ∷ bytes) es x pos h = rw (h, parse_loop)

parse_loop-ends :
    (fuel : ℕ) (bytes : List ℕ) (es : Blocks)
    → All IsByte bytes
    → length bytes ≤ fuel
    → (parse_loop fuel bytes es).1 ≢ err stuck
parse_loop-ends fuel [] es all le = rw parse_loop_nil (λ h. cc)
parse_loop-ends zero (b ∷ bytes) es all le = absurd (omega arith)
parse_loop-ends (suc fuel) (b ∷ bytes) es all le = elim (Result-cases (next_element (b ∷ bytes))) [
  | inr (x, e) ↦
      rw (parse_loop_fails fuel (b ∷ bytes) es x (omega arith) e)
        (λ h. next_element-ne-stuck (b ∷ bytes) (e ∙ err-transfer x h))
  | inl ((e, rest), ne) ↦
      let dec = next_element-Decodes (b ∷ bytes) e rest all ne in
      let (tile, own, long) = Decodes-wire (b ∷ bytes) e rest dec in
      let len : length (wire_bytes e) + length rest ≡ suc (length bytes) =
        sym (length-append (wire_bytes e) rest) ∙ ap (length {A = ℕ}) tile in
      rw (parse_loop_step fuel (b ∷ bytes) es e rest (omega arith) ne) (
        parse_loop-ends fuel rest (snoc es e) (All-back (wire_bytes e) rest (rw tile all))
          (omega arith))
]

-- The loop of parse() ends on every value made of bytes: each round takes some of them, so the
-- model's fuel is enough.
pub parse-ends : (b : Block) → All IsByte (value b) → (parse b).1 ≢ err stuck
unfolding parse
parse-ends b all = elim (Bool-cases (not (is_nil (elements b)) || (value_size b == 0))) [
  | inl skip ↦ rw skip (λ h. cc)
  | inr run ↦ rw run (parse_loop-ends (length (value b)) (value b) nil all (omega arith))
]

nil-wires : (bytes : List ℕ) → wires nil ++ bytes ≡ bytes
unfolding wires
nil-wires bytes = refl

parse_empty :
    (t n : ℕ) (h : List ℕ) → parse (block t (wire h []) n nil) ≡ (block t (wire h []) n nil, ok tt)
unfolding parse
parse_empty t n h = refl

-- When parse() returns on a block that has a wire, bytes for a value and no sub-elements yet, the
-- wire encodings of the sub-elements that it found, one after the other, are the value, and each
-- sub-element has a legal TLV-TYPE and its own header and payload.
pub parse-tiles :
    (t n : ℕ) (h v : List ℕ) (b' : Block)
    → All IsByte v
    → parse (block t (wire h v) n nil) ≡ (b', ok tt)
    → (wires (elements b') ≡ v) × AreDecoded (elements b') × (type b' ≡ t)
parse-tiles t n h [] b' all e =
    let same : block t (wire h []) n nil ≡ b' =
      ap (λ (p : Block × Result (Unit {0})). p.0) (sym (parse_empty t n h) ∙ e) in
    subst (λ b. (wires (elements b) ≡ []) × AreDecoded (elements b) × (type b ≡ t)) same
      (sym (append-nil (wires nil)) ∙ nil-wires [], tt, refl)
parse-tiles t n h (x ∷ v) b' all e =
    let loop = sym (parse-loop t n h (x ∷ v) (omega arith)) ∙ e in
    let es = (parse_loop (length (x ∷ v)) (x ∷ v) nil).0 in
    let e' : block t (wire h (x ∷ v)) n es ≡ b' =
      ap (λ (p : Block × Result (Unit {0})). p.0) loop in
    let ran : parse_loop (length (x ∷ v)) (x ∷ v) nil ≡ (es, ok tt) =
      ap (λ r. (es, r)) (ap (λ (p : Block × Result (Unit {0})). p.1) loop) in
    let (tile, dec) = parse_loop-tiles (length (x ∷ v)) (x ∷ v) nil es all tt ran in
    subst (λ b. (wires (elements b) ≡ x ∷ v) × AreDecoded (elements b) × (type b ≡ t)) e'
      (tile ∙ nil-wires (x ∷ v), dec, refl)

-- A call that throws and a call that answers none, on the same grounds.
abbrev Agrees {ℓ} : {A : Type ℓ} → Result A → Option A → Type ℓ
Agrees {A = A} r o = (a : A) → (r ≡ ok a) ↔ (o ≡ some a)

Agrees-bind {ℓ κ} :
    {A : Type ℓ} {B : Type κ} (r : Result A) (o : Option A) (f : A → Result B) (g : A → Option B)
    → Agrees r o
    → ((a : A) → Agrees (f a) (g a))
    → Agrees (r >>= f) (elim o [ none ↦ none | some a ↦ g a ])
Agrees-bind (ok a) (some b) f g h k c = let e : a ≡ b = cc ((h a).0 refl) in rw e (k b c)
Agrees-bind (ok a) none f g h k c = cc ((h a).0 refl)
Agrees-bind (err e) (some b) f g h k c = cc ((h b).1 refl)
Agrees-bind (err e) none f g h k c = (λ p. cc, λ p. cc)

Agrees-check {ℓ} :
    {A : Type ℓ} (m n : ℕ) (e : Error) (a : A)
    → Agrees (guard (leb n m) e >> ok a) (if ltb m n then none else some a)
Agrees-check m n e a b = elim (Bool-cases (ltb m n)) [
  | inl short ↦ let no' : leb n m ≡ false = ground arith in rw (short, no') (λ p. cc, λ p. cc)
  | inr enough ↦ let ok' : leb n m ≡ true = ground arith in rw (enough, ok') (λ p. cc, λ p. cc)
]

-- Block(span) returns a block exactly when fromBuffer(span) answers true, and the same block.
pub of_span-agrees :
    (buffer : List ℕ) (b : Block) → (of_span buffer ≡ ok b) ↔ (from_span buffer ≡ some b)
unfolding of_span from_span
of_span-agrees buffer =
    Agrees-bind (read_type contiguous buffer) (read_type? contiguous buffer) _ _
      (read_type-agrees contiguous buffer)
      λ p.
        Agrees-bind (read_var_number contiguous p.1) (read_var_number? contiguous p.1) _ _
          (read_var_number-agrees contiguous p.1)
          λ q. Agrees-check (length q.1) q.0 not_enough_bytes _

-- What fromBuffer accepts stands at the offset: header and value, with a legal TLV-TYPE.
pub from_span-Decodes :
    (buffer : List ℕ) (b : Block)
    → All IsByte buffer
    → from_span buffer ≡ some b
    → (rest : List ℕ) × Decodes buffer b rest
unfolding of_span
from_span-Decodes buffer b all h =
    let ((t, pos), h₁, k₁) =
      >>=-eq-ok (read_type contiguous buffer) _ ((of_span-agrees buffer b).1 h) in
    let ((n, pos'), h₂, k₂) = >>=-eq-ok (read_var_number contiguous pos) _ k₁ in
    let (u, h₃, k₃) = >>=-eq-ok (guard (leb n (length pos')) not_enough_bytes) _ k₂ in
    let d =
      read-Decodes buffer pos pos' t n all ((read_type-agrees contiguous buffer (t, pos)).0 h₁)
        ((read_var_number-agrees contiguous pos (n, pos')).0 h₂)
        (leb→le n (length pos') (guard-eq-ok _ _ h₃)) in
    (drop n pos', subst (λ x. Decodes buffer x (drop n pos')) (ok-injective k₃) d)

-- parse() finds the elements in front of the junk before it meets the junk.
parse_loop-front :
    (bs : Blocks) (fuel : ℕ) (es : Blocks) (junk : List ℕ)
    → AreElements bs
    → length (encodings bs ++ junk) ≤ fuel
    → (left : ℕ) × (length junk ≤ left)
      × (parse_loop fuel (encodings bs ++ junk) es ≡ parse_loop left junk (append es (decoded bs)))
unfolding encodings decoded
parse_loop-front nil fuel es junk h le = (fuel, le, ap (parse_loop fuel junk) (sym (append_nil es)))
parse_loop-front (cons b bs) zero es junk h le = absurd (
    omega (
      arith,
      length-append (encoding b ++ encodings bs) junk,
      length-append (encoding b) (encodings bs),
      encoding-longer b,
    ))
parse_loop-front (cons b bs) (suc fuel) es junk h le =
    let e = element (type b) (body b) in
    let assoc = append_assoc (encoding b) (encodings bs) junk in
    let len = length-append (encoding b) (encodings bs ++ junk) in
    let len' = ap (length {A = ℕ}) assoc in
    let long = encoding-longer b in
    let read =
      parse_loop_step fuel (encoding b ++ (encodings bs ++ junk)) es e (encodings bs ++ junk)
        (omega arith)
        (rw (encoding-body b) (next_element-tlv (type b) (body b) (encodings bs ++ junk) h.0)) in
    let (left, enough, rest) = parse_loop-front bs fuel (snoc es e) junk h.1 (omega arith) in
    (
      left,
      enough,
      ap (λ x. parse_loop (suc fuel) x es) assoc
          ∙ read
          ∙ rest
          ∙ ap (parse_loop left junk) (append-snoc es e (decoded bs)),
    )

-- A failure that leaves m_elements as it is: all but the TLV-LENGTH check.
abbrev pub Keeps : Error → Type 0
Keeps x = (es : Blocks) → after_error x es ≡ es

parse_loop_stops :
    (fuel : ℕ) (junk : List ℕ) (es : Blocks) (x : Error)
    → length junk ≤ fuel
    → 1 ≤ length junk
    → Keeps x
    → next_element junk ≡ err x
    → parse_loop fuel junk es ≡ (es, err x)
unfolding parse_loop
parse_loop_stops fuel [] es x le pos k h = absurd (omega arith)
parse_loop_stops zero (b ∷ junk) es x le pos k h = absurd (omega arith)
parse_loop_stops (suc fuel) (b ∷ junk) es x le pos k h =
    rw (h, parse_loop) (ap (λ y. (y, err x)) (k es))

-- After a parse() that threw an error other than a sub-element that exceeds its parent, at junk
-- behind one or more complete sub-elements, a second parse() returns without an error and shows
-- the sub-elements in front of the junk.
pub parse_twice :
    (t n : ℕ) (h : List ℕ) (e : Block) (es : Blocks) (junk : List ℕ) (x : Error)
    → AreElements (cons e es)
    → 1 ≤ length junk
    → Keeps x
    → next_element junk ≡ err x
    → let v = encodings (cons e es) ++ junk in
      let b' = block t (wire h v) n (decoded (cons e es)) in
      (parse (block t (wire h v) n nil) ≡ (b', err x)) × (parse b' ≡ (b', ok tt))
parse_twice t n h e es junk x are pos k fails =
    let v = encodings (cons e es) ++ junk in
    let (left, enough, front) =
      parse_loop-front (cons e es) (length v) nil junk are (omega arith) in
    let stop = parse_loop_stops left junk (append nil (decoded (cons e es))) x enough pos k fails in
    let len : 1 ≤ length v = omega (arith, length-append (encodings (cons e es)) junk) in
    (
      parse-loop t n h v len
          ∙ ap (λ (r : Blocks × Result (Unit {0})). (block t (wire h v) n r.0, r.1))
              (front ∙ stop ∙ ap (λ y. (y, err x)) (nil-append (decoded (cons e es)))),
      unfold parse decoded in refl,
    )
