-- ===== src/Block/Tiling.antt =====
-- Decoding arbitrary bytes: elements tile the input, the loop of parse() ends, the throwing and the
-- noexcept constructors agree, and what a failed parse() leaves behind.
use ndn_cxx_gm.Base.{
  ℕ, zero, suc, ◌+◌, ◌≡◌, ◌≤◌, ◌<◌, refl, sym, ap, ◌∙◌, subst, List, [], ◌∷◌, ◌++◌, length,
  length-append, take, drop, append_assoc, arith, All, ok, guard, >>=-eq-ok, guard-eq-ok, leb,
  leb→le, length-take, take-append-drop, some, inl, inr, ok-injective, append-nil, Result-cases,
  ap₂,
}
use ndn_cxx_gm.Base.Bits.{IsByte, u32_mod}
use ndn_cxx_gm.Errors.{Result, sub_element_exceeds}
use ndn_cxx_gm.Tlv.{
  contiguous, read_type, read_var_number, read_type?, read_var_number?, size_of_var_number,
}
use ndn_cxx_gm.Tlv.Reading.{
  Splits, read_var_number?-Splits, read_var_number-agrees, read_type-agrees, read_type?-legal,
}
use ndn_cxx_gm.Block.{Block, block, Blocks, nil, cons, wire, type, wire_bytes, passed}
use ndn_cxx_gm.Block.Elements.{next_element, parse_loop, snoc}
use ndn_cxx_gm.Block.Parsing.{passed-append, size_of_var_number-pos}

-- A decoded element: a legal TLV-TYPE, the element's own bytes in front of `rest`, and their number.
pub record Decodes (bytes : List ℕ) (e : Block) (rest : List ℕ) : Type 0 where
  pub header : List ℕ
  pub payload : List ℕ
  pub stored : e ≡ block (type e) (wire header payload) (length header + length payload) nil
  pub tiles : header ++ (payload ++ rest) ≡ bytes
  pub legal : 1 ≤ type e
  pub fits : type e < u32_mod
  pub covers : size_of_var_number (type e) + size_of_var_number (length payload) ≤ length header

pub All-back : (xs ys : List ℕ) → All IsByte (xs ++ ys) → All IsByte ys
All-back [] ys h = h
All-back (x ∷ xs) ys h = All-back xs ys h.1

Splits-All :
    (bytes : List ℕ) (n : ℕ) (rest : List ℕ)
    → Splits bytes n rest
    → All IsByte bytes
    → All IsByte rest
Splits-All bytes n rest (lt, (front, tiles, covers, short)) all =
    All-back front rest (rw (← tiles) at all)

-- The steps of decoding, taken together: TLV-TYPE, TLV-LENGTH and the length check.
pub read-Decodes :
    (begin pos pos' : List ℕ) (t n : ℕ)
    → All IsByte begin
    → read_type? contiguous begin ≡ some (t, pos)
    → read_var_number? contiguous pos ≡ some (n, pos')
    → n ≤ length pos'
    → Decodes begin
        (block t
          (wire (passed begin pos') (take n pos'))
          (length (passed begin pos') + length (take n pos'))
          nil)
        (drop n pos')
read-Decodes begin pos pos' t n all h h' le =
    let (h₀, legal, fits) = (read_type?-legal contiguous begin t pos).0 h in
    let s = read_var_number?-Splits contiguous begin t pos all h₀ in
    let (lt, (f, tiles, covers, short)) = s in
    let (lt', (f', tiles', covers', short')) =
      read_var_number?-Splits contiguous pos n pos' (Splits-All begin t pos s all) h' in
    let whole : begin ≡ (f ++ f') ++ pos' =
      sym tiles ∙ ap (λ r. f ++ r) (sym tiles') ∙ sym (append_assoc f f' pos') in
    let head : passed begin pos' ≡ f ++ f' =
      ap (λ b. passed b pos') whole ∙ passed-append (f ++ f') pos' in
    let len : length (take n pos') ≡ n = omega (arith, length-take n pos') in
    record {
      header = passed begin pos';
      payload = take n pos';
      stored = refl;
      tiles = ap₂ (λ a b. a ++ b) head (take-append-drop n pos') ∙ sym whole;
      legal = legal;
      fits = fits;
      covers = rw (len, head) (omega (arith, length-append f f', covers, covers'));
    }

pub next_element-Decodes :
    (begin : List ℕ) (e : Block) (rest : List ℕ)
    → All IsByte begin
    → next_element begin ≡ ok (e, rest)
    → Decodes begin e rest
unfolding next_element
next_element-Decodes begin e rest all h =
    let ((t, pos), h₁, k₁) = >>=-eq-ok (read_type contiguous begin) _ h in
    let ((n, pos'), h₂, k₂) = >>=-eq-ok (read_var_number contiguous pos) _ k₁ in
    let (u, h₃, k₃) = >>=-eq-ok (guard (leb n (length pos')) (sub_element_exceeds t)) _ k₂ in
    let d =
      read-Decodes begin pos pos' t n all ((read_type-agrees contiguous begin (t, pos)).0 h₁)
        ((read_var_number-agrees contiguous pos (n, pos')).0 h₂)
        (leb→le n (length pos') (guard-eq-ok _ _ h₃)) in
    subst (λ p. Decodes begin p.0 p.1) (ok-injective k₃) d

-- The bytes of a sequence of sub-elements.
unfoldable pub wires : Blocks → List ℕ
wires nil = []
wires (cons b bs) = wire_bytes b ++ wires bs

-- Each sub-element is as decoding leaves it.
abbrev pub AreDecoded : Blocks → Type 0
AreDecoded nil = Unit {0}
AreDecoded (cons b bs) = Decodes (wire_bytes b) b [] × AreDecoded bs

pub Decodes-wire :
    (bytes : List ℕ) (e : Block) (rest : List ℕ)
    → Decodes bytes e rest
    → (wire_bytes e ++ rest ≡ bytes) × Decodes (wire_bytes e) e [] × (2 ≤ length (wire_bytes e))
Decodes-wire bytes e rest d =
    let bs : wire_bytes e ≡ d.header ++ d.payload = ap wire_bytes d.stored in
    (
      rw (bs, append_assoc d.header d.payload rest) d.tiles,
      record {
        header = d.header;
        payload = d.payload;
        stored = d.stored;
        tiles = rw (bs, append-nil d.payload) refl;
        legal = d.legal;
        fits = d.fits;
        covers = d.covers;
      },
      rw bs (
          omega (
            arith,
            length-append d.header d.payload,
            d.covers,
            size_of_var_number-pos (type e),
            size_of_var_number-pos (length d.payload),
          )),
    )

wires-snoc : (es : Blocks) (e : Block) → wires (snoc es e) ≡ wires es ++ wire_bytes e
unfolding wires
wires-snoc nil e = append-nil (wire_bytes e)
wires-snoc (cons b es) e =
    ap (λ r. wire_bytes b ++ r) (wires-snoc es e)
    ∙ sym (append_assoc (wire_bytes b) (wires es) (wire_bytes e))

AreDecoded-snoc :
    (es : Blocks) (e : Block) → AreDecoded es → Decodes (wire_bytes e) e [] → AreDecoded (snoc es e)
AreDecoded-snoc nil e h d = (d, tt)
AreDecoded-snoc (cons b es) e h d = (h.0, AreDecoded-snoc es e h.1 d)

pub parse_loop-tiles :
    (fuel : ℕ) (bytes : List ℕ) (es es' : Blocks)
    → All IsByte bytes
    → AreDecoded es
    → parse_loop fuel bytes es ≡ (es', ok tt)
    → (wires es' ≡ wires es ++ bytes) × AreDecoded es'
unfolding parse_loop
parse_loop-tiles fuel [] es es' all d h =
    let e : es ≡ es' = ap (λ (p : Blocks × Result (Unit {0})). p.0) h in
    subst (λ x. (wires x ≡ wires es ++ []) × AreDecoded x) e (sym (append-nil (wires es)), d)
parse_loop-tiles zero (b ∷ bytes) es es' all d h =
    cc (ap (λ (p : Blocks × Result (Unit {0})). p.1) h)
parse_loop-tiles (suc fuel) (b ∷ bytes) es es' all d h =
    elim (Result-cases (next_element (b ∷ bytes))) [
      | inl ((e, rest), ne) ↦
          let dec = next_element-Decodes (b ∷ bytes) e rest all ne in
          let (tile, own, long) = Decodes-wire (b ∷ bytes) e rest dec in
          let ih =
            parse_loop-tiles fuel rest (snoc es e) es' (All-rest dec all)
              (AreDecoded-snoc es e d own) (rw (ne, parse_loop) at h) in
          (
            ih.0
                ∙ ap (λ r. r ++ rest) (wires-snoc es e)
                ∙ append_assoc (wires es) (wire_bytes e) rest
                ∙ ap (λ r. wires es ++ r) tile,
            ih.1,
          )
      | inr (x, ne) ↦ cc (ap (λ (p : Blocks × Result (Unit {0})). p.1) (rw (ne, parse_loop) at h))
    ]
  where
    All-rest :
        {bytes : List ℕ} {e : Block} {rest : List ℕ}
        → Decodes bytes e rest
        → All IsByte bytes
        → All IsByte rest
    All-rest {e = e} {rest = rest} dec all =
        All-back (wire_bytes e) rest (rw (Decodes-wire _ e rest dec).0 all)
