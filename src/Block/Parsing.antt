-- ===== src/Block/Parsing.antt =====
-- Decoding: what a successful read of an element says about the bytes, and that the elements which
-- `encode` writes are read back.
use ndn_cxx_gm.Base.{
  ℕ, zero, suc, ◌+◌, ◌-◌, ◌≡◌, ◌≤◌, ◌<◌, refl, sym, ap, ◌∙◌, List, [], ◌∷◌, ◌++◌, true, false,
  length, length-append, take-append, drop-append, append_assoc, arith, ok, leb, ◌==◌,
}
use ndn_cxx_gm.Base.Bits.{u32_mod, u64_mod}
use ndn_cxx_gm.Errors.{Result}
use ndn_cxx_gm.Tlv.{contiguous, read_type, read_var_number, size_of_var_number, write_var_number}
use ndn_cxx_gm.Tlv.Numbers.{read_var_number-write}
use ndn_cxx_gm.Tlv.Reading.{read_var_number-agrees, read_type-agrees, read_type?-legal}
use ndn_cxx_gm.Encoder.Estimator.{tlv, length-tlv}
use ndn_cxx_gm.Block.{Block, block, Blocks, nil, cons, wire, type, passed, of_span}
use ndn_cxx_gm.Block.Elements.{next_element, parse_loop, parse, snoc}
use ndn_cxx_gm.Block.Encoding.{encoding, encodings, body, encoding-body}

-- A TLV-TYPE and a TLV-VALUE that an element can have.
pub record IsElement (t : ℕ) (v : List ℕ) : Type 0 where
  pub legal : 1 ≤ t
  pub fits : t < u32_mod
  pub sized : length v < u64_mod

-- The decoded element of TLV-TYPE `t` and TLV-VALUE `v`, in the shortest form.
abbrev pub element : ℕ → List ℕ → Block
element t v =
    let header = (write_var_number t).0 ++ (write_var_number (length v)).0 in
    block t (wire header v) (length header + length v) nil

read_var_number-written :
    (n : ℕ) (rest : List ℕ)
    → n < u64_mod
    → read_var_number contiguous ((write_var_number n).0 ++ rest) ≡ ok (n, rest)
read_var_number-written n rest h =
    (read_var_number-agrees contiguous _ (n, rest)).1 (read_var_number-write contiguous n rest h)

read_type-written :
    (t : ℕ) (rest : List ℕ)
    → 1 ≤ t
    → t < u32_mod
    → read_type contiguous ((write_var_number t).0 ++ rest) ≡ ok (t, rest)
read_type-written t rest h h' = (read_type-agrees contiguous _ (t, rest)).1 (
    (read_type?-legal contiguous _ t rest).1
      (read_var_number-write contiguous t rest (omega arith), h, h'))

pub passed-append : (xs ys : List ℕ) → passed (xs ++ ys) ys ≡ xs
passed-append xs ys =
    let n : length (xs ++ ys) - length ys ≡ length xs = omega (arith, length-append xs ys) in
    rw n (take-append (length xs) xs ys refl)

-- The three facts about `bytes` that decoding an element in front of `rest` uses.
pub passed_header :
    (t : ℕ) (v rest : List ℕ)
    → passed (tlv t v ++ rest) (v ++ rest)
      ≡ (write_var_number t).0 ++ (write_var_number (length v)).0
passed_header t v rest =
    ap (λ b. passed b (v ++ rest)) (tlv_split t v rest)
    ∙ passed-append ((write_var_number t).0 ++ (write_var_number (length v)).0) (v ++ rest)
  where
    tlv_split :
        (t : ℕ) (v rest : List ℕ)
        → tlv t v ++ rest
          ≡ ((write_var_number t).0 ++ (write_var_number (length v)).0) ++ (v ++ rest)
    tlv_split t v rest = simp append_assoc

-- What the two readers find in front of an element in the shortest form.
pub record Reads (t : ℕ) (v rest : List ℕ) : Type 0 where
  pub pos : List ℕ
  pub at_type : read_type contiguous (tlv t v ++ rest) ≡ ok (t, pos)
  pub at_length : read_var_number contiguous pos ≡ ok (length v, v ++ rest)
  pub room : leb (length v) (length (v ++ rest)) ≡ true

pub tlv-Reads : (t : ℕ) (v rest : List ℕ) → IsElement t v → Reads t v rest
tlv-Reads t v rest h =
    let l = (write_var_number (length v)).0 in
    let split : tlv t v ++ rest ≡ (write_var_number t).0 ++ (l ++ (v ++ rest)) =
      simp append_assoc in
    record {
      pos = l ++ (v ++ rest);
      at_type = rw split (read_type-written t (l ++ (v ++ rest)) h.legal h.fits);
      at_length = read_var_number-written (length v) (v ++ rest) h.sized;
      room = ground (arith, length-append v rest);
    }

-- parse() finds an element in the shortest form, and goes on right behind it.
pub next_element-tlv :
    (t : ℕ) (v rest : List ℕ)
    → IsElement t v
    → next_element (tlv t v ++ rest) ≡ ok (element t v, rest)
unfolding next_element
next_element-tlv t v rest h =
    let r = tlv-Reads t v rest h in
    rw (
      r.at_type,
      r.at_length,
      r.room,
      passed_header t v rest,
      take-append (length v) v rest refl,
      drop-append (length v) v rest refl,
    )

-- Block(span) decodes an element in the shortest form, whatever follows it.
pub of_span-tlv :
    (t : ℕ) (v rest : List ℕ) → IsElement t v → of_span (tlv t v ++ rest) ≡ ok (element t v)
unfolding of_span
of_span-tlv t v rest h =
    let r = tlv-Reads t v rest h in
    rw (r.at_type, r.at_length, r.room, passed_header t v rest, take-append (length v) v rest refl)

-- A block is read back from its encoding with its TLV-TYPE, and its value or sub-elements' bytes.
pub of_span-encoding :
    (b : Block) (rest : List ℕ)
    → IsElement (type b) (body b)
    → of_span (encoding b ++ rest) ≡ ok (element (type b) (body b))
of_span-encoding b rest h = rw (encoding-body b) (of_span-tlv (type b) (body b) rest h)

unfoldable pub append : Blocks → Blocks → Blocks
append nil cs = cs
append (cons b bs) cs = cons b (append bs cs)

-- The sub-elements as parse() leaves them.
unfoldable pub decoded : Blocks → Blocks
decoded nil = nil
decoded (cons b bs) = cons (element (type b) (body b)) (decoded bs)

abbrev pub AreElements : Blocks → Type 0
AreElements nil = Unit {0}
AreElements (cons b bs) = IsElement (type b) (body b) × AreElements bs

pub append-snoc :
    (es : Blocks) (e : Block) (bs : Blocks) → append (snoc es e) bs ≡ append es (cons e bs)
unfolding append
append-snoc nil e bs = refl
append-snoc (cons b es) e bs = ap (cons b) (append-snoc es e bs)

pub nil-append : (bs : Blocks) → append nil bs ≡ bs
unfolding append
nil-append bs = refl

pub append_nil : (es : Blocks) → append es nil ≡ es
unfolding append
append_nil nil = refl
append_nil (cons b es) = ap (cons b) (append_nil es)

pub parse_loop_step :
    (fuel : ℕ) (bytes : List ℕ) (es : Blocks) (e : Block) (rest : List ℕ)
    → 1 ≤ length bytes
    → next_element bytes ≡ ok (e, rest)
    → parse_loop (suc fuel) bytes es ≡ parse_loop fuel rest (snoc es e)
unfolding parse_loop
parse_loop_step fuel [] es e rest pos h = absurd (omega arith)
parse_loop_step fuel (b ∷ bytes) es e rest pos h = rw (h, parse_loop)

pub size_of_var_number-pos : (n : ℕ) → 1 ≤ size_of_var_number n
unfolding size_of_var_number
size_of_var_number-pos n = ground arith

pub tlv-longer : (t : ℕ) (v : List ℕ) → 2 ≤ length (tlv t v)
tlv-longer t v =
    omega (arith, length-tlv t v, size_of_var_number-pos t, size_of_var_number-pos (length v))

pub encoding-longer : (b : Block) → 2 ≤ length (encoding b)
encoding-longer b = rw (encoding-body b) (tlv-longer (type b) (body b))

-- parse() on the sub-elements' encodings, one after the other, finds exactly these.
parse_loop-encodings :
    (bs : Blocks) (fuel : ℕ) (es : Blocks)
    → AreElements bs
    → length (encodings bs) ≤ fuel
    → parse_loop fuel (encodings bs) es ≡ (append es (decoded bs), ok tt)
unfolding encodings decoded
parse_loop-encodings nil fuel es h le =
    unfold parse_loop in ap (λ x. (x, ok tt)) (sym (append_nil es))
parse_loop-encodings (cons b bs) zero es h le =
    absurd (omega (arith, length-append (encoding b) (encodings bs), encoding-longer b))
parse_loop-encodings (cons b bs) (suc fuel) es h le =
    let long = encoding-longer b in
    let len = length-append (encoding b) (encodings bs) in
    let e = element (type b) (body b) in
    parse_loop_step fuel (encoding b ++ encodings bs) es e (encodings bs) (omega arith)
      (rw (encoding-body b) (next_element-tlv (type b) (body b) (encodings bs) h.0))
    ∙ parse_loop-encodings bs fuel (snoc es e) h.1 (omega arith)
    ∙ ap (λ x. (x, ok tt)) (append-snoc es e (decoded bs))

-- parse() runs its loop on a block with a value and no sub-elements.
pub parse-loop :
    (t n : ℕ) (h bytes : List ℕ)
    → 1 ≤ length bytes
    → parse (block t (wire h bytes) n nil) ≡ (
      block t (wire h bytes) n (parse_loop (length bytes) bytes nil).0,
      (parse_loop (length bytes) bytes nil).1,
    )
unfolding parse
parse-loop t n h bytes pos = let ne : (length bytes == 0) ≡ false = ground arith in rw ne

-- parse() on the bytes of sub-elements, each with a legal TLV-TYPE and a value whose size fits 64
-- bits, returns and finds exactly these sub-elements, in order.
pub parse-encodings :
    (t n : ℕ) (h : List ℕ) (bs : Blocks)
    → AreElements bs
    → parse (block t (wire h (encodings bs)) n nil)
      ≡ (block t (wire h (encodings bs)) n (decoded bs), ok tt)
parse-encodings t n h nil v = unfold parse encodings decoded in refl
parse-encodings t n h (cons b bs) v =
    let bytes = encodings (cons b bs) in
    let loop = parse_loop-encodings (cons b bs) (length bytes) nil v (omega arith) in
    let long : 1 ≤ length bytes =
      unfold encodings in
      omega (arith, length-append (encoding b) (encodings bs), encoding-longer b) in
    parse-loop t n h bytes long
    ∙ ap (λ (r : Blocks × Result (Unit {0})). (block t (wire h bytes) n r.0, r.1))
        (loop ∙ ap (λ x. (x, ok tt)) (nil-append (decoded (cons b bs))))
