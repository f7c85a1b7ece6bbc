-- ===== src/Block/Encoding.antt =====
-- What `encode` writes: the element in the shortest form, with sub-elements in order.
use ndn_cxx_gm.Base.{
  ℕ, ◌+◌, ◌≡◌, refl, sym, ap, ◌∙◌, List, [], ◌++◌, length, length-append, take, take-append,
  append_assoc, arith, ap₂, ◌≤◌, false,
}
use ndn_cxx_gm.Tlv.{size_of_var_number, write_var_number}
use ndn_cxx_gm.Encoder.{Encoder, contents, prepend_bytes, prepend_var_number}
use ndn_cxx_gm.Encoder.Contents.{IsValid, new_encoder-contents, new_encoder-room}
use ndn_cxx_gm.Encoder.Numbers.{Prepends, Prepends-then, prepend_bytes-Prepends}
use ndn_cxx_gm.Encoder.Estimator.{tlv, header-Prepends, nothing-Prepends, length-tlv}
use ndn_cxx_gm.Block.{
  Block, block, Blocks, nil, cons, no_buffer, only_value, wire, type, store, m_size, new_encoder,
  has_wire,
}
use ndn_cxx_gm.Block.Wire.{finish, encode_to, encode_elements, encode, estimate, estimate_elements}

-- The element that a block stands for: its TLV-VALUE is the value bytes where it has them, and
-- otherwise its sub-elements one after the other.
unfoldable mutual
  pub encoding : Block → List ℕ
  encoding (block t no_buffer n es) = tlv t (encodings es)
  encoding (block t (only_value v) n es) = tlv t v
  encoding (block t (wire h v) n es) = tlv t v

  pub encodings : Blocks → List ℕ
  encodings nil = []
  encodings (cons b bs) = encoding b ++ encodings bs

abbrev pub body : Block → List ℕ
body (block t no_buffer n es) = encodings es
body (block t (only_value v) n es) = v
body (block t (wire h v) n es) = v

pub encoding-body : (b : Block) → encoding b ≡ tlv (type b) (body b)
unfolding encoding
encoding-body (block t no_buffer n es) = refl
encoding-body (block t (only_value v) n es) = refl
encoding-body (block t (wire h v) n es) = refl

-- A block that refers to an encoder's buffer: the header and the value in it, and their size.
pub record IsWritten (t : ℕ) (v : List ℕ) (b : Block) : Type 0 where
  pub same_type : type b ≡ t
  pub header : store b ≡ wire ((write_var_number t).0 ++ (write_var_number (length v)).0) v
  pub size : m_size b ≡ length (tlv t v)

header_bytes : ℕ → List ℕ → List ℕ
header_bytes t v = (write_var_number t).0 ++ (write_var_number (length v)).0

header-split : (t : ℕ) (v : List ℕ) → tlv t v ≡ header_bytes t v ++ v
unfolding header_bytes
header-split t v = sym (append_assoc (write_var_number t).0 (write_var_number (length v)).0 v)

finish-Prepends :
    (t : ℕ) (es : Blocks) (e₀ e : Encoder) (len : ℕ) (v : List ℕ)
    → Prepends e₀ v (e, len)
    → let r = finish t es e len in Prepends e₀ (tlv t v) (r.1, r.2) × IsWritten t v r.0
finish-Prepends t es e₀ e len v p =
    let whole = header-Prepends e₀ t v (e, len) p in
    let n₂ : ℕ = (prepend_var_number e len).1 in
    let n₃ : ℕ = (prepend_var_number (prepend_var_number e len).0 t).1 in
    let split : length (tlv t v) ≡ length (header_bytes t v) + length v =
      ap (length {A = ℕ}) (header-split t v) ∙ length-append (header_bytes t v) v in
    let n : length (header_bytes t v) ≡ n₂ + n₃ = omega (arith, whole.count, p.count, split) in
    let front =
      whole.front
      ∙ ap (λ r. r ++ contents e₀) (header-split t v)
      ∙ append_assoc (header_bytes t v) v (contents e₀) in
    (
      whole,
      record {
        same_type = refl;
        header =
            ap₂ wire
              (ap (take (n₂ + n₃)) front
                ∙ take-append (n₂ + n₃) (header_bytes t v) (v ++ contents e₀) n
                ∙ unfold header_bytes in refl)
              (ap (take len) p.front ∙ take-append len v (contents e₀) (sym p.count));
        size = whole.count;
      },
    )

mutual
  unfolding encode_to encoding

  encode_to-lem :
      (b : Block) (e : Encoder)
      → IsValid e
      → let r = encode_to b e in
        Prepends e (encoding b) (r.1, r.2) × IsWritten (type b) (body b) r.0
  encode_to-lem (block t no_buffer n es) e v =
      let r = encode_elements es e in
      finish-Prepends t r.0 e r.1 r.2 (encodings es) (encode_elements-lem es e v)
  encode_to-lem (block t (only_value x) n es) e v =
      let r = prepend_bytes e x in finish-Prepends t es e r.0 r.1 x (prepend_bytes-Prepends e x v)
  encode_to-lem (block t (wire h x) n es) e v =
      let r = prepend_bytes e x in finish-Prepends t es e r.0 r.1 x (prepend_bytes-Prepends e x v)

  encode_elements-lem :
      (bs : Blocks) (e : Encoder)
      → IsValid e
      → let r = encode_elements bs e in Prepends e (encodings bs) (r.1, r.2)
  encode_elements-lem nil e v = nothing-Prepends e v
  encode_elements-lem (cons b bs) e v =
      let r = encode_elements bs e in
      let p = encode_elements-lem bs e v in
      let q = (encode_to-lem b r.1 p.valid).0 in
      Prepends-then e (encodings bs) (encoding b) (r.1, r.2)
        ((encode_to b r.1).1, (encode_to b r.1).2) _ p q refl

size_of_var_number_mono : (m n : ℕ) → m ≤ n → size_of_var_number m ≤ size_of_var_number n
unfolding size_of_var_number
size_of_var_number_mono m n h = ground arith

-- m_size covers the shortest form of the element, as in every block that was decoded or built.
unfoldable mutual
  pub IsSized : Block → Type 0
  IsSized (block t no_buffer n es) = AreSized es
  IsSized (block t (only_value v) n es) = length (tlv t v) ≤ n
  IsSized (block t (wire h v) n es) = length (tlv t v) ≤ n

  pub AreSized : Blocks → Type 0
  AreSized nil = Unit
  AreSized (cons b bs) = IsSized b × AreSized bs

mutual
  unfolding estimate encoding IsSized

  estimate-enough_lem : (b : Block) → IsSized b → length (encoding b) ≤ estimate b
  estimate-enough_lem (block t no_buffer n es) h = omega (
    arith,
    length-tlv t (encodings es),
    estimate_elements-enough_lem es h,
    size_of_var_number_mono (length (encodings es)) (estimate_elements es)
        (estimate_elements-enough_lem es h),
  )
  estimate-enough_lem (block t (only_value v) n es) h = h
  estimate-enough_lem (block t (wire h v) n es) k = k

  estimate_elements-enough_lem :
      (bs : Blocks) → AreSized bs → length (encodings bs) ≤ estimate_elements bs
  estimate_elements-enough_lem nil h = omega arith
  estimate_elements-enough_lem (cons b bs) h = omega (
    arith,
    length-append (encoding b) (encodings bs),
    estimate-enough_lem b h.0,
    estimate_elements-enough_lem bs h.1,
  )

-- If the stored sizes are those of the encodings at least, the size that the estimator answers is
-- enough: the encoding buffer still has that size when the block is written, so it was never
-- reallocated.
pub encode_to-room :
    (b : Block)
    → IsSized b
    → let e = new_encoder (estimate b) 0 in length (encode_to b e).1.buffer ≡ estimate b
encode_to-room b h =
    let (v, none_yet) = new_encoder-contents (estimate b) 0 in
    let room = new_encoder-room (estimate b) in
    let p = (encode_to-lem b (new_encoder (estimate b) 0) v).0 in
    (p.room (omega (arith, room.0, estimate-enough_lem b h))).1 ∙ room.1

-- encode() on a block without wire leaves it with the shortest encoding of its TLV-TYPE and of
-- its value or its sub-elements' encodings.
pub encode-IsWritten : (b : Block) → has_wire b ≡ false → IsWritten (type b) (body b) (encode b)
unfolding encode
encode-IsWritten b h =
    let (v, none_yet) = new_encoder-contents (estimate b) 0 in
    rw h (encode_to-lem b (new_encoder (estimate b) 0) v).1
