-- ===== src/Component/Successor.antt =====
-- ndn-cxx/impl/name-component-types.hpp and name-component.cpp: getSuccessor, and the value that it
-- writes.
use ndn_cxx_gm.Base.{
  ℕ, zero, suc, ◌+◌, ◌-◌, ◌%◌, ◌≡◌, ◌≤◌, ◌<◌, refl, sym, ap, ap₂, ◌∙◌, List, [], ◌∷◌, ◌++◌, Bool,
  true, false, length, arith, ◌==◌, if◌then◌else◌, take, drop, ok, ◌>>=◌, ◌||◌, replicate, ◌&&◌,
  length-take, length-drop,
}
use ndn_cxx_gm.Errors.{Result}
use ndn_cxx_gm.Encoder.{
  Encoder, contents, size, new_encoder, prepend_bytes, append_bytes, prepend_var_number,
}
use ndn_cxx_gm.Block.{Block, type, value, value_size, get_size, of_encoder, m_size}
use ndn_cxx_gm.Component.{
  component, component_of, implicit_sha256_digest_component, parameters_sha256_digest_component,
  digest_size,
}
use ndn_cxx_gm.Encoder.Contents.{
  IsValid, prepend_bytes-contents, new_encoder-contents, append_bytes-contents,
}
use ndn_cxx_gm.Component.Compare.{Fields}
use ndn_cxx_gm.Block.Parsing.{IsElement, element}
use ndn_cxx_gm.Encoder.Estimator.{tlv}
use ndn_cxx_gm.Block.Helpers.{of_encoder-contents}
use ndn_cxx_gm.Encoder.Numbers.{prepend_var_number-Prepends}
use ndn_cxx_gm.Tlv.{write_var_number}

-- `value()[i]`; the loop stays within the value.
abbrev pub byte_at : List ℕ → ℕ → ℕ
byte_at [] i = 0
byte_at (b ∷ bs) zero = b
byte_at (b ∷ bs) (suc i) = byte_at bs i

-- The loop of getSuccessorImpl, from `i` down: the encoder, `i` and isOverflow behind it.
unfoldable pub write_back : List ℕ → ℕ → Encoder → Bool → Encoder × ℕ × Bool
write_back value zero encoder is_overflow = (encoder, 0, is_overflow)
write_back value (suc i) encoder false = (encoder, suc i, false)
write_back value (suc i) encoder true =
    let new_value = (byte_at value i + 1) % 256 in
    write_back value i (prepend_bytes encoder (new_value ∷ [])).0 (new_value == 0)

-- getSuccessorImpl between the encoder's constructor and its result.
unfoldable pub write_successor : ℕ → List ℕ → ℕ → Encoder → Encoder × Bool
write_successor type value value_size encoder =
    let (encoder', i, is_overflow) = write_back value value_size encoder true in
    let copied = (prepend_bytes encoder' (take i value)).0 in
    let extended = if is_overflow then (append_bytes copied (0 ∷ [])).0 else copied in
    let sized = (prepend_var_number extended (size extended)).0 in
    ((prepend_var_number sized type).0, is_overflow)

-- getSuccessorImpl
unfoldable pub get_successor_impl : Block → Result (Bool × Block)
get_successor_impl comp = do
  comp_size ← get_size comp
  let encoder = new_encoder (comp_size + 9) 9
  let (encoder', is_overflow) = write_successor (type comp) (value comp) (value_size comp) encoder
  b ← of_encoder encoder' true
  ok (is_overflow, b)

-- ComponentType::getSuccessor and Sha256ComponentType::getSuccessor, by the table's entry.
unfoldable pub get_type_successor : Block → Result (Bool × Block)
get_type_successor comp = do
  (is_extended, successor) ← get_successor_impl comp
  let has_digest_type =
      (type comp == implicit_sha256_digest_component)
      || (type comp == parameters_sha256_digest_component)
  (if has_digest_type && is_extended
      then ok (true, comp)
      else component successor >>= λ c. ok (false, c))

-- getMinValue by the table's entry.
unfoldable pub get_min_value : ℕ → List ℕ
get_min_value type =
    if (type == implicit_sha256_digest_component) || (type == parameters_sha256_digest_component)
    then replicate digest_size 0
    else []

-- Component::getSuccessor
unfoldable pub get_successor : Block → Result Block
get_successor comp = do
  (is_overflow, successor) ← get_type_successor comp
  (if is_overflow
      then component_of (type comp + 1) (get_min_value (type comp + 1))
      else ok successor)

-- A value plus one, with the carry out.
abbrev pub increment : List ℕ → Bool × List ℕ
increment [] = (true, [])
increment (b ∷ bs) =
    let rest = increment bs in
    if rest.0 then ((b + 1) % 256 == 0, (b + 1) % 256 ∷ rest.1) else (false, b ∷ rest.1)

-- The value of the successor of the same TLV-TYPE.
abbrev pub next_value : List ℕ → List ℕ
next_value v = let r = increment v in if r.0 then r.1 ++ (0 ∷ []) else r.1

drop-byte_at : (v : List ℕ) (i : ℕ) → i < length v → drop i v ≡ byte_at v i ∷ drop (suc i) v
drop-byte_at [] i h = absurd (omega arith)
drop-byte_at (b ∷ bs) zero h = refl
drop-byte_at (b ∷ bs) (suc i) h = drop-byte_at bs i (omega arith)

increment-drop :
    (i : ℕ) (v : List ℕ)
    → (increment (drop i v)).0 ≡ false
    → increment v ≡ (false, take i v ++ (increment (drop i v)).1)
increment-drop zero v h = ap (λ b. (b, (increment v).1)) h
increment-drop (suc i) [] h = ap (λ b. (b, [])) h
increment-drop (suc i) (b ∷ bs) h = rw (increment-drop i bs h)

-- The bytes that the loop leaves, behind those that it did not reach.
write_back-lem :
    (v : List ℕ) (i : ℕ) (e : Encoder) (over : Bool)
    → i ≤ length v
    → IsValid e
    → increment (drop i v) ≡ (over, contents e)
    → let r = write_back v i e over in
      IsValid r.0 × (take r.1 v ++ contents r.0 ≡ (increment v).1) × (r.2 ≡ (increment v).0)
unfolding write_back
write_back-lem v zero e over le valid h = (valid, sym (ap (λ p. p.1) h), sym (ap (λ p. p.0) h))
write_back-lem v (suc i) e false le valid h =
    let all = increment-drop (suc i) v (ap (λ p. p.0) h) in
    (
      valid,
      ap (λ c. take (suc i) v ++ c) (sym (ap (λ p. p.1) h)) ∙ sym (ap (λ p. p.1) all),
      sym (ap (λ p. p.0) all),
    )
write_back-lem v (suc i) e true le valid h =
    let new = (byte_at v i + 1) % 256 in
    let p = prepend_bytes-contents e (new ∷ []) valid in
    let split : increment (drop i v) ≡ (new == 0, new ∷ contents e) =
      ap increment (drop-byte_at v i (omega arith))
      ∙ ap (λ r. if r.0 then (new == 0, new ∷ r.1) else (false, byte_at v i ∷ r.1)) h in
    write_back-lem v i (prepend_bytes e (new ∷ [])).0 (new == 0) (omega arith) p.0
      (split ∙ ap (λ c. (new == 0, c)) (sym p.1))

drop_all : (v : List ℕ) → drop (length v) v ≡ []
drop_all [] = refl
drop_all (b ∷ bs) = drop_all bs

length-contents : (e : Encoder) → IsValid e → length (contents e) ≡ size e
length-contents e h = omega (
  arith,
  length-take (e.end - e.begin) (drop e.begin e.buffer),
  length-drop e.begin e.buffer,
  h.ordered,
  h.within,
)

-- The steps of write_successor that follow the loop, one after the other.
after_loop :
    (t : ℕ) (v : List ℕ) (e : Encoder) (i : ℕ) (over : Bool)
    → IsValid e
    → take i v ++ contents e ≡ (increment v).1
    → over ≡ (increment v).0
    → let copied = (prepend_bytes e (take i v)).0 in
      let extended = if over then (append_bytes copied (0 ∷ [])).0 else copied in
      IsValid extended × (contents extended ≡ next_value v)
after_loop t v e i true valid front o =
    let p = prepend_bytes-contents e (take i v) valid in
    let q = append_bytes-contents (prepend_bytes e (take i v)).0 (0 ∷ []) p.0 in
    (q.0, rw (sym o) (q.1 ∙ ap (λ c. c ++ (0 ∷ [])) (p.1 ∙ front)))
after_loop t v e i false valid front o =
    let p = prepend_bytes-contents e (take i v) valid in (p.0, rw (sym o) (p.1 ∙ front))

write_successor-lem :
    (t : ℕ) (v : List ℕ) (e : Encoder)
    → IsValid e
    → contents e ≡ []
    → let r = write_successor t v (length v) e in
      IsValid r.0 × (contents r.0 ≡ tlv t (next_value v)) × (r.1 ≡ (increment v).0)
unfolding write_successor
write_successor-lem t v e valid empty =
    let none_left : drop (length v) v ≡ [] = drop_all v in
    let whole : increment (drop (length v) v) ≡ (true, contents e) =
      ap increment none_left ∙ ap (λ c. (true, c)) (sym empty) in
    let loop = write_back-lem v (length v) e true (omega arith) valid whole in
    let r = write_back v (length v) e true in
    let a = after_loop t v r.0 r.1 r.2 loop.0 loop.1 loop.2 in
    let copied = (prepend_bytes r.0 (take r.1 v)).0 in
    let extended = if r.2 then (append_bytes copied (0 ∷ [])).0 else copied in
    let n : size extended ≡ length (next_value v) =
      sym (length-contents extended a.0) ∙ ap length a.1 in
    let q = prepend_var_number-Prepends extended (size extended) a.0 in
    let sized = (prepend_var_number extended (size extended)).0 in
    let p = prepend_var_number-Prepends sized t q.valid in
    (
      p.valid,
      p.front
          ∙ ap (λ c. (write_var_number t).0 ++ c)
              (q.front ∙ ap₂ (λ k c. (write_var_number k).0 ++ c) n a.1),
      loop.2,
    )

-- getSuccessorImpl answers whether the value had to be extended, and the element of the same
-- TLV-TYPE that holds the next value.
pub get_successor_impl-lem :
    (c : Block) (t : ℕ) (v : List ℕ)
    → Fields c t v
    → IsElement t (next_value v)
    → get_successor_impl c ≡ ok ((increment v).0, element t (next_value v))
unfolding get_successor_impl get_size
get_successor_impl-lem c t v f h =
    let start = new_encoder-contents (m_size c + 9) 9 in
    let e = new_encoder (m_size c + 9) 9 in
    let w = write_successor-lem t v e start.0 start.1 in
    let valid : (type c == 0) ≡ false = let t' = f.of_type in let pos = h.legal in ground arith in
    let written =
      of_encoder-contents (write_successor t v (length v) e).0 t (next_value v) h w.0 w.1 in
    rw (valid, f.of_type, f.of_size, f.of_value, written, w.2)
