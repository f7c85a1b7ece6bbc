-- ===== src/Encoder/Contents.antt =====
-- The encoder as a byte sequence that grows at both ends.
use ndn_cxx_gm.Base.{
  ℕ, zero, suc, ◌+◌, ◌-◌, ◌*◌, ◌≤◌, ◌≡◌, refl, sym, ap, ◌∙◌, List, [], ◌∷◌, ◌++◌, length,
  length-append, take, drop, replicate, arith, ltb, if◌then◌else◌, append_assoc, drop-append,
  length-take, length-drop, take-append, take-append-drop, Bool-cases, inl, inr, ltb→ge, ltb→lt,
}
use ndn_cxx_gm.Encoder.{
  Encoder, contents, new_encoder, reserve_front, reserve_back, copy, prepend_bytes, append_bytes,
}

-- The two positions stand in the buffer, in order.
pub record IsValid (e : Encoder) : Type 0 where
  pub ordered : e.begin ≤ e.end
  pub within : e.end ≤ length e.buffer

-- The buffer as unused bytes, the contents, and unused bytes again.
pub record Holds (e : Encoder) (front body back : List ℕ) : Type 0 where
  pub layout : e.buffer ≡ front ++ (body ++ back)
  pub at_begin : e.begin ≡ length front
  pub at_end : e.end ≡ length front + length body

module _ {ℓ} {A : Type ℓ} where
  length-replicate : (n : ℕ) (a : A) → length (replicate n a) ≡ n
  length-replicate zero a = refl
  length-replicate (suc n) a = ap suc (length-replicate n a)

  take-append_inside : (n : ℕ) (xs ys : List A) → n ≤ length xs → take n (xs ++ ys) ≡ take n xs
  take-append_inside zero xs ys h = refl
  take-append_inside (suc n) [] ys h = absurd (omega arith)
  take-append_inside (suc n) (x ∷ xs) ys h =
      ap (λ r. x ∷ r) (take-append_inside n xs ys (omega arith))

module _ {ℓ} {A : Type ℓ} where
  drop-append_past :
      (n m k : ℕ) (xs ys : List A) → length xs ≡ n → k ≡ n + m → drop k (xs ++ ys) ≡ drop m ys
  drop-append_past zero m k [] ys e e' = ap (λ t. drop t ys) (omega arith)
  drop-append_past zero m k (x ∷ xs) ys e e' = absurd (omega arith)
  drop-append_past (suc n) m k [] ys e e' = absurd (omega arith)
  drop-append_past (suc n) m zero (x ∷ xs) ys e e' = absurd (omega arith)
  drop-append_past (suc n) m (suc k) (x ∷ xs) ys e e' =
      drop-append_past n m k xs ys (omega arith) (omega arith)

pub Holds-IsValid : (e : Encoder) (front body back : List ℕ) → Holds e front body back → IsValid e
Holds-IsValid e front body back h =
    let len : length e.buffer ≡ length front + (length body + length back) =
      rw (h.layout, length-append front (body ++ back), length-append body back) refl in
    record { ordered = omega (arith, h.at_begin, h.at_end); within = omega (arith, h.at_end, len) }

pub Holds-contents :
    (e : Encoder) (front body back : List ℕ) → Holds e front body back → contents e ≡ body
Holds-contents e front body back h =
    let n : e.end - e.begin ≡ length body = omega (arith, h.at_begin, h.at_end) in
    rw (n, h.layout, h.at_begin, drop-append (length front) front (body ++ back) refl)
      (take-append (length body) body back refl)

-- Each valid encoder has such a layout.
pub IsValid-Holds :
    (e : Encoder)
    → IsValid e
    → Holds e (take e.begin e.buffer) (contents e) (drop (e.end - e.begin) (drop e.begin e.buffer))
IsValid-Holds e v =
    let len = length-take e.begin e.buffer in
    let len' = length-take (e.end - e.begin) (drop e.begin e.buffer) in
    let len'' = length-drop e.begin e.buffer in
    record {
      layout = sym (
          ap (λ r. take e.begin e.buffer ++ r)
            (take-append-drop (e.end - e.begin) (drop e.begin e.buffer))
          ∙ take-append-drop e.begin e.buffer);
      at_begin = omega (arith, v.ordered, v.within, len);
      at_end = omega (arith, v.ordered, v.within, len, len', len'');
    }

Holds-length :
    (e : Encoder) (front body back : List ℕ)
    → Holds e front body back
    → length e.buffer ≡ length front + (length body + length back)
Holds-length e front body back h =
    rw (h.layout, length-append front (body ++ back), length-append body back) refl

-- `reserve` is only asked for more than the buffer has.
grown : (len n : ℕ) → (if ltb (len * 2 + n) len then len else len * 2 + n) ≡ len * 2 + n
grown len n = ground arith

reserve_front-Holds :
    (e : Encoder) (n : ℕ) (front body back : List ℕ)
    → Holds e front body back
    → (front' : List ℕ) × (n ≤ length front') × Holds (reserve_front e n) front' body back
unfolding reserve_front
reserve_front-Holds e n front body back h = elim (Bool-cases (ltb e.begin n)) [
  | inl small ↦
      let len = length e.buffer in
      let zeros : List ℕ = replicate (len + n) 0 in
      let count : length (zeros ++ front) ≡ len + n + length front =
        length-append zeros front ∙ ap (λ t. t + length front) (length-replicate (len + n) 0) in
      let total = Holds-length e front body back h in
      let same : len * 2 + n - len ≡ len + n = omega arith in
      (
        zeros ++ front,
        omega (arith, count),
        rw (small, reserve_front, grown, same)
            (record {
              layout =
                  ap (λ b. zeros ++ b) h.layout ∙ sym (append_assoc zeros front (body ++ back));
              at_begin = omega (arith, h.at_begin, count, total);
              at_end = omega (arith, h.at_end, count, total);
            }),
      )
  | inr large ↦
      (front, omega (arith, h.at_begin, ltb→ge e.begin n large), rw (large, reserve_front) h)
]

reserve_back-Holds :
    (e : Encoder) (n : ℕ) (front body back : List ℕ)
    → Holds e front body back
    → (back' : List ℕ) × (n ≤ length back') × Holds (reserve_back e n) front body back'
unfolding reserve_back
reserve_back-Holds e n front body back h = elim (Bool-cases (ltb (length e.buffer) (e.end + n))) [
  | inl small ↦
      let len = length e.buffer in
      let zeros : List ℕ = replicate (len + n) 0 in
      let count : length (back ++ zeros) ≡ length back + (len + n) =
        length-append back zeros ∙ ap (λ t. length back + t) (length-replicate (len + n) 0) in
      let same : len * 2 + n - len ≡ len + n = omega arith in
      (
        back ++ zeros,
        omega (arith, count),
        rw (small, reserve_back, grown, same)
            (record {
              layout =
                  ap (λ b. b ++ zeros) h.layout
                  ∙ append_assoc front (body ++ back) zeros
                  ∙ ap (λ b. front ++ b) (append_assoc body back zeros);
              at_begin = h.at_begin;
              at_end = h.at_end;
            }),
      )
  | inr large ↦ (
    back,
    omega (
      arith,
      h.at_end,
      ltb→ge (length e.buffer) (e.end + n) large,
      Holds-length e front body back h,
    ),
    rw (large, reserve_back) h,
  )
]

prepend-Holds :
    (e : Encoder) (bytes front body back : List ℕ)
    → length bytes ≤ length front
    → Holds e front body back
    → let pos = e.begin - length bytes in
      Holds
        (record e { buffer = copy bytes pos e.buffer; begin = pos })
        (take (length front - length bytes) front)
        (bytes ++ body)
        back
prepend-Holds e bytes front body back room h =
    let k = length front - length bytes in
    let at : e.begin - length bytes ≡ k = ap (λ t. t - length bytes) h.at_begin in
    let sum : k + length bytes ≡ length front = omega arith in
    rw at (record {
      layout =
          rw
            (
              h.layout,
              sum,
              drop-append (length front) front (body ++ back) refl,
              take-append_inside k front (body ++ back) (omega arith),
              append_assoc bytes body back,
            )
            refl;
      at_begin = omega (arith, length-take k front);
      at_end = omega (arith, h.at_end, length-take k front, length-append bytes body);
    })

append-Holds :
    (e : Encoder) (bytes front body back : List ℕ)
    → length bytes ≤ length back
    → Holds e front body back
    → Holds
        (record e { buffer = copy bytes e.end e.buffer; end = e.end + length bytes })
        front
        (body ++ bytes)
        (drop (length bytes) back)
append-Holds e bytes front body back room h =
    let m = length bytes in
    let whole : e.buffer ≡ (front ++ body) ++ back =
      h.layout ∙ sym (append_assoc front body back) in
    let at : e.end ≡ length (front ++ body) = h.at_end ∙ sym (length-append front body) in
    record {
      layout =
          rw
            (
              whole,
              at,
              take-append (length (front ++ body)) (front ++ body) back refl,
              drop-append_past (length (front ++ body)) m (length (front ++ body) + m)
                  (front ++ body) back refl refl,
            )
            (append_assoc front body (bytes ++ drop m back)
              ∙ ap (λ r. front ++ r) (sym (append_assoc body bytes (drop m back))));
      at_begin = h.at_begin;
      at_end = omega (arith, h.at_end, length-append body bytes);
    }

-- Whatever room the buffer has, prepending bytes keeps the positions in the buffer, puts the
-- bytes in front of the contents and returns their number.
pub prepend_bytes-contents :
    (e : Encoder) (bytes : List ℕ)
    → IsValid e
    → IsValid (prepend_bytes e bytes).0
      × (contents (prepend_bytes e bytes).0 ≡ bytes ++ contents e)
      × ((prepend_bytes e bytes).1 ≡ length bytes)
unfolding prepend_bytes
prepend_bytes-contents e bytes v =
    let (front, room, h) =
      reserve_front-Holds e (length bytes) _ (contents e) _ (IsValid-Holds e v) in
    let after = prepend-Holds (reserve_front e (length bytes)) bytes front (contents e) _ room h in
    (Holds-IsValid _ _ _ _ after, Holds-contents _ _ _ _ after, refl)

-- Whatever room the buffer has, appending bytes keeps the positions in the buffer, puts the bytes
-- behind the contents and returns their number.
pub append_bytes-contents :
    (e : Encoder) (bytes : List ℕ)
    → IsValid e
    → IsValid (append_bytes e bytes).0
      × (contents (append_bytes e bytes).0 ≡ contents e ++ bytes)
      × ((append_bytes e bytes).1 ≡ length bytes)
unfolding append_bytes
append_bytes-contents e bytes v =
    let (back, room, h) =
      reserve_back-Holds e (length bytes) _ (contents e) _ (IsValid-Holds e v) in
    let after = append-Holds (reserve_back e (length bytes)) bytes _ (contents e) back room h in
    (Holds-IsValid _ _ _ _ after, Holds-contents _ _ _ _ after, refl)

pub new_encoder-contents :
    (total back : ℕ) → IsValid (new_encoder total back) × (contents (new_encoder total back) ≡ [])
unfolding new_encoder
new_encoder-contents total back =
    let pos = total - (if ltb back total then back else 0) in
    let none_yet : pos - pos ≡ 0 = omega arith in
    (
      record { ordered = omega arith; within = omega (arith, length-replicate {A = ℕ} total 0) },
      rw none_yet refl,
    )

-- With room in front, prepending moves `m_begin` back and the buffer is not reallocated.
pub prepend_bytes-room :
    (e : Encoder) (bytes : List ℕ)
    → IsValid e
    → length bytes ≤ e.begin
    → ((prepend_bytes e bytes).0.begin + length bytes ≡ e.begin)
      × (length (prepend_bytes e bytes).0.buffer ≡ length e.buffer)
      × ((prepend_bytes e bytes).0.end ≡ e.end)
unfolding prepend_bytes reserve_front
prepend_bytes-room e bytes v fits = elim (Bool-cases (ltb e.begin (length bytes))) [
  | inl small ↦ absurd (omega (arith, ltb→lt e.begin (length bytes) small))
  | inr large ↦
      let n = length bytes in
      let k = e.begin - n in
      rw large (
        omega arith,
        length-append (take k e.buffer) (bytes ++ drop (k + n) e.buffer)
            ∙ omega (
              arith,
              v.ordered,
              v.within,
              length-take k e.buffer,
              length-append bytes (drop (k + n) e.buffer),
              length-drop (k + n) e.buffer,
            ),
        refl,
      )
]

take_all : (xs : List ℕ) → take (length xs) xs ≡ xs
take_all [] = refl
take_all (x ∷ xs) = ap (λ r. x ∷ r) (take_all xs)

-- A full buffer is its contents.
pub full-buffer :
    (e : Encoder) → IsValid e → e.begin ≡ 0 → e.end ≡ length e.buffer → contents e ≡ e.buffer
full-buffer e v b n =
    let z : length e.buffer - 0 ≡ length e.buffer = omega arith in rw (b, n, z) (take_all e.buffer)

pub new_encoder-room :
    (total : ℕ)
    → ((new_encoder total 0).begin ≡ total)
      × (length (new_encoder total 0).buffer ≡ total)
      × ((new_encoder total 0).end ≡ total)
unfolding new_encoder
new_encoder-room zero = ground arith
new_encoder-room (suc total) = (ground arith, length-replicate {A = ℕ} (suc total) 0, ground arith)
