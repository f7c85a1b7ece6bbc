-- ===== src/Block/Changes.antt =====
-- ndn-cxx/encoding/block.cpp: changes of sub-elements, and what is encoded after them.
use ndn_cxx_gm.Base.{
  ℕ, zero, suc, ◌+◌, ◌-◌, ◌≡◌, ◌≢◌, ◌≤◌, refl, ap, ◌∷◌, ◌++◌, false, none, some, length, take, drop,
  arith, ◌==◌, if◌then◌else◌, Bool-cases, inl, inr, err,
}
use ndn_cxx_gm.Errors.{no_sub_element}
use ndn_cxx_gm.Block.{Block, Blocks, nil, cons, type, elements, to_list, has_wire}
use ndn_cxx_gm.Block.Elements.{find, get, remove_all, remove, erase_range, erase, insert_at, insert}
use ndn_cxx_gm.Block.Wire.{encode}
use ndn_cxx_gm.Block.Encoding.{encodings, IsWritten, encode-IsWritten}

find-remove_all :
    (t u : ℕ) (bs : Blocks)
    → (find t (remove_all t bs) ≡ none) × (u ≢ t → find u (remove_all t bs) ≡ find u bs)
unfolding find remove_all
find-remove_all t u nil = (refl, λ ne. refl)
find-remove_all t u (cons b bs) =
    let ih = find-remove_all t u bs in
    elim (Bool-cases (type b == t)) [
      | inl e ↦ (
        rw e ih.0,
        λ ne. let other : (type b == u) ≡ false = ground arith in rw (e, other) (ih.1 ne),
      )
      | inr e ↦
          (rw (e, find, e) ih.0, λ ne. rw e (ap (λ f. if type b == u then some b else f) (ih.1 ne)))
    ]

-- After remove(t), get(t) throws and names both TLV-TYPEs, get of any other TLV-TYPE answers what
-- it did before, and the block has no wire encoding any more.
pub get-remove :
    (b : Block) (t u : ℕ)
    → u ≢ t
    → (get (remove b t) t ≡ err (no_sub_element t (type b)))
      × (get (remove b t) u ≡ get b u)
      × (has_wire (remove b t) ≡ false)
unfolding get remove
get-remove b t u ne =
    let f = find-remove_all t u (elements b) in (rw (f.0, get), rw (f.1 ne, get), refl)

erase_range-insert_at :
    (pos : ℕ) (e : Block) (bs : Blocks)
    → pos ≤ length (to_list bs)
    → erase_range pos 1 (insert_at pos e bs) ≡ bs
unfolding erase_range insert_at
erase_range-insert_at zero e nil h = refl
erase_range-insert_at zero e (cons b bs) h = refl
erase_range-insert_at (suc pos) e nil h = absurd (omega arith)
erase_range-insert_at (suc pos) e (cons b bs) h =
    ap (cons b) (erase_range-insert_at pos e bs (omega arith))

-- Erasing the position where an element was inserted, which is at most the number of
-- sub-elements, gives the sub-elements back.
pub erase-insert :
    (b e : Block) (pos : ℕ)
    → pos ≤ length (to_list (elements b))
    → elements (erase (insert b pos e) pos (pos + 1)) ≡ elements b
unfolding erase insert
erase-insert b e pos h =
    let one : pos + 1 - pos ≡ 1 = omega arith in rw one (erase_range-insert_at pos e (elements b) h)

inserted :
    (pos : ℕ) (e : Block) (bs : Blocks)
    → to_list (insert_at pos e bs) ≡ take pos (to_list bs) ++ (e ∷ drop pos (to_list bs))
unfolding insert_at
inserted zero e bs = refl
inserted (suc pos) e nil = refl
inserted (suc pos) e (cons b bs) = ap (λ cs. b ∷ cs) (inserted pos e bs)

-- Insert puts the element at its position among the sub-elements and drops the wire encoding, so
-- that encode() then writes the shortest encoding of the TLV-TYPE and of all sub-elements with
-- the inserted one.
pub encode-insert :
    (b e : Block) (pos : ℕ)
    → (to_list (elements (insert b pos e))
        ≡ take pos (to_list (elements b)) ++ (e ∷ drop pos (to_list (elements b))))
      × IsWritten (type b) (encodings (elements (insert b pos e))) (encode (insert b pos e))
unfolding insert
encode-insert b e pos = (inserted pos e (elements b), encode-IsWritten (insert b pos e) refl)
