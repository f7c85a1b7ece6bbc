-- ===== src/Name/Loops.antt =====
-- ndn-cxx/name.cpp: what the loops over components build and compare.
use ndn_cxx_gm.Base.{
  ℕ, zero, suc, ◌+◌, ◌≡◌, ◌≤◌, ◌<◌, refl, sym, ap, ◌∙◌, List, [], ◌∷◌, ◌++◌, some, length,
  get_elem?, take, drop, ok, arith, append-nil, append_assoc, ◌&&◌,
}
use ndn_cxx_gm.Block.{Block, Blocks, nil, cons, elements, to_list}
use ndn_cxx_gm.Block.Elements.{snoc}
use ndn_cxx_gm.Component.Order
use ndn_cxx_gm.Name.{
  get, components, size, at_index, append, sub_name_loop, same_loop, compare_loop, pos, same_round,
  compare_round,
}

to_list-snoc : (bs : Blocks) (b : Block) → to_list (snoc bs b) ≡ to_list bs ++ (b ∷ [])
to_list-snoc nil b = refl
to_list-snoc (cons c bs) b = ap (λ cs. c ∷ cs) (to_list-snoc bs b)

pub components-append :
    (name comp : Block) → components (append name comp) ≡ components name ++ (comp ∷ [])
unfolding append
components-append name comp = to_list-snoc (elements name) comp

get_elem?-drop :
    (cs : List Block) (i : ℕ)
    → i < length cs
    → (c : Block) × (get_elem? cs i ≡ some c) × (drop i cs ≡ c ∷ drop (suc i) cs)
get_elem?-drop [] i h = absurd (omega arith)
get_elem?-drop (c ∷ cs) zero h = (c, refl, refl)
get_elem?-drop (c ∷ cs) (suc i) h = get_elem?-drop cs i (omega arith)

at_index-some :
    (name : Block) (i : ℕ) (c : Block) → get name i ≡ some c → at_index name (pos i) ≡ ok c
unfolding at_index
at_index-some name i c e = rw (e, at_index)

-- The components from position `i` on begin with the one that at(i) returns.
pub at_index-drop :
    (name : Block) (i : ℕ)
    → i < size name
    → (c : Block) × (at_index name (pos i) ≡ ok c)
      × (drop i (components name) ≡ c ∷ drop (suc i) (components name))
at_index-drop name i h =
    let (c, e, d) = get_elem?-drop (components name) i h in (c, at_index-some name i c e, d)

-- The loop of getSubName appends the components in [i, i + count).
pub sub_name_loop-lem :
    (count i : ℕ) (name result : Block)
    → i + count ≤ size name
    → (r : Block) × (sub_name_loop count i name result ≡ ok r)
      × (components r ≡ components result ++ take count (drop i (components name)))
unfolding sub_name_loop
sub_name_loop-lem zero i name result h = (result, refl, sym (append-nil (components result)))
sub_name_loop-lem (suc count) i name result h =
    let (c, at, d) = at_index-drop name i (omega arith) in
    let (r, e, cs) = sub_name_loop-lem count (suc i) name (append result c) (omega arith) in
    (
      r,
      rw (at, e),
      cs
          ∙ ap (λ front. front ++ take count (drop (suc i) (components name)))
              (components-append result c)
          ∙ append_assoc (components result) (c ∷ []) (take count (drop (suc i) (components name)))
          ∙ ap (λ back. components result ++ take (suc count) back) (sym d),
    )

pub same_loop-suc :
    (count i : ℕ) (c d : Block) (cs ds : List Block)
    → same_loop count (suc i) (c ∷ cs) (d ∷ ds) ≡ same_loop count i cs ds
unfolding same_loop
same_loop-suc zero i c d cs ds = refl
same_loop-suc (suc count) i c d cs ds =
    ap (same_round (get_elem? cs i) (get_elem? ds i)) (same_loop-suc count (suc i) c d cs ds)

pub compare_loop-suc :
    (count i : ℕ) (c d : Block) (cs ds : List Block)
    → compare_loop count (suc i) 0 0 (c ∷ cs) (d ∷ ds) ≡ compare_loop count i 0 0 cs ds
unfolding compare_loop
compare_loop-suc zero i c d cs ds = refl
compare_loop-suc (suc count) i c d cs ds =
    let z : 0 + suc i ≡ suc i = omega arith in
    let z' : 0 + i ≡ i = omega arith in
    rw (z, z')
      (ap (compare_round (get_elem? cs i) (get_elem? ds i))
        (compare_loop-suc count (suc i) c d cs ds))

-- Comparing a whole list with another, or with as much of its front, is the same.
pub same_loop-take :
    (cs ds : List Block)
    → length cs ≤ length ds
    → same_loop (length cs) 0 cs ds ≡ same_loop (length cs) 0 cs (take (length cs) ds)
unfolding same_loop
same_loop-take [] ds h = refl
same_loop-take (c ∷ cs) [] h = absurd (omega arith)
same_loop-take (c ∷ cs) (d ∷ ds) h =
    ap (λ b. Order.equals c d && b)
      (same_loop-suc (length cs) 0 c d cs ds
        ∙ same_loop-take cs ds (omega arith)
        ∙ sym (same_loop-suc (length cs) 0 c d cs (take (length cs) ds)))
