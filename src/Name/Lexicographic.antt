-- ===== src/Name/Lexicographic.antt =====
-- ndn-cxx/name.cpp: compare is the lexicographic order on components.
use ndn_cxx_gm.Base.{
  ℕ, zero, suc, ◌+◌, ◌-◌, ◌%◌, ◌^◌, ◌≡◌, ◌≤◌, ◌<◌, refl, sym, ap, ◌∙◌, List, [], ◌∷◌, Ordering,
  length, arith, min, ap₂,
}
use ndn_cxx_gm.Base
use ndn_cxx_gm.Base.Bits.{u32_mod, u64_mod}
use ndn_cxx_gm.Base.Memory.{then_by, then_by_assoc}
use ndn_cxx_gm.Block.{Block}
use ndn_cxx_gm.Component.Order
use ndn_cxx_gm.Component.Order.{sign}
use ndn_cxx_gm.Name.{components, size, compare, compare_range, compare_loop, npos}
use ndn_cxx_gm.Name.Loops.{compare_loop-suc}

-- The first components that differ decide; a name is below the names that it is a prefix of.
abbrev pub lexicographic : List Block → List Block → Ordering
lexicographic [] [] = Ordering.eq
lexicographic [] (d ∷ ds) = Ordering.lt
lexicographic (c ∷ cs) [] = Ordering.gt
lexicographic (c ∷ cs) (d ∷ ds) = then_by (Order.compare c d) (lexicographic cs ds)

compare_loop-lexicographic :
    (cs ds : List Block) (n : ℕ)
    → n ≡ min (length cs) (length ds)
    → then_by (compare_loop n 0 0 0 cs ds) (Base.compare (length cs) (length ds))
      ≡ lexicographic cs ds
unfolding compare_loop
compare_loop-lexicographic [] [] zero h = refl
compare_loop-lexicographic [] (d ∷ ds) zero h = ground arith
compare_loop-lexicographic (c ∷ cs) [] zero h = ground arith
compare_loop-lexicographic (c ∷ cs) (d ∷ ds) (suc n) h =
    let o = Order.compare c d in
    let ends : Base.compare (suc (length cs)) (suc (length ds))
        ≡ Base.compare (length cs) (length ds) =
      ground arith in
    then_by_assoc o (compare_loop n 1 0 0 (c ∷ cs) (d ∷ ds))
      (Base.compare (suc (length cs)) (suc (length ds)))
    ∙ ap (then_by o) (
        ap₂ then_by (compare_loop-suc n 0 c d cs ds) ends
        ∙ compare_loop-lexicographic cs ds n (omega arith))
compare_loop-lexicographic [] ds (suc n) h = absurd (omega arith)
compare_loop-lexicographic (c ∷ cs) [] (suc n) h = absurd (omega arith)
compare_loop-lexicographic (c ∷ cs) (d ∷ ds) zero h = absurd (omega arith)

size_sign :
    (n m : ℕ)
    → n < 2 ^ 31
    → m < 2 ^ 31
    → sign ((n + u64_mod - m) % u64_mod % u32_mod) ≡ Base.compare n m
size_sign n m h h' = ground arith

-- compare on names of fewer than 2^31 components is the lexicographic order of their components,
-- in the order that compare on components decides.
pub compare-lexicographic :
    (name other : Block)
    → size name < 2 ^ 31
    → size other < 2 ^ 31
    → compare name other ≡ lexicographic (components name) (components other)
unfolding compare compare_range
compare-lexicographic name other h h' =
    let n : min npos ((size name + u64_mod - 0) % u64_mod) ≡ size name = omega arith in
    let m : min npos ((size other + u64_mod - 0) % u64_mod) ≡ size other = omega arith in
    rw (n, m, size_sign (size name) (size other) h h')
      (compare_loop-lexicographic (components name) (components other)
        (min (size name) (size other)) refl)
