-- ===== src/Name/Keys.antt =====
-- ndn-cxx/name.cpp: compare and isPrefixOf on names whose components are in the shortest form, by the
-- key of a name. Such names are equal under equals exactly where their keys are.
use ndn_cxx_gm.Base.{
  ℕ, suc, ◌≡◌, ◌≤◌, ◌<◌, ◌^◌, ◌⊎◌, inl, inr, ◌∙◌, refl, sym, ap, ap₂, List, [], ◌∷◌, Bool, true,
  false, ◌&&◌, Ordering, arith, length, ltb, if◌then◌else◌, Bool-cases,
}
use ndn_cxx_gm.Base
use ndn_cxx_gm.Base.Memory.{then_by, memcmp, is_eq, compare-eq}
use ndn_cxx_gm.Block.{Block}
use ndn_cxx_gm.Component.Order
use ndn_cxx_gm.Component.Canonical.{canonical}
use ndn_cxx_gm.Component.Compare.{IsComparable, Holds, compare-canonical, equals-compare}
use ndn_cxx_gm.Name.{components, size, compare, is_prefix_of, same_loop}
use ndn_cxx_gm.Name.Loops.{same_loop-suc}
use ndn_cxx_gm.Name.Lexicographic.{lexicographic, compare-lexicographic}
use ndn_cxx_gm.Name.Lex.{IsOrder, compare-IsOrder, lex, prefix, lex-IsOrder, Ordering-cases}

-- TLV-TYPE, TLV-LENGTH and the bytes of each component.
abbrev pub Key : Type 0
Key = List (List ℕ)

abbrev pub code : ℕ → List ℕ → List ℕ
code t v = t ∷ length v ∷ v

abbrev pub key_compare : Key → Key → Ordering
key_compare = lex (lex Base.compare)

abbrev pub key_prefix : Key → Key → Bool
key_prefix = prefix (lex Base.compare)

pub key_compare-IsOrder : IsOrder key_compare
key_compare-IsOrder = lex-IsOrder (lex Base.compare) (lex-IsOrder Base.compare compare-IsOrder)

-- A component in the shortest form, or not yet encoded, and its part of the key.
abbrev pub HasCode : Block → List ℕ → Type 0
HasCode c k = (t : ℕ) × (v : List ℕ) × IsComparable t v × Holds c t v × (k ≡ code t v)

abbrev pub HaveCodes : List Block → Key → Type 0
HaveCodes [] [] = Unit
HaveCodes [] (k ∷ ks) = ⊥
HaveCodes (c ∷ cs) [] = ⊥
HaveCodes (c ∷ cs) (k ∷ ks) = HasCode c k × HaveCodes cs ks

abbrev pub HasKey : Block → Key → Type 0
HasKey name key = HaveCodes (components name) key × (size name < 2 ^ 31)

memcmp-lex : (v w : List ℕ) → length v ≡ length w → memcmp (length v) v w ≡ lex Base.compare v w
unfolding memcmp lex
memcmp-lex [] [] h = refl
memcmp-lex [] (y ∷ w) h = absurd (omega arith)
memcmp-lex (x ∷ v) [] h = absurd (omega arith)
memcmp-lex (x ∷ v) (y ∷ w) h = ap (then_by (Base.compare x y)) (memcmp-lex v w (omega arith))

canonical-code :
    (t u : ℕ) (v w : List ℕ) → canonical t v u w ≡ lex Base.compare (code t v) (code u w)
unfolding lex
canonical-code t u v w =
    ap (then_by (Base.compare t u)) (elim (Ordering-cases (Base.compare (length v) (length w))) [
      | inl l ↦ rw l refl
      | inr (inr g) ↦ rw g refl
      | inr (inl e) ↦ rw e (memcmp-lex v w (compare-eq (length v) (length w) e))
    ])

compare-code :
    (c d : Block) (k l : List ℕ)
    → HasCode c k
    → HasCode d l
    → (Order.compare c d ≡ lex Base.compare k l) × (Order.equals c d ≡ is_eq (lex Base.compare k l))
compare-code c d k l (t, v, i, h, p) (u, w, j, g, q) =
    let same =
      compare-canonical c d t u v w i j h g
      ∙ canonical-code t u v w
      ∙ ap₂ (lex Base.compare) (sym p) (sym q) in
    (same, equals-compare c d t u v w i j h g ∙ ap is_eq same)

lexicographic-key :
    (cs ds : List Block) (ks ls : Key)
    → HaveCodes cs ks
    → HaveCodes ds ls
    → lexicographic cs ds ≡ key_compare ks ls
unfolding lex
lexicographic-key [] [] [] [] h g = refl
lexicographic-key [] (d ∷ ds) [] (l ∷ ls) h g = refl
lexicographic-key (c ∷ cs) [] (k ∷ ks) [] h g = refl
lexicographic-key (c ∷ cs) (d ∷ ds) (k ∷ ks) (l ∷ ls) h g =
    ap₂ then_by (compare-code c d k l h.0 g.0).0 (lexicographic-key cs ds ks ls h.1 g.1)
lexicographic-key [] ds (k ∷ ks) ls h g = absurd h
lexicographic-key (c ∷ cs) ds [] ls h g = absurd h
lexicographic-key cs [] ks (l ∷ ls) h g = absurd g
lexicographic-key cs (d ∷ ds) ks [] h g = absurd g

false_and : (a : Bool) {b : Bool} → false ≡ b → false ≡ (a && b)
false_and true h = h
false_and false h = refl

prefix-key :
    (cs ds : List Block) (ks ls : Key)
    → HaveCodes cs ks
    → HaveCodes ds ls
    → (if ltb (length ds) (length cs) then false else same_loop (length cs) 0 cs ds)
      ≡ key_prefix ks ls
unfolding prefix same_loop
prefix-key [] ds [] ls h g = ground arith
prefix-key (c ∷ cs) [] (k ∷ ks) [] h g = ground arith
prefix-key (c ∷ cs) (d ∷ ds) (k ∷ ks) (l ∷ ls) h g =
    let rest = prefix-key cs ds ks ls h.1 g.1 in
    let same = (compare-code c d k l h.0 g.0).1 in
    let step = same_loop-suc (length cs) 0 c d cs ds in
    elim (Bool-cases (ltb (length ds) (length cs))) [
      | inl short ↦
          let far : ltb (suc (length ds)) (suc (length cs)) ≡ true = ground (arith, short) in
          rw far (false_and (is_eq (lex Base.compare k l)) (rw short at rest))
      | inr fits ↦
          let near : ltb (suc (length ds)) (suc (length cs)) ≡ false = ground (arith, fits) in
          rw near (ap₂ (◌&&◌) same (step ∙ (rw fits at rest)))
    ]
prefix-key [] ds (k ∷ ks) ls h g = absurd h
prefix-key (c ∷ cs) ds [] ls h g = absurd h
prefix-key (c ∷ cs) [] (k ∷ ks) (l ∷ ls) h g = absurd g
prefix-key (c ∷ cs) (d ∷ ds) (k ∷ ks) [] h g = absurd g

-- compare and isPrefixOf on names of fewer than 2^31 components in the shortest form are the order and
-- the prefixes of their keys.
pub compare-key :
    (name other : Block) (k l : Key)
    → HasKey name k
    → HasKey other l
    → (compare name other ≡ key_compare k l) × (is_prefix_of name other ≡ key_prefix k l)
unfolding is_prefix_of
compare-key name other k l h g = (
  compare-lexicographic name other h.1 g.1
      ∙ lexicographic-key (components name) (components other) k l h.0 g.0,
  prefix-key (components name) (components other) k l h.0 g.0,
)
