-- ===== src/Regex/Language.antt =====
-- The language of a regular expression on names, and ndn-cxx/util/regex as a decision of it.
use ndn_cxx_gm.Base.{
  ℕ, zero, suc, ◌≤◌, ◌<◌, ◌≡◌, refl, sym, ap, subst, List, [], ◌∷◌, ◌++◌, Bool, true, false, Option,
  none, some, length, take, drop, arith, ℕ_discrete, length-append, take-append, drop-append,
  take-append-drop, length-take, length-drop,
}
use ndn_cxx_gm.Regex.{try_lengths}

-- The answer is right about `G`: it was given, and it is true exactly where `G` holds.
abbrev pub Answers : Type 0 → Option Bool → Type 0
Answers G none = ⊥
Answers G (some false) = ¬ G
Answers G (some true) = G

pub Answers-iff : (G H : Type 0) (o : Option Bool) → (G → H) → (H → G) → Answers G o → Answers H o
Answers-iff G H none to from h = h
Answers-iff G H (some false) to from h = λ x. h (from x)
Answers-iff G H (some true) to from h = to h

module _ {N : Type 0} where
  -- A name that is one part of each language.
  abbrev pub Parts : (List N → Type 0) → (List N → Type 0) → List N → Type 0
  Parts P Q name = (a : List N) × (b : List N) × P a × Q b × (name ≡ a ++ b)

  -- A name of `n` parts of a language.
  abbrev pub Times : (List N → Type 0) → ℕ → List N → Type 0
  Times P zero name = name ≡ []
  Times P (suc n) name = Parts P (Times P n) name

  take_of_append :
      (t : ℕ) (name a b : List N)
      → name ≡ a ++ b
      → length a ≡ t
      → (take t name ≡ a) × (drop t name ≡ b)
  take_of_append t name a b e h = rw e (take-append t a b h, drop-append t a b h)

  -- Parts of which the first has at most `tried` components.
  abbrev PartsUpTo : ℕ → (List N → Type 0) → (List N → Type 0) → List N → Type 0
  PartsUpTo tried P Q name =
      (a : List N) × (b : List N) × P a × Q b × (name ≡ a ++ b) × (length a ≤ tried)

  -- The loop over the lengths answers whether there are such parts.
  module _ (P Q : List N → Type 0) (front rest : List N → Option Bool) (name : List N)
      (front-Answers : (a : List N) → length a ≤ length name → Answers (P a) (front a))
      (rest-Answers : (b : List N) → length b < length name → Answers (Q b) (rest b))
      (all-Answers : P [] → Answers (Q name) (rest name)) where
    no_parts : ¬ P [] → ¬ PartsUpTo 0 P Q name
    no_parts n ([], b, p, q, e, h) = n p
    no_parts n (x ∷ a, b, p, q, e, h) = omega arith

    first_empty : PartsUpTo 0 P Q name → Q name
    first_empty ([], b, p, q, e, h) = subst Q (sym e) q
    first_empty (x ∷ a, b, p, q, e, h) = absurd (omega arith)

    zero_lem :
        (o : Option Bool)
        → front [] ≡ o
        → Answers (PartsUpTo 0 P Q name) (try_lengths 0 front rest name)
    unfolding try_lengths
    zero_lem none e = absurd (subst (Answers (P [])) e (front-Answers [] (omega arith)))
    zero_lem (some false) e =
        rw (e, try_lengths) (no_parts (subst (Answers (P [])) e (front-Answers [] (omega arith))))
    zero_lem (some true) e =
        let p : P [] = subst (Answers (P [])) e (front-Answers [] (omega arith)) in
        rw (e, try_lengths)
          (Answers-iff (Q name) (PartsUpTo 0 P Q name) (rest name)
            (λ q. ([], name, p, q, refl, omega arith)) first_empty (all-Answers p))

    -- Parts whose first is not the one that was just tried are shorter.
    narrow :
        (t : ℕ)
        → ¬ (P (take (suc t) name) × Q (drop (suc t) name))
        → PartsUpTo (suc t) P Q name
        → PartsUpTo t P Q name
    narrow t n (a, b, p, q, e, h) = elim (ℕ_discrete (length a) (suc t)) [
      | no shorter ↦ (a, b, p, q, e, omega arith)
      | yes full ↦
          let (first, others) = take_of_append (suc t) name a b e full in
          absurd (n (subst P (sym first) p, subst Q (sym others) q))
    ]

    widen : (t : ℕ) → PartsUpTo t P Q name → PartsUpTo (suc t) P Q name
    widen t (a, b, p, q, e, h) = (a, b, p, q, e, omega arith)

    front_at : (t : ℕ) (o : Option Bool) → front (take t name) ≡ o → Answers (P (take t name)) o
    front_at t o e =
        subst (Answers (P (take t name))) e
          (front-Answers (take t name) (omega (arith, length-take t name)))

    rest_at :
        (t : ℕ) (o : Option Bool)
        → suc t ≤ length name
        → rest (drop (suc t) name) ≡ o
        → Answers (Q (drop (suc t) name)) o
    rest_at t o h e =
        subst (Answers (Q (drop (suc t) name))) e
          (rest-Answers (drop (suc t) name) (omega (arith, length-drop (suc t) name)))

    suc_lem :
        (t : ℕ) (o r : Option Bool)
        → suc t ≤ length name
        → front (take (suc t) name) ≡ o
        → rest (drop (suc t) name) ≡ r
        → Answers (PartsUpTo t P Q name) (try_lengths t front rest name)
        → Answers (PartsUpTo (suc t) P Q name) (try_lengths (suc t) front rest name)
    unfolding try_lengths
    suc_lem t none r h e f ih = absurd (front_at (suc t) none e)
    suc_lem t (some false) r h e f ih =
        rw (e, try_lengths)
          (Answers-iff (PartsUpTo t P Q name) (PartsUpTo (suc t) P Q name)
            (try_lengths t front rest name) (widen t)
            (narrow t (λ z. front_at (suc t) (some false) e z.0)) ih)
    suc_lem t (some true) none h e f ih = absurd (rest_at t none h f)
    suc_lem t (some true) (some false) h e f ih =
        rw (e, f, try_lengths)
          (Answers-iff (PartsUpTo t P Q name) (PartsUpTo (suc t) P Q name)
            (try_lengths t front rest name) (widen t)
            (narrow t (λ z. rest_at t (some false) h f z.1)) ih)
    suc_lem t (some true) (some true) h e f ih =
        rw (e, f, try_lengths)
          (
            take (suc t) name,
            drop (suc t) name,
            front_at (suc t) (some true) e,
            rest_at t (some true) h f,
            sym (take-append-drop (suc t) name),
            omega (arith, length-take (suc t) name),
          )

    first_fits : (z : Parts P Q name) → length z.0 ≤ length name
    first_fits z = omega (arith, ap length z.4, length-append z.0 z.1)

    try_lem :
        (tried : ℕ)
        → tried ≤ length name
        → Answers (PartsUpTo tried P Q name) (try_lengths tried front rest name)
    try_lem zero h = zero_lem (front []) refl
    try_lem (suc t) h =
        suc_lem t (front (take (suc t) name)) (rest (drop (suc t) name)) h refl refl
          (try_lem t (omega arith))

    -- The whole loop, from the full length on.
    pub try_lengths-Answers : Answers (Parts P Q name) (try_lengths (length name) front rest name)
    try_lengths-Answers =
        Answers-iff (PartsUpTo (length name) P Q name) (Parts P Q name)
          (try_lengths (length name) front rest name) (λ z. (z.0, z.1, z.2, z.3, z.4))
          (λ z. (z.0, z.1, z.2, z.3, z.4, first_fits z)) (try_lem (length name) (omega arith))
