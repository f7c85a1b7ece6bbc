-- ===== src/Component/Runs.antt =====
-- ndn-cxx/name-component.cpp and impl/name-component-types.hpp on small components.
use ndn_cxx_gm.Base.{ℕ, ◌≡◌, ◌≢◌, refl, List, [], ◌∷◌, arith, ok, true, inl, inr, Ordering}
use ndn_cxx_gm.Base.Memory.{memcmp}
use ndn_cxx_gm.Block.{Block, of_value}
use ndn_cxx_gm.Block.Parsing.{element}
use ndn_cxx_gm.Component.{typed_convention, either_convention, version, from_kind, to_kind, is_kind}
use ndn_cxx_gm.Component.Numbers.{from_kind-to_kind}
use ndn_cxx_gm.Component.Order
use ndn_cxx_gm.Component.Canonical.{canonical}
use ndn_cxx_gm.Component.Compare.{IsComparable, compare-canonical}
use ndn_cxx_gm.Component.Successor.{get_successor}
use ndn_cxx_gm.Component.Least.{get_successor-greater, get_successor-least}
use ndn_cxx_gm.Component.Advance.{IsName}

from_kind-to_kind_example :
    (c : Block) × (from_kind typed_convention version 300 ≡ ok c)
    × (is_kind either_convention version c ≡ true)
    × (to_kind either_convention version c ≡ ok 300)
from_kind-to_kind_example =
    from_kind-to_kind typed_convention either_convention version 300 (omega arith) refl

a-IsComparable : IsComparable 8 (65 ∷ [])
a-IsComparable = record { legal = omega arith; fits = omega arith; sized = omega arith }

b-IsComparable : IsComparable 8 (66 ∷ [])
b-IsComparable = record { legal = omega arith; fits = omega arith; sized = omega arith }

compare-canonical_example :
    Order.compare (element 8 (65 ∷ [])) (of_value 8 (66 ∷ [])) ≡ canonical 8 (65 ∷ []) 8 (66 ∷ [])
compare-canonical_example =
    compare-canonical (element 8 (65 ∷ [])) (of_value 8 (66 ∷ [])) 8 8 (65 ∷ []) (66 ∷ [])
      a-IsComparable b-IsComparable (inl refl) (inr (inl refl))

canonical_run : canonical 8 (65 ∷ []) 8 (66 ∷ []) ≡ Ordering.lt
unfolding memcmp
canonical_run = refl

a-IsName : IsName 8 (65 ∷ [])
a-IsName = record {
  legal = omega arith;
  fits = omega arith;
  digest = λ h. absurd (omega arith);
  sized = omega arith;
  bytes = (omega arith, tt);
}

b-IsName : IsName 8 (66 ∷ [])
b-IsName = record {
  legal = omega arith;
  fits = omega arith;
  digest = λ h. absurd (omega arith);
  sized = omega arith;
  bytes = (omega arith, tt);
}

get_successor-greater_example :
    (t' : ℕ) × (v' : List ℕ) × (get_successor (element 8 (65 ∷ [])) ≡ ok (element t' v'))
    × (canonical 8 (65 ∷ []) t' v' ≡ Ordering.lt)
get_successor-greater_example =
    get_successor-greater (element 8 (65 ∷ [])) 8 (65 ∷ []) (inl refl) a-IsName

get_successor-least_example :
    (t' : ℕ) × (v' : List ℕ) × (get_successor (element 8 (65 ∷ [])) ≡ ok (element t' v'))
    × (canonical t' v' 8 (66 ∷ []) ≢ Ordering.gt)
get_successor-least_example =
    get_successor-least (element 8 (65 ∷ [])) 8 8 (65 ∷ []) (66 ∷ []) (inl refl) a-IsName b-IsName
      canonical_run
