-- ===== src/Tlv/Runs.antt =====
-- ndn-cxx/encoding/tlv.hpp on concrete bytes.
use ndn_cxx_gm.Base.{ℕ, ◌≡◌, refl, List, [], ◌∷◌, some, none, inl, inr, arith, All}
use ndn_cxx_gm.Base.Bits.{IsByte}
use ndn_cxx_gm.Tlv.{
  contiguous, input, read_number, read_number_slow, read_number_fast, read_word, read_var_number?,
  write_var_number,
}
use ndn_cxx_gm.Tlv.Numbers.{slow-eq-fast}

-- A VAR-NUMBER of three bytes, and one byte behind it.
abbrev three_hundred : List ℕ
three_hundred = 253 ∷ 1 ∷ 44 ∷ 9 ∷ []

three_hundred-IsByte : All IsByte three_hundred
three_hundred-IsByte = (omega arith, (omega arith, (omega arith, (omega arith, tt))))

read_three_hundred : read_var_number? contiguous three_hundred ≡ some (300, 9 ∷ [])
unfolding read_var_number? read_number read_number_fast read_word
read_three_hundred = refl

write_three_hundred : (write_var_number 300).0 ≡ 253 ∷ 1 ∷ 44 ∷ []
unfolding write_var_number
write_three_hundred = refl

read_cut : read_var_number? input (253 ∷ 1 ∷ []) ≡ none
unfolding read_var_number? read_number read_number_slow
read_cut = refl

read_longer_form : read_var_number? contiguous (253 ∷ 0 ∷ 8 ∷ []) ≡ some (8, [])
unfolding read_var_number? read_number read_number_fast read_word
read_longer_form = refl

slow-eq-fast_example : read_number_slow 2 three_hundred 0 ≡ read_number_fast 2 three_hundred
slow-eq-fast_example = slow-eq-fast 2 three_hundred (inr (inl refl)) three_hundred-IsByte
