-- ===== src/Escape/Runs.antt =====
-- ndn-cxx/util/string-helper.cpp on short strings.
use ndn_cxx_gm.Base.{◌≡◌, refl, [], ◌∷◌, arith}
use ndn_cxx_gm.Escape.{escape, unescape, unescape-escape, is_unreserved, to_hex_char, from_hex_char}

escape_run : escape (65 ∷ 47 ∷ []) ≡ 65 ∷ 37 ∷ 50 ∷ 70 ∷ []
unfolding escape is_unreserved to_hex_char
escape_run = refl

-- Not two hex digits: kept as it is.
unescape_invalid : unescape (37 ∷ 90 ∷ 50 ∷ 65 ∷ []) ≡ 37 ∷ 90 ∷ 50 ∷ 65 ∷ []
unfolding unescape from_hex_char
unescape_invalid = refl

unescape-escape_example : unescape (escape (65 ∷ 47 ∷ [])) ≡ 65 ∷ 47 ∷ []
unescape-escape_example = unescape-escape (65 ∷ 47 ∷ []) (omega arith, (omega arith, tt))
