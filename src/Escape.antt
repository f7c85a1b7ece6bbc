-- ===== src/Escape.antt =====
-- ndn-cxx/util/string-helper.hpp and string-helper.cpp: percent-encoding. A char is its byte.
mod Runs
use ndn_cxx_gm.Base.{
  ℕ, ◌+◌, ◌-◌, ◌*◌, ◌/◌, ◌%◌, ◌≡◌, refl, ap, ◌∙◌, List, [], ◌∷◌, Bool, true, false, ◌&&◌, ◌||◌,
  Option, none, some, leb, ltb, ◌==◌, if◌then◌else◌, arith, All, Bool-cases, inl, inr, ◌<◌, ap₂,
}
use ndn_cxx_gm.Base.Bits.{IsByte}

-- toHexChar in upper case: "0123456789ABCDEF"[n & 0xf].
unfoldable pub to_hex_char : ℕ → ℕ
to_hex_char n = if ltb (n % 16) 10 then 48 + n % 16 else 55 + n % 16

-- fromHexChar; -1 is `none`.
unfoldable pub from_hex_char : ℕ → Option ℕ
from_hex_char c =
    if leb 48 c && leb c 57
    then some (c - 48)
    else if leb 65 c && leb c 70
    then some (c - 65 + 10)
    else if leb 97 c && leb c 102
    then some (c - 97 + 10)
    else none

-- The test of escape for characters that stand for themselves.
unfoldable pub is_unreserved : ℕ → Bool
is_unreserved c =
    (leb 97 c && leb c 122)
    || (leb 65 c && leb c 90)
    || (leb 48 c && leb c 57)
    || (c == 45)
    || (c == 46)
    || (c == 95)
    || (c == 126)

unfoldable pub escape : List ℕ → List ℕ
escape [] = []
escape (c ∷ str) =
    let rest = escape str in
    if is_unreserved c
    then c ∷ rest
    else 37 ∷ to_hex_char (c / 16 % 16) ∷ to_hex_char (c % 16) ∷ rest

-- What unescape writes in front of `rest` for '%', `a` and `b`, given fromHexChar of `a` and `b`.
abbrev pub unescape_three : Option ℕ → Option ℕ → ℕ → ℕ → List ℕ → List ℕ
unescape_three none lo a b rest = 37 ∷ a ∷ b ∷ rest
unescape_three (some hi) none a b rest = 37 ∷ a ∷ b ∷ rest
unescape_three (some hi) (some lo) a b rest = (hi * 16 + lo) ∷ rest

unfoldable pub unescape : List ℕ → List ℕ
unescape [] = []
unescape (c ∷ []) = c ∷ []
unescape (c ∷ a ∷ []) = c ∷ a ∷ []
unescape (c ∷ a ∷ b ∷ str) = elim (c == 37) [
  | true ↦ unescape_three (from_hex_char a) (from_hex_char b) a b (unescape str)
  | false ↦ c ∷ unescape (a ∷ b ∷ str)
]

hex_digit : (n : ℕ) → n < 16 → from_hex_char (to_hex_char n) ≡ some n
unfolding from_hex_char to_hex_char
hex_digit n h = ground arith

unescape_plain : (c : ℕ) (str : List ℕ) → (c == 37) ≡ false → unescape (c ∷ str) ≡ c ∷ unescape str
unfolding unescape
unescape_plain c [] h = refl
unescape_plain c (a ∷ []) h = refl
unescape_plain c (a ∷ b ∷ str) h = rw (h, unescape)

plain : (c : ℕ) → is_unreserved c ≡ true → (c == 37) ≡ false
unfolding is_unreserved
plain c e = ground arith

escaped :
    (hi lo : ℕ) (s : List ℕ)
    → hi < 16
    → lo < 16
    → unescape (37 ∷ to_hex_char hi ∷ to_hex_char lo ∷ s) ≡ (hi * 16 + lo) ∷ unescape s
unfolding unescape
escaped hi lo s h h' = rw (hex_digit hi h, hex_digit lo h')

-- Unescape gives back every string of bytes that escape has percent-encoded.
pub unescape-escape : (str : List ℕ) → All IsByte str → unescape (escape str) ≡ str
unfolding escape
unescape-escape [] h = unfold unescape in refl
unescape-escape (c ∷ str) h =
    let byte : c < 256 = h.0 in
    let ih = unescape-escape str h.1 in
    elim (Bool-cases (is_unreserved c)) [
      | inl e ↦ rw e (unescape_plain c (escape str) (plain c e) ∙ ap (λ s. c ∷ s) ih)
      | inr e ↦ rw e (
          escaped (c / 16 % 16) (c % 16) (escape str) (omega arith) (omega arith)
          ∙ ap₂ (λ b s. b ∷ s) (omega arith) ih)
    ]
