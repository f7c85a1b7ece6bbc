-- ===== src/Regex/Literals.antt =====
-- Texts that ECMAScript, the grammar of std::regex, reads as a sequence of single characters, and
-- convertSpecialChar of ndn-cxx/util/regex, which makes them.
use ndn_cxx_gm.Base.{
  ℕ, ◌<◌, ◌≡◌, inl, inr, List, [], ◌∷◌, Bool, true, false, ◌||◌, ◌==◌, length, All, arith,
  Bool-cases,
}
use ndn_cxx_gm.Regex.Compiling.{convert_special_char, is_special}
use ndn_cxx_gm.Escape.{is_unreserved}

-- SyntaxCharacter: ^ $ \ . * + ? ( ) [ ] { } |
unfoldable pub is_syntax : ℕ → Bool
is_syntax c =
    c == b'^'
    || c == b'$'
    || c == b'\\'
    || c == b'.'
    || c == b'*'
    || c == b'+'
    || c == b'?'
    || c == b'('
    || c == b')'
    || c == b'['
    || c == b']'
    || c == b'{'
    || c == b'}'
    || c == b'|'

-- A text of PatternCharacters and of IdentityEscapes of syntax characters, and the characters that
-- it stands for.
pub data Literal : List ℕ → List ℕ → Type 0 where
  nothing : Literal [] []
  plain :
      {c : ℕ} {text chars : List ℕ}
      → is_syntax c ≡ false
      → Literal text chars
      → Literal (c ∷ text) (c ∷ chars)
  escaped :
      {c : ℕ} {text chars : List ℕ}
      → is_syntax c ≡ true
      → Literal text chars
      → Literal (b'\\' ∷ c ∷ text) (c ∷ chars)

-- A byte of Component::toUri: an unreserved one, `%`, or the `=` after a TLV-TYPE.
unfoldable pub is_uri_char : ℕ → Bool
unfolding is_unreserved
is_uri_char c = is_unreserved c || c == b'%' || c == b'='

-- toUri never gives an empty text.
abbrev pub IsUri : List ℕ → Type 0
IsUri uri = (0 < length uri) × All (λ c. is_uri_char c ≡ true) uri

special-is_syntax : (c : ℕ) → is_special c ≡ true → is_syntax c ≡ true
unfolding is_special is_syntax
special-is_syntax c h = ground (arith, h)

uri_char-is_syntax : (c : ℕ) → is_uri_char c ≡ true → is_special c ≡ false → is_syntax c ≡ false
unfolding is_special is_syntax is_uri_char
uri_char-is_syntax c u h = ground (arith, u, h)

-- A URI with its special characters escaped stands for its own characters.
pub convert_special_char-Literal :
    (uri : List ℕ) → All (λ c. is_uri_char c ≡ true) uri → Literal (convert_special_char uri) uri
unfolding convert_special_char
convert_special_char-Literal [] h = nothing
convert_special_char-Literal (c ∷ uri) h =
    let others = convert_special_char-Literal uri h.1 in
    elim (Bool-cases (is_special c)) [
      | inl special ↦
          rw (special, convert_special_char) (escaped (special-is_syntax c special) others)
      | inr other ↦ rw (other, convert_special_char) (plain (uri_char-is_syntax c h.0 other) others)
    ]
