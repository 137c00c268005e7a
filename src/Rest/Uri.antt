-- ===== src/Rest/Uri.antt =====
-- `encodeURIComponent`, as the clients of packages/js/client/src/rest call it on the names that stand in a
-- path. A name holds no lone surrogate.
pub mod Segments
use Prim.Native.String.{[], ◌∷◌}
use bfw_engine.Common.{
  String, Char, code, ℕ, zero, suc, ◌+◌, ◌/◌, ◌%◌, Bool, true, false, ◌||◌, ◌&&◌, leb, ltb, eqb,
  is_digit, if◌then◌else◌,
}

-- whether a character is one of a text
abbrev pub occurs : ℕ → String → Bool
occurs c [] = false
occurs c (d ∷ s) = eqb (code d) c || occurs c s

abbrev pub unreserved : ℕ → Bool
unreserved c =
    is_digit c || (leb b'a' c && leb c b'z') || (leb b'A' c && leb c b'Z') || occurs c "-_.!~*'()"

pub data Bytes : Type 0 where
  stop : Bytes
  byte : ℕ → Bytes → Bytes

-- the bytes of a character in UTF-8
abbrev pub utf8 : ℕ → Bytes
utf8 c =
    if ltb c 0x80
    then byte c stop
    else if ltb c 0x800
    then byte (0xc0 + c / 64) (byte (0x80 + c % 64) stop)
    else if ltb c 0x10000
    then byte (0xe0 + c / 4096) (byte (0x80 + c / 64 % 64) (byte (0x80 + c % 64) stop))
    else byte (0xf0 + c / 262144)
        (byte (0x80 + c / 4096 % 64) (byte (0x80 + c / 64 % 64) (byte (0x80 + c % 64) stop)))

-- the character at a place of a table
abbrev pub char_at : ℕ → Char → String → Char
char_at n c [] = c
char_at zero c (d ∷ s) = d
char_at (suc n) c (d ∷ s) = char_at n c s

abbrev pub hex_digit : ℕ → Char
hex_digit n = char_at n "0" "0123456789ABCDEF"

-- bytes in front of what is encoded already
abbrev pub escape : Bytes → String → String
escape stop rest = rest
escape (byte b bytes) rest = "%" ∷ hex_digit (b / 16) ∷ hex_digit (b % 16) ∷ escape bytes rest

unfoldable pub encode_uri_component : String → String
encode_uri_component [] = []
encode_uri_component (c ∷ s) =
    let rest = encode_uri_component s in
    if unreserved (code c) then c ∷ rest else escape (utf8 (code c)) rest
