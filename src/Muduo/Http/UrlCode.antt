-- ===== src/Muduo/Http/UrlCode.antt =====
-- muduo/http/httpserver.hpp, Util::UrlEncode and Util::UrlDecode. `isalnum` is that of the C locale.
pub mod RoundTrip
mod Tests
use linux_os.Base.{
  ℕ, ◌+◌, ◌-◌, ◌*◌, ◌/◌, ◌%◌, List, [], ◌∷◌, ◌++◌, Option, none, some, Bool, true, false, ◌&&◌,
  ◌||◌, ltb, leb, ◌==◌, if◌then◌else◌,
}

unfoldable pub is_alnum : ℕ → Bool
is_alnum ch =
    (leb b'0' ch && leb ch b'9') || (leb b'A' ch && leb ch b'Z') || (leb b'a' ch && leb ch b'z')

-- `%02X` prints a byte as two of these digits.
unfoldable pub hex_digit : ℕ → ℕ
hex_digit n = if ltb n 10 then b'0' + n else b'A' + (n - 10)

unfoldable pub keeps : ℕ → Bool
unfolding is_alnum
keeps ch = ch == b'.' || ch == b'-' || ch == b'_' || ch == b'~' || is_alnum ch

-- The text that the loop appends for one byte.
unfoldable pub encode_byte : ℕ → Bool → List ℕ
encode_byte ch space_to_plus =
    if keeps ch
    then ch ∷ []
    else if ch == b' ' && space_to_plus
    then b'+' ∷ []
    else b'%' ∷ hex_digit (ch / 16) ∷ hex_digit (ch % 16) ∷ []

unfoldable pub url_encode : List ℕ → Bool → List ℕ
url_encode [] space_to_plus = []
url_encode (ch ∷ url) space_to_plus = encode_byte ch space_to_plus ++ url_encode url space_to_plus

-- `none` is -1.
unfoldable pub hex_to_decimal : ℕ → Option ℕ
hex_to_decimal hex =
    if leb b'0' hex && leb hex b'9'
    then some (hex - b'0')
    else if leb b'A' hex && leb hex b'F'
    then some (hex - b'A' + 10)
    else if leb b'a' hex && leb hex b'f'
    then some (hex - b'a' + 10)
    else none

-- The byte of two hexadecimal digits, if they are such.
unfoldable pub hex_pair : ℕ → ℕ → Option ℕ
unfolding hex_to_decimal
hex_pair a b = elim (hex_to_decimal a) [
  | none ↦ none
  | some left ↦ elim (hex_to_decimal b) [ none ↦ none | some right ↦ some (left * 16 + right) ]
]

-- What a byte stands for where no escape begins.
unfoldable pub plain_byte : ℕ → Bool → ℕ
plain_byte ch plus_to_space = if ch == b'+' && plus_to_space then b' ' else ch

-- The loop on the bytes from index `i` on; an escape wants two bytes behind the percent sign.
unfoldable pub url_decode : List ℕ → Bool → List ℕ
unfolding hex_pair plain_byte
url_decode [] plus_to_space = []
url_decode (ch ∷ []) plus_to_space = plain_byte ch plus_to_space ∷ []
url_decode (ch ∷ a ∷ []) plus_to_space =
    plain_byte ch plus_to_space ∷ plain_byte a plus_to_space ∷ []
url_decode (ch ∷ a ∷ b ∷ url) plus_to_space =
    let escaped = url_decode url plus_to_space in
    let plain = plain_byte ch plus_to_space ∷ url_decode (a ∷ b ∷ url) plus_to_space in
    if ch == b'%' then elim (hex_pair a b) [ none ↦ plain | some byte ↦ byte ∷ escaped ] else plain
