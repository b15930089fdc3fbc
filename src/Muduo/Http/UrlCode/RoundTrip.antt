-- ===== src/Muduo/Http/UrlCode/RoundTrip.antt =====
-- Decoding takes an encoded text back.
use linux_os.Base.{
  ℕ, ◌/◌, ◌%◌, ◌<◌, ◌≡◌, refl, ap, List, [], ◌∷◌, ◌++◌, some, Bool, true, false, arith, ◌==◌,
  Bool-cases, inl, inr, ◌∙◌,
}
use linux_os.Muduo.Http.UrlCode.{
  hex_digit, hex_to_decimal, hex_pair, keeps, plain_byte, encode_byte, url_encode, url_decode,
}

hex_to_decimal-hex_digit : (n : ℕ) → n < 16 → hex_to_decimal (hex_digit n) ≡ some n
unfolding hex_to_decimal hex_digit
hex_to_decimal-hex_digit n h = ground arith

hex_pair-digits :
    (ch : ℕ) → ch < 256 → hex_pair (hex_digit (ch / 16)) (hex_digit (ch % 16)) ≡ some ch
unfolding hex_pair
hex_pair-digits ch h = ground (
  arith,
  hex_to_decimal-hex_digit (ch / 16) (omega arith),
  hex_to_decimal-hex_digit (ch % 16) (omega arith),
)

-- A byte that is no percent sign stands for itself.
url_decode-plain :
    (ch : ℕ) (url : List ℕ) (p : Bool)
    → (ch == b'%') ≡ false
    → url_decode (ch ∷ url) p ≡ plain_byte ch p ∷ url_decode url p
unfolding url_decode
url_decode-plain ch [] p h = refl
url_decode-plain ch (a ∷ []) p h = refl
url_decode-plain ch (a ∷ b ∷ url) p h = rw h

url_decode-escape :
    (ch : ℕ) (url : List ℕ) (p : Bool)
    → ch < 256
    → url_decode (b'%' ∷ hex_digit (ch / 16) ∷ hex_digit (ch % 16) ∷ url) p ≡ ch ∷ url_decode url p
unfolding url_decode
url_decode-escape ch url p h = rw (hex_pair-digits ch h)

keeps-plain :
    (ch : ℕ) (p : Bool) → keeps ch ≡ true → (plain_byte ch p ≡ ch) × ((ch == b'%') ≡ false)
unfolding keeps plain_byte
keeps-plain ch p h = ground arith

url_decode-space : (url : List ℕ) → url_decode (b'+' ∷ url) true ≡ b' ' ∷ url_decode url true
unfolding plain_byte
url_decode-space url = url_decode-plain b'+' url true refl

url_decode-encode_byte :
    (ch : ℕ) (url : List ℕ) (p : Bool)
    → ch < 256
    → url_decode (encode_byte ch p ++ url) p ≡ ch ∷ url_decode url p
unfolding encode_byte
url_decode-encode_byte ch url p h = elim (Bool-cases (keeps ch)) [
  | inl kept ↦
      let (same, ordinary) = keeps-plain ch p kept in
      rw kept (url_decode-plain ch url p ordinary ∙ ap (λ c. c ∷ url_decode url p) same)
  | inr other ↦ ground (arith, other, url_decode-escape ch url p h, url_decode-space url)
]

abbrev pub AllBytes : List ℕ → Type 0
AllBytes [] = Unit {0}
AllBytes (ch ∷ url) = (ch < 256) × AllBytes url

-- UrlDecode takes back what UrlEncode makes of a text of bytes, when both treat the plus sign alike.
pub url_decode-url_encode :
    (url : List ℕ) (p : Bool) → AllBytes url → url_decode (url_encode url p) p ≡ url
unfolding url_encode url_decode
url_decode-url_encode [] p h = refl
url_decode-url_encode (ch ∷ url) p h =
    url_decode-encode_byte ch (url_encode url p) p h.0
    ∙ ap (λ l. ch ∷ l) (url_decode-url_encode url p h.1)
