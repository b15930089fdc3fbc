-- ===== src/Muduo/Http/UrlCode/Tests.antt =====
-- Runs of the encoder and the decoder, and their round trip on a concrete text.
use linux_os.Base.{ℕ, ◌≡◌, refl, List, [], ◌∷◌, true, false, arith}
use linux_os.Muduo.Http.UrlCode.{url_encode, url_decode, encode_byte, keeps, hex_digit}
use linux_os.Muduo.Http.UrlCode.RoundTrip.{url_decode-url_encode}

-- "a &"
abbrev sample_text : List ℕ
sample_text = b'a' ∷ b' ' ∷ b'&' ∷ []

url_encode-test : url_encode sample_text true ≡ b'a' ∷ b'+' ∷ b'%' ∷ b'2' ∷ b'6' ∷ []
unfolding url_encode encode_byte keeps hex_digit
url_encode-test = refl

-- An escape at the end that lacks a digit stands for itself.
url_decode-test : url_decode (b'+' ∷ b'%' ∷ b'4' ∷ []) false ≡ b'+' ∷ b'%' ∷ b'4' ∷ []
unfolding url_decode
url_decode-test = refl

url_decode-url_encode_example : url_decode (url_encode sample_text true) true ≡ sample_text
url_decode-url_encode_example =
    url_decode-url_encode sample_text true (omega arith, (omega arith, (omega arith, tt)))
