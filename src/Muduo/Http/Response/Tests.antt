-- ===== src/Muduo/Http/Response/Tests.antt =====
-- Responses that are sent, and the theorem on one.
use linux_os.Base.{◌≡◌, refl, [], ◌∷◌}
use linux_os.Muduo.Http.Paths.{text_eq}
use linux_os.Muduo.Http.Tables.{get_mime}
use linux_os.Muduo.Http.Response.{HttpResponse, new_response, decimal}

decimal-test : decimal 4096 ≡ b'4' ∷ b'0' ∷ b'9' ∷ b'6' ∷ []
unfolding decimal
decimal-test = refl

-- "a.b.png"
get_mime-test :
    get_mime (b'a' ∷ b'.' ∷ b'b' ∷ b'.' ∷ b'p' ∷ b'n' ∷ b'g' ∷ [])
    ≡ b'i' ∷ b'm' ∷ b'a' ∷ b'g' ∷ b'e' ∷ b'/' ∷ b'p' ∷ b'n' ∷ b'g' ∷ []
unfolding get_mime text_eq
get_mime-test = refl

abbrev hello : HttpResponse
hello = record (new_response 200) { body = b'h' ∷ b'i' ∷ [] }
