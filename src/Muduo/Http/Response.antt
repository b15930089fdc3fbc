-- ===== src/Muduo/Http/Response.antt =====
-- muduo/http/httpserver.hpp, HttpResponse, and HttpServer::MakeResponse, whose payload is given to
-- the connection. The headers are printed in the order of their list, the hash map's is not fixed.
pub mod Headers
mod Tests
use linux_os.Base.{
  ℕ, zero, suc, ◌+◌, ◌/◌, ◌%◌, List, [], ◌∷◌, ◌++◌, Option, none, some, Bool, true, false, not,
  ◌&&◌, ltb, if◌then◌else◌, length,
}
use linux_os.Muduo.Http.Paths.{Text, text_eq, insert, is_empty}
use linux_os.Muduo.Http.Message.{
  TextMap, HttpRequest, has, value_or_empty, is_keep_alive, connection_key, content_length_key,
  keep_alive_text, http_1_1,
}
use linux_os.Muduo.Http.Tables.{get_status_desc, octet_stream}

pub record HttpResponse : Type 0 where
  pub code : ℕ
  pub headers : TextMap
  pub body : Text
  pub redirect_flag : Bool
  pub redirect_uri : Text

unfoldable pub new_response : ℕ → HttpResponse
new_response code = record {
  code = code;
  headers = [];
  body = [];
  redirect_flag = false;
  redirect_uri = [];
}

unfoldable pub set_header : HttpResponse → Text → Text → HttpResponse
unfolding insert
set_header resp key val = record resp { headers = insert key val resp.headers }

-- "Content-Type"
abbrev pub content_type_key : Text
content_type_key =
    b'C' ∷ b'o' ∷ b'n' ∷ b't' ∷ b'e' ∷ b'n' ∷ b't' ∷ b'-' ∷ b'T' ∷ b'y' ∷ b'p' ∷ b'e' ∷ []

-- "Location"
abbrev pub location_key : Text
location_key = b'L' ∷ b'o' ∷ b'c' ∷ b'a' ∷ b't' ∷ b'i' ∷ b'o' ∷ b'n' ∷ []

-- "close"
abbrev pub close_text : Text
close_text = b'c' ∷ b'l' ∷ b'o' ∷ b's' ∷ b'e' ∷ []

-- "HEAD"
abbrev pub head_method : Text
head_method = b'H' ∷ b'E' ∷ b'A' ∷ b'D' ∷ []

unfoldable pub set_content : HttpResponse → Text → Text → HttpResponse
unfolding set_header
set_content resp body type = set_header (record resp { body = body }) content_type_key type

unfoldable pub set_redirect : HttpResponse → Text → ℕ → HttpResponse
set_redirect resp uri code = record resp { code = code; redirect_flag = true; redirect_uri = uri }

unfoldable pub keeps_alive : HttpResponse → Bool
unfolding has value_or_empty text_eq
keeps_alive resp =
    has connection_key resp.headers
    && text_eq (value_or_empty connection_key resp.headers) keep_alive_text

-- `std::to_string`, with as many rounds as there can be digits.
unfoldable pub decimal_digits : ℕ → ℕ → Text
decimal_digits zero n = []
decimal_digits (suc f) n =
    let front = decimal_digits f (n / 10) in
    if ltb n 10 then (b'0' + n) ∷ [] else front ++ (b'0' + n % 10) ∷ []

unfoldable pub decimal : ℕ → Text
unfolding decimal_digits
decimal n = decimal_digits (n + 1) n

unfoldable pub set_connection : HttpRequest → HttpResponse → HttpResponse
unfolding set_header is_keep_alive
set_connection req resp =
    set_header resp connection_key (if is_keep_alive req then keep_alive_text else close_text)

unfoldable pub set_length : HttpResponse → HttpResponse
unfolding has set_header decimal
set_length resp =
    if not (is_empty resp.body) && not (has content_length_key resp.headers)
    then set_header resp content_length_key (decimal (length resp.body))
    else if is_empty resp.body && not (has content_length_key resp.headers)
    then set_header resp content_length_key (b'0' ∷ [])
    else resp

unfoldable pub set_type : HttpResponse → HttpResponse
unfolding has set_header
set_type resp =
    if not (is_empty resp.body) && not (has content_type_key resp.headers)
    then set_header resp content_type_key octet_stream
    else resp

unfoldable pub set_location : HttpResponse → HttpResponse
unfolding set_header
set_location resp =
    if resp.redirect_flag then set_header resp location_key resp.redirect_uri else resp

-- The headers that MakeResponse adds.
unfoldable pub complete : HttpRequest → HttpResponse → HttpResponse
unfolding set_connection set_length set_type set_location
complete req resp = set_location (set_type (set_length (set_connection req resp)))

abbrev crlf : Text
crlf = b'\r' ∷ b'\n' ∷ []

unfoldable pub print_headers : TextMap → Text
print_headers [] = []
print_headers ((key, val) ∷ m) = key ++ (b':' ∷ b' ' ∷ val) ++ crlf ++ print_headers m

unfoldable pub print_response : HttpRequest → HttpResponse → Text
unfolding decimal get_status_desc print_headers text_eq
print_response req resp =
    (if is_empty req.http_version then http_1_1 else req.http_version)
    ++ (b' ' ∷ decimal resp.code)
    ++ (b' ' ∷ get_status_desc resp.code)
    ++ crlf
    ++ print_headers resp.headers
    ++ crlf
    ++ (if text_eq req.method head_method then [] else resp.body)

-- The response with its headers, and the payload.
unfoldable pub make_response : HttpRequest → HttpResponse → HttpResponse × Text
unfolding complete print_response
make_response req resp = let resp' = complete req resp in (resp', print_response req resp')
