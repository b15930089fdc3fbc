-- ===== src/Muduo/Http/Session.antt =====
-- muduo/http/httpserver.hpp, HttpServer on a connection: OnConnect, OnMessage and ErrorHandler, with the
-- constructor and the registration of routes. Of the connection it keeps the context, the buffer,
-- the payloads that were given to Send, and whether ShutDown was called. It runs in the thread of the
-- connection's loop, where ShutDown runs ShutDownInLoop at once; what that does to the status and the
-- events of the socket is Muduo.Connection.
pub mod Ends
mod Tests
use linux_os.Base.{
  ℕ, zero, suc, ◌+◌, List, [], ◌∷◌, ◌++◌, Option, none, some, Bool, true, false, not, ◌&&◌, leb,
  ◌==◌, if◌then◌else◌,
}
use linux_os.Muduo.Buffer.{Buffer, readable_size, clear}
use linux_os.Muduo.Http.Paths.{Text, is_empty, ends_with_slash}
use linux_os.Muduo.Http.Parse.{pop_back_if}
use linux_os.Muduo.Http.Message.{HttpRequest}
use linux_os.Muduo.Http.Tables.{get_status_desc}
use linux_os.Muduo.Http.Response.{
  HttpResponse, new_response, set_content, decimal, keeps_alive, make_response,
}
use linux_os.Muduo.Http.Context.{
  HttpContext, recv_req_line, recv_req_over, recv_req_head, recv_req_body, recv_req_error,
  HttpRecvStatus, Run, returned, thrown, aborted, new_context, receive_http_request,
}
use linux_os.Muduo.Http.Server.{FileSystem, RouteItem, HttpServer, route_request}

-- The constructor: the directory without a slash at its end, and "." for none.
unfoldable pub new_server : Text → HttpServer
unfolding pop_back_if
new_server dir =
    let trimmed = pop_back_if b'/' dir in
    record {
      base_dir = if is_empty trimmed then b'.' ∷ [] else trimmed;
      get_routes = [];
      put_routes = [];
      post_routes = [];
      delete_routes = [];
    }

unfoldable pub add_route :
    Text → (HttpRequest → HttpResponse → HttpResponse) → List RouteItem → List RouteItem
add_route pattern cb routes = routes ++ (record { pattern = pattern; cb = cb }) ∷ []

-- The page up to the code, and from the description on.
abbrev page_start : Text
page_start =
    b'<' ∷ b'!' ∷ b'D' ∷ b'O' ∷ b'C' ∷ b'T' ∷ b'Y' ∷ b'P' ∷ b'E' ∷ b' ' ∷ b'h' ∷ b't' ∷ b'm' ∷ b'l'
    ∷ b'>' ∷ b'<' ∷ b'h' ∷ b't' ∷ b'm' ∷ b'l' ∷ b' ' ∷ b'l' ∷ b'a' ∷ b'n' ∷ b'g' ∷ b'=' ∷ b'\''
    ∷ b'e' ∷ b'n' ∷ b'\'' ∷ b'>' ∷ b'<' ∷ b'h' ∷ b'e' ∷ b'a' ∷ b'd' ∷ b'>' ∷ b'<' ∷ b'm' ∷ b'e'
    ∷ b't' ∷ b'a' ∷ b' ' ∷ b'c' ∷ b'h' ∷ b'a' ∷ b'r' ∷ b's' ∷ b'e' ∷ b't' ∷ b'=' ∷ b'\'' ∷ b'U'
    ∷ b'T' ∷ b'F' ∷ b'-' ∷ b'8' ∷ b'\'' ∷ b'>' ∷ b'<' ∷ b'm' ∷ b'e' ∷ b't' ∷ b'a' ∷ b' ' ∷ b'n'
    ∷ b'a' ∷ b'm' ∷ b'e' ∷ b'=' ∷ b'\'' ∷ b'v' ∷ b'i' ∷ b'e' ∷ b'w' ∷ b'p' ∷ b'o' ∷ b'r' ∷ b't'
    ∷ b'\'' ∷ b' ' ∷ b'c' ∷ b'o' ∷ b'n' ∷ b't' ∷ b'e' ∷ b'n' ∷ b't' ∷ b'=' ∷ b'\'' ∷ b'w' ∷ b'i'
    ∷ b'd' ∷ b't' ∷ b'h' ∷ b'=' ∷ b'd' ∷ b'e' ∷ b'v' ∷ b'i' ∷ b'c' ∷ b'e' ∷ b'-' ∷ b'w' ∷ b'i'
    ∷ b'd' ∷ b't' ∷ b'h' ∷ b',' ∷ b' ' ∷ b'i' ∷ b'n' ∷ b'i' ∷ b't' ∷ b'i' ∷ b'a' ∷ b'l' ∷ b'-'
    ∷ b's' ∷ b'c' ∷ b'a' ∷ b'l' ∷ b'e' ∷ b'=' ∷ b'1' ∷ b'.' ∷ b'0' ∷ b'\'' ∷ b'>' ∷ b'<' ∷ b't'
    ∷ b'i' ∷ b't' ∷ b'l' ∷ b'e' ∷ b'>' ∷ b'E' ∷ b'r' ∷ b'r' ∷ b'o' ∷ b'r' ∷ b'<' ∷ b'/' ∷ b't'
    ∷ b'i' ∷ b't' ∷ b'l' ∷ b'e' ∷ b'>' ∷ b'<' ∷ b'/' ∷ b'h' ∷ b'e' ∷ b'a' ∷ b'd' ∷ b'>' ∷ b'<'
    ∷ b'b' ∷ b'o' ∷ b'd' ∷ b'y' ∷ b'>' ∷ []

abbrev page_end : Text
page_end =
    b'<' ∷ b'/' ∷ b'b' ∷ b'o' ∷ b'd' ∷ b'y' ∷ b'>' ∷ b'<' ∷ b'/' ∷ b'h' ∷ b't' ∷ b'm' ∷ b'l' ∷ b'>'
    ∷ []

-- "text/html; charset=utf-8"
abbrev html_type : Text
html_type =
    b't' ∷ b'e' ∷ b'x' ∷ b't' ∷ b'/' ∷ b'h' ∷ b't' ∷ b'm' ∷ b'l' ∷ b';' ∷ b' ' ∷ b'c' ∷ b'h' ∷ b'a'
    ∷ b'r' ∷ b's' ∷ b'e' ∷ b't' ∷ b'=' ∷ b'u' ∷ b't' ∷ b'f' ∷ b'-' ∷ b'8' ∷ []

unfoldable pub error_handler : HttpResponse → HttpResponse
unfolding set_content decimal get_status_desc
error_handler resp =
    let desc = get_status_desc resp.code in
    set_content resp (page_start ++ decimal resp.code ++ (b':' ∷ b' ' ∷ []) ++ desc ++ page_end)
      html_type

pub record Session : Type 0 where
  pub context : Option HttpContext
  pub buffer : Buffer
  pub sent : List Text
  pub is_shut : Bool

-- OnConnect
unfoldable pub on_connect : Session → Session
unfolding new_context
on_connect s = record s { context = some new_context }

unfoldable pub current_context : Session → HttpContext
unfolding new_context
current_context s = elim s.context [ none ↦ new_context | some c ↦ c ]

unfoldable pub is_over : HttpRecvStatus → Bool
is_over recv_req_line = false
is_over recv_req_head = false
is_over recv_req_body = false
is_over recv_req_over = true
is_over recv_req_error = false

-- The answer to a request that the reader refused; ShutDown finds the buffer empty.
unfoldable pub refuse : HttpContext → Buffer → Session → Session
unfolding error_handler make_response clear
refuse c b s =
    let resp = error_handler (new_response c.resp_code) in
    record s {
      context = some c;
      buffer = clear b;
      sent = s.sent ++ (make_response c.request resp).1 ∷ [];
      is_shut = true;
    }

unfoldable pub respond : FileSystem → HttpServer → HttpContext → HttpResponse
unfolding route_request error_handler new_response
respond files server c =
    let resp = route_request files server c.request (new_response c.resp_code) in
    if leb 400 resp.code && is_empty resp.body then error_handler resp else resp

-- The answer to a complete request, and whether OnMessage goes on: in its loop, or, where it calls
-- ShutDown with bytes left in the buffer, in the call of OnMessage that ShutDownInLoop makes before
-- both return.
unfoldable pub answer : FileSystem → HttpServer → HttpContext → Buffer → Session → Bool × Session
unfolding respond make_response keeps_alive readable_size new_context
answer files server c b s =
    let (resp, payload) = make_response c.request (respond files server c) in
    let s' : Session = record s {
      context = some new_context;
      buffer = b;
      sent = s.sent ++ payload ∷ [];
    } in
    let more = not (readable_size b == 0) in
    if keeps_alive resp then (more, s') else (more, record s' { is_shut = true })

-- One round of OnMessage behind the reader.
unfoldable pub handle : FileSystem → HttpServer → HttpContext → Buffer → Session → Bool × Session
unfolding refuse answer is_over
handle files server c b s =
    let answered = answer files server c b s in
    if leb 400 c.resp_code
    then (false, refuse c b s)
    else if is_over c.status
    then answered
    else (false, record s { context = some c; buffer = b })

unfoldable pub then_handle :
    (Session → Run Session)
    → FileSystem
    → HttpServer
    → Session
    → Run (HttpContext × Buffer)
    → Run Session
unfolding handle
then_handle next files server s (returned (c, b)) =
    let (again, s') = handle files server c b s in
    elim again [ true ↦ next s' | false ↦ returned s' ]
then_handle next files server s thrown = thrown
then_handle next files server s aborted = aborted

unfoldable pub on_message_loop : ℕ → FileSystem → HttpServer → Session → Run Session
unfolding current_context receive_http_request then_handle
on_message_loop zero files server s = aborted
on_message_loop (suc f) files server s =
    then_handle (on_message_loop f files server) files server s
      (receive_http_request (current_context s) s.buffer)

-- Each round but the first takes a byte off the buffer.
unfoldable pub on_message : FileSystem → HttpServer → Session → Run Session
unfolding on_message_loop readable_size
on_message files server s = on_message_loop (readable_size s.buffer + 2) files server s
