-- ===== src/Muduo/Http/Server/Files.antt =====
-- Which files a request can reach.
use linux_os.Base.{◌≡◌, false, Bool-cases, inl, inr}
use linux_os.Muduo.Http.Paths.{is_empty}
use linux_os.Muduo.Http.Message.{HttpRequest}
use linux_os.Muduo.Http.Response.{HttpResponse}
use linux_os.Muduo.Http.Server.{
  FileSystem, HttpServer, stays_below, is_reading, is_file_handler, route_request,
}

is_file_handler-below :
    (files : FileSystem) (server : HttpServer) (req : HttpRequest)
    → stays_below req.path ≡ false
    → is_file_handler files server req ≡ false
unfolding is_file_handler
is_file_handler-below files server req h = elim (Bool-cases (is_reading req)) [
  | inl e ↦ elim (Bool-cases (is_empty req.path)) [ inl e' ↦ rw (e, e') | inr e' ↦ rw (e, e', h) ]
  | inr e ↦ rw e
]

-- The answer to a path that IsValidPath refuses does not depend on the files: no file is looked at.
pub route_request-no_files :
    (files files' : FileSystem) (server : HttpServer) (req : HttpRequest) (resp : HttpResponse)
    → stays_below req.path ≡ false
    → route_request files server req resp ≡ route_request files' server req resp
unfolding route_request
route_request-no_files files files' server req resp h =
    rw (is_file_handler-below files server req h, is_file_handler-below files' server req h)
