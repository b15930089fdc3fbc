-- ===== src/Muduo/Http/Server.antt =====
-- muduo/http/httpserver.hpp, HttpServer: how a request finds a file or a route. The files and the
-- registered callbacks are parameters.
pub mod Order
pub mod Files
mod Tests
use linux_os.Base.{
  ℕ, List, [], ◌∷◌, ◌++◌, Option, none, some, Bool, true, false, not, ◌&&◌, ◌||◌, if◌then◌else◌,
}
use linux_os.Muduo.Http.Paths.{
  Text, text_eq, is_empty, is_valid_path, build_file_path, index_html, match_route,
}
use linux_os.Muduo.Http.UrlCode.{url_decode}
use linux_os.Muduo.Buffer.{memchr}
use linux_os.Muduo.Http.Message.{TextMap, HttpRequest, set_path_param}
use linux_os.Muduo.Http.Tables.{get_status_desc, get_mime}
use linux_os.Muduo.Http.Response.{HttpResponse, set_content, decimal, head_method}

-- IsDirectory, IsRegular and ReadFile on the state of the file system; `none` is a failure to read.
pub record FileSystem : Type 0 where
  pub is_directory : Text → Bool
  pub is_regular : Text → Bool
  pub read_file : Text → Option Text

pub record RouteItem : Type 0 where
  pub pattern : Text
  pub cb : HttpRequest → HttpResponse → HttpResponse

pub record HttpServer : Type 0 where
  pub base_dir : Text
  pub get_routes : List RouteItem
  pub put_routes : List RouteItem
  pub post_routes : List RouteItem
  pub delete_routes : List RouteItem

-- "GET", "POST", "PUT" and "DELETE"
abbrev pub get_method : Text
get_method = b'G' ∷ b'E' ∷ b'T' ∷ []

abbrev pub post_method : Text
post_method = b'P' ∷ b'O' ∷ b'S' ∷ b'T' ∷ []

abbrev pub put_method : Text
put_method = b'P' ∷ b'U' ∷ b'T' ∷ []

abbrev pub delete_method : Text
delete_method = b'D' ∷ b'E' ∷ b'L' ∷ b'E' ∷ b'T' ∷ b'E' ∷ []

-- IsValidPath as a test.
unfoldable pub stays_below : Text → Bool
unfolding is_valid_path
stays_below path = elim (is_valid_path path) [ none ↦ false | some ok ↦ ok ]

-- The file for a path: `/index.html` behind a directory.
unfoldable pub real_path : FileSystem → HttpServer → Text → Text
unfolding build_file_path
real_path files server path =
    let built = build_file_path server.base_dir path in
    if files.is_directory built then built ++ b'/' ∷ index_html else built

unfoldable pub is_reading : HttpRequest → Bool
unfolding text_eq
is_reading req = text_eq req.method get_method || text_eq req.method head_method

unfoldable pub is_file_handler : FileSystem → HttpServer → HttpRequest → Bool
unfolding is_reading stays_below real_path
is_file_handler files server req =
    if not (is_reading req)
    then false
    else if is_empty req.path || not (stays_below req.path)
    then false
    else files.is_regular (real_path files server req.path)

unfoldable pub file_handler : FileSystem → HttpServer → HttpRequest → HttpResponse → HttpResponse
unfolding stays_below real_path set_content get_mime
file_handler files server req resp =
    let real = real_path files server req.path in
    if not (stays_below req.path)
    then (record resp { code = 403 })
    else if not (files.is_regular real)
    then (record resp { code = 404 })
    else elim (files.read_file real) [
      | none ↦ record resp { code = 500 }
      | some body ↦ set_content (record resp { code = 200 }) body (get_mime real)
    ]

-- The first loop of Dispatcher: the route whose pattern is the path.
unfoldable pub exact_route : List RouteItem → Text → Option RouteItem
unfolding text_eq
exact_route [] path = none
exact_route (route ∷ routes) path =
    let rest = exact_route routes path in if text_eq route.pattern path then some route else rest

-- The second loop: the first route with a colon that matches, and its parameters.
unfoldable pub parameter_route : List RouteItem → Text → Option (RouteItem × TextMap)
unfolding memchr match_route
parameter_route [] path = none
parameter_route (route ∷ routes) path =
    let rest = parameter_route routes path in
    elim (memchr b':' route.pattern) [
      | none ↦ rest
      | some at ↦ elim (match_route route.pattern path) [
        | none ↦ rest
        | some params ↦ some (route, params)
      ]
    ]

unfoldable pub set_path_params : HttpRequest → TextMap → HttpRequest
unfolding set_path_param
set_path_params req [] = req
set_path_params req ((key, val) ∷ params) = set_path_params (set_path_param req key val) params

unfoldable pub dispatcher : HttpRequest → HttpResponse → List RouteItem → HttpResponse
unfolding exact_route parameter_route set_path_params
dispatcher req resp routes = elim (exact_route routes req.path) [
  | some route ↦ route.cb req resp
  | none ↦ elim (parameter_route routes req.path) [
    | some (route, params) ↦ route.cb (set_path_params req params) resp
    | none ↦ record resp { code = 404 }
  ]
]

unfoldable pub route_request : FileSystem → HttpServer → HttpRequest → HttpResponse → HttpResponse
unfolding is_file_handler file_handler is_reading dispatcher text_eq
route_request files server req resp =
    if is_empty req.path
    then (record resp { code = 400 })
    else if is_file_handler files server req
    then file_handler files server req resp
    else if is_reading req
    then dispatcher req resp server.get_routes
    else if text_eq req.method post_method
    then dispatcher req resp server.post_routes
    else if text_eq req.method put_method
    then dispatcher req resp server.put_routes
    else if text_eq req.method delete_method
    then dispatcher req resp server.delete_routes
    else (record resp { code = 405 })
