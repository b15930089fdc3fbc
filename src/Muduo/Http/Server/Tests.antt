-- ===== src/Muduo/Http/Server/Tests.antt =====
-- A server with three routes, and the theorems on its answers.
use linux_os.Base.{◌≡◌, refl, [], ◌∷◌, ◌++◌, none, some, true, false}
use linux_os.Muduo.Http.Paths.{text_eq}
use linux_os.Muduo.Http.Message.{HttpRequest, new_request}
use linux_os.Muduo.Http.Response.{new_response}
use linux_os.Muduo.Http.Server.{
  FileSystem, RouteItem, HttpServer, get_method, stays_below, dispatcher, route_request,
}
use linux_os.Muduo.Http.Server.Order.{dispatcher-exact}
use linux_os.Muduo.Http.Server.Files.{route_request-no_files}

-- "/:x" and "/a", which answer with a code of their own.
abbrev any_route : RouteItem
any_route = record {
  pattern = b'/' ∷ b':' ∷ b'x' ∷ [];
  cb = λ req resp. record resp { code = 201 };
}

abbrev a_route : RouteItem
a_route = record { pattern = b'/' ∷ b'a' ∷ []; cb = λ req resp. record resp { code = 202 } }

abbrev a_request : HttpRequest
a_request = record new_request { method = get_method; path = b'/' ∷ b'a' ∷ [] }

-- "/../a"
abbrev climbing_request : HttpRequest
climbing_request = record new_request {
  method = get_method;
  path = b'/' ∷ b'.' ∷ b'.' ∷ b'/' ∷ b'a' ∷ [];
}

abbrev no_files : FileSystem
no_files = record { is_directory = λ f. false; is_regular = λ f. false; read_file = λ f. none }

abbrev all_files : FileSystem
all_files = record {
  is_directory = λ f. false;
  is_regular = λ f. true;
  read_file = λ f. some (b'x' ∷ []);
}

abbrev server : HttpServer
server = record {
  base_dir = b'w' ∷ [];
  get_routes = any_route ∷ a_route ∷ [];
  put_routes = [];
  post_routes = [];
  delete_routes = [];
}

-- A file goes before the routes.
route_request-file_test :
    (route_request all_files server a_request (new_response 200)).body ≡ b'x' ∷ []
unfolding route_request new_response new_request
route_request-file_test = refl

route_request-route_test : (route_request no_files server a_request (new_response 200)).code ≡ 202
unfolding route_request new_response new_request
route_request-route_test = refl

dispatcher-exact_example :
    dispatcher a_request (new_response 200) ((any_route ∷ []) ++ a_route ∷ [])
    ≡ a_route.cb a_request (new_response 200)
unfolding new_request text_eq
dispatcher-exact_example =
    dispatcher-exact a_request (new_response 200) (any_route ∷ []) [] a_route (refl, tt) refl

climbing_request-above : stays_below climbing_request.path ≡ false
unfolding stays_below new_request
climbing_request-above = refl

route_request-no_files_example :
    route_request no_files server climbing_request (new_response 200)
    ≡ route_request all_files server climbing_request (new_response 200)
route_request-no_files_example =
    route_request-no_files no_files all_files server climbing_request (new_response 200)
      climbing_request-above
