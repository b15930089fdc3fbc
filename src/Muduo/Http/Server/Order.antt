-- ===== src/Muduo/Http/Server/Order.antt =====
-- In which order Dispatcher tries the routes.
use linux_os.Base.{◌≡◌, List, [], ◌∷◌, ◌++◌, some, false}
use linux_os.Muduo.Http.Paths.{Text, text_eq}
use linux_os.Muduo.Http.Response.{HttpResponse}
use linux_os.Muduo.Http.Response.Headers.{text_eq_refl}
use linux_os.Muduo.Http.Message.{HttpRequest}
use linux_os.Muduo.Http.Server.{RouteItem, exact_route, dispatcher}

abbrev pub NoPattern : Text → List RouteItem → Type 0
NoPattern path [] = Unit {0}
NoPattern path (route ∷ routes) = (text_eq route.pattern path ≡ false) × NoPattern path routes

exact_route-append :
    (path : Text) (before after : List RouteItem) (route : RouteItem)
    → NoPattern path before
    → route.pattern ≡ path
    → exact_route (before ++ route ∷ after) path ≡ some route
unfolding exact_route
exact_route-append path [] after route none_before e = rw (e, text_eq_refl path)
exact_route-append path (r ∷ before) after route (ne, none_before) e =
    rw ne (exact_route-append path before after route none_before e)

-- The route that was registered first for exactly the path answers the request, also if a route
-- with parameters that matches the path was registered before it.
pub dispatcher-exact :
    (req : HttpRequest) (resp : HttpResponse) (before after : List RouteItem) (route : RouteItem)
    → NoPattern req.path before
    → route.pattern ≡ req.path
    → dispatcher req resp (before ++ route ∷ after) ≡ route.cb req resp
unfolding dispatcher
dispatcher-exact req resp before after route none_before e =
    rw (exact_route-append req.path before after route none_before e, dispatcher)
