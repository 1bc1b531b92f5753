-- ===== src/Tests/Web.antt =====
-- Requests through the default handlers, with a response that is its status.
use dgou_framework.Base.{
  ℕ, ◌≡◌, refl, true, false, [], ◌∷◌, codes, str_eq, empty_map, Bool, insert, str_discrete,
}
use dgou_framework.Config.Defaults.{default_config}
use dgou_framework.Bootstrap.Settings.{logger_config, monitor_config}
use dgou_framework.Middleware.Chain.{Gin, Request, panic_recovered, Context, returned, panicked}
use dgou_framework.App.Instance.{App, new_app, set_monitor}
use dgou_framework.App.Requests.{
  Starts, route_context, entry_of, metric_of, serve_request, serve_request_counts,
  serve_request_panic,
}

abbrev status_only : Gin
status_only = record { Response = ℕ; status = λ r. r; abort_json = λ n r. n; abort = λ n r. n }

abbrev app : App ℕ
app =
    set_monitor (monitor_config default_config)
      (new_app default_config (logger_config default_config))

no_handlers : app.engine ≡ []
unfolding new_app
no_handlers = refl

abbrev request : Request
request = record {
  method = codes "GET";
  path = codes "/profile";
  query = [];
  full_path = codes "/profile";
  client_ip = codes "10.0.0.1";
  user_agent = [];
  request_id_header = [];
  origin = [];
  tls = false;
}

abbrev start : Context status_only
start = record {
  request = request;
  keys = empty_map;
  header = empty_map;
  response = 200;
  logged = [];
  counted = [];
}

get_request : str_eq (codes "GET") (codes "OPTIONS") ≡ false
unfolding str_eq
get_request = refl

abbrev cors_on : Bool
cors_on = app.cfg.security.enable_cors

abbrev at_route : Context status_only
at_route = route_context cors_on app.cfg.security.allowed_origins (codes "u1") start

-- a route behind authentication: it notes the user and logs, and answers with status 200
abbrev signed_in : Context status_only → Context status_only
signed_in c = record c {
  keys = insert str_discrete (codes "user_id") (codes "7") c.keys;
  response = 200;
  logged = panic_recovered ∷ c.logged;
}

serve_request_counts_example :
    Starts (codes "u1") start at_route
    × ((e : Context status_only) × (serve_request app
            (codes "u1")
            true
            (λ c. returned (signed_in c))
            start
          ≡ returned e)
        × (e.response ≡ 200)
        × (e.counted ≡ metric_of (signed_in at_route) ∷ at_route.counted)
        × (e.logged ≡ entry_of request (signed_in at_route) ∷ panic_recovered ∷ at_route.logged))
serve_request_counts_example =
    serve_request_counts app (monitor_config default_config) no_handlers refl (codes "u1")
      (λ c. returned (signed_in c)) start (signed_in at_route) get_request refl

serve_request_panic_example :
    Starts (codes "u1") start at_route
    × ((e : Context status_only) × (serve_request app
            (codes "u1")
            true
            (λ c. panicked (signed_in c))
            start
          ≡ returned e)
        × (e.response ≡ 500)
        × (e.counted ≡ at_route.counted)
        × (e.logged ≡ panic_recovered ∷ panic_recovered ∷ at_route.logged))
serve_request_panic_example =
    serve_request_panic app (monitor_config default_config) no_handlers refl (codes "u1")
      (λ c. panicked (signed_in c)) start (signed_in at_route) get_request refl
