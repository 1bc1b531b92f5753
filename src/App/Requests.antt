-- ===== src/App/Requests.antt =====
-- A request through the handlers that `RegisterDefaultMiddleware` of pkg/app/app.go registers.
use dgou_framework.Base.{
  ◌≡◌, refl, ◌∙◌, ap, Bool, true, false, Option, none, some, List, [], ◌∷◌, ◌++◌, insert_self,
  str_discrete, Str, codes, if◌then◌else◌, str_eq,
}
use dgou_framework.Middleware.Cors.{no_content, go_on, cors, cors_headers, allowed_origins}
use dgou_framework.Middleware.Chain.{
  Gin, Request, LogEntry, panic_recovered, http_request, Metric, Context, Ended, returned, panicked,
  id_key, is_empty, and_then, recovered, recovery_handler, identified, request_id_handler, disposed,
  with_origin, with_others, cors_handler, measure, monitor_handler, log_request, logger_handler,
}
use dgou_framework.App.Instance.{
  App, Handler, recovery, request_id, monitor_middleware, request_logger,
  register_default_middleware, when, is_set,
}
use dgou_framework.Bootstrap.Settings.{MonitorSettings}

-- The registered handlers, with a monitor and with or without CORS.
default_engine : Bool → List Str → List Handler
default_engine true allowed =
    recovery ∷ request_id ∷ Handler.cors allowed ∷ monitor_middleware ∷ request_logger ∷ []
default_engine false allowed = recovery ∷ request_id ∷ monitor_middleware ∷ request_logger ∷ []

abbrev pub with_id : Str → Request → Str
with_id uuid r = if is_empty r.request_id_header then uuid else r.request_id_header

registered :
    (b : Bool) (allowed : List Str)
    → (recovery ∷ request_id ∷ [])
        ++ when b (Handler.cors allowed)
        ++ when true monitor_middleware
        ++ (request_logger ∷ [])
      ≡ default_engine b allowed
unfolding default_engine
registered true allowed = refl
registered false allowed = refl

-- What the engine of an application with a monitor holds.
engine_default :
    {Conn : Type 0} (a : App Conn) (m : MonitorSettings)
    → a.engine ≡ []
    → a.monitor ≡ some m
    → (register_default_middleware a).engine
      ≡ default_engine a.cfg.security.enable_cors a.cfg.security.allowed_origins
unfolding register_default_middleware
engine_default a m empty set =
    let allowed = a.cfg.security.allowed_origins in
    ap
      (λ l.
        l
        ++ (recovery ∷ request_id ∷ [])
        ++ when a.cfg.security.enable_cors (Handler.cors allowed)
        ++ when (is_set a.monitor) monitor_middleware
        ++ (request_logger ∷ []))
      empty
    ∙ ap
        (λ o.
          (recovery ∷ request_id ∷ [])
          ++ when a.cfg.security.enable_cors (Handler.cors allowed)
          ++ when (is_set o) monitor_middleware
          ++ (request_logger ∷ []))
        set
    ∙ registered a.cfg.security.enable_cors allowed

abbrev pub label : Str → Str
label path = if is_empty path then codes "unknown" else path

module _ {g : Gin} where
  -- The handlers in the order of their registration, and then the route's.
  unfoldable pub run_handlers :
      (uuid : Str) (metrics : Bool) → List Handler → (Context g → Ended g) → Context g → Ended g
  unfolding recovery_handler request_id_handler cors_handler monitor_handler logger_handler
  run_handlers uuid metrics [] route = route
  run_handlers uuid metrics (recovery ∷ hs) route =
      recovery_handler (run_handlers uuid metrics hs route)
  run_handlers uuid metrics (request_id ∷ hs) route =
      request_id_handler uuid (run_handlers uuid metrics hs route)
  run_handlers uuid metrics (monitor_middleware ∷ hs) route =
      monitor_handler metrics (run_handlers uuid metrics hs route)
  run_handlers uuid metrics (request_logger ∷ hs) route =
      logger_handler (run_handlers uuid metrics hs route)
  run_handlers uuid metrics (Handler.cors allowed ∷ hs) route =
      cors_handler allowed (run_handlers uuid metrics hs route)

  -- What handlers before the route may change: headers only.
  abbrev pub Same : Context g → Context g → Type 0
  Same c d =
      (d.request ≡ c.request) × (d.keys ≡ c.keys) × (d.logged ≡ c.logged) × (d.counted ≡ c.counted)

  -- The log entry of a request with its start, and its metric, from the context that the route leaves.
  abbrev pub entry_of : Request → Context g → LogEntry
  entry_of start d =
      http_request d.request.method start.path start.query d.request.client_ip d.request.user_agent
        (g.status d.response) (d.keys id_key)

  abbrev pub metric_of : Context g → Metric
  metric_of d = record {
    method = d.request.method;
    path = label d.request.full_path;
    status = g.status d.response;
  }

  abbrev inner : Str → (Context g → Ended g) → Context g → Ended g
  inner uuid route = run_handlers uuid true (monitor_middleware ∷ request_logger ∷ []) route

  abbrev finished : Context g → Ended g → Ended g
  finished s e = and_then measure (and_then (log_request s.request) e)

  inner_lem :
      (uuid : Str) (route : Context g → Ended g) (s : Context g)
      → inner uuid route s ≡ finished s (route s)
  unfolding run_handlers
  inner_lem uuid route s = refl

  Same-trans : (b c d : Context g) → Same b c → Same c d → Same b d
  Same-trans b c d (p, q, r, s) (p', q', r', s') = (p' ∙ p, q' ∙ q, r' ∙ r, s' ∙ s)

  with_origin-Same : (o : Option Str) (c : Context g) → Same c (with_origin o c)
  with_origin-Same none c = (refl, refl, refl, refl)
  with_origin-Same (some s) c = (refl, refl, refl, refl)

  with_others-Same : (b : Bool) (c : Context g) → Same c (with_others b c)
  with_others-Same true c = (refl, refl, refl, refl)
  with_others-Same false c = (refl, refl, refl, refl)

  -- The context that the route gets: with the identifier, and with the CORS headers where they are on.
  unfoldable pub route_context : Bool → List Str → Str → Context g → Context g
  unfolding identified
  route_context true allowed uuid c =
      let c1 = identified uuid c in
      let h = cors_headers (allowed_origins allowed) c1.request.origin in
      with_others h.others (with_origin h.allow_origin c1)
  route_context false allowed uuid c = identified uuid c

  route_context-Same :
      (b : Bool) (allowed : List Str) (uuid : Str) (c : Context g)
      → Same (identified uuid c) (route_context b allowed uuid c)
  unfolding route_context
  route_context-Same true allowed uuid c =
      let c1 = identified uuid c in
      let h = cors_headers (allowed_origins allowed) c1.request.origin in
      let c2 = with_origin h.allow_origin c1 in
      Same-trans c1 c2 (with_others h.others c2) (with_origin-Same h.allow_origin c1)
        (with_others-Same h.others c2)
  route_context-Same false allowed uuid c = (refl, refl, refl, refl)

  -- A request that is not OPTIONS passes the CORS handler with more headers.
  cors_passes :
      (allowed : List Str) (next : Context g → Ended g) (c : Context g)
      → str_eq c.request.method (codes "OPTIONS") ≡ false
      → let h = cors_headers (allowed_origins allowed) c.request.origin in
        cors_handler allowed next c ≡ next (with_others h.others (with_origin h.allow_origin c))
  unfolding cors_handler cors
  cors_passes allowed next c other =
      let h = cors_headers (allowed_origins allowed) c.request.origin in
      let c2 = with_others h.others (with_origin h.allow_origin c) in
      ap (λ b. disposed (if b then no_content else go_on) next c2) other

  unfoldable pub serve_request :
      {Conn : Type 0} → App Conn → Str → Bool → (Context g → Ended g) → Context g → Ended g
  unfolding run_handlers register_default_middleware
  serve_request a uuid metrics route =
      run_handlers uuid metrics (register_default_middleware a).engine route

  after_cors :
      (b : Bool) (allowed : List Str) (uuid : Str) (route : Context g → Ended g) (c : Context g)
      → str_eq c.request.method (codes "OPTIONS") ≡ false
      → run_handlers uuid true (default_engine b allowed) route c
        ≡ recovered (inner uuid route (route_context b allowed uuid c))
  unfolding run_handlers default_engine recovery_handler request_id_handler identified route_context
  after_cors true allowed uuid route c other =
      ap recovered (cors_passes allowed (inner uuid route) (identified uuid c) other)
  after_cors false allowed uuid route c other = refl

  identified_lem :
      (uuid : Str) (c : Context g)
      → let d = identified uuid c in
        (d.request ≡ c.request)
        × (d.keys id_key ≡ some (with_id uuid c.request))
        × (d.logged ≡ c.logged)
        × (d.counted ≡ c.counted)
  unfolding identified
  identified_lem uuid c =
      (refl, insert_self str_discrete id_key (with_id uuid c.request) c.keys, refl, refl)

  -- What the route gets of the request: the request itself, the identifier, and the log and the
  -- metrics so far.
  abbrev pub Starts : Str → (c s : Context g) → Type 0
  Starts uuid c s =
      (s.request ≡ c.request)
      × (s.keys id_key ≡ some (with_id uuid c.request))
      × (s.logged ≡ c.logged)
      × (s.counted ≡ c.counted)

  route_context-Starts :
      (b : Bool) (allowed : List Str) (uuid : Str) (c : Context g)
      → Starts uuid c (route_context b allowed uuid c)
  route_context-Starts b allowed uuid c =
      let (request, keys, logged, counted) = route_context-Same b allowed uuid c in
      let (request', id, logged', counted') = identified_lem uuid c in
      (request ∙ request', ap (λ f. f id_key) keys ∙ id, logged ∙ logged', counted ∙ counted')

  module _ {Conn : Type 0} (a : App Conn) (m : MonitorSettings) (empty : a.engine ≡ [])
      (set : a.monitor ≡ some m) (uuid : Str) (route : Context g → Ended g) (c d : Context g)
      (other : str_eq c.request.method (codes "OPTIONS") ≡ false) where
    abbrev start : Context g
    start = route_context a.cfg.security.enable_cors a.cfg.security.allowed_origins uuid c

    start-Starts : Starts uuid c start
    start-Starts =
        route_context-Starts a.cfg.security.enable_cors a.cfg.security.allowed_origins uuid c

    reached : serve_request a uuid true route c ≡ recovered (finished start (route start))
    unfolding serve_request
    reached =
        let security = a.cfg.security in
        ap (λ l. run_handlers uuid true l route c) (engine_default a m empty set)
        ∙ after_cors security.enable_cors security.allowed_origins uuid route c other
        ∙ ap recovered (inner_lem uuid route start)

    -- The route gets the request with its identifier, that of the header or a new UUID, and with the
    -- log and the metrics as they were. With metrics enabled, and for a request that is not OPTIONS,
    -- whatever the route has done when it returns: one metric and one entry are added to what it has
    -- counted and logged, with the status that it has left and the identifier under its key.
    pub serve_request_counts :
        route start ≡ returned d
        → Starts uuid c start
          × ((e : Context g) × (serve_request a uuid true route c ≡ returned e)
              × (e.response ≡ d.response)
              × (e.counted ≡ metric_of d ∷ d.counted)
              × (e.logged ≡ entry_of c.request d ∷ d.logged))
    unfolding measure log_request
    serve_request_counts ends = (
      start-Starts,
      (
        measure (log_request start.request d),
        reached ∙ ap (λ x. recovered (finished start x)) ends,
        refl,
        refl,
        ap (λ r. entry_of r d ∷ d.logged) start-Starts.0,
      ),
    )

    -- The route gets the request with its identifier, that of the header or a new UUID, and with the
    -- log and the metrics as they were. Where it panics, and for a request that is not OPTIONS,
    -- the answer is gin's for status 500 on what the route has written, the panic is added to what it
    -- has logged, and neither a metric nor an entry for the request is added.
    pub serve_request_panic :
        route start ≡ panicked d
        → Starts uuid c start
          × ((e : Context g) × (serve_request a uuid true route c ≡ returned e)
              × (e.response ≡ g.abort_json 500 d.response)
              × (e.counted ≡ d.counted)
              × (e.logged ≡ panic_recovered ∷ d.logged))
    serve_request_panic ends = (
      start-Starts,
      (
        record d { logged = panic_recovered ∷ d.logged; response = g.abort_json 500 d.response },
        reached ∙ ap (λ x. recovered (finished start x)) ends,
        refl,
        refl,
        refl,
      ),
    )
