-- ===== src/Middleware/Chain.antt =====
-- pkg/middleware: recovery.go, request_id.go, security.go and logger.go, the handler of
-- pkg/monitor/monitor.go, and how gin runs them: `c.Next()` runs the handlers that follow, and a panic
-- in them leaves the handler at once. The response is gin's: an argument with what it documents.
-- Times and the sizes of bodies are left out of log entries and metrics.
use dgou_framework.Base.{
  ℕ, Bool, true, false, Option, none, some, List, [], ◌∷◌, GoMap, insert, str_discrete, Str, codes,
  if◌then◌else◌,
}
use dgou_framework.Middleware.Cors.{Disposition, no_content, go_on, cors}

pub record Gin : Type 1 where
  pub Response : Type 0
  pub status : Response → ℕ
  pub abort_json : ℕ → Response → Response
  pub abort : ℕ → Response → Response

pub record Request : Type 0 where
  pub method : Str
  pub path : Str
  pub query : Str
  pub full_path : Str
  pub client_ip : Str
  pub user_agent : Str
  pub request_id_header : Str
  pub origin : Str
  pub tls : Bool

pub data LogEntry : Type 0 where
  panic_recovered : LogEntry
  http_request :
      (method path query ip user_agent : Str) (status : ℕ) (request_id : Option Str) → LogEntry

-- the labels of the counter and the histogram
pub record Metric : Type 0 where
  pub method : Str
  pub path : Str
  pub status : ℕ

-- `gin.Context`, with what the process has logged and counted, the latest first. The values under the
-- keys of the context are strings here.
pub record Context (g : Gin) : Type 0 where
  pub request : Request
  pub keys : GoMap Str Str
  pub header : GoMap Str Str
  pub response : g.Response
  pub logged : List LogEntry
  pub counted : List Metric

-- How a handler ends.
pub data Ended (g : Gin) : Type 0 where
  returned panicked : Context g → Ended g

abbrev pub is_empty : Str → Bool
is_empty [] = true
is_empty (c ∷ s) = false

abbrev pub id_key : Str
id_key = codes "request_id"

abbrev pub id_header : Str
id_header = codes "X-Request-ID"

module _ {g : Gin} where
  abbrev pub set_header : Str → Str → Context g → Context g
  set_header k v c = record c { header = insert str_discrete k v c.header }

  abbrev pub and_then : (Context g → Context g) → Ended g → Ended g
  and_then f (returned c) = returned (f c)
  and_then f (panicked c) = panicked c

  -- the deferred function of `Recovery`
  abbrev pub recovered : Ended g → Ended g
  recovered (returned c) = returned c
  recovered (panicked c) =
      returned
        (record c { logged = panic_recovered ∷ c.logged; response = g.abort_json 500 c.response })

  unfoldable pub recovery_handler : (Context g → Ended g) → Context g → Ended g
  recovery_handler next c = recovered (next c)

  unfoldable pub identified : Str → Context g → Context g
  identified uuid c =
      let header = c.request.request_id_header in
      let id = if is_empty header then uuid else header in
      set_header id_header id (record c { keys = insert str_discrete id_key id c.keys })

  unfoldable pub request_id_handler : Str → (Context g → Ended g) → Context g → Ended g
  unfolding identified
  request_id_handler uuid next c = next (identified uuid c)

  unfoldable pub security_handler : (Context g → Ended g) → Context g → Ended g
  security_handler next c =
      let c1 = set_header (codes "X-XSS-Protection") (codes "1; mode=block") (
        set_header (codes "X-Frame-Options") (codes "DENY")
          (set_header (codes "X-Content-Type-Options") (codes "nosniff") c)) in
      next (
        if c.request.tls
        then set_header (codes "Strict-Transport-Security")
            (codes "max-age=31536000; includeSubDomains") c1
        else c1)

  abbrev pub with_origin : Option Str → Context g → Context g
  with_origin none c = c
  with_origin (some o) c = set_header (codes "Access-Control-Allow-Origin") o c

  abbrev pub with_others : Bool → Context g → Context g
  with_others false c = c
  with_others true c = set_header (codes "Access-Control-Allow-Credentials") (codes "true") (
      set_header (codes "Access-Control-Expose-Headers") (codes "Content-Length, X-Request-ID") (
        set_header (codes "Access-Control-Allow-Headers")
          (codes "Origin, Content-Type, Accept, Authorization, X-Request-ID")
          (set_header (codes "Access-Control-Allow-Methods")
            (codes "GET, POST, PUT, DELETE, OPTIONS, PATCH") c)))

  abbrev pub disposed : Disposition → (Context g → Ended g) → Context g → Ended g
  disposed no_content next c = returned (record c { response = g.abort 204 c.response })
  disposed go_on next c = next c

  unfoldable pub cors_handler : List Str → (Context g → Ended g) → Context g → Ended g
  unfolding cors
  cors_handler allowed next c =
      let (headers, fate) = cors allowed c.request.origin c.request.method in
      disposed fate next (with_others headers.others (with_origin headers.allow_origin c))

  unfoldable pub measure : Context g → Context g
  measure c =
      let path = if is_empty c.request.full_path then codes "unknown" else c.request.full_path in
      record c {
        counted =
            record { method = c.request.method; path = path; status = g.status c.response }
            ∷ c.counted;
      }

  -- `GinMiddleware`; metrics are set up just when they are enabled
  unfoldable pub monitor_handler : Bool → (Context g → Ended g) → Context g → Ended g
  unfolding measure
  monitor_handler enabled next c = and_then (λ d. if enabled then measure d else d) (next c)

  unfoldable pub log_request : Request → Context g → Context g
  log_request start c = record c {
    logged =
        http_request c.request.method start.path start.query c.request.client_ip
          c.request.user_agent (g.status c.response) (c.keys id_key)
        ∷ c.logged;
  }

  -- `Logger`; path and query are read before the handlers that follow
  unfoldable pub logger_handler : (Context g → Ended g) → Context g → Ended g
  unfolding log_request
  logger_handler next c = and_then (log_request c.request) (next c)
