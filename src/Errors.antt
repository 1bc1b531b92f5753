-- ===== src/Errors.antt =====
-- pkg/errors/errors.go: errors with a code and an HTTP status. The stack that `captureStack` reads
-- from the runtime is an argument of the functions that record it.
pub mod Laws
use dgou_framework.Base.{
  ℕ, zero, suc, Bool, true, false, Option, none, some, List, [], ◌∷◌, ◌++◌, ◌==◌, if◌then◌else◌,
  Str, codes,
}

-- A Go error value: the package's own `*Error`, or any other error by its text. `Cause` is the
-- field `Err`.
mutual
  pub data GoError : Type 0 where
    custom :
        (code http_code : ℕ) (message : Str) (details stack : List Str) (op : Str) → Cause → GoError
    foreign : (text : Str) → GoError

  pub data Cause : Type 0 where
    no_cause : Cause
    caused_by : GoError → Cause

abbrev pub code_unknown : ℕ
code_unknown = 1000

abbrev pub code_validation_failed : ℕ
code_validation_failed = 1001

abbrev pub code_resource_not_found : ℕ
code_resource_not_found = 1002

abbrev pub code_unauthorized : ℕ
code_unauthorized = 1003

abbrev pub code_forbidden : ℕ
code_forbidden = 1004

abbrev pub code_too_many_requests : ℕ
code_too_many_requests = 1005

abbrev pub code_internal_error : ℕ
code_internal_error = 1006

abbrev pub code_service_unavailable : ℕ
code_service_unavailable = 1007

unfoldable pub get_http_status_code : ℕ → ℕ
get_http_status_code code =
    if code == code_validation_failed
    then 400
    else if code == code_unauthorized
    then 401
    else if code == code_forbidden
    then 403
    else if code == code_resource_not_found
    then 404
    else if code == code_too_many_requests
    then 429
    else if code == code_service_unavailable
    then 503
    else 500

-- `New`
unfoldable pub new_error : ℕ → Str → List Str → GoError
new_error code message stack = custom code (get_http_status_code code) message [] stack [] no_cause

-- `Wrap`; a nil error gives nil
unfoldable pub wrap : Option GoError → ℕ → Str → List Str → Option GoError
wrap none code message stack = none
wrap (some (custom c h m d s o e)) code message stack = some (custom c h m d s o e)
wrap (some (foreign text)) code message stack =
    some (custom code (get_http_status_code code) message [] stack [] (caused_by (foreign text)))

-- `Unwrap`
unfoldable pub unwrap : GoError → Cause
unwrap (custom c h m d s o e) = e
unwrap (foreign text) = no_cause

-- `Error()`
unfoldable mutual
  pub error_text : GoError → Str
  error_text (custom c h m d s o e) = m ++ cause_text e
  error_text (foreign text) = text

  pub cause_text : Cause → Str
  cause_text no_cause = []
  cause_text (caused_by e) = codes ": " ++ error_text e

-- `Is`, by the target's code
unfoldable pub is_code : GoError → ℕ → Bool
is_code (custom c h m d s o e) target = c == target
is_code (foreign text) target = false

-- `WithOp`, `WithDetails` and `WithHTTPCode`, on the package's errors
unfoldable pub with_op : Str → GoError → GoError
with_op op (custom c h m d s o e) = custom c h m d s op e
with_op op (foreign text) = foreign text

unfoldable pub with_details : List Str → GoError → GoError
with_details details (custom c h m d s o e) = custom c h m (d ++ details) s o e
with_details details (foreign text) = foreign text

unfoldable pub with_http_code : ℕ → GoError → GoError
with_http_code code (custom c h m d s o e) = custom c code m d s o e
with_http_code code (foreign text) = foreign text
