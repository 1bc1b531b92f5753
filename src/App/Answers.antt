-- ===== src/App/Answers.antt =====
-- pkg/app/response.go: the answers of success, the shortcuts for errors, the log of an error, and the
-- headers of files. The stack that `captureStack` reads from the runtime is an argument.
use dgou_framework.Base.{
  ℕ, ◌≡◌, ◌≤◌, ◌↔◌, refl, Bool, true, false, Option, none, some, List, [], ◌∷◌, ◌++◌, Str, codes,
  if◌then◌else◌, arith, leb,
}
use dgou_framework.Base.Int.{ℤ}
use dgou_framework.Errors.{GoError, custom, foreign, new_error, code_validation_failed}
use dgou_framework.App.Response.{Answer, answer_error, http_error, is_critical_error, total_page}

pub record Pagination : Type 0 where
  pub page : ℤ
  pub page_size : ℤ
  pub total : ℤ
  pub total_page : ℤ

-- what `Data` holds in an answer of success
pub data Content (A : Type 0) : Type 0 where
  content : A → Content A
  page_response : A → Pagination → Content A

-- `Response`, with its status
pub record Response (A : Type 0) : Type 0 where
  pub status : ℕ
  pub request_id : Str
  pub code : ℕ
  pub message : Str
  pub data_field : Content A
  pub timestamp : ℤ

abbrev id_or_empty : Option Str → Str
id_or_empty none = []
id_or_empty (some id) = id

module _ {A : Type 0} where
  unfoldable pub success : Option Str → ℤ → Content A → Response A
  success id now d = record {
    status = 200;
    request_id = id_or_empty id;
    code = 200;
    message = codes "success";
    data_field = d;
    timestamp = now;
  }

  abbrev paged : Option Str → ℤ → A → (page page_size total : ℤ) → Option ℤ → Option (Response A)
  paged id now d page page_size total none = none
  paged id now d page page_size total (some n) = some (
      success id now (
        page_response d
          (record { page = page; page_size = page_size; total = total; total_page = n })))

  -- `none` stands for the panic of a page size of zero
  unfoldable pub success_with_pagination :
      Option Str → ℤ → A → (page page_size total : ℤ) → Option (Response A)
  unfolding success total_page
  success_with_pagination id now d page page_size total =
      paged id now d page page_size total (total_page total page_size)

-- The shortcuts.
abbrev pub bad_request : Bool → Str → Answer
bad_request debug message = http_error debug 400 message

abbrev pub unauthorized : Bool → Str → Answer
unauthorized debug message = http_error debug 401 message

abbrev pub forbidden : Bool → Str → Answer
forbidden debug message = http_error debug 403 message

abbrev pub not_found : Bool → Str → Answer
not_found debug message = http_error debug 404 message

abbrev pub too_many_requests : Bool → Str → Answer
too_many_requests debug message = http_error debug 429 message

abbrev pub internal_server_error : Bool → Str → Answer
internal_server_error debug message = http_error debug 500 message

unfoldable pub validation_error : Bool → (stack : List Str) → (field message : Str) → Answer
unfolding answer_error new_error
validation_error debug stack field message = answer_error debug (
    new_error code_validation_failed
      (codes "Validation failed for field '" ++ field ++ codes "': " ++ message) stack)

-- The lines that `logError` writes.
pub data ErrorLog : Type 0 where
  request_error :
      (method path client_ip : Str) (request_id : Option Str) (user_id : Option ℕ)
      → GoError
      → ErrorLog
  critical_stack : List Str → ErrorLog

unfoldable pub log_error :
    (method path client_ip : Str)
    → Option Str
    → Option ℕ
    → (stack : List Str) → GoError
    → List ErrorLog
unfolding is_critical_error
log_error method path client_ip id user stack e =
    request_error method path client_ip id user e
    ∷ (if is_critical_error e then critical_stack stack ∷ [] else [])

-- the headers of `JSONFile` and `CSVFile`, for a content type
unfoldable pub file_headers : Str → Str → List (Str × Str)
file_headers content_type filename =
    (codes "Content-Type", content_type)
    ∷ (codes "Content-Disposition", codes "attachment; filename=" ++ filename)
    ∷ []

second_line : (b : Bool) (x y : ErrorLog) → x ∷ (if b then y ∷ [] else []) ≡ x ∷ y ∷ [] → b ≡ true
second_line true x y e = refl
second_line false x y e = cc

-- The stack of an error of the package is logged exactly when it is answered with a status of at
-- least 500; that of a foreign error, which is answered with 500, never is.
pub log_error-status :
    (method path client_ip : Str) (id : Option Str) (user : Option ℕ) (stack : List Str)
    (debug : Bool) (c h : ℕ) (m : Str) (d s : List Str) (op : Str) (cause : _) (text : Str)
    → let e = custom c h m d s op cause in
      let logged = log_error method path client_ip id user stack in
      ((logged e ≡ request_error method path client_ip id user e ∷ critical_stack stack ∷ [])
        ↔ (500 ≤ (answer_error debug e).status))
      × (logged (foreign text) ≡ request_error method path client_ip id user (foreign text) ∷ [])
      × ((answer_error debug (foreign text)).status ≡ 500)
unfolding log_error is_critical_error answer_error
log_error-status method path client_ip id user stack debug c h m d s op cause text = (
  (
    λ e. let big = second_line (leb 500 h) _ _ e in ground arith,
    λ big. let b : leb 500 h ≡ true = ground arith in rw b refl,
  ),
  refl,
  refl,
)
