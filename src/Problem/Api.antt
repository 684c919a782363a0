-- ===== src/Problem/Api.antt =====
-- `ApiProblem` and the rendering of one problem (`app/core/errors.py`).
use Prim.Native.String.{◌++◌ as text_append}
use Prim.Native.Char.{Char, code}
use as_baptist_api.Prelude.{
  ℕ, String, Bool, false, Option, none, some, List, [], ◌∷◌, ◌==◌, str_eq, or_text, or_number,
  if◌then◌else◌,
}
use as_baptist_api.Problem.Code.{
  ProblemCode, validation_error, internal_error, value, problem_definitions,
}

pub record FieldError : Type 0 where
  pub field : String
  pub message : String

pub record ApiProblem : Type 0 where
  pub code : ProblemCode
  pub detail : String
  pub instance_path : Option String
  pub errors : Option (List FieldError)
  pub status : ℕ
  pub title : String

-- The keyword arguments of `ApiProblem.from_code`; each defaults to `None`.
pub record Overrides : Type 0 where
  pub detail : Option String
  pub instance_path : Option String
  pub errors : Option (List FieldError)
  pub status : Option ℕ
  pub title : Option String

abbrev pub no_overrides : Overrides
no_overrides = record {
  detail = none;
  instance_path = none;
  errors = none;
  status = none;
  title = none;
}

-- `ApiProblem.__init__`: an empty text or a status of 0 is replaced by the default, too.
unfoldable pub api_problem : ProblemCode → Overrides → ApiProblem
api_problem c o = record {
  code = c;
  detail = or_text o.detail (problem_definitions c).detail;
  instance_path = o.instance_path;
  errors = o.errors;
  status = or_number o.status (problem_definitions c).status;
  title = or_text o.title (problem_definitions c).title;
}

unfoldable pub from_code : ProblemCode → ApiProblem
unfolding api_problem
from_code c = api_problem c no_overrides

-- What the handlers read of a request: `request.state.request_id`, if it is set, and the path.
pub record Request : Type 0 where
  pub request_id : Option String
  pub path : String

-- The body of a problem response.
pub record Problem : Type 0 where
  pub type_uri : String
  pub title : String
  pub status : ℕ
  pub detail : String
  pub instance_path : String
  pub code : ProblemCode
  pub request_id : String
  pub errors : Option (List FieldError)

pub record JsonResponse : Type 0 where
  pub status_code : ℕ
  pub content : Problem
  pub media_type : String
  pub x_request_id : String

-- `str.lower` on the letters of the codes.
unfoldable pub translate : String → String → Char → Char
translate String.[] _ c = c
translate (String.◌∷◌ u us) String.[] c = c
translate (String.◌∷◌ u us) (String.◌∷◌ l ls) c = if code c == code u then l else translate us ls c

unfoldable pub lower : String → String
unfolding translate
lower String.[] = String.[]
lower (String.◌∷◌ c s) =
    String.◌∷◌ (translate "ABCDEFGHIJKLMNOPQRSTUVWXYZ" "abcdefghijklmnopqrstuvwxyz" c) (lower s)

abbrev pub type_prefix : String
type_prefix = "https://api.baptist-gbp.com/errors/"

unfoldable pub type_uri : ProblemCode → String
unfolding lower
type_uri c = text_append type_prefix (lower (value c))

-- `_request_id`.
abbrev pub request_id_of : Request → String
request_id_of r = or_text r.request_id "unknown"

unfoldable pub problem_response : Request → ApiProblem → JsonResponse
problem_response r p = record {
  status_code = p.status;
  content = record {
    type_uri = type_uri p.code;
    title = p.title;
    status = p.status;
    detail = p.detail;
    instance_path = or_text p.instance_path r.path;
    code = p.code;
    request_id = request_id_of r;
    errors = p.errors;
  };
  media_type = "application/problem+json";
  x_request_id = request_id_of r;
}

-- One part of the `loc` of a validation error: a key, or an index.
pub data LocPart : Type 0 where
  key : String → LocPart
  index : ℕ → LocPart

-- An entry of `RequestValidationError.errors()`; a missing `loc` is the empty one.
pub record ValidationEntry : Type 0 where
  pub loc : List LocPart
  pub msg : Option String

-- Decimal printing, `str` of an index, is Python's.
module _ (str_index : ℕ → String) where
  unfoldable pub part_text : LocPart → String
  part_text (key k) = k
  part_text (index n) = str_index n

  unfoldable pub is_body : LocPart → Bool
  is_body (key k) = str_eq k "body"
  is_body (index _) = false

  unfoldable pub append_part : Option String → LocPart → String
  unfolding part_text
  append_part none p = part_text p
  append_part (some t) p = text_append t (text_append "." (part_text p))

  -- `".".join(str(part) for part in loc if part != "body")`, with what has been joined so far.
  unfoldable pub join_from : Option String → List LocPart → String
  unfolding append_part is_body
  join_from joined [] = or_text joined ""
  join_from joined (p ∷ ps) =
      join_from (if is_body p then joined else some (append_part joined p)) ps

  unfoldable pub field_error : ValidationEntry → FieldError
  unfolding join_from
  field_error e = record {
    field = or_text (some (join_from none e.loc)) "request";
    message = elim e.msg [ none ↦ "Invalid value" | some m ↦ m ];
  }

  unfoldable pub field_errors : List ValidationEntry → List FieldError
  unfolding field_error
  field_errors [] = []
  field_errors (e ∷ es) = field_error e ∷ field_errors es

-- The exceptions that reach the handlers which `create_app` registers. Starlette's own HTTPException, of
-- a path or a method that no route has, is not among them: FastAPI's default handler answers it.
pub data AppException : Type 0 where
  problem : ApiProblem → AppException
  request_validation : List ValidationEntry → AppException
  other : AppException

-- `unhandled_exception_handler`, less the log line.
unfoldable pub unhandled_exception_handler : Request → AppException → JsonResponse
unfolding problem_response from_code
unhandled_exception_handler r _ = problem_response r (from_code internal_error)

unfoldable pub api_problem_handler : Request → AppException → JsonResponse
unfolding unhandled_exception_handler
api_problem_handler r (problem p) = problem_response r p
api_problem_handler r e = unhandled_exception_handler r e

unfoldable pub validation_error_handler : (ℕ → String) → Request → AppException → JsonResponse
unfolding unhandled_exception_handler api_problem field_errors
validation_error_handler str_index r (request_validation es) = problem_response r (
    api_problem validation_error
      (record no_overrides { errors = some (field_errors str_index es) }))
validation_error_handler str_index r e = unhandled_exception_handler r e

-- The handlers as `create_app` registers them: one for each class of exception.
unfoldable pub handle : (ℕ → String) → Request → AppException → JsonResponse
unfolding api_problem_handler validation_error_handler
handle str_index r (problem p) = api_problem_handler r (problem p)
handle str_index r (request_validation es) =
    validation_error_handler str_index r (request_validation es)
handle str_index r other = unhandled_exception_handler r other
