-- ===== src/Problem.antt =====
-- Problem details for errors: `app/schemas/common.py` (`ProblemCode`, `FieldError`, `Problem`) and
-- `app/core/errors.py` (the catalogue, `ApiProblem`, the exception handlers).
mod Code
mod Api
pub mod Uri
pub mod Response
pub use Code.*
unfoldable pub use Api.*
