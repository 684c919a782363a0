-- ===== src/Db/Statements.antt =====
-- Statements, exceptions and transactions. A statement that fails aborts its transaction: every
-- later one is refused (SQLSTATE 25P02), and a commit of it is a rollback. This is PostgreSQL's
-- rule, on which `app/db/rls.py` and `app/services/approval_ladder.py` rely.
use as_baptist_api.Prelude.{
  ℕ, Bool, true, false, String, Option, none, some, List, [], ◌∷◌, if◌then◌else◌,
}
use as_baptist_api.Problem.{ApiProblem}
use as_baptist_api.Db.Rows.{Db}

-- What the session's functions say of the caller: `app.current_tenant_id()`,
-- `app.current_actor_id()`, `app.current_role()` and the setting `app.request_id`.
pub record Caller : Type 0 where
  pub tenant : Option ℕ
  pub actor : Option ℕ
  pub role : String
  pub request_id : Option String

pub data DbError : Type 0 where
  unique_violation foreign_key_violation check_violation not_null_violation : DbError
  insufficient_privilege raise_exception numeric_out_of_range : DbError
  invalid_text in_failed_transaction invalid_row_count : DbError

-- SQLSTATE class 23, which the driver raises as `IntegrityError`; every other error is a
-- `DBAPIError` of another class.
abbrev pub is_integrity : DbError → Bool
is_integrity unique_violation = true
is_integrity foreign_key_violation = true
is_integrity check_violation = true
is_integrity not_null_violation = true
is_integrity _ = false

-- The exceptions that a request can raise.
pub data Failure : Type 0 where
  problem : ApiProblem → Failure
  database : DbError → Failure
  runtime_error multiple_results value_error statement_error dispatch_failed stale_data : Failure

pub data Result (A : Type 0) : Type 0 where
  ok : A → Result A
  err : Failure → Result A

-- The outcome of one statement: a value and the new tables, or an error.
pub data Sql (A : Type 0) : Type 0 where
  done : A → Db → Sql A
  fail : DbError → Sql A

abbrev pub Statement : Type 0 → Type 0
Statement A = Caller → Db → Sql A

-- A transaction in progress. `dispatches` counts the calls of outside work, which no rollback
-- takes back.
pub record Tx : Type 0 where
  pub caller : Caller
  pub db : Db
  pub aborted : Bool
  pub dispatches : ℕ

-- A transaction of which no statement has failed.
abbrev pub active : Caller → Db → ℕ → Tx
active c db n = record { caller = c; db = db; aborted = false; dispatches = n }

abbrev pub Exec : Type 0 → Type 0
Exec A = Tx → Result A × Tx

abbrev pub finish : {A : Type 0} → Tx → Sql A → Result A × Tx
finish t (done a db) = (ok a, record t { db = db })
finish t (fail e) = (err (database e), record t { aborted = true })

-- `session.execute(statement)`.
unfoldable pub run : {A : Type 0} → Statement A → Exec A
run statement t =
    if t.aborted
    then (err (database in_failed_transaction), t)
    else finish t (statement t.caller t.db)

infixl 5 ◌>>=◌ ◌>>◌
abbrev pub ◌>>=◌ : {A B : Type 0} → Exec A → (A → Exec B) → Exec B
◌>>=◌ m f t = let (r, t') = m t in elim r [ ok a ↦ f a t' | err e ↦ (err e, t') ]

abbrev pub ◌>>◌ : {A B : Type 0} → Exec A → Exec B → Exec B
m >> k = m >>= λ _. k

module _ {A : Type 0} where
  abbrev pub pure : A → Exec A
  pure a t = (ok a, t)

  abbrev pub raise : Failure → Exec A
  raise e t = (err e, t)

  -- `except IntegrityError: raise p`, and `except DBAPIError: raise p`.
  abbrev pub recode_integrity : ApiProblem → Result A → Result A
  recode_integrity p (err (database e)) =
      if is_integrity e then err (problem p) else err (database e)
  recode_integrity p r = r

  abbrev pub recode_dbapi : ApiProblem → Result A → Result A
  recode_dbapi p (err (database e)) = err (problem p)
  recode_dbapi p r = r

  abbrev pub except_integrity : ApiProblem → Exec A → Exec A
  except_integrity p m t = let (r, t') = m t in (recode_integrity p r, t')

  abbrev pub except_dbapi : ApiProblem → Exec A → Exec A
  except_dbapi p m t = let (r, t') = m t in (recode_dbapi p r, t')

abbrev pub from_result : {A : Type 0} → Result A → Exec A
from_result r t = (r, t)

-- `.one_or_none()` on the rows of a result.
abbrev pub one_or_none : {A : Type 0} → List A → Exec (Option A)
one_or_none [] = pure none
one_or_none (a ∷ []) = pure (some a)
one_or_none (_ ∷ _ ∷ _) = raise multiple_results

abbrev pub raise_if : Bool → Failure → Exec (Unit {0})
raise_if b e t = (if b then err e else ok tt, t)
