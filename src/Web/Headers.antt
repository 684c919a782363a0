-- ===== src/Web/Headers.antt =====
-- The headers that a request is held to: `_request_id` of `app/main.py` and
-- `app/core/idempotency.py`. Which characters `str.isalnum` takes is Unicode's, and a parameter.
use Prim.Native.Char.{Char, code}
use as_baptist_api.Prelude.{
  ℕ, suc, Bool, true, ◌&&◌, ◌||◌, not, String, Option, none, some, leb, ◌==◌, str_eq, if◌then◌else◌,
}
use as_baptist_api.Problem.{validation_error, no_overrides, api_problem}
use as_baptist_api.Db.{Result, ok, err, problem}

-- `len(value)`.
unfoldable pub count_chars : String → ℕ
count_chars String.[] = 0
count_chars (String.◌∷◌ c s) = suc (count_chars s)

-- `char.isalnum() or char in "-_"`, for each character.
unfoldable pub all_plain : (Char → Bool) → String → Bool
all_plain isalnum String.[] = true
all_plain isalnum (String.◌∷◌ c s) =
    (isalnum c || (code c == 45 || code c == 95)) && all_plain isalnum s

-- The condition on an `X-Request-ID` that is used as it came.
unfoldable pub is_acceptable : (Char → Bool) → String → Bool
unfolding count_chars all_plain
is_acceptable isalnum t = not (str_eq t "") && (leb (count_chars t) 128 && all_plain isalnum t)

-- `_request_id`, where `fresh` is the next `uuid4().hex`.
unfoldable pub request_id : (Char → Bool) → String → Option String → String
unfolding is_acceptable
request_id isalnum fresh none = fresh
request_id isalnum fresh (some t) = if is_acceptable isalnum t then t else fresh

-- `require_idempotency_key`.
unfoldable pub require_idempotency_key : Option String → Result String
unfolding api_problem
require_idempotency_key none = err (
    problem (
      api_problem validation_error
        (record no_overrides { detail = some "The Idempotency-Key header is required." })))
require_idempotency_key (some t) =
    if str_eq t ""
    then err (
        problem (
          api_problem validation_error
            (record no_overrides { detail = some "The Idempotency-Key header is required." })))
    else ok t
