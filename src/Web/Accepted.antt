-- ===== src/Web/Accepted.antt =====
-- What reaches the logs, the responses and the ladder of the headers of a request.
use Prim.Native.Char.{Char}
use mathlib.Core.Path.{refl, ◌∙◌}
use as_baptist_api.Problem.{AppException, problem, request_validation, other, Request, handle}
use as_baptist_api.Prelude.{
  ℕ, or_text, arith, ◌≡◌, inl, inr, Bool, true, false, String, Option, none, some, Bool-cases,
  str_eq,
}
use as_baptist_api.Web.{is_acceptable, request_id}

module _ (isalnum : Char → Bool) (fresh : String) where
  acceptable_kept :
      (t : String) → is_acceptable isalnum t ≡ true → request_id isalnum fresh (some t) ≡ t
  unfolding request_id
  acceptable_kept t h = rw h

  request_id_acceptable :
      (header : Option String)
      → is_acceptable isalnum fresh ≡ true
      → is_acceptable isalnum (request_id isalnum fresh header) ≡ true
  unfolding request_id
  request_id_acceptable none good = good
  request_id_acceptable (some t) good = elim (Bool-cases (is_acceptable isalnum t)) [
    | inl fine ↦ rw fine fine
    | inr refused ↦ rw refused good
  ]

not_empty :
    (isalnum : Char → Bool) (t : String) → is_acceptable isalnum t ≡ true → str_eq t "" ≡ false
unfolding is_acceptable
not_empty isalnum t h = ground (arith, h)

handle_ids :
    (str_index : ℕ → String) (r : Request) (e : AppException)
    → ((handle str_index r e).x_request_id ≡ or_text r.request_id "unknown")
      × ((handle str_index r e).content.request_id ≡ or_text r.request_id "unknown")
unfolding handle
handle_ids str_index r (problem p) = (refl, refl)
handle_ids str_index r (request_validation es) = (refl, refl)
handle_ids str_index r other = (refl, refl)

-- If the generated ids are acceptable, the request id is acceptable, whatever the client sends: not
-- empty, at most 128 characters, each of them alphanumeric, a dash or an underscore. Choosing again
-- keeps it, and every response of the exception handlers that the application registers, for a problem,
-- a failed validation or an exception that no handler names, carries it in its header and its body.
pub request_id_carried :
    (isalnum : Char → Bool) (fresh again : String) (header : Option String) (str_index : ℕ → String)
    (path : String) (e : AppException)
    → is_acceptable isalnum fresh ≡ true
    → let id = request_id isalnum fresh header in
      let response = handle str_index (record { request_id = some id; path = path }) e in
      (is_acceptable isalnum id ≡ true)
      × (request_id isalnum again (some id) ≡ id)
      × (response.x_request_id ≡ id)
      × (response.content.request_id ≡ id)
request_id_carried isalnum fresh again header str_index path e good =
    let fine = request_id_acceptable isalnum fresh header good in
    let id = request_id isalnum fresh header in
    let named : or_text (some id) "unknown" ≡ id = rw (not_empty isalnum id fine) in
    let ids = handle_ids str_index (record { request_id = some id; path = path }) e in
    (fine, acceptable_kept isalnum again id fine, ids.0 ∙ named, ids.1 ∙ named)
