-- ===== src/History/Receipts.antt =====
-- The promise of an idempotency key, without tables: a receipt for each key that was executed, which
-- nothing takes back and every later request with the key is answered from.
use as_baptist_api.Prelude.{
  inl, inr, eq_refl, eq_iff, Bool-cases, ℕ, ◌≡◌, ◌≢◌, ap, ◌∙◌, Bool, true, false, ◌&&◌, String,
  Option, none, some, List, [], ◌∷◌, arith, ◌==◌, str_eq, if◌then◌else◌,
}
use as_baptist_api.Problem.{duplicate_idempotency_key, from_code}
use as_baptist_api.Db.{Result, ok, err, Failure, problem}
use as_baptist_api.Ladder.{Codec, ExecuteRequest, ExecuteResponse, ExistingApproval, same_preview}
use as_baptist_api.Ladder.Replay.{IsReplayOf}
use as_baptist_api.History.Steps.{Event}

-- The receipt of a tenant's key.
abbrev pub Receipts : Type 0
Receipts = ℕ → String → Option ExistingApproval

abbrev pub for_key : ExecuteRequest → ℕ → String → Bool
for_key q t key = q.tenant_id == t && str_eq q.idempotency_key key

-- How one request of a caller of a tenant may be answered, and which receipts there are afterwards.
pub data Allowed (k : Codec) (tenant : ℕ) (q : ExecuteRequest) (before after : Receipts)
    (answer : Result ExecuteResponse) : Type 0 where
  replays :
      (e : ExistingApproval)
      → before q.tenant_id q.idempotency_key ≡ some e
      → same_preview e.cost_preview_id q.preview_id ≡ true
      → after ≡ before
      → answer ≡ ok e.response
      → Allowed k tenant q before after answer
  conflicts :
      (e : ExistingApproval)
      → before q.tenant_id q.idempotency_key ≡ some e
      → same_preview e.cost_preview_id q.preview_id ≡ false
      → after ≡ before
      → answer ≡ err (problem (from_code duplicate_idempotency_key))
      → Allowed k tenant q before after answer
  refuses :
      (f : Failure)
      → before q.tenant_id q.idempotency_key ≡ none
      → after ≡ before
      → answer ≡ err f
      → Allowed k tenant q before after answer
  refuses_stranger :
      (f : Failure)
      → q.tenant_id ≢ tenant
      → after ≡ before
      → answer ≡ err f
      → Allowed k tenant q before after answer
  fulfils :
      (e : ExistingApproval) (r : ExecuteResponse)
      → before q.tenant_id q.idempotency_key ≡ none
      → e.cost_preview_id ≡ some q.preview_id
      → IsReplayOf k r e.response
      → ((t : ℕ) (key : String) → after t key ≡ (if for_key q t key then some e else before t key))
      → answer ≡ ok r
      → Allowed k tenant q before after answer

-- A history of answers that the promise allows, the last one first.
pub data Follows (before : Receipts) : List Event → Receipts → Type 0 where
  nothing : Follows before [] before
  then_ :
      {es : List Event} {between after : Receipts}
      → Follows before es between
      → (e : Event) → Allowed e.codec e.tenant e.request between after e.answer
      → Follows before (e ∷ es) after

-- An event of a history.
pub data Occurs (e : Event) : List Event → Type 0 where
  last : {es : List Event} → Occurs e (e ∷ es)
  earlier : {es : List Event} {d : Event} → Occurs e es → Occurs e (d ∷ es)

-- A receipt of a request that succeeded.
abbrev pub Receipted : Receipts → Event → ExecuteResponse → Type 0
Receipted rs e r =
    (x : ExistingApproval) × (rs e.request.tenant_id e.request.idempotency_key ≡ some x)
    × (x.response.approval_id ≡ r.approval_id)

for_key-agree :
    (q : ExecuteRequest) (t : ℕ) (key : String)
    → for_key q t key ≡ true
    → (q.tenant_id ≡ t) × (q.idempotency_key ≡ key)
for_key-agree q t key h = ground (arith, eq_iff q.idempotency_key key)

for_key_own : (q : ExecuteRequest) → for_key q q.tenant_id q.idempotency_key ≡ true
for_key_own q = ground (arith, eq_refl q.idempotency_key)

answers_agree :
    {answer : Result ExecuteResponse} {r r' : ExecuteResponse}
    → answer ≡ ok r
    → answer ≡ ok r'
    → r ≡ r'
answers_agree h h' = cc

-- A receipt stays, whatever is asked later.
kept_receipt :
    {k : Codec} {tenant : ℕ} {q : ExecuteRequest} {before after : Receipts}
    {answer : Result ExecuteResponse} (t : ℕ) (key : String) (x : ExistingApproval)
    → Allowed k tenant q before after answer
    → before t key ≡ some x
    → after t key ≡ some x
kept_receipt t key x (replays e found same unchanged a) held =
    ap (λ (rs : Receipts). rs t key) unchanged ∙ held
kept_receipt t key x (conflicts e found other unchanged a) held =
    ap (λ (rs : Receipts). rs t key) unchanged ∙ held
kept_receipt t key x (refuses f new unchanged a) held =
    ap (λ (rs : Receipts). rs t key) unchanged ∙ held
kept_receipt t key x (refuses_stranger f foreign unchanged a) held =
    ap (λ (rs : Receipts). rs t key) unchanged ∙ held
kept_receipt {q = q} {before = before} t key x (fulfils e r new own replay added a) held =
    added t key ∙ elim (Bool-cases (for_key q t key)) [
      | inr other ↦ ap (λ b. if b then some e else before t key) other ∙ held
      | inl same ↦
          let (t_same, key_same) = for_key-agree q t key same in
          absurd (cc (new, held, t_same, key_same))
    ]

answered_receipt :
    {before after : Receipts} (e : Event) (r : ExecuteResponse)
    → Allowed e.codec e.tenant e.request before after e.answer
    → e.answer ≡ ok r
    → Receipted after e r
answered_receipt e r (replays x found same unchanged a) succeeded = (
  x,
  ap (λ (rs : Receipts). rs e.request.tenant_id e.request.idempotency_key) unchanged ∙ found,
  ap (λ (y : ExecuteResponse). y.approval_id) (answers_agree a succeeded),
)
answered_receipt e r (conflicts x found other unchanged a) succeeded = absurd (cc (a, succeeded))
answered_receipt e r (refuses f new unchanged a) succeeded = absurd (cc (a, succeeded))
answered_receipt e r (refuses_stranger f foreign unchanged a) succeeded = absurd (cc (a, succeeded))
answered_receipt {before = before} e r (fulfils x r' new own replay added a) succeeded = (
  x,
  added e.request.tenant_id e.request.idempotency_key
      ∙ ap (λ b. if b then some x else before e.request.tenant_id e.request.idempotency_key)
          (for_key_own e.request),
  replay.same_approval ∙ ap (λ (y : ExecuteResponse). y.approval_id) (answers_agree a succeeded),
)

occurred_receipt :
    {before after : Receipts} {es : List Event} (e : Event) (r : ExecuteResponse)
    → Follows before es after
    → Occurs e es
    → e.answer ≡ ok r
    → Receipted after e r
occurred_receipt e r nothing o succeeded = elim o [ ]
occurred_receipt e r (then_ history _ step) last succeeded = answered_receipt e r step succeeded
occurred_receipt e r (then_ history d step) (earlier o) succeeded =
    let (x, held, same) = occurred_receipt e r history o succeeded in
    (x, kept_receipt e.request.tenant_id e.request.idempotency_key x step held, same)

-- In a history that the promise allows, two successes under one tenant and key name one approval.
pub one_receipt :
    {before after : Receipts} {es : List Event} (e e' : Event) (r r' : ExecuteResponse)
    → Follows before es after
    → Occurs e es
    → Occurs e' es
    → e.answer ≡ ok r
    → e'.answer ≡ ok r'
    → e'.request.tenant_id ≡ e.request.tenant_id
    → e'.request.idempotency_key ≡ e.request.idempotency_key
    → r'.approval_id ≡ r.approval_id
one_receipt e e' r r' history o o' succeeded succeeded' tenant key =
    let (x, held, same) = occurred_receipt e r history o succeeded in
    let (x', held', same') = occurred_receipt e' r' history o' succeeded' in
    cc (held, held', same, same', tenant, key)
