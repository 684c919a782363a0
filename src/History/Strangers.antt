-- ===== src/History/Strangers.antt =====
-- What a caller is answered who asks for the work of another tenant.
use mathlib.Core.Path.{refl, ap}
use as_baptist_api.Prelude.{◌≡◌, ◌≢◌, ℕ, Bool, false, String, List, [], ◌∷◌, arith, where_rows}
use as_baptist_api.Db.{AppSettings, Approval, RequestContext, Result, Session, UuidText}
use as_baptist_api.Db.Isolation.{bound}
use as_baptist_api.Ladder.{Dispatch, Env, ExecuteRequest, ExecuteResponse, has_key}
use as_baptist_api.History.Served.{Served, as_before, rolled_back, committed}
use as_baptist_api.History.Receipts.{Allowed, refuses_stranger}
use as_baptist_api.History.Lookup.{receipts_of}

no_rows :
    {A : Type 0} (test : A → Bool) (rows : List A)
    → ((x : A) → test x ≡ false)
    → where_rows test rows ≡ []
no_rows test [] h = refl
no_rows test (x ∷ rows) h = rw (h x) (no_rows test rows h)

-- A caller sees no approval of another tenant.
has_key_foreign :
    (ctx : RequestContext) (settings : AppSettings) (tenant : ℕ) (key : String)
    → tenant ≢ ctx.tenant_id
    → (a : Approval) → has_key (bound ctx settings) tenant key a ≡ false
has_key_foreign ctx settings tenant key foreign a = ground (arith, foreign)

pub foreign-Allowed :
    (u : UuidText) (ctx : RequestContext) (env : Env) (q : ExecuteRequest) (dispatch : Dispatch)
    (s : Session) {p : Result ExecuteResponse × Session}
    → q.tenant_id ≢ ctx.tenant_id
    → Served env q dispatch (bound ctx s.settings) s p
    → Allowed env.codec ctx.tenant_id q
        (receipts_of s.db.approvals)
        (receipts_of p.1.db.approvals)
        p.0
foreign-Allowed u ctx env q dispatch s foreign (as_before a found same e) = absurd (
    cc (
      found,
      no_rows (has_key (bound ctx s.settings) q.tenant_id q.idempotency_key) s.db.approvals
          (has_key_foreign ctx s.settings q.tenant_id q.idempotency_key foreign),
    ))
foreign-Allowed u ctx env q dispatch s foreign (rolled_back f n more e) =
    refuses_stranger f foreign (ap (λ p. receipts_of p.1.db.approvals) e) (ap (λ p. p.0) e)
foreign-Allowed u ctx env q dispatch s foreign (committed x t role cleared returned mine e) =
    absurd (foreign (cc (cleared.admitted.own_tenant)))
