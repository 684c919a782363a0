-- ===== src/Security/Seam.antt =====
-- From the claims of a token to the identity that the database acts under.
use as_baptist_api.Db.Isolation.{caller_of-set_config}
use as_baptist_api.Problem.{forbidden_role, from_code}
use mathlib.Core.Path.{◌∙◌, subst, refl, sym, refl}
use as_baptist_api.Prelude.{
  eq_iff, str_eq, if◌then◌else◌, Bool-cases, ◌||◌, ap, Bool, false, ◌⊎◌, true, ℕ, ◌≡◌, inl, inr,
  String, Option, none, some, Option-cases,
}
use as_baptist_api.Db.{
  problem, err, is_operator, set_config, caller_of, ok, AppSettings, RequestContext, Caller,
  UuidText,
}
use as_baptist_api.Security.{
  operator_roles, contains, require_operator, get_tenant_context, Claim, text, no_text, ClaimSet,
  AuthenticatedUser, get_claim, tenant_of, role_of, subject_of, from_claims,
}

tenant_of_lem :
    {t : ℕ} (u : UuidText) (o : Option Claim)
    → tenant_of u o ≡ some (some t)
    → (x : String) × (o ≡ some (text x)) × (u.of_text x ≡ some t)
unfolding tenant_of
tenant_of_lem u none h = cc
tenant_of_lem u (some no_text) h = cc
tenant_of_lem u (some (text x)) h = elim (Option-cases (u.of_text x)) [
  | inl bad ↦ cc
  | inr (n, good) ↦ (x, refl, cc)
]

subject_of_lem :
    {n : ℕ} (u : UuidText) (o : Option Claim)
    → subject_of u o ≡ some n
    → (x : String) × (o ≡ some (text x)) × (u.of_text x ≡ some n)
unfolding subject_of
subject_of_lem u none h = cc
subject_of_lem u (some no_text) h = cc
subject_of_lem u (some (text x)) h = (x, refl, h)

-- The three parts of a user that `from_claims` makes.
record IsMadeOf (u : UuidText) (claims : ClaimSet) (w : AuthenticatedUser) : Type 0 where
  tenant_read : tenant_of u (get_claim "tenant_id" claims) ≡ some w.tenant_id
  role_read : role_of (get_claim "role" claims) ≡ some w.role
  subject_read : subject_of u (get_claim "sub" claims) ≡ some w.id

from_claims-IsMadeOf :
    {w : AuthenticatedUser} (u : UuidText) (claims : ClaimSet)
    → from_claims u claims ≡ some w
    → IsMadeOf u claims w
unfolding from_claims
from_claims-IsMadeOf u claims h = elim (Option-cases (tenant_of u (get_claim "tenant_id" claims))) [
  | inl bad ↦ absurd cc
  | inr (t, tenant) ↦ elim (Option-cases (role_of (get_claim "role" claims))) [
    | inl bad ↦ absurd cc
    | inr (r, role) ↦ elim (Option-cases (subject_of u (get_claim "sub" claims))) [
      | inl bad ↦ absurd cc
      | inr (s, subject) ↦ record { tenant_read = cc; role_read = cc; subject_read = cc }
    ]
  ]
]

scoped_lem :
    {ctx : RequestContext} (w : AuthenticatedUser)
    → get_tenant_context w ≡ ok ctx
    → (w.tenant_id ≡ some ctx.tenant_id) × (ctx.actor_id ≡ w.id) × (ctx.role ≡ w.role)
unfolding get_tenant_context
scoped_lem w h = elim (Option-cases w.tenant_id) [
  | inl unbound ↦ absurd cc
  | inr (t, bound_) ↦ (cc, cc, cc)
]

-- The claims that a caller of the database comes from.
pub record IsFromClaims (u : UuidText) (claims : ClaimSet) (c : Caller) : Type 0 where
  pub tenant_claim : String
  pub subject_claim : String
  pub tenant_claimed : get_claim "tenant_id" claims ≡ some (text tenant_claim)
  pub subject_claimed : get_claim "sub" claims ≡ some (text subject_claim)
  pub tenant_bound : c.tenant ≡ u.of_text tenant_claim
  pub actor_bound : c.actor ≡ u.of_text subject_claim

-- A token whose claims make a user, whose user makes a request context, is served under exactly the
-- tenant and the subject that its claims spell: these are what the database functions return in the
-- tenant context, whatever settings the session had before.
pub claims_bound :
    {w : AuthenticatedUser} {ctx : RequestContext} {c : Caller} (u : UuidText) (claims : ClaimSet)
    (s : AppSettings)
    → from_claims u claims ≡ some w
    → get_tenant_context w ≡ ok ctx
    → caller_of u (set_config u ctx s) ≡ some c
    → IsFromClaims u claims c
claims_bound {w = w} {ctx = ctx} u claims s made scoped called =
    let parts = from_claims-IsMadeOf u claims made in
    let (tenant, actor, role) = scoped_lem w scoped in
    let (t, t_claimed, t_read) =
      tenant_of_lem u (get_claim "tenant_id" claims)
        (parts.tenant_read ∙ ap (λ o. some o) tenant) in
    let (x, x_claimed, x_read) = subject_of_lem u (get_claim "sub" claims) parts.subject_read in
    let e = sym called ∙ caller_of-set_config u ctx s in
    record {
      tenant_claim = t;
      subject_claim = x;
      tenant_claimed = t_claimed;
      subject_claimed = x_claimed;
      tenant_bound = cc (e, t_read);
      actor_bound = cc (e, x_read, actor);
    }

or_false : (b : Bool) → (b || false) ≡ b
or_false true = refl
or_false false = refl

named_role : (r : String) → contains operator_roles r ≡ is_operator r
unfolding is_operator
named_role r = rw (or_false (str_eq r "system"))

-- An unnamed role is `none` to the database, which is no operator either.
roles_agree :
    (r : String) → contains operator_roles r ≡ is_operator (if str_eq r "" then "none" else r)
unfolding is_operator
roles_agree r = elim (Bool-cases (str_eq r "")) [
  | inl empty ↦
      subst (λ x. contains operator_roles x ≡ is_operator (if str_eq x "" then "none" else x))
        (sym ((eq_iff r "").0 empty)) refl
  | inr named ↦ rw named (named_role r)
]

gate_open :
    (ctx : RequestContext) → contains operator_roles ctx.role ≡ true → require_operator ctx ≡ ok ctx
unfolding require_operator
gate_open ctx h = rw h

gate_shut :
    (ctx : RequestContext)
    → contains operator_roles ctx.role ≡ false
    → require_operator ctx ≡ err (problem (from_code forbidden_role))
unfolding require_operator
gate_shut ctx h = rw h

-- The API's gate for operator routes and the database's `app.is_operator()` decide alike: an operator
-- passes the gate and is one to the database, and anyone else is refused as a forbidden role and is
-- none to the database.
pub operators_agree :
    {c : Caller} (u : UuidText) (ctx : RequestContext) (s : AppSettings)
    → caller_of u (set_config u ctx s) ≡ some c
    → ((require_operator ctx ≡ ok ctx) × (is_operator c.role ≡ true))
      ⊎ ((require_operator ctx ≡ err (problem (from_code forbidden_role)))
          × (is_operator c.role ≡ false))
operators_agree {c = c} u ctx s called = elim (Bool-cases (contains operator_roles ctx.role)) [
  | inl listed ↦ inl (gate_open ctx listed, same_role ∙ listed)
  | inr unlisted ↦ inr (gate_shut ctx unlisted, same_role ∙ unlisted)
]
  where
    same_role : is_operator c.role ≡ contains operator_roles ctx.role
    same_role = cc (sym called ∙ caller_of-set_config u ctx s, roles_agree ctx.role)
