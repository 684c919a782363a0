-- ===== src/Identity.antt =====
-- `GET /v1/me`: `app/routers/identity.py` and `app/schemas/identity.py`, over the policies of
-- `migrations/versions/0002_roles_and_functions.py` that its query meets.
use as_baptist_api.Prelude.{
  ℕ, Bool, true, false, ◌&&◌, String, Option, none, some, List, [], ◌∷◌, ◌++◌, map, ◌==◌, str_eq,
  where_rows,
}
use as_baptist_api.Problem.{not_found, from_code}
use as_baptist_api.Db.{
  Caller, Db, UserProfile, Tenant, Membership, RequestContext, owned, is_actor, Statement, done,
  Exec, run, ◌>>=◌, raise, from_result, one_or_none, problem,
}
use as_baptist_api.Web.{Site, Incoming, Envelope, Reply, raw, respond_if_changed}
pub mod Me

pub record MeUser : Type 0 where
  pub id : ℕ
  pub email : String
  pub full_name : Option String

pub record MeTenant : Type 0 where
  pub id : ℕ
  pub slug : String
  pub name : String
  pub tier : String

pub record MeResponse : Type 0 where
  pub user : MeUser
  pub tenant : MeTenant
  pub role : String
  pub location_scope : Option (List String)
  pub must_accept_invite : Bool

-- A row of the query: a user, a tenant and the status of the membership, if there is one.
pub record MeRow : Type 0 where
  pub user : UserProfile
  pub tenant : Tenant
  pub membership_status : Option String

-- The policies `user_profile_self`, `tenant_context_select` and `membership_select_tenant`, each with
-- the condition of the query.
abbrev pub is_me : Caller → RequestContext → UserProfile → Bool
is_me c ctx u = is_actor c u.id && u.id == ctx.actor_id

abbrev pub is_my_tenant : Caller → RequestContext → Tenant → Bool
is_my_tenant c ctx t = owned c t.id && t.id == ctx.tenant_id

abbrev pub joins : Caller → UserProfile → Tenant → Membership → Bool
joins c u t m = owned c m.tenant_id && (m.tenant_id == t.id && m.user_id == u.id)

-- A left join keeps a row where nothing matches.
abbrev pub left_joined : List Membership → List (Option String)
left_joined [] = none ∷ []
left_joined (m ∷ ms) = some m.status ∷ map (λ (x : Membership). some x.status) ms

abbrev pub joined_memberships : Caller → Db → UserProfile → Tenant → List MeRow
joined_memberships c db u t =
    map (λ s. record { user = u; tenant = t; membership_status = s })
      (left_joined (where_rows (joins c u t) db.memberships))

abbrev pub for_each : {A B : Type 0} → (A → List B) → List A → List B
for_each f [] = []
for_each f (x ∷ xs) = f x ++ for_each f xs

-- `ME_QUERY`.
unfoldable pub me_query : RequestContext → Statement (List MeRow)
me_query ctx c db =
    done
      (for_each
        (λ u. for_each (joined_memberships c db u) (where_rows (is_my_tenant c ctx) db.tenants))
        (where_rows (is_me c ctx) db.users))
      db

abbrev pub is_pending : Option String → Bool
is_pending none = false
is_pending (some t) = str_eq t "pending"

unfoldable pub me_of : RequestContext → MeRow → MeResponse
me_of ctx row = record {
  user = record { id = row.user.id; email = row.user.email; full_name = row.user.full_name };
  tenant = record {
    id = row.tenant.id;
    slug = row.tenant.slug;
    name = row.tenant.name;
    tier = row.tenant.tier;
  };
  role = ctx.role;
  location_scope = none;
  must_accept_invite = is_pending row.membership_status;
}

abbrev pub show_me :
    Site
    → (MeResponse → String)
    → Incoming
    → RequestContext
    → Option MeRow
    → Exec (Reply (Envelope MeResponse))
show_me w json req ctx none = raise (problem (from_code not_found))
show_me w json req ctx (some row) =
    from_result (respond_if_changed w req ctx (raw "computed") none json (me_of ctx row))

-- `GET /v1/me`.
unfoldable pub get_me :
    Site → (MeResponse → String) → Incoming → RequestContext → Exec (Reply (Envelope MeResponse))
unfolding run me_query me_of respond_if_changed from_code
get_me w json req ctx = do
  rows ← run (me_query ctx)
  row ← one_or_none rows
  show_me w json req ctx row
