-- ===== src/Identity/Me.antt =====
-- Whom `GET /v1/me` shows.
use mathlib.Core.Path.{refl, ap, ◌∙◌}
use as_baptist_api.Prelude.{◌&&◌, ◌++◌, map}
use as_baptist_api.Prelude.{
  ◌&&◌, ◌++◌, map, ℕ, ◌≡◌, some, none, Option, String, List, [], ◌∷◌, ◌==◌, ==_iff, where_rows,
  arith,
}
use as_baptist_api.Prelude.Selection.{selected_passes, where_rows_congr}
use as_baptist_api.Db.{◌>>=◌}
use as_baptist_api.Db.{
  ◌>>=◌, run, Db, UserProfile, Tenant, Membership, RequestContext, AppSettings, ok, active,
  one_or_none, data_source,
}
use as_baptist_api.Db.Isolation.{bound}
use as_baptist_api.Web.{
  Site, Incoming, Envelope, body, raw, respond_if_changed, compute_etag, build_meta, resolve_source,
}
use as_baptist_api.Identity.{
  map, MeResponse, MeRow, is_me, is_my_tenant, joins, left_joined, joined_memberships, for_each,
  me_query, me_of, get_me, show_me, is_pending,
}

-- The status that the query gives for at most one membership.
abbrev status_of : Option Membership → Option String
status_of none = none
status_of (some m) = some m.status

abbrev rows_of : Option Membership → List Membership
rows_of none = []
rows_of (some m) = m ∷ []

module _ (ctx : RequestContext) (settings : AppSettings) (db : Db) (u : UserProfile) (t : Tenant)
    (m : Option Membership)
    (user : where_rows (λ (x : UserProfile). x.id == ctx.actor_id) db.users ≡ u ∷ [])
    (tenant : where_rows (λ (x : Tenant). x.id == ctx.tenant_id) db.tenants ≡ t ∷ [])
    (membership : where_rows
        (λ (x : Membership). x.tenant_id == ctx.tenant_id && x.user_id == ctx.actor_id)
        db.memberships
      ≡ rows_of m) where
  own_id : u.id ≡ ctx.actor_id
  own_id =
      (==_iff u.id ctx.actor_id).0
        (selected_passes (λ (x : UserProfile). x.id == ctx.actor_id) u db.users user)

  own_tenant : t.id ≡ ctx.tenant_id
  own_tenant =
      (==_iff t.id ctx.tenant_id).0
        (selected_passes (λ (x : Tenant). x.id == ctx.tenant_id) t db.tenants tenant)

  visible_user : where_rows (is_me (bound ctx settings) ctx) db.users ≡ u ∷ []
  visible_user =
      where_rows_congr (is_me (bound ctx settings) ctx) (λ (x : UserProfile). x.id == ctx.actor_id)
        db.users (λ x. ground arith)
      ∙ user

  visible_tenant : where_rows (is_my_tenant (bound ctx settings) ctx) db.tenants ≡ t ∷ []
  visible_tenant =
      where_rows_congr (is_my_tenant (bound ctx settings) ctx)
        (λ (x : Tenant). x.id == ctx.tenant_id) db.tenants (λ x. ground arith)
      ∙ tenant

  joined : where_rows (joins (bound ctx settings) u t) db.memberships ≡ rows_of m
  joined =
      where_rows_congr (joins (bound ctx settings) u t)
        (λ (x : Membership). x.tenant_id == ctx.tenant_id && x.user_id == ctx.actor_id)
        db.memberships (λ x. ground (arith, own_id, own_tenant))
      ∙ membership

  row : Option Membership → MeRow
  row o = record { user = u; tenant = t; membership_status = status_of o }

  one_row :
      (o : Option Membership)
      → (map (λ s. record { user = u; tenant = t; membership_status = s }) (left_joined (rows_of o))
            ++ [])
          ++ []
        ≡ row o ∷ []
  unfolding row
  one_row none = refl
  one_row (some x) = refl

  only_row :
      for_each
        (λ x.
          for_each
            (joined_memberships (bound ctx settings) db x)
            (where_rows (is_my_tenant (bound ctx settings) ctx) db.tenants))
        (where_rows (is_me (bound ctx settings) ctx) db.users)
      ≡ row m ∷ []
  only_row =
      ap
        (for_each (λ x.
          for_each (joined_memberships (bound ctx settings) db x)
            (where_rows (is_my_tenant (bound ctx settings) ctx) db.tenants)))
        visible_user
      ∙ ap (λ ts. for_each (joined_memberships (bound ctx settings) db u) ts ++ []) visible_tenant
      ∙ ap
          (λ ms.
            (map (λ s. record { user = u; tenant = t; membership_status = s }) (left_joined ms)
              ++ [])
            ++ [])
          joined
      ∙ one_row m

  module _ (w : Site) (json : MeResponse → String) (req : Incoming) (n : ℕ) where
    -- Under the identity of its request, `GET /v1/me` answers a caller whose user and tenant have
    -- their rows, with at most one membership between them and no tag presented: it shows the
    -- caller's own user and tenant and the role of the request, says that an invitation is to be
    -- accepted exactly if the membership is pending, and changes nothing.
    pub get_me_own :
        req.if_none_match ≡ none
        → (e : Envelope MeResponse) × (get_me w json req ctx (active (bound ctx settings) db n) ≡ (
          ok (body 200 (some (compute_etag w.uuid w.hexdigest ctx (json e.data_))) e),
          active (bound ctx settings) db n,
        ))
          × (e.data_.user.id ≡ ctx.actor_id)
          × (e.data_.user.email ≡ u.email)
          × (e.data_.tenant.id ≡ ctx.tenant_id)
          × (e.data_.tenant.slug ≡ t.slug)
          × (e.data_.role ≡ ctx.role)
          × (e.data_.must_accept_invite ≡ is_pending (status_of m))
    unfolding get_me me_query me_of respond_if_changed run row build_meta resolve_source data_source
    get_me_own fresh = (
      _,
      ap (λ rows. (one_or_none rows >>= show_me w json req ctx) (active (bound ctx settings) db n))
            only_row
          ∙ ap
              (λ o. (
                respond_if_changed w (record req { if_none_match = o }) ctx (raw "computed") none
                    json (me_of ctx (row m)),
                active (bound ctx settings) db n,
              ))
              fresh,
      own_id,
      refl,
      own_tenant,
      refl,
      refl,
      refl,
    )
