-- ===== src/Ladder/Preview.antt =====
-- `create_preview` and `_load_preview`.
use as_baptist_api.Prelude.{
  ℕ, ◌+◌, ◌^◌, Bool, ◌&&◌, not, String, Option, some, List, [], ◌∷◌, map, ltb, ◌==◌, str_eq,
  any_row, where_rows, if◌then◌else◌,
}
use as_baptist_api.Prelude.Int.{ℤ, pos_part, neg_part}
use as_baptist_api.Db.{
  Caller, Db, Tenant, Location, UserProfile, CostPreview, owned, Admission, admitted, refused,
  enforce_tenant_insert, Sql, done, fail, unique_violation, foreign_key_violation,
  insufficient_privilege, numeric_out_of_range, Statement, Exec, run, ◌>>=◌, pure, one_or_none,
}
use as_baptist_api.Audit.{refers}
use as_baptist_api.Ladder.Types.{Codec, Env, Gate, PreviewRequest, PreviewResponse}
use as_baptist_api.Ladder.Gates.{as_dict, evaluate_gates, all_pass}

-- A value that the type `Numeric(12, 4)` holds: at most eight digits before the point.
abbrev pub fits_12_4 : ℤ → Bool
fits_12_4 x = ltb (pos_part x + neg_part x) (10 ^ 12)

-- Fifteen minutes, in microseconds: the default of `expires_at` is `now() + interval '15 minutes'`.
abbrev pub preview_lifetime : ℕ
preview_lifetime = 900000000

abbrev dumps_gate : Codec → Gate → String
dumps_gate k g =
    k.dumps_object (("id", g.id) ∷ ("pass", k.dumps_bool g.passed) ∷ ("detail", g.detail) ∷ [])

-- The row of `insert into cost_preview`, with the defaults of its columns.
unfoldable pub preview_row : Env → PreviewRequest → List Gate → CostPreview
preview_row env q gates = record {
  id = env.new_id;
  tenant_id = q.tenant_id;
  location_id = q.location_id;
  operation = q.operation;
  requested_by = q.requested_by;
  params = q.params;
  units = env.codec.dumps_list (map (λ u. env.codec.dumps_object (as_dict env.codec u)) q.units);
  estimated_cost_usd = q.estimated_cost_usd;
  gates = env.codec.dumps_list (map (dumps_gate env.codec) gates);
  passes = all_pass gates;
  created_at = env.now;
  expires_at = env.now + preview_lifetime;
}

-- The primary key and the foreign keys of `cost_preview`
-- (`migrations/versions/0005_approval_ladder.py`).
unfoldable pub insert_preview_row : CostPreview → Db → Sql CostPreview
insert_preview_row row db =
    if any_row (λ (p : CostPreview). p.id == row.id) db.previews
    then fail unique_violation
    else if not (any_row (λ (t : Tenant). t.id == row.tenant_id) db.tenants)
    then fail foreign_key_violation
    else if not (refers (λ (l : Location). l.id) row.location_id db.locations)
    then fail foreign_key_violation
    else if not (any_row (λ (u : UserProfile). u.id == row.requested_by) db.users)
    then fail foreign_key_violation
    else done row (record db { previews = row ∷ db.previews })

-- The trigger, then the policy `cost_preview_insert_tenant`, then the constraints.
abbrev pub checked_insert : {A : Type 0} → Caller → Admission → (ℕ → Sql A) → Sql A
checked_insert c (refused e) insert = fail e
checked_insert c (admitted t) insert = if owned c t then insert t else fail insufficient_privilege

unfoldable pub insert_preview : CostPreview → Statement CostPreview
unfolding insert_preview_row enforce_tenant_insert
insert_preview row c db =
    if fits_12_4 row.estimated_cost_usd
    then checked_insert c (enforce_tenant_insert c (some row.tenant_id))
        (λ t. insert_preview_row (record row { tenant_id = t }) db)
    else fail numeric_out_of_range

abbrev pub preview_response : Env → PreviewRequest → List Gate → CostPreview → PreviewResponse
preview_response env q gates row = record {
  preview_id = row.id;
  operation = q.operation;
  expires_at = row.expires_at;
  units = map (as_dict env.codec) q.units;
  estimated_cost_usd = q.estimated_cost_usd;
  gates = gates;
  passes = all_pass gates;
}

unfoldable pub create_preview : Env → PreviewRequest → Exec PreviewResponse
unfolding evaluate_gates insert_preview preview_row run
create_preview env q = do
  gates ← evaluate_gates env.codec env.today q.estimated_cost_usd q.provider_balance_usd
  row ← run (insert_preview (preview_row env q gates))
  pure (preview_response env q gates row)

-- The `where` clause of `_load_preview`, with the policy `cost_preview_select_tenant`.
abbrev pub is_preview : Caller → ℕ → String → ℕ → CostPreview → Bool
is_preview c tenant operation id p =
    owned c p.tenant_id && (p.id == id && (p.tenant_id == tenant && str_eq p.operation operation))

abbrev pub select_previews : ℕ → String → ℕ → Statement (List CostPreview)
select_previews tenant operation id c db =
    done (where_rows (is_preview c tenant operation id) db.previews) db

unfoldable pub load_preview : ℕ → String → ℕ → Exec (Option CostPreview)
unfolding run
load_preview tenant operation id = do
  rows ← run (select_previews tenant operation id)
  one_or_none rows
