-- ===== src/Locations/Creating.antt =====
-- Adding a location: `LocationService.create`, `BaseRepository.create` and the constraints of the
-- table (`migrations/versions/0003_location.py`).
use as_baptist_api.Prelude.{
  ℕ, ◌+◌, ◌^◌, Bool, true, false, ◌&&◌, ◌||◌, not, String, Option, none, some, [], ◌∷◌, ltb, ◌==◌,
  str_eq, any_row, is_none, if◌then◌else◌,
}
use as_baptist_api.Prelude.Int.{ℤ, pos_part, neg_part}
use as_baptist_api.Db.{
  Caller, Db, Location, Tenant, DataSource, Statement, Sql, done, fail, numeric_out_of_range,
  insufficient_privilege, check_violation, unique_violation, foreign_key_violation, statement_error,
  enforce_tenant_insert, Exec, run, ◌>>◌, raise_if,
}
use as_baptist_api.Ladder.{checked_insert}
use as_baptist_api.Locations.Listing.{given, is_fleet, can_see}

pub record LocationCreate : Type 0 where
  pub slug : String
  pub name : String
  pub listing_type : String
  pub facility_type : String
  pub address : String
  pub city : String
  pub state : String
  pub zip : String
  pub fleet : Option String
  pub lat : Option ℤ
  pub lng : Option ℤ
  pub source : DataSource

-- The enumeration `listing_type`.
abbrev pub is_listing_type : String → Bool
is_listing_type t = str_eq t "facility" || (str_eq t "department" || str_eq t "practitioner")

-- A coordinate that the type `Numeric(10, 7)` holds, in units of its last place.
abbrev pub fits_10_7 : Option ℤ → Bool
fits_10_7 none = true
fits_10_7 (some x) = ltb (pos_part x + neg_part x) (10 ^ 10)

-- The row of the insertion, with the defaults of its columns.
unfoldable pub location_row : ℕ → ℕ → ℕ → LocationCreate → Location
location_row now id tenant p = record {
  id = id;
  tenant_id = tenant;
  slug = p.slug;
  name = p.name;
  display_name = none;
  fleet = p.fleet;
  listing_type = p.listing_type;
  facility_type = p.facility_type;
  address = p.address;
  city = p.city;
  state = p.state;
  zip = p.zip;
  lat = p.lat;
  lng = p.lng;
  place_id = none;
  cid = none;
  phone = none;
  website = none;
  domain = none;
  primary_category = none;
  additional_categories = [];
  is_claimed = none;
  is_verified = none;
  total_photos = none;
  rating_value = none;
  rating_votes = none;
  rating_distribution = none;
  work_time = none;
  attributes = none;
  place_topics = none;
  searchatlas_business_id = none;
  searchatlas_audit_report_id = none;
  status = "active";
  enriched = false;
  source = p.source;
  fetched_at = none;
  created_at = now;
  updated_at = now;
}

-- `(lat is null) = (lng is null)`.
abbrev pub coords_paired : Location → Bool
coords_paired l = if is_none l.lat then is_none l.lng else not (is_none l.lng)

-- The primary key, and the unique slugs of a tenant.
abbrev pub same_slot : Location → Location → Bool
same_slot row l = (l.id == row.id) || (l.tenant_id == row.tenant_id && str_eq l.slug row.slug)

-- The constraints of `location`. The insertion returns the row, so the policy
-- `location_select_scoped` is checked, too.
unfoldable pub insert_location_row : Caller → Location → Db → Sql Location
unfolding can_see
insert_location_row c row db =
    if not (can_see c db row)
    then fail insufficient_privilege
    else if not (coords_paired row)
    then fail check_violation
    else if any_row (same_slot row) db.locations
    then fail unique_violation
    else if not (any_row (λ (t : Tenant). t.id == row.tenant_id) db.tenants)
    then fail foreign_key_violation
    else done row (record db { locations = row ∷ db.locations })

-- The trigger, then the policy `location_insert_tenant`, then the constraints.
unfoldable pub insert_location : Location → Statement Location
unfolding insert_location_row enforce_tenant_insert
insert_location row c db =
    if fits_10_7 row.lat && fits_10_7 row.lng
    then checked_insert c (enforce_tenant_insert c (some row.tenant_id))
        (λ t. insert_location_row c (record row { tenant_id = t }) db)
    else fail numeric_out_of_range

-- `LocationService.create`: the enumerations are validated when the statement binds them.
unfoldable pub create_location : ℕ → ℕ → ℕ → LocationCreate → Exec Location
unfolding run insert_location location_row
create_location now id tenant p = do
  raise_if (not (given p.fleet is_fleet && is_listing_type p.listing_type)) statement_error
  run (insert_location (location_row now id tenant p))
