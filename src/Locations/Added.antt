-- ===== src/Locations/Added.antt =====
-- A location that was added can be read back under its slug.
use mathlib.Core.Path.{refl, ap, ◌∙◌}
use as_baptist_api.Prelude.{
  none, ℕ, ◌≡◌, Bool, true, false, ◌&&◌, some, List, [], ◌∷◌, ◌==◌, str_eq, eq_refl, any_row,
  where_rows, arith,
}
use as_baptist_api.Db.{
  Caller, Db, Location, Tenant, owned, ok, done, active, finish, run, one_or_none, is_operator,
  can_read_location,
}
use as_baptist_api.Ladder.Completes.{checked_insert_ok}
use as_baptist_api.Locations.{
  LocationCreate, given, is_fleet, is_listing_type, fits_10_7, location_row, coords_paired,
  same_slot, can_see, insert_location_row, insert_location, create_location, get_by_slug,
}

-- A location that an operator may add to their own tenant: valid values, a free slug and identifier.
pub record IsAddable (now id tenant : ℕ) (p : LocationCreate) (c : Caller) (db : Db) : Type 0 where
  pub own_tenant : c.tenant ≡ some tenant
  pub operator : is_operator c.role ≡ true
  pub valid_fleet : given p.fleet is_fleet ≡ true
  pub valid_type : is_listing_type p.listing_type ≡ true
  pub lat_fits : fits_10_7 p.lat ≡ true
  pub lng_fits : fits_10_7 p.lng ≡ true
  pub paired : coords_paired (location_row now id tenant p) ≡ true
  pub free : any_row (same_slot (location_row now id tenant p)) db.locations ≡ false
  pub tenant_row : any_row (λ (t : Tenant). t.id == tenant) db.tenants ≡ true

-- The row of a new location, field by field: the values of the request, active and made now, and
-- nothing yet of what is filled in later.
pub record IsNewLocation (now id tenant : ℕ) (p : LocationCreate) (l : Location) : Type 0 where
  pub id_ : l.id ≡ id
  pub tenant_ : l.tenant_id ≡ tenant
  pub slug : l.slug ≡ p.slug
  pub name : l.name ≡ p.name
  pub listing_type : l.listing_type ≡ p.listing_type
  pub facility_type : l.facility_type ≡ p.facility_type
  pub address : l.address ≡ p.address
  pub city : l.city ≡ p.city
  pub state : l.state ≡ p.state
  pub zip : l.zip ≡ p.zip
  pub fleet : l.fleet ≡ p.fleet
  pub lat : l.lat ≡ p.lat
  pub lng : l.lng ≡ p.lng
  pub source : l.source ≡ p.source
  pub status : l.status ≡ "active"
  pub enriched : l.enriched ≡ false
  pub created_at : l.created_at ≡ now
  pub updated_at : l.updated_at ≡ now
  pub no_display_name : l.display_name ≡ none
  pub no_rating : (l.rating_value ≡ none) × (l.rating_votes ≡ none)
  pub no_claim : (l.is_claimed ≡ none) × (l.is_verified ≡ none)
  pub no_contact : (l.phone ≡ none) × (l.website ≡ none) × (l.domain ≡ none)
  pub no_fetch : l.fetched_at ≡ none
  pub no_listing : (l.place_id ≡ none) × (l.cid ≡ none) × (l.total_photos ≡ none)
  pub no_category : (l.primary_category ≡ none) × (l.additional_categories ≡ [])
  pub no_details :
      (l.rating_distribution ≡ none)
      × (l.work_time ≡ none)
      × (l.attributes ≡ none)
      × (l.place_topics ≡ none)
  pub no_audit : (l.searchatlas_business_id ≡ none) × (l.searchatlas_audit_report_id ≡ none)

location_row-IsNewLocation :
    (now id tenant : ℕ) (p : LocationCreate)
    → IsNewLocation now id tenant p (location_row now id tenant p)
unfolding location_row
location_row-IsNewLocation now id tenant p = record {
  id_ = refl;
  tenant_ = refl;
  slug = refl;
  name = refl;
  listing_type = refl;
  facility_type = refl;
  address = refl;
  city = refl;
  state = refl;
  zip = refl;
  fleet = refl;
  lat = refl;
  lng = refl;
  source = refl;
  status = refl;
  enriched = refl;
  created_at = refl;
  updated_at = refl;
  no_display_name = refl;
  no_rating = (refl, refl);
  no_claim = (refl, refl);
  no_contact = (refl, refl, refl);
  no_fetch = refl;
  no_listing = (refl, refl, refl);
  no_category = (refl, refl);
  no_details = (refl, refl, refl, refl);
  no_audit = (refl, refl);
}

-- A selection that only rows of a slot pass is empty where no row has the slot.
where_rows-apart :
    {A : Type 0} (s slot : A → Bool) (rows : List A)
    → ((x : A) → slot x ≡ false → s x ≡ false)
    → any_row slot rows ≡ false
    → where_rows s rows ≡ []
where_rows-apart s slot [] apart h = refl
where_rows-apart s slot (x ∷ rows) apart h =
    ground (arith, apart x, where_rows-apart s slot rows apart)

module _ (now id tenant : ℕ) (p : LocationCreate) (c : Caller) (db : Db) where
  abbrev pub added : Location
  added = location_row now id tenant p

  abbrev pub added_db : Db
  added_db = record db { locations = added ∷ db.locations }

  operator_sees :
      (db' : Db) → c.tenant ≡ some tenant → is_operator c.role ≡ true → can_see c db' added ≡ true
  unfolding can_see can_read_location location_row
  operator_sees db' bound operator = rw (bound, owned) (rw operator (ground arith))

  insert_added_row :
      IsAddable now id tenant p c db → insert_location_row c added db ≡ done added added_db
  unfolding insert_location_row location_row
  insert_added_row h =
      rw (operator_sees db h.own_tenant h.operator) (rw h.paired (rw h.free (rw tenant_there)))
    where
      tenant_there : any_row (λ (t : Tenant). t.id == added.tenant_id) db.tenants ≡ true
      tenant_there = h.tenant_row

  insert_added : IsAddable now id tenant p c db → insert_location added c db ≡ done added added_db
  unfolding insert_location location_row
  insert_added h = rw h.lat_fits (
      rw h.lng_fits (
        checked_insert_ok c tenant (λ t. insert_location_row c (record added { tenant_id = t }) db)
          h.own_tenant
        ∙ insert_added_row h))

  other_slot :
      (x : Location)
      → c.tenant ≡ some tenant
      → same_slot added x ≡ false
      → (can_see c added_db x && str_eq x.slug p.slug) ≡ false
  unfolding location_row can_see
  other_slot x bound h =
      let owns : owned c x.tenant_id ≡ (x.tenant_id == tenant) =
        ap (λ o. elim o [ none ↦ false | some u ↦ x.tenant_id == u ]) bound in
      ground (arith, owns, h)

  create_then_get :
      (n : ℕ)
      → IsAddable now id tenant p c db
      → (create_location now id tenant p (active c db n) ≡ (ok added, active c added_db n))
        × (get_by_slug p.slug (active c added_db n) ≡ (ok (some added), active c added_db n))
  unfolding create_location get_by_slug run
  create_then_get n h = (
    rw h.valid_fleet (rw h.valid_type (ap (finish (active c db n)) (insert_added h))),
    ap (λ rows. one_or_none rows (active c added_db n)) selected,
  )
    where
      seen : (can_see c added_db added && str_eq added.slug p.slug) ≡ true
      seen = cc (operator_sees added_db h.own_tenant h.operator, eq_refl p.slug)

      selected :
          where_rows (λ l. can_see c added_db l && str_eq l.slug p.slug) added_db.locations
          ≡ added ∷ []
      selected = rw seen (
          ap (λ rows. added ∷ rows)
            (where_rows-apart (λ l. can_see c added_db l && str_eq l.slug p.slug) (same_slot added)
              db.locations (λ x slot. other_slot x h.own_tenant slot) h.free))

  -- After an operator has added a location to their own tenant, with valid values, a free slug and a
  -- fresh identifier, reading its slug gives back the row that was added: every value of the request,
  -- active, not enriched, with the time of the request as both of its times, and with none of what a
  -- request does not give. Nothing else has changed.
  pub create_location-get_by_slug :
      (n : ℕ)
      → IsAddable now id tenant p c db
      → (l : Location) × (create_location now id tenant p (active c db n)
          ≡ (ok l, active c (record db { locations = l ∷ db.locations }) n))
        × (get_by_slug p.slug (active c (record db { locations = l ∷ db.locations }) n)
            ≡ (ok (some l), active c (record db { locations = l ∷ db.locations }) n))
        × IsNewLocation now id tenant p l
  create_location-get_by_slug n h =
      let (made, read) = create_then_get n h in
      (added, made, read, location_row-IsNewLocation now id tenant p)
