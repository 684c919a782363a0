-- ===== src/Examples/Places.antt =====
-- Two locations, one of another tenant, and one that is added.
use mathlib.Core.Path.{refl}
use as_baptist_api.Prelude.{
  ◌≡◌, none, some, [], ◌∷◌, true, false, ℕ, List, length, where_rows, any_row, not, leb, ltb, ◌+◌,
  ◌-◌, if◌then◌else◌,
}
use as_baptist_api.Prelude.Int.{pos}
use as_baptist_api.Db.{Location, Db, computed, active, ok}
use as_baptist_api.Db.{is_operator}
use as_baptist_api.Locations.Added.{IsNewLocation, IsAddable, create_location-get_by_slug}
use as_baptist_api.Locations.{
  LocationCreate, location_row, create_location, get_by_slug, Collation, ListQuery, list_locations,
  build_page,
}
use as_baptist_api.Locations.Pages.{list_locations_pages, wanted}
use as_baptist_api.Examples.World.{world, operator_caller}

abbrev pub hospital : Location
hospital = record {
  id = 3;
  tenant_id = 1;
  slug = "north";
  name = "North";
  display_name = none;
  fleet = some "hospital";
  listing_type = "facility";
  facility_type = "hospital";
  address = "1 North St";
  city = "Miami";
  state = "FL";
  zip = "33101";
  lat = none;
  lng = none;
  place_id = none;
  cid = none;
  phone = none;
  website = none;
  domain = none;
  primary_category = none;
  additional_categories = [];
  is_claimed = none;
  is_verified = none;
  total_photos = none;
  rating_value = none;
  rating_votes = none;
  rating_distribution = none;
  work_time = none;
  attributes = none;
  place_topics = none;
  searchatlas_business_id = none;
  searchatlas_audit_report_id = none;
  status = "active";
  enriched = false;
  source = computed;
  fetched_at = none;
  created_at = 0;
  updated_at = 0;
}

abbrev pub two_places : Db
two_places = record world {
  locations = hospital ∷ record hospital { id = 4; tenant_id = 2; slug = "south" } ∷ [];
}

abbrev as_stored : Collation
as_stored = record {
  ilike = λ pattern name. true;
  by_name = λ rows. rows;
  same_rows = λ p rows. refl;
}

abbrev pub hospitals : ListQuery
hospitals = record { limit = pos 50; offset = 0; fleet = some "hospital"; status = none; q = none }

list_locations_pages_example :
    (rows : List Location) × (total : ℕ) × (list_locations as_stored hospitals
        (active operator_caller two_places 0)
      ≡ (ok (rows, total), active operator_caller two_places 0))
    × (total
        ≡ length (
            where_rows
              (wanted as_stored hospitals operator_caller two_places)
              two_places.locations))
    × (any_row (λ l. not (wanted as_stored hospitals operator_caller two_places l)) rows ≡ false)
    × (length rows ≡ (if leb 50 (total - 0) then 50 else total - 0))
    × ((build_page (pos 50) 0 total).has_more ≡ ltb (0 + length rows) total)
list_locations_pages_example =
    list_locations_pages as_stored hospitals operator_caller two_places 50 0 refl refl

abbrev clinic : LocationCreate
clinic = record {
  slug = "west";
  name = "West";
  listing_type = "facility";
  facility_type = "clinic";
  address = "1 West St";
  city = "Miami";
  state = "FL";
  zip = "33102";
  fleet = some "clinic";
  lat = none;
  lng = none;
  source = computed;
}

clinic-IsAddable : IsAddable 5 9 1 clinic operator_caller two_places
unfolding is_operator location_row
clinic-IsAddable = record {
  own_tenant = refl;
  operator = refl;
  valid_fleet = refl;
  valid_type = refl;
  lat_fits = refl;
  lng_fits = refl;
  paired = refl;
  free = refl;
  tenant_row = refl;
}

create_location-get_by_slug_example :
    (l : Location) × (create_location 5 9 1 clinic (active operator_caller two_places 0) ≡ (
      ok l,
      active operator_caller (record two_places { locations = l ∷ two_places.locations }) 0,
    ))
    × (get_by_slug "west"
          (active operator_caller (record two_places { locations = l ∷ two_places.locations }) 0)
        ≡ (
          ok (some l),
          active operator_caller (record two_places { locations = l ∷ two_places.locations }) 0,
        ))
    × IsNewLocation 5 9 1 clinic l
create_location-get_by_slug_example =
    create_location-get_by_slug 5 9 1 clinic operator_caller two_places 0 clinic-IsAddable
