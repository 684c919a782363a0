-- ===== src/Locations/Routes.antt =====
-- The routes of `app/routers/locations.py`, and `LocationDetail` of `app/schemas/location.py`.
use as_baptist_api.Prelude.{ℕ, Bool, String, Option, none, some, List, map}
use as_baptist_api.Prelude.Int.{ℤ}
use as_baptist_api.Problem.{not_found, from_code}
use as_baptist_api.Db.{
  DataSource, Location, RequestContext, Exec, ◌>>=◌, raise, from_result, problem,
}
use as_baptist_api.Security.{require_operator}
use as_baptist_api.Web.{Site, Incoming, Envelope, Reply, member, raw, respond, respond_if_changed}
use as_baptist_api.Locations.Listing.{
  Collation, ListQuery, LocationSummary, PageInfo, list_locations, build_page, summary_of,
  get_by_slug,
}
use as_baptist_api.Locations.Creating.{LocationCreate, create_location}
use as_baptist_api.Locations.Patching.{LocationUpdate, update_location}

pub record LocationRating : Type 0 where
  pub value : Option ℤ
  pub votes : Option ℤ

pub record LocationDetail : Type 0 where
  pub slug : String
  pub name : String
  pub display_name : Option String
  pub listing_type : String
  pub fleet : Option String
  pub address : String
  pub city : String
  pub state : String
  pub zip : String
  pub lat : Option ℤ
  pub lng : Option ℤ
  pub cid : Option String
  pub domain : Option String
  pub is_claimed : Option Bool
  pub is_verified : Option Bool
  pub rating : LocationRating
  pub status : String
  pub source : DataSource
  pub created_at : ℕ
  pub updated_at : ℕ

-- `LocationDetail.from_model`.
unfoldable pub detail_of : Location → LocationDetail
detail_of l = record {
  slug = l.slug;
  name = l.name;
  display_name = l.display_name;
  listing_type = l.listing_type;
  fleet = l.fleet;
  address = l.address;
  city = l.city;
  state = l.state;
  zip = l.zip;
  lat = l.lat;
  lng = l.lng;
  cid = l.cid;
  domain = l.domain;
  is_claimed = l.is_claimed;
  is_verified = l.is_verified;
  rating = record { value = l.rating_value; votes = l.rating_votes };
  status = l.status;
  source = l.source;
  created_at = l.created_at;
  updated_at = l.updated_at;
}

-- `model_dump_json` of a location, and of a page of them without its metadata.
pub record LocationJson : Type 0 where
  pub detail : LocationDetail → String
  pub page : List LocationSummary × PageInfo → String

-- A page of locations; the wrapper adds the metadata.
abbrev pub Page : Type 0
Page = List LocationSummary × PageInfo

abbrev pub page_from : ListQuery → List Location × ℕ → Page
page_from q (rows, total) = (map summary_of rows, build_page q.limit q.offset total)

-- `GET /v1/locations`.
unfoldable pub list_locations_route :
    Site
    → LocationJson
    → Collation
    → Incoming
    → RequestContext
    → ListQuery
    → Exec (Reply (Envelope Page))
unfolding list_locations respond_if_changed summary_of build_page
list_locations_route w j k req ctx q = do
  found ← list_locations k q
  from_result (respond_if_changed w req ctx (raw "computed") none j.page (page_from q found))

abbrev pub show_location :
    Site
    → LocationJson
    → Incoming
    → RequestContext
    → Option Location
    → Exec (Reply (Envelope LocationDetail))
show_location w j req ctx none = raise (problem (from_code not_found))
show_location w j req ctx (some l) =
    from_result
      (respond_if_changed w req ctx (member l.source) (some l.slug) j.detail (detail_of l))

-- `GET /v1/locations/{slug}`.
unfoldable pub get_location_route :
    Site
    → LocationJson
    → Incoming
    → RequestContext
    → String
    → Exec (Reply (Envelope LocationDetail))
unfolding get_by_slug respond_if_changed detail_of from_code
get_location_route w j req ctx slug = do found ← get_by_slug slug; show_location w j req ctx found

abbrev pub respond_location :
    Site → Incoming → RequestContext → ℕ → Location → Exec (Reply (Envelope LocationDetail))
respond_location w req ctx status l =
    from_result (respond w req ctx status (member l.source) (some l.slug) (detail_of l))

-- `POST /v1/locations`, for operators.
unfoldable pub create_location_route :
    Site
    → Incoming
    → RequestContext
    → ℕ
    → ℕ
    → LocationCreate
    → Exec (Reply (Envelope LocationDetail))
unfolding create_location respond detail_of require_operator
create_location_route w req ctx now id p = do
  operator ← from_result (require_operator ctx)
  l ← create_location now id operator.tenant_id p
  respond_location w req operator 201 l

abbrev pub patch_found :
    Site
    → Incoming
    → RequestContext
    → ℕ
    → LocationUpdate
    → Option Location
    → Exec (Reply (Envelope LocationDetail))
patch_found w req ctx now p none = raise (problem (from_code not_found))
patch_found w req ctx now p (some l) = do
  changed ← update_location now p l
  respond_location w req ctx 200 changed

-- `PATCH /v1/locations/{slug}`, for operators.
unfoldable pub update_location_route :
    Site
    → Incoming
    → RequestContext
    → ℕ
    → String
    → LocationUpdate
    → Exec (Reply (Envelope LocationDetail))
unfolding get_by_slug update_location respond detail_of require_operator from_code
update_location_route w req ctx now slug p = do
  operator ← from_result (require_operator ctx)
  found ← get_by_slug slug
  patch_found w req operator now p found
