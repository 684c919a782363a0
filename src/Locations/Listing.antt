-- ===== src/Locations/Listing.antt =====
-- Reading locations: `app/repositories/location.py`, `app/services/location.py`, the schemas of
-- `app/schemas/location.py` and the pagination of `app/core/envelope.py`.
use as_baptist_api.Prelude.{
  ℕ, ◌≡◌, Bool, true, false, ◌&&◌, ◌||◌, not, String, Option, none, some, List, str_eq, length,
  take, drop, where_rows,
}
use as_baptist_api.Prelude.Int.{ℤ, pos, negsuc, ltb_ℤ, ◌+ℤ◌}
use as_baptist_api.Db.{
  Caller, Db, Location, owned, can_read_location, Statement, Sql, done, fail, invalid_row_count,
  statement_error, Exec, run, ◌>>=◌, ◌>>◌, pure, raise_if, one_or_none,
}

-- The keyword arguments of `list_locations`.
pub record ListQuery : Type 0 where
  pub limit : ℤ
  pub offset : ℕ
  pub fleet : Option String
  pub status : Option String
  pub q : Option String

-- Comparing and ordering names is PostgreSQL's: `name ilike '%q%'`, and `order by name`, which
-- gives the same rows in some order.
pub record Collation : Type 0 where
  pub ilike : String → String → Bool
  pub by_name : List Location → List Location
  pub same_rows :
      (p : Location → Bool) (rows : List Location)
      → length (where_rows p (by_name rows)) ≡ length (where_rows p rows)

-- The policy `location_select_scoped` (`migrations/versions/0003_location.py`).
unfoldable pub can_see : Caller → Db → Location → Bool
unfolding can_read_location
can_see c db l = owned c l.tenant_id && can_read_location c db l.id

-- `column == value`, where a null column is equal to nothing.
abbrev pub column_is : Option String → String → Bool
column_is none v = false
column_is (some w) v = str_eq w v

-- A condition that is there only if its parameter is.
abbrev pub given : Option String → (String → Bool) → Bool
given none p = true
given (some v) p = p v

unfoldable pub is_listed : Collation → ListQuery → Location → Bool
is_listed k q l =
    given q.fleet (column_is l.fleet)
    && (given q.status (str_eq l.status) && given q.q (λ t. k.ilike t l.name))

abbrev pub listed : Collation → ListQuery → Caller → Db → List Location
listed k q c db = where_rows (λ l. can_see c db l && is_listed k q l) db.locations

-- `order by name limit … offset …`; a negative limit is an error.
abbrev pub page_of : Collation → ℤ → ℕ → List Location → Db → Sql (List Location)
page_of k (pos n) offset rows db = done (take n (drop offset (k.by_name rows))) db
page_of k (negsuc _) offset rows db = fail invalid_row_count

abbrev pub count_listed : Collation → ListQuery → Statement ℕ
count_listed k q c db = done (length (listed k q c db)) db

abbrev pub select_page : Collation → ListQuery → Statement (List Location)
select_page k q c db = page_of k q.limit q.offset (listed k q c db) db

-- The enumeration `fleet_kind`, whose values are validated when a statement binds them.
abbrev pub is_fleet : String → Bool
is_fleet f = str_eq f "hospital" || str_eq f "clinic"

unfoldable pub list_locations : Collation → ListQuery → Exec (List Location × ℕ)
unfolding run is_listed can_see
list_locations k q = do
  raise_if (not (given q.fleet is_fleet)) statement_error
  total ← run (count_listed k q)
  rows ← run (select_page k q)
  pure (rows, total)

abbrev pub select_by_slug : String → Statement (List Location)
select_by_slug slug c db =
    done (where_rows (λ l. can_see c db l && str_eq l.slug slug) db.locations) db

-- `get_by_slug`, and `BaseRepository.get`.
unfoldable pub get_by_slug : String → Exec (Option Location)
unfolding run can_see
get_by_slug slug = do rows ← run (select_by_slug slug); one_or_none rows

pub record LocationSummary : Type 0 where
  pub slug : String
  pub name : String
  pub display_name : Option String
  pub fleet : Option String
  pub listing_type : String
  pub status : String
  pub city : String
  pub state : String

-- `LocationSummary.from_model`.
unfoldable pub summary_of : Location → LocationSummary
summary_of l = record {
  slug = l.slug;
  name = l.name;
  display_name = l.display_name;
  fleet = l.fleet;
  listing_type = l.listing_type;
  status = l.status;
  city = l.city;
  state = l.state;
}

pub record PageInfo : Type 0 where
  pub limit : ℤ
  pub offset : ℕ
  pub total : ℕ
  pub has_more : Bool

unfoldable pub build_page : ℤ → ℕ → ℕ → PageInfo
build_page limit offset total = record {
  limit = limit;
  offset = offset;
  total = total;
  has_more = ltb_ℤ (pos offset +ℤ limit) (pos total);
}
