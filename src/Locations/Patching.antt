-- ===== src/Locations/Patching.antt =====
-- Changing a location: `LocationUpdate`, `LocationService.update`, `BaseRepository.update`, and the
-- policy, triggers and constraints that an update of the table meets
-- (`migrations/versions/0003_location.py`).
use as_baptist_api.Prelude.{
  ℕ, Bool, true, false, ◌&&◌, ◌||◌, not, String, Option, none, some, ◌==◌, str_eq, any_row,
  update_rows, if◌then◌else◌,
}
use as_baptist_api.Prelude.Int.{ℤ, leb_ℤ}
use as_baptist_api.Db.{
  Caller, Db, Location, Statement, done, fail, numeric_out_of_range, check_violation,
  not_null_violation, Exec, run, ◌>>=◌, ◌>>◌, pure, raise_if, stale_data,
}
use as_baptist_api.Locations.Listing.{can_see}
use as_baptist_api.Locations.Creating.{fits_10_7, coords_paired}

-- A field of the body: missing, null or a value.
pub data Field (A : Type 0) : Type 0 where
  unset null : Field A
  value : A → Field A

pub record LocationUpdate : Type 0 where
  pub display_name : Field String
  pub status : Field String
  pub lat : Field ℤ
  pub lng : Field ℤ

-- What `setattr` leaves of a nullable column, `exclude_unset` having left out the missing fields.
abbrev pub assigned : {A : Type 0} → Field A → Option A → Option A
assigned unset old = old
assigned null old = none
assigned (value a) old = some a

abbrev pub assigned_text : Field String → String → String
assigned_text (value t) old = t
assigned_text _ old = old

-- The row with the assigned values; a status of null is refused before any row has it.
unfoldable pub patched : LocationUpdate → Location → Location
patched p l = record l {
  display_name = assigned p.display_name l.display_name;
  status = assigned_text p.status l.status;
  lat = assigned p.lat l.lat;
  lng = assigned p.lng l.lng;
}

abbrev pub is_null : {A : Type 0} → Field A → Bool
is_null null = true
is_null _ = false

abbrev same_option : {A : Type 0} → (A → A → Bool) → Option A → Option A → Bool
same_option same none none = true
same_option same (some a) (some b) = same a b
same_option same _ _ = false

abbrev same_number : ℤ → ℤ → Bool
same_number a b = leb_ℤ a b && leb_ℤ b a

-- Whether the unit of work finds a changed attribute.
unfoldable pub is_dirty : LocationUpdate → Location → Bool
unfolding patched
is_dirty p l =
    is_null p.status
    || not (
        same_option str_eq (patched p l).display_name l.display_name
        && (str_eq (patched p l).status l.status
            && (same_option same_number (patched p l).lat l.lat
                && same_option same_number (patched p l).lng l.lng)))

-- `location_status_check`.
abbrev pub is_location_status : String → Bool
is_location_status t =
    str_eq t "active" || (str_eq t "onboarding" || (str_eq t "paused" || str_eq t "archived"))

-- The updated row, as the trigger `app.tg_set_updated_at()` leaves it.
abbrev pub stored_patch : ℕ → LocationUpdate → Location → Location
stored_patch now p l = record (patched p l) { updated_at = now }

-- The rows that the update reaches: `where id = …`, with the policies of reading and updating.
abbrev pub is_target : Caller → Db → ℕ → Location → Bool
is_target c db id l = can_see c db l && l.id == id

-- `update location set … where id = …`, and how many rows it matched. The tenant is not among the
-- columns, so the trigger `app.tg_enforce_tenant()` and the policy's check let it stand.
unfoldable pub update_location_row : ℕ → LocationUpdate → Location → Statement Bool
unfolding patched can_see
update_location_row now p l c db =
    if not (any_row (is_target c db l.id) db.locations)
    then done false db
    else if not (fits_10_7 (patched p l).lat && fits_10_7 (patched p l).lng)
    then fail numeric_out_of_range
    else if is_null p.status
    then fail not_null_violation
    else if not (is_location_status (patched p l).status && coords_paired (patched p l))
    then fail check_violation
    else done true (record db {
      locations = update_rows (is_target c db l.id) (stored_patch now p) db.locations;
    })

-- The flush: an update that matches no row is an error of the unit of work.
unfoldable pub flush_update : ℕ → LocationUpdate → Location → Exec Location
unfolding run update_location_row patched
flush_update now p l = do
  matched ← run (update_location_row now p l)
  raise_if (not matched) stale_data
  pure (patched p l)

-- `LocationService.update`: the object keeps its old `updated_at`, which no one reads back.
unfoldable pub update_location : ℕ → LocationUpdate → Location → Exec Location
unfolding flush_update is_dirty patched
update_location now p l = if is_dirty p l then flush_update now p l else pure (patched p l)
