-- ===== src/Locations/Patched.antt =====
-- A location that was changed can be read back.
use as_baptist_api.Db.Sequence.{bind_ok}
use mathlib.Core.Path.{refl, ap}
use as_baptist_api.Prelude.{
  ℕ, ◌≡◌, true, false, ◌&&◌, not, some, [], ◌∷◌, str_eq, where_rows, update_rows, arith,
}
use as_baptist_api.Prelude.Selection.{selected_passes, selected_any, updated_selection}
use as_baptist_api.Db.{
  pure, ◌>>=◌, stale_data, raise_if, Caller, Db, Location, ok, done, active, finish, run,
  one_or_none, can_read_location,
}
use as_baptist_api.Locations.{
  LocationUpdate, fits_10_7, coords_paired, is_null, is_dirty, is_location_status, patched,
  stored_patch, is_target, update_location_row, flush_update, update_location, get_by_slug, can_see,
}

-- A change that the tables take: the slug names one row that the caller sees, some attribute differs,
-- and the new values are valid.
pub record IsPatchable (p : LocationUpdate) (l : Location) (c : Caller) (db : Db) : Type 0 where
  pub found : where_rows (λ x. can_see c db x && str_eq x.slug l.slug) db.locations ≡ l ∷ []
  pub dirty : is_dirty p l ≡ true
  pub lat_fits : fits_10_7 (patched p l).lat ≡ true
  pub lng_fits : fits_10_7 (patched p l).lng ≡ true
  pub status_given : is_null p.status ≡ false
  pub valid_status : is_location_status (patched p l).status ≡ true
  pub paired : coords_paired (patched p l) ≡ true

module _ (now : ℕ) (p : LocationUpdate) (l : Location) (c : Caller) (db : Db) where
  abbrev pub patched_db : Db
  patched_db = record db {
    locations = update_rows (is_target c db l.id) (stored_patch now p) db.locations;
  }

  target : IsPatchable p l c db → is_target c db l.id l ≡ true
  target h =
      let seen =
        selected_passes (λ x. can_see c db x && str_eq x.slug l.slug) l db.locations h.found in
      ground (arith, seen)

  update_row_done : IsPatchable p l c db → update_location_row now p l c db ≡ done true patched_db
  unfolding update_location_row
  update_row_done h =
      rw
        (selected_any (λ x. can_see c db x && str_eq x.slug l.slug) (is_target c db l.id) l
          db.locations h.found (target h))
        (rw h.lat_fits (rw h.lng_fits (rw h.status_given (rw h.valid_status (rw h.paired refl)))))

  still_selected :
      IsPatchable p l c db
      → where_rows (λ x. can_see c patched_db x && str_eq x.slug l.slug) patched_db.locations
        ≡ stored_patch now p l ∷ []
  unfolding can_see can_read_location patched
  still_selected h =
      updated_selection (λ x. can_see c patched_db x && str_eq x.slug l.slug) (is_target c db l.id)
        (stored_patch now p) (λ x. refl) l db.locations h.found (target h)

  -- After a change that the tables take, reading the slug gives back the same row with the changed
  -- values and the time of the change; the answer to the change has the old time.
  pub update_location-get_by_slug :
      (n : ℕ)
      → IsPatchable p l c db
      → (update_location now p l (active c db n) ≡ (ok (patched p l), active c patched_db n))
        × (get_by_slug l.slug (active c patched_db n)
            ≡ (ok (some (stored_patch now p l)), active c patched_db n))
  unfolding update_location flush_update get_by_slug run
  update_location-get_by_slug n h = (
    rw h.dirty (
        bind_ok (run (update_location_row now p l))
          (λ matched. raise_if (not matched) stale_data >>= λ _. pure (patched p l)) (active c db n)
          (ap (finish (active c db n)) (update_row_done h))),
    ap (λ rows. one_or_none rows (active c patched_db n)) (still_selected h),
  )
