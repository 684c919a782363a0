-- ===== src/History/Patches.antt =====
-- A request that changes a location leaves the approval ladder alone.
use mathlib.Core.Path.{refl}
use as_baptist_api.Prelude.{
  if◌then◌else◌, arith, ℕ, Bool, true, false, not, String, Option, none, some,
}
use as_baptist_api.Db.{
  ◌>>=◌, Caller, Db, Location, RequestContext, Exec, from_result, Result, run, pure, one_or_none,
  raise_if, stale_data,
}
use as_baptist_api.Db.Frame.{
  Keeps, Keeping, bind-Keeps, run-Keeps, pure-Keeps, one_or_none-Keeps, raise_if-Keeps,
}
use as_baptist_api.Security.{require_operator}
use as_baptist_api.Web.{Site, Incoming, respond, member}
use as_baptist_api.Locations.{
  LocationUpdate, detail_of, get_by_slug, select_by_slug, patched, is_dirty, flush_update,
  update_location, update_location_row, update_location_route, patch_found, respond_location,
}
use as_baptist_api.History.Kept.{ladder_view}

from_result-Keeps : {A : Type 0} (r : Result A) → Keeps ladder_view (from_result r)
from_result-Keeps r t = (refl, refl)

if-Keeps :
    {A : Type 0} (b : Bool) (m m' : Exec A)
    → Keeps ladder_view m
    → Keeps ladder_view m'
    → Keeps ladder_view (if b then m else m')
if-Keeps true m m' h h' = h
if-Keeps false m m' h h' = h'

update_location_row-Keeping :
    (now : ℕ) (p : LocationUpdate) (l : Location) (c : Caller) (db : Db)
    → Keeping ladder_view (ladder_view db) (update_location_row now p l c db)
unfolding update_location_row
update_location_row-Keeping now p l c db = ground arith

flush_update-Keeps :
    (now : ℕ) (p : LocationUpdate) (l : Location) → Keeps ladder_view (flush_update now p l)
unfolding flush_update
flush_update-Keeps now p l =
    let k = λ (_ : Unit {0}). pure (patched p l) in
    bind-Keeps ladder_view (run (update_location_row now p l))
      (λ matched. raise_if (not matched) stale_data >>= k)
      (run-Keeps ladder_view (update_location_row now p l) (update_location_row-Keeping now p l))
      (λ matched.
        bind-Keeps ladder_view (raise_if (not matched) stale_data) k
          (raise_if-Keeps ladder_view (not matched) stale_data)
          (λ _. pure-Keeps ladder_view (patched p l)))

update_location-Keeps :
    (now : ℕ) (p : LocationUpdate) (l : Location) → Keeps ladder_view (update_location now p l)
unfolding update_location
update_location-Keeps now p l =
    if-Keeps (is_dirty p l) (flush_update now p l) (pure (patched p l)) (flush_update-Keeps now p l)
      (pure-Keeps ladder_view (patched p l))

get_by_slug-Keeps : (slug : String) → Keeps ladder_view (get_by_slug slug)
unfolding get_by_slug
get_by_slug-Keeps slug =
    bind-Keeps ladder_view (run (select_by_slug slug)) one_or_none
      (run-Keeps ladder_view (select_by_slug slug) (λ c db. refl))
      (λ rows. one_or_none-Keeps ladder_view rows)

module _ (w : Site) (req : Incoming) (ctx : RequestContext) (now : ℕ) (p : LocationUpdate) where
  patch_found-Keeps :
      (found : Option Location) → Keeps ladder_view (patch_found w req ctx now p found)
  patch_found-Keeps none = λ t. (refl, refl)
  patch_found-Keeps (some l) =
      bind-Keeps ladder_view (update_location now p l) (respond_location w req ctx 200)
        (update_location-Keeps now p l)
        (λ changed.
          from_result-Keeps
            (respond w req ctx 200 (member changed.source) (some changed.slug) (detail_of changed)))

pub update_location_route-Keeps :
    (w : Site) (req : Incoming) (ctx : RequestContext) (now : ℕ) (slug : String)
    (p : LocationUpdate)
    → Keeps ladder_view (update_location_route w req ctx now slug p)
unfolding update_location_route
update_location_route-Keeps w req ctx now slug p =
    bind-Keeps ladder_view (from_result (require_operator ctx))
      (λ o. get_by_slug slug >>= patch_found w req o now p)
      (from_result-Keeps (require_operator ctx))
      (λ o.
        bind-Keeps ladder_view (get_by_slug slug) (patch_found w req o now p)
          (get_by_slug-Keeps slug) (patch_found-Keeps w req o now p))
