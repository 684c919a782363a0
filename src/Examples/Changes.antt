-- ===== src/Examples/Changes.antt =====
-- A location that is read, changed and read again, and a user who asks who they are.
use mathlib.Core.Path.{refl}
use as_baptist_api.Prelude.{String, str_eq, if◌then◌else◌, ◌≡◌, ◌↔◌, true, none, some, [], ◌∷◌}
use as_baptist_api.Db.{
  can_read_location, is_operator, Db, Membership, RequestContext, AppSettings, active, ok,
  client_user,
}
use as_baptist_api.Db.Isolation.{bound}
use as_baptist_api.Locations.{
  can_see, LocationJson, LocationUpdate, detail_of, get_location_route, value, unset,
}
use as_baptist_api.Locations.Served.{get_location_route_iff}
use as_baptist_api.Web.{Site, Incoming, Envelope, body, not_modified, compute_etag}
use as_baptist_api.Identity.{MeResponse, get_me}
use as_baptist_api.Identity.Me.{get_me_own}
use as_baptist_api.Examples.World.{world, operator_caller, unary, unary_text, user, tenant}
use as_baptist_api.Examples.Places.{hospital, two_places}

abbrev ctx : RequestContext
ctx = record { tenant_id = 1; actor_id = 7; role = "as_admin" }

-- A digest of one bit, which tells the text of a location that was never changed from all others.
abbrev one_bit : String → String
one_bit t = if str_eq t "xx:x" then "0" else "1"

abbrev site : Site
site = record { uuid = unary_text; hexdigest = one_bit; utc_now = 9 }

-- The text of a location is its time of change.
abbrev json : LocationJson
json = record { detail = λ d. unary d.updated_at; page = λ p. "[]" }

abbrev pause : LocationUpdate
pause = record { display_name = unset; status = value "paused"; lat = unset; lng = unset }

abbrev presented : Incoming
presented = record {
  if_none_match = some (compute_etag unary_text one_bit ctx (unary 0));
  request_id = none;
}

get_location_route_iff_example :
    let answer =
      get_location_route site json presented ctx "north" (active operator_caller two_places 0) in
    (answer.1 ≡ active operator_caller two_places 0)
    × ((answer.0
          ≡ ok (
              not_modified
                (compute_etag unary_text one_bit ctx (json.detail (detail_of hospital)))))
        ↔ (detail_of hospital ≡ detail_of hospital))
unfolding detail_of can_see is_operator can_read_location
get_location_route_iff_example =
    get_location_route_iff site json presented ctx operator_caller two_places 0 hospital
      (detail_of hospital) (λ h. refl) (λ h. refl) refl refl

-- The user has been invited to the tenant.
abbrev invitation : Membership
invitation = record {
  id = 1;
  tenant_id = 1;
  user_id = 7;
  role = client_user;
  status = "pending";
  invited_by = none;
  invite_token = none;
  invite_expires_at = none;
  joined_at = none;
  created_at = 0;
  updated_at = 0;
}

abbrev invited : Db
invited = record world { memberships = invitation ∷ [] }

abbrev unset_settings : AppSettings
unset_settings = record { tenant_id = none; actor_id = none; role = none; request_id = none }

abbrev plain : Incoming
plain = record { if_none_match = none; request_id = none }

get_me_own_example :
    (e : Envelope MeResponse) × (get_me site
        (λ m. "{}")
        plain
        ctx
        (active (bound ctx unset_settings) invited 0)
      ≡ (
        ok (body 200 (some (compute_etag unary_text one_bit ctx "{}")) e),
        active (bound ctx unset_settings) invited 0,
      ))
    × (e.data_.user.id ≡ 7)
    × (e.data_.user.email ≡ "u@example.test")
    × (e.data_.tenant.id ≡ 1)
    × (e.data_.tenant.slug ≡ "t")
    × (e.data_.role ≡ "as_admin")
    × (e.data_.must_accept_invite ≡ true)
get_me_own_example =
    get_me_own ctx unset_settings invited user tenant (some invitation) refl refl refl site
      (λ m. "{}") plain 0 refl
