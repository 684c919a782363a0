-- ===== src/Locations/Served.antt =====
-- What the routes of a location answer: a conditional read, and a read after a change.
use mathlib.Core.Path.{subst, ap}
use as_baptist_api.Prelude.{sym, ℕ, ◌≡◌, ◌↔◌, ◌&&◌, some, [], ◌∷◌, str_eq, where_rows}
use as_baptist_api.Db.{Caller, Db, Location, RequestContext, ok, active, one_or_none}
use as_baptist_api.Db.Sequence.{bind_ok}
use as_baptist_api.Web.{Site, Incoming, not_modified, member, respond_if_changed, compute_etag}
use as_baptist_api.Web.Conditional.{AreApart, respond_if_changed_iff}
use as_baptist_api.Locations.{
  LocationDetail, LocationJson, detail_of, get_by_slug, can_see, get_location_route, show_location,
}

module _ (w : Site) (j : LocationJson) (req : Incoming) (ctx : RequestContext) (c : Caller)
    (db : Db) (n : ℕ) (l : Location) where
  get_by_slug_found :
      where_rows (λ x. can_see c db x && str_eq x.slug l.slug) db.locations ≡ l ∷ []
      → get_by_slug l.slug (active c db n) ≡ (ok (some l), active c db n)
  unfolding get_by_slug
  get_by_slug_found found = ap (λ rows. one_or_none rows (active c db n)) found

  shown :
      get_by_slug l.slug (active c db n) ≡ (ok (some l), active c db n)
      → get_location_route w j req ctx l.slug (active c db n) ≡ (
        respond_if_changed w req ctx (member l.source) (some l.slug) j.detail (detail_of l),
        active c db n,
      )
  unfolding get_location_route
  shown found = bind_ok (get_by_slug l.slug) (show_location w j req ctx) (active c db n) found

  -- A client that asks for a location that it may see, and presents the tag of a version that it
  -- holds, is told that nothing changed exactly if the location still reads as that version, where the
  -- digests of the two versions' texts do not collide and the texts of the two versions differ if the
  -- versions do. The read changes nothing.
  pub get_location_route_iff :
      (held : LocationDetail)
      → AreApart w ctx (j.detail held) (j.detail (detail_of l))
      → (j.detail held ≡ j.detail (detail_of l) → held ≡ detail_of l)
      → req.if_none_match ≡ some (compute_etag w.uuid w.hexdigest ctx (j.detail held))
      → where_rows (λ x. can_see c db x && str_eq x.slug l.slug) db.locations ≡ l ∷ []
      → let (reply, t) = get_location_route w j req ctx l.slug (active c db n) in
        (t ≡ active c db n)
        × ((reply
              ≡ ok (not_modified (compute_etag w.uuid w.hexdigest ctx (j.detail (detail_of l)))))
            ↔ (held ≡ detail_of l))
  get_location_route_iff held apart faithful presented found =
      let read = shown (get_by_slug_found found) in
      (
        ap (λ p. p.1) read,
        subst
            (λ r.
              (r.0
                ≡ ok (not_modified (compute_etag w.uuid w.hexdigest ctx (j.detail (detail_of l)))))
              ↔ (held ≡ detail_of l))
            (sym read)
            (respond_if_changed_iff w req ctx (member l.source) (some l.slug) j.detail held
              (detail_of l) presented apart faithful),
      )
