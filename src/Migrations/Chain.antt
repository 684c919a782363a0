-- ===== src/Migrations/Chain.antt =====
-- The chain of the migrations, as `down_revision` orders them.
use as_baptist_api.Prelude.{String, List, []}
use as_baptist_api.Migrations.Objects.{Role, Command, Schema}
use as_baptist_api.Migrations.Ddl.{Ddl, apply_all}
use as_baptist_api.Migrations.Spine.{spine_upgrade, spine_downgrade}
use as_baptist_api.Migrations.Access.{access_upgrade, access_downgrade}
use as_baptist_api.Migrations.Places.{places_upgrade, places_downgrade}
use as_baptist_api.Migrations.Spending.{spending_upgrade, spending_downgrade}
use as_baptist_api.Migrations.Approving.{approving_upgrade, approving_downgrade}

-- The revisions 0001 to 0005.
pub data Revision : Type 0 where
  spine access places spending approving : Revision

abbrev pub upgrade : Revision → List Ddl
upgrade spine = spine_upgrade
upgrade access = access_upgrade
upgrade places = places_upgrade
upgrade spending = spending_upgrade
upgrade approving = approving_upgrade

abbrev pub downgrade : Revision → List Ddl
downgrade spine = spine_downgrade
downgrade access = access_downgrade
downgrade places = places_downgrade
downgrade spending = spending_downgrade
downgrade approving = approving_downgrade

-- The schema that a revision finds, and the one that the last revision leaves.
abbrev pub down_revision : Revision → Schema → Schema
down_revision spine s = s
down_revision access s = apply_all spine_upgrade s
down_revision places s = apply_all access_upgrade (apply_all spine_upgrade s)
down_revision spending s =
    apply_all places_upgrade (apply_all access_upgrade (apply_all spine_upgrade s))
down_revision approving s =
    apply_all spending_upgrade
      (apply_all places_upgrade (apply_all access_upgrade (apply_all spine_upgrade s)))

abbrev pub deployed : Schema → Schema
deployed s = apply_all approving_upgrade (down_revision approving s)

-- A database without tables, types and namespaces of its own.
abbrev pub bare : List String → List Role → List Role → List (Role × Command) → Schema
bare extensions roles public_users defaults = record {
  extensions = extensions;
  roles = roles;
  types = [];
  namespaces = [];
  public_users = public_users;
  defaults = defaults;
  tables = [];
}
