-- ===== src/Migrations/Runs.antt =====
-- The migrations run to their end, up and down.
use mathlib.Core.Path.{refl}
use as_baptist_api.Prelude.{◌≡◌, true, String, List, []}
use as_baptist_api.Migrations.{
  Role, Command, apply, apply_all, accepts, accepts_all, Revision, spine, access, places, spending,
  approving, upgrade, downgrade, down_revision, bare,
}

module _ (extensions : List String) (public_users : List Role)
    (defaults : List (Role × Command)) where
  -- Every revision can be applied and taken back. On a server without the roles and a database
  -- without tables, types and namespaces of its own, each statement of an upgrade is accepted after the
  -- ones before it, and each of its downgrade after that. For no statement is a name taken or does what
  -- it names fail to be there: tables, the columns of keys, indexes and policies, the unique key that a
  -- foreign key refers to, enumerations, roles, namespaces, and the functions that policies and triggers
  -- call. All that is dropped is there, also where the statement says `if exists`, and no key, column,
  -- trigger or policy still uses it. What function bodies, checks and index conditions name is not
  -- looked at.
  pub chain_accepted :
      (r : Revision)
      → let found = down_revision r (bare extensions [] public_users defaults) in
        (accepts_all (upgrade r) found ≡ true)
        × (accepts_all (downgrade r) (apply_all (upgrade r) found) ≡ true)
  unfolding apply accepts
  chain_accepted spine = (refl, refl)
  chain_accepted access = (refl, refl)
  chain_accepted places = (refl, refl)
  chain_accepted spending = (refl, refl)
  chain_accepted approving = (refl, refl)
