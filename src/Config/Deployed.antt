-- ===== src/Config/Deployed.antt =====
-- What a deployed service can rely on.
use mathlib.Core.Path.{subst, refl, ap, sym, ◌∙◌}
use as_baptist_api.Prelude.{
  if◌then◌else◌, eq_iff, not, is_none, ◌≡◌, ◌≢◌, Bool, true, false, ◌||◌, String, Option, none,
  some, List, [], ◌∷◌, ◌++◌, str_eq, Bool-cases, inl, inr,
}
use as_baptist_api.Security.{AuthMode, mock, supabase, decode_options, non_empty}
use as_baptist_api.Config.{
  Settings, local_database_url, local_migrations_database_url, is_blank, is_missing, is_deployed,
  is_mock, required_when, missing, reject, valid, validate_deployed_environment,
}

-- The parts of a deployed configuration that passed the check.
pub record IsConfigured (s : Settings) : Type 0 where
  pub own_database : s.database_url ≢ local_database_url
  pub own_migrations_database : s.migrations_database_url ≢ local_migrations_database_url
  pub real_auth : s.auth.auth_mode ≡ supabase
  pub jwks_url : (t : String) × (non_empty s.auth.supabase_jwks_url ≡ some t)
  pub audience :
      (t : String) × (s.auth.supabase_jwt_audience ≡ some t)
      × ((decode_options s.auth).verify_aud ≡ true)
      × ((decode_options s.auth).audience ≡ some t)
  pub issuer :
      (t : String) × (s.auth.supabase_jwt_issuer ≡ some t)
      × ((decode_options s.auth).verify_iss ≡ true)
      × ((decode_options s.auth).issuer ≡ some t)

-- No part of an empty list of complaints is a complaint.
no_complaint :
    (b : Bool) (name : String) (rest : List String)
    → required_when b name ++ rest ≡ []
    → (b ≡ false) × (rest ≡ [])
no_complaint true name rest h = absurd (cc h)
no_complaint false name rest h = (refl, h)

or_false : (a b : Bool) → (a || b) ≡ false → (a ≡ false) × (b ≡ false)
or_false true b h = absurd (cc h)
or_false false b h = (refl, h)

last_complaint : (b : Bool) (name : String) → required_when b name ≡ [] → b ≡ false
last_complaint true name h = absurd (cc h)
last_complaint false name h = refl

is_mock_lem : (m : AuthMode) → is_mock m ≡ false → m ≡ supabase
is_mock_lem mock h = absurd (cc h)
is_mock_lem supabase h = refl

-- A text that is there and not blank counts as given.
present :
    (o : Option String)
    → is_missing o ≡ false
    → (t : String) × (o ≡ some t) × (non_empty o ≡ some t)
unfolding is_missing is_blank
present none h = absurd (cc h)
present (some t) h = elim (Bool-cases (str_eq t "")) [
  | inl empty ↦ absurd (cc (sym h ∙ ap is_blank ((eq_iff t "").0 empty)))
  | inr filled ↦ (t, refl, rw filled)
]

not_equal : (t x : String) → str_eq t x ≡ false → t ≢ x
not_equal t x h e = absurd (cc (sym h ∙ (eq_iff t x).1 e))

missing-IsConfigured : (s : Settings) → missing s ≡ [] → IsConfigured s
unfolding missing decode_options
missing-IsConfigured s h =
    let (database, h₁) = no_complaint _ "DATABASE_URL" _ h in
    let (migrations, h₂) = no_complaint _ "MIGRATIONS_DATABASE_URL" _ h₁ in
    let (auth, h₃) = no_complaint _ "AUTH_MODE=supabase" _ h₂ in
    let (url, h₄) = no_complaint _ "SUPABASE_JWKS_URL" _ h₃ in
    let (aud, h₅) = no_complaint _ "SUPABASE_JWT_AUDIENCE" _ h₄ in
    let iss = last_complaint _ "SUPABASE_JWT_ISSUER" h₅ in
    let (u, u_is, u_given) = present s.auth.supabase_jwks_url url in
    let (a, a_is, a_given) = present s.auth.supabase_jwt_audience aud in
    let (i, i_is, i_given) = present s.auth.supabase_jwt_issuer iss in
    record {
      own_database = not_equal s.database_url _ (or_false _ _ database).1;
      own_migrations_database = not_equal s.migrations_database_url _ (or_false _ _ migrations).1;
      real_auth = is_mock_lem s.auth.auth_mode auth;
      jwks_url = (u, u_given);
      audience = (a, a_is, ap (λ o. not (is_none o)) a_is, a_given);
      issuer = (i, i_is, ap (λ o. not (is_none o)) i_is, i_given);
    }

nothing_rejected : (s : Settings) (names : List String) → reject names s ≡ valid s → names ≡ []
nothing_rejected s [] h = refl
nothing_rejected s (x ∷ xs) h = absurd (cc h)

-- A deployed service, in staging or production, that passes the check of its configuration never
-- authenticates mock tokens, does not use the local databases, has a key set to ask for, and verifies
-- the audience and the issuer of every token against the configured ones.
pub validate_deployed_environment-IsConfigured :
    (s : Settings)
    → is_deployed s.app_env ≡ true
    → validate_deployed_environment s ≡ valid s
    → IsConfigured s
unfolding validate_deployed_environment
validate_deployed_environment-IsConfigured s deployed passed = missing-IsConfigured s (
    nothing_rejected s (missing s) (
      subst (λ (b : Bool). (if b then reject (missing s) s else valid s) ≡ valid s) deployed
        passed))
