-- ===== src/Examples/Deployment.antt =====
-- A production configuration that passes its check, and the origins of two dashboards.
use mathlib.Core.Path.{refl}
use as_baptist_api.Prelude.{some, List, [], ◌∷◌, String, ◌≡◌}
use as_baptist_api.Config.Cors.{text, sequence, parse_cors_origins}
use as_baptist_api.Config.Origins.{join_commas, parse_cors_origins_stable}
use as_baptist_api.Security.{supabase}
use as_baptist_api.Config.{is_space, Settings, production, validate_deployed_environment}
use as_baptist_api.Config.Deployed.{IsConfigured, validate_deployed_environment-IsConfigured}

abbrev live : Settings
live = record {
  app_env = production;
  database_url = "postgresql+asyncpg://api@db/live";
  migrations_database_url = "postgresql+asyncpg://migrator@db/live";
  auth = record {
    auth_mode = supabase;
    supabase_jwks_url = some "https://auth.test/jwks";
    supabase_jwt_audience = some "api";
    supabase_jwt_issuer = some "https://auth.test";
    mock_auth_token = "dev-token";
    mock_auth_user_id = 1;
    mock_auth_tenant_id = 2;
    mock_auth_role = "as_admin";
  };
}

validate_deployed_environment-IsConfigured_example : IsConfigured live
unfolding validate_deployed_environment
validate_deployed_environment-IsConfigured_example =
    validate_deployed_environment-IsConfigured live refl refl

abbrev dashboards : List String
dashboards = "https://app.test" ∷ " https://ops.test " ∷ "" ∷ []

-- Spaces around an origin and empty origins are left out.
spaced_origins :
    parse_cors_origins (text "https://app.test, https://ops.test ,,")
    ≡ some ("https://app.test" ∷ "https://ops.test" ∷ [])
unfolding parse_cors_origins is_space
spaced_origins = refl

parse_cors_origins_stable_example :
    (origins : List String) × (parse_cors_origins (text (join_commas dashboards)) ≡ some origins)
    × (parse_cors_origins (sequence dashboards) ≡ some origins)
    × (parse_cors_origins (sequence origins) ≡ some origins)
parse_cors_origins_stable_example = parse_cors_origins_stable dashboards refl
