-- ===== src/Examples/Boundaries.antt =====
-- A checkout that keeps the boundaries of the repository.
use as_baptist_api.Prelude.{◌&&◌, if◌then◌else◌, false, ◌||◌, str_eq, [], ◌∷◌, ◌≡◌, ◌↔◌}
use as_baptist_api.Architecture.{python_paths, violations, Text, File, Checkout, main}
use as_baptist_api.Architecture.Clean.{IsClean, main_iff}
use mathlib.Core.Path.{refl}

-- Enough of Python's functions for the files below.
abbrev text : Text
text = record {
  contains = λ needle content. str_eq content needle;
  search = λ pattern content. false;
  glob = λ pattern name. str_eq name "rls.py" || str_eq name "main.py";
  suffix = λ name. if str_eq name "server.key" then ".key" else "";
  lower = λ name. name;
  starts_with = λ prefix name. str_eq prefix ".env." && str_eq name ".env.example";
}

abbrev binder : File
binder = record { path = "app" ∷ "db" ∷ "rls.py" ∷ []; content = "set_config" }

abbrev entry_point : File
entry_point = record { path = "app" ∷ "main.py" ∷ []; content = "create_app" }

abbrev clean : Checkout
clean = record {
  files = binder ∷ entry_point ∷ [];
  tracked = binder.path ∷ entry_point.path ∷ (".env.example" ∷ []) ∷ [];
}

clean_passes : main text clean ≡ 0
unfolding main violations python_paths
clean_passes = refl

-- A second file that binds the settings, and a key that is tracked.
leaking_fails :
    main text (record clean {
      files = record entry_point { content = "set_config" } ∷ binder ∷ [];
      tracked = ("certs" ∷ "server.key" ∷ []) ∷ [];
    })
    ≡ 1
unfolding main violations python_paths
leaking_fails = refl

main_iff_example : (main text clean ≡ 0) ↔ IsClean text clean
main_iff_example = main_iff text clean
