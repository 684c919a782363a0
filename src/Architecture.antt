-- ===== src/Architecture.antt =====
-- `scripts/check_architecture.py`: the boundaries of the repository that a build checks. Looking for a
-- text or a regular expression, globs and the parts of a name are Python's.
use as_baptist_api.Prelude.{
  ℕ, Bool, true, false, ◌&&◌, ◌||◌, not, String, Option, none, some, List, [], ◌∷◌, ◌++◌, map,
  str_eq, any_row, find_row, where_rows, if◌then◌else◌,
}
pub mod Clean

-- `needle in text`, `re.compile(pattern).search(text)`, the glob of `rglob`, `Path.suffix`,
-- `str.lower` and `str.startswith`.
pub record Text : Type 0 where
  pub contains : String → String → Bool
  pub search : String → String → Bool
  pub glob : String → String → Bool
  pub suffix : String → String
  pub lower : String → String
  pub starts_with : String → String → Bool

-- A file below the root, by the parts of its path.
pub record File : Type 0 where
  pub path : List String
  pub content : String

-- What the script sees: the files on disk, in the order of their paths, and what `git ls-files` names.
pub record Checkout : Type 0 where
  pub files : List File
  pub tracked : List (List String)

abbrev pub same_path : List String → List String → Bool
same_path [] [] = true
same_path (a ∷ p) (b ∷ q) = str_eq a b && same_path p q
same_path _ _ = false

abbrev pub same_paths : List (List String) → List (List String) → Bool
same_paths [] [] = true
same_paths (a ∷ p) (b ∷ q) = same_path a b && same_paths p q
same_paths _ _ = false

-- Whether a path stands below a directory.
abbrev below : List String → List String → Bool
below [] (_ ∷ _) = true
below [] [] = false
below (d ∷ ds) (a ∷ p) = str_eq d a && below ds p
below (d ∷ ds) [] = false

-- `path.name`.
abbrev file_name : List String → String
file_name [] = ""
file_name (a ∷ []) = a
file_name (a ∷ b ∷ p) = file_name (b ∷ p)

abbrev pub is_python : Text → List String → File → Bool
is_python k root f = below root f.path && k.glob "*.py" (file_name f.path)

unfoldable pub python_paths : Text → List String → Checkout → List File
python_paths k root c = where_rows (is_python k root) c.files

pub data Violation : Type 0 where
  set_config_elsewhere : List (List String) → Violation
  tenant_filter service_role environment_file credential_file secret_value : List String → Violation

abbrev pub allowed_set_config : List String
allowed_set_config = "app" ∷ "db" ∷ "rls.py" ∷ []

abbrev pub set_config_paths : Text → Checkout → List (List String)
set_config_paths k c =
    map (λ (f : File). f.path)
      (where_rows (λ (f : File). k.contains "set_config" f.content) (python_paths k ("app" ∷ []) c))

-- `for x in xs: if p(x): violations.append(f(x))`.
abbrev pub appended : {A : Type 0} → (A → Bool) → (A → Violation) → List A → List Violation
appended p f [] = []
appended p f (x ∷ xs) = let rest = appended p f xs in if p x then f x ∷ rest else rest

abbrev pub has_tenant_filter : Text → File → Bool
has_tenant_filter k f = k.search "\\btenant_id\\s*==" f.content

abbrev pub has_service_role : Text → File → Bool
has_service_role k f = k.contains "service_role" f.content

abbrev pub is_environment : Text → List String → Bool
is_environment k p =
    let n = k.lower (file_name p) in
    str_eq n ".env" || (k.starts_with ".env." n && not (str_eq n ".env.example"))

abbrev pub is_credential : Text → List String → Bool
is_credential k p =
    let s = k.lower (k.suffix (file_name p)) in
    str_eq s ".pem" || (str_eq s ".key" || (str_eq s ".p12" || str_eq s ".pfx"))

abbrev pub secret_patterns : List String
secret_patterns =
    "-----BEGIN [A-Z ]*PRIVATE KEY-----" ∷ "\\bAKIA[0-9A-Z]{16}\\b"
    ∷ "\\b(?:sk|rk)_(?:live|test)_[A-Za-z0-9]{16,}\\b" ∷ "\\bgh[pousr]_[A-Za-z0-9]{20,}\\b" ∷ []

abbrev is_secret : Text → Option File → Bool
is_secret k none = false
is_secret k (some f) = any_row (λ p. k.search p f.content) secret_patterns

abbrev pub has_secret : Text → Checkout → List String → Bool
has_secret k c p = is_secret k (find_row (λ (f : File). same_path f.path p) c.files)

-- The checks of one tracked path.
abbrev pub tracked_violations : Text → Checkout → List String → List Violation
tracked_violations k c p =
    (if is_environment k p then environment_file p ∷ [] else [])
    ++ ((if is_credential k p then credential_file p ∷ [] else [])
        ++ (if has_secret k c p then secret_value p ∷ [] else []))

abbrev pub all_tracked : Text → Checkout → List (List String) → List Violation
all_tracked k c [] = []
all_tracked k c (p ∷ ps) = tracked_violations k c p ++ all_tracked k c ps

unfoldable pub violations : Text → Checkout → List Violation
unfolding python_paths
violations k c =
    (if same_paths (set_config_paths k c) (allowed_set_config ∷ [])
      then []
      else set_config_elsewhere (set_config_paths k c) ∷ [])
    ++ (appended (has_tenant_filter k) (λ (f : File). tenant_filter f.path)
          (python_paths k ("app" ∷ "repositories" ∷ []) c)
        ++ (appended (has_service_role k) (λ (f : File). service_role f.path)
              (python_paths k ("app" ∷ []) c)
            ++ all_tracked k c c.tracked))

abbrev pub exit_status : List Violation → ℕ
exit_status [] = 0
exit_status (v ∷ vs) = 1

-- `main`: the exit status.
unfoldable pub main : Text → Checkout → ℕ
unfolding violations
main k c = exit_status (violations k c)
