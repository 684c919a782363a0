-- ===== src/Architecture/Clean.antt =====
-- What it means that the check passes.
use mathlib.Core.Path.{refl}
use as_baptist_api.Prelude.{
  if◌then◌else◌, eq_iff, ◌≡◌, ◌↔◌, Bool, true, false, ◌&&◌, ◌||◌, String, List, [], ◌∷◌, ◌++◌,
  arith, any_row, where_rows,
}
use as_baptist_api.Architecture.{
  service_role, tenant_filter, str_eq, exit_status, set_config_elsewhere, secret_value,
  credential_file, environment_file, Text, File, Checkout, Violation, is_python, python_paths,
  set_config_paths, allowed_set_config, has_tenant_filter, has_service_role, is_environment,
  is_credential, has_secret, appended, all_tracked, tracked_violations, violations, main,
  same_paths, same_path,
}

-- The rules, each over all files or all tracked paths.
pub record IsClean (k : Text) (c : Checkout) : Type 0 where
  pub one_binder : set_config_paths k c ≡ allowed_set_config ∷ []
  pub no_tenant_filter :
      any_row (λ f. is_python k ("app" ∷ "repositories" ∷ []) f && has_tenant_filter k f) c.files
      ≡ false
  pub no_service_role :
      any_row (λ f. is_python k ("app" ∷ []) f && has_service_role k f) c.files ≡ false
  pub no_environment : any_row (is_environment k) c.tracked ≡ false
  pub no_credential : any_row (is_credential k) c.tracked ≡ false
  pub no_secret : any_row (has_secret k c) c.tracked ≡ false

append_nil_iff : {A : Type 0} (xs ys : List A) → (xs ++ ys ≡ []) ↔ ((xs ≡ []) × (ys ≡ []))
append_nil_iff [] ys = (λ h. (refl, h), λ h. h.1)
append_nil_iff (x ∷ xs) ys = (λ h. absurd (cc h), λ h. absurd (cc (h.0)))

or_false_iff : (a b : Bool) → ((a || b) ≡ false) ↔ ((a ≡ false) × (b ≡ false))
or_false_iff true b = (λ h. absurd (cc h), λ h. absurd (cc (h.0)))
or_false_iff false b = (λ h. (refl, h), λ h. h.1)

reported_iff :
    (b : Bool) (v : Violation) (vs : List Violation) (r : Bool)
    → (vs ≡ []) ↔ (r ≡ false)
    → ((if b then v ∷ vs else vs) ≡ []) ↔ ((b || r) ≡ false)
reported_iff true v vs r h = (λ e. absurd (cc e), λ e. absurd (cc e))
reported_iff false v vs r h = h

module _ {A : Type 0} (q p : A → Bool) (f : A → Violation) where
  selected_iff :
      (b : Bool) (x : A) (rows : List A) (r : Bool)
      → (appended p f rows ≡ []) ↔ (r ≡ false)
      → (appended p f (if b then x ∷ rows else rows) ≡ []) ↔ (((b && p x) || r) ≡ false)
  selected_iff true x rows r h = reported_iff (p x) (f x) (appended p f rows) r h
  selected_iff false x rows r h = h

  appended_iff :
      (rows : List A)
      → (appended p f (where_rows q rows) ≡ []) ↔ (any_row (λ x. q x && p x) rows ≡ false)
  appended_iff [] = (λ h. refl, λ h. refl)
  appended_iff (x ∷ rows) =
      selected_iff (q x) x (where_rows q rows) (any_row (λ x. q x && p x) rows) (appended_iff rows)

one_or_none_iff : (b : Bool) (v : Violation) → ((if b then v ∷ [] else []) ≡ []) ↔ (b ≡ false)
one_or_none_iff true v = (λ e. absurd (cc e), λ e. absurd (cc e))
one_or_none_iff false v = (λ e. refl, λ e. refl)

module _ (k : Text) (c : Checkout) where
  AreFine : List (List String) → Type 0
  AreFine ps =
      (any_row (is_environment k) ps ≡ false)
      × (any_row (is_credential k) ps ≡ false)
      × (any_row (has_secret k c) ps ≡ false)

  path_iff :
      (p : List String)
      → (tracked_violations k c p ≡ [])
        ↔ ((is_environment k p ≡ false) × (is_credential k p ≡ false) × (has_secret k c p ≡ false))
  path_iff p =
      let e = one_or_none_iff (is_environment k p) (environment_file p) in
      let d = one_or_none_iff (is_credential k p) (credential_file p) in
      let s = one_or_none_iff (has_secret k c p) (secret_value p) in
      let first = append_nil_iff _ _ in
      let rest = append_nil_iff _ _ in
      (
        λ h. let (x, yz) = first.0 h in let (y, z) = rest.0 yz in (e.0 x, d.0 y, s.0 z),
        λ h. first.1 (e.1 h.0, rest.1 (d.1 h.1, s.1 h.2)),
      )

  tracked_iff : (ps : List (List String)) → (all_tracked k c ps ≡ []) ↔ AreFine ps
  unfolding AreFine
  tracked_iff [] = (λ h. (refl, refl, refl), λ h. refl)
  tracked_iff (p ∷ ps) =
      let both = append_nil_iff (tracked_violations k c p) (all_tracked k c ps) in
      let here = path_iff p in
      let rest = tracked_iff ps in
      let e = or_false_iff (is_environment k p) (any_row (is_environment k) ps) in
      let d = or_false_iff (is_credential k p) (any_row (is_credential k) ps) in
      let s = or_false_iff (has_secret k c p) (any_row (has_secret k c) ps) in
      (
        λ h.
            let (x, y) = both.0 h in
            let (x0, x1, x2) = here.0 x in
            let (y0, y1, y2) = rest.0 y in (e.1 (x0, y0), d.1 (x1, y1), s.1 (x2, y2)),
        λ h.
            let (e0, e1) = e.0 h.0 in
            let (d0, d1) = d.0 h.1 in
            let (s0, s1) = s.0 h.2 in both.1 (here.1 (e0, d0, s0), rest.1 (e1, d1, s1)),
      )

and_true_iff : (a b : Bool) → ((a && b) ≡ true) ↔ ((a ≡ true) × (b ≡ true))
and_true_iff true b = (λ h. (refl, h), λ h. h.1)
and_true_iff false b = (λ h. absurd (cc h), λ h. absurd (cc (h.0)))

same_path_iff : (p q : List String) → (same_path p q ≡ true) ↔ (p ≡ q)
same_path_iff [] [] = (λ h. refl, λ h. refl)
same_path_iff [] (b ∷ q) = (λ h. absurd (cc h), λ h. absurd (cc h))
same_path_iff (a ∷ p) [] = (λ h. absurd (cc h), λ h. absurd (cc h))
same_path_iff (a ∷ p) (b ∷ q) =
    let all = and_true_iff (str_eq a b) (same_path p q) in
    (
      λ h.
          let (x, y) = all.0 h in
          let first : a ≡ b = (eq_iff a b).0 x in
          let rest : p ≡ q = (same_path_iff p q).0 y in cc (first, rest),
      λ h. all.1 ((eq_iff a b).1 (cc h), (same_path_iff p q).1 (cc h)),
    )

same_paths_iff : (ps qs : List (List String)) → (same_paths ps qs ≡ true) ↔ (ps ≡ qs)
same_paths_iff [] [] = (λ h. refl, λ h. refl)
same_paths_iff [] (b ∷ q) = (λ h. absurd (cc h), λ h. absurd (cc h))
same_paths_iff (a ∷ p) [] = (λ h. absurd (cc h), λ h. absurd (cc h))
same_paths_iff (a ∷ p) (b ∷ q) =
    let all = and_true_iff (same_path a b) (same_paths p q) in
    (
      λ h.
          let (x, y) = all.0 h in
          let first : a ≡ b = (same_path_iff a b).0 x in
          let rest : p ≡ q = (same_paths_iff p q).0 y in cc (first, rest),
      λ h. all.1 ((same_path_iff a b).1 (cc h), (same_paths_iff p q).1 (cc h)),
    )

binder_iff : (b : Bool) (v : Violation) → ((if b then [] else v ∷ []) ≡ []) ↔ (b ≡ true)
binder_iff true v = (λ e. refl, λ e. refl)
binder_iff false v = (λ e. absurd (cc e), λ e. absurd (cc e))

exit_status_iff : (vs : List Violation) → (exit_status vs ≡ 0) ↔ (vs ≡ [])
exit_status_iff [] = (λ h. refl, λ h. refl)
exit_status_iff (v ∷ vs) = (λ h. absurd (omega (arith, h)), λ h. absurd (cc h))

module _ (k : Text) (c : Checkout) where
  violations_iff : (violations k c ≡ []) ↔ IsClean k c
  unfolding violations python_paths AreFine
  violations_iff =
      let one = append_nil_iff _ _ in
      let two = append_nil_iff _ _ in
      let three = append_nil_iff _ _ in
      let binder =
        binder_iff (same_paths (set_config_paths k c) (allowed_set_config ∷ []))
          (set_config_elsewhere (set_config_paths k c)) in
      let alone = same_paths_iff (set_config_paths k c) (allowed_set_config ∷ []) in
      let filters =
        appended_iff (is_python k ("app" ∷ "repositories" ∷ [])) (has_tenant_filter k)
          (λ (f : File). tenant_filter f.path) c.files in
      let roles =
        appended_iff (is_python k ("app" ∷ [])) (has_service_role k)
          (λ (f : File). service_role f.path) c.files in
      let paths = tracked_iff k c c.tracked in
      (
        λ h.
            let (b, fst) = one.0 h in
            let (f, snd) = two.0 fst in
            let (r, t) = three.0 snd in
            let (x, y, z) = paths.0 t in
            record {
              one_binder = alone.0 (binder.0 b);
              no_tenant_filter = filters.0 f;
              no_service_role = roles.0 r;
              no_environment = x;
              no_credential = y;
              no_secret = z;
            },
        λ h. one.1 (
          binder.1 (alone.1 h.one_binder),
          two.1 (
            filters.1 h.no_tenant_filter,
            three.1 (
              roles.1 h.no_service_role,
              paths.1 (h.no_environment, h.no_credential, h.no_secret),
            ),
          ),
        ),
      )

  -- The architecture check passes, with exit status 0, exactly if every rule holds of the checkout:
  -- `app/db/rls.py` is the one Python file under `app` with `set_config`, no Python file of the
  -- repositories has a tenant filter and none under `app` names the service role, and of the tracked
  -- paths none is an environment file, none is a credential file and none has content that looks like
  -- a secret.
  pub main_iff : (main k c ≡ 0) ↔ IsClean k c
  unfolding main
  main_iff =
      let passes = exit_status_iff (violations k c) in
      (λ h. violations_iff.0 (passes.0 h), λ h. passes.1 (violations_iff.1 h))
