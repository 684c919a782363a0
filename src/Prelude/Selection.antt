-- ===== src/Prelude/Selection.antt =====
-- A query that selects one row, and an update of that row.
use mathlib.Core.Path.{◌≡◌, refl, sym, ap, ◌∙◌, subst}
use mathlib.Core.Logic.{inl, inr}
use mathlib.Core.Bool.{Bool, true}
use mathlib.Core.List.{List, [], ◌∷◌}
use native.Mathlib.Omega.{arith}
use as_baptist_api.Prelude.Tests.{if◌then◌else◌, Bool-cases}
use as_baptist_api.Prelude.Lists.{where_rows, any_row, update_rows}

module _ {A : Type 0} where
  cons_head : {a b : A} {r r' : List A} → ◌≡◌ {A = List A} (a ∷ r) (b ∷ r') → a ≡ b
  cons_head h = cc

  cons_tail : {a b : A} {r r' : List A} → ◌≡◌ {A = List A} (a ∷ r) (b ∷ r') → r ≡ r'
  cons_tail h = cc

  first_row :
      (s : A → Bool) (a : A) (rows : List A) {b : Bool}
      → s a ≡ b
      → where_rows s (a ∷ rows) ≡ (if b then a ∷ where_rows s rows else where_rows s rows)
  first_row s a rows tested =
      ap (λ b. if b then a ∷ where_rows s rows else where_rows s rows) tested

  -- The one selected row passes the selection.
  pub selected_passes :
      (s : A → Bool) (x : A) (rows : List A) → where_rows s rows ≡ x ∷ [] → s x ≡ true
  selected_passes s x [] h = absurd (cc h)
  selected_passes s x (a ∷ rows) h = elim (Bool-cases (s a)) [
    | inl chosen ↦ subst (λ y. s y ≡ true) (cons_head (sym (first_row s a rows chosen) ∙ h)) chosen
    | inr passed ↦ selected_passes s x rows (sym (first_row s a rows passed) ∙ h)
  ]

  -- What holds of the one selected row holds of some row.
  pub selected_any :
      (s q : A → Bool) (x : A) (rows : List A)
      → where_rows s rows ≡ x ∷ []
      → q x ≡ true
      → any_row q rows ≡ true
  selected_any s q x [] h holds = absurd (cc h)
  selected_any s q x (a ∷ rows) h holds = elim (Bool-cases (s a)) [
    | inl chosen ↦
        let same : q a ≡ true =
          subst (λ y. q y ≡ true) (sym (cons_head (sym (first_row s a rows chosen) ∙ h))) holds in
        ground (arith, same)
    | inr passed ↦
        let later = selected_any s q x rows (sym (first_row s a rows passed) ∙ h) holds in
        ground (arith, later)
  ]

  module _ (s u : A → Bool) (f : A → A) (keeps : (x : A) → s (f x) ≡ s x) where
    updated_keeps : (a : A) {b : Bool} → s a ≡ b → s (if u a then f a else a) ≡ b
    updated_keeps a tested = elim (Bool-cases (u a)) [
      | inl hit ↦ ap (λ b. s (if b then f a else a)) hit ∙ keeps a ∙ tested
      | inr miss ↦ ap (λ b. s (if b then f a else a)) miss ∙ tested
    ]

    updated_none :
        (rows : List A) → where_rows s rows ≡ [] → where_rows s (update_rows u f rows) ≡ []
    updated_none [] h = refl
    updated_none (a ∷ rows) h = elim (Bool-cases (s a)) [
      | inl chosen ↦ absurd (cc (first_row s a rows chosen, h))
      | inr passed ↦
          first_row s (if u a then f a else a) (update_rows u f rows) (updated_keeps a passed)
          ∙ updated_none rows (sym (first_row s a rows passed) ∙ h)
    ]

    -- An update that reaches the one selected row, and does not change what is selected.
    pub updated_selection :
        (x : A) (rows : List A)
        → where_rows s rows ≡ x ∷ []
        → u x ≡ true
        → where_rows s (update_rows u f rows) ≡ f x ∷ []
    updated_selection x [] h hit = absurd (cc h)
    updated_selection x (a ∷ rows) h hit = elim (Bool-cases (s a)) [
      | inr passed ↦
          first_row s (if u a then f a else a) (update_rows u f rows) (updated_keeps a passed)
          ∙ updated_selection x rows (sym (first_row s a rows passed) ∙ h) hit
      | inl chosen ↦
          let same : a ≡ x = cons_head (sym (first_row s a rows chosen) ∙ h) in
          let reached : u a ≡ true = subst (λ y. u y ≡ true) (sym same) hit in
          first_row s (if u a then f a else a) (update_rows u f rows) (updated_keeps a chosen)
          ∙ ap (λ l. (if u a then f a else a) ∷ l)
              (updated_none rows (cons_tail (sym (first_row s a rows chosen) ∙ h)))
          ∙ ap (λ b. (if b then f a else a) ∷ []) reached
          ∙ ap (λ y. f y ∷ []) same
    ]

  -- Two queries that agree on every row select the same rows.
  pub where_rows_congr :
      (s q : A → Bool) (rows : List A)
      → ((x : A) → s x ≡ q x)
      → where_rows s rows ≡ where_rows q rows
  where_rows_congr s q [] same = refl
  where_rows_congr s q (a ∷ rows) same =
      first_row s a rows (same a)
      ∙ ap (λ l. if q a then a ∷ l else l) (where_rows_congr s q rows same)
