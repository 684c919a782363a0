-- ===== src/History/Approvals.antt =====
-- Lists of approvals under the constraints of `migrations/versions/0005_approval_ladder.py`.
use as_baptist_api.Prelude.{
  ◌||◌, ℕ, ◌≡◌, refl, ap, ◌∙◌, Bool, true, false, String, List, [], ◌∷◌, arith, any_row,
  update_rows, length, if◌then◌else◌,
}
use mathlib.Core.Path.{ap₂}
use as_baptist_api.Prelude.Int.{ℤ}
use as_baptist_api.Db.{Caller, Approval}
use as_baptist_api.Ladder.{Env, clashes, is_approval, mark_executed}

-- No two approvals share an identifier, or a tenant and a key.
abbrev pub IsDistinct : List Approval → Type 0
IsDistinct [] = Unit {0}
IsDistinct (a ∷ rows) = (any_row (clashes a) rows ≡ false) × IsDistinct rows

module _ (c : Caller) (id : ℕ) (env : Env) (cost : ℤ) (x : String) where
  abbrev pub settle : List Approval → List Approval
  settle rows = update_rows (is_approval c id) (mark_executed env cost x) rows

  settled_if : Bool → Approval → Approval
  settled_if b a = if b then mark_executed env cost x a else a

  clashes-settled_if :
      (b b' : Bool) (a r : Approval) → clashes (settled_if b a) (settled_if b' r) ≡ clashes a r
  unfolding settled_if
  clashes-settled_if true true a r = refl
  clashes-settled_if true false a r = refl
  clashes-settled_if false true a r = refl
  clashes-settled_if false false a r = refl

  clashes-settle :
      (b : Bool) (a : Approval) (rows : List Approval)
      → any_row (clashes (settled_if b a)) (settle rows) ≡ any_row (clashes a) rows
  unfolding settled_if
  clashes-settle b a [] = refl
  clashes-settle b a (r ∷ rows) =
      ap₂ (λ u v. u || v) (clashes-settled_if b (is_approval c id r) a r) (clashes-settle b a rows)

  pub settle-IsDistinct : (rows : List Approval) → IsDistinct rows → IsDistinct (settle rows)
  unfolding settled_if
  settle-IsDistinct [] d = tt
  settle-IsDistinct (a ∷ rows) (apart, d) =
      (clashes-settle (is_approval c id a) a rows ∙ apart, settle-IsDistinct rows d)

  pub length-settle : (rows : List Approval) → length (settle rows) ≡ length rows
  length-settle [] = refl
  length-settle (a ∷ rows) = rw (length-settle rows) refl

  -- An identifier that no approval has settles none of them.
  pub settle_fresh :
      (row : Approval) (rows : List Approval)
      → row.id ≡ id
      → any_row (clashes row) rows ≡ false
      → settle rows ≡ rows
  settle_fresh row [] own fresh = refl
  settle_fresh row (a ∷ rows) own fresh =
      let other : is_approval c id a ≡ false = rw⁻¹ own (ground (arith, fresh)) in
      let rest : any_row (clashes row) rows ≡ false = ground (arith, fresh) in
      rw other (ap (λ l. a ∷ l) (settle_fresh row rows own rest))
