-- ===== src/History/Lookup.antt =====
-- What the query of a key finds, and the receipt that the table of approvals stands for.
use as_baptist_api.Prelude.{
  inr, inl, ℕ, ◌≡◌, refl, sym, ap, ◌∙◌, Bool, true, false, ◌&&◌, String, Option, none, some, List,
  [], ◌∷◌, arith, ◌==◌, str_eq, find_row, where_rows, any_row, Bool-cases, if◌then◌else◌,
}
use as_baptist_api.Prelude.{eq_iff}
use as_baptist_api.Db.{Approval, AppSettings, RequestContext}
use as_baptist_api.Db.Isolation.{bound}
use as_baptist_api.Ladder.{ExistingApproval, existing_among, existing_of, has_key, clashes}
use as_baptist_api.History.Approvals.{IsDistinct}
use as_baptist_api.History.Receipts.{Receipts}

abbrev pub is_keyed : ℕ → String → Approval → Bool
is_keyed t key a = a.tenant_id == t && str_eq a.idempotency_key key

-- The receipts that the table of approvals stands for.
abbrev pub receipts_of : List Approval → Receipts
receipts_of rows t key = existing_among (find_row (is_keyed t key) rows)

some_injective : {A : Type 0} {a b : A} → ◌≡◌ {A = Option A} (some a) (some b) → a ≡ b
some_injective h = cc

pub existing_if :
    (a : Approval) (rest : Option Approval) (b : Bool)
    → existing_among (if b then some a else rest)
      ≡ (if b then some (existing_of a) else existing_among rest)
existing_if a rest true = refl
existing_if a rest false = refl

module _ (ctx : RequestContext) (settings : AppSettings) (t : ℕ) (key : String)
    (own_tenant : t ≡ ctx.tenant_id) where
  has_key-is_keyed : (a : Approval) → has_key (bound ctx settings) t key a ≡ is_keyed t key a
  has_key-is_keyed a = ground (arith, own_tenant)

  first_receipt :
      (a : Approval) (rows : List Approval) {b : Bool}
      → is_keyed t key a ≡ b
      → receipts_of (a ∷ rows) t key ≡ (if b then some (existing_of a) else receipts_of rows t key)
  first_receipt a rows tested =
      ap (λ x. existing_among (if x then some a else find_row (is_keyed t key) rows)) tested
      ∙ existing_if a (find_row (is_keyed t key) rows) _

  first_found :
      (a : Approval) (rows : List Approval) {b : Bool}
      → is_keyed t key a ≡ b
      → where_rows (has_key (bound ctx settings) t key) (a ∷ rows) ≡ (
          let rest = where_rows (has_key (bound ctx settings) t key) rows in
          if b then a ∷ rest else rest)
  first_found a rows tested =
      ap
        (λ x.
          let rest = where_rows (has_key (bound ctx settings) t key) rows in
          if x then a ∷ rest else rest)
        (has_key-is_keyed a ∙ tested)

  -- Under distinct approvals, the query of a key finds what its receipt says.
  pub found_none :
      (rows : List Approval)
      → receipts_of rows t key ≡ none
      → where_rows (has_key (bound ctx settings) t key) rows ≡ []
  found_none [] h = refl
  found_none (a ∷ rows) h = elim (Bool-cases (is_keyed t key a)) [
    | inl own ↦ absurd (cc (first_receipt a rows own, h))
    | inr other ↦ first_found a rows other ∙ found_none rows (sym (first_receipt a rows other) ∙ h)
  ]

  clashes_keyed :
      (a : Approval) (rows : List Approval)
      → is_keyed t key a ≡ true
      → any_row (clashes a) rows ≡ false
      → find_row (is_keyed t key) rows ≡ none
  clashes_keyed a [] own apart = refl
  clashes_keyed a (r ∷ rows) own apart =
      let other : is_keyed t key r ≡ false =
        ground (arith, own, apart, eq_iff a.idempotency_key key) in
      let rest : any_row (clashes a) rows ≡ false = ground (arith, apart) in
      rw other (clashes_keyed a rows own rest)

  pub found_some :
      (rows : List Approval) (e : ExistingApproval)
      → IsDistinct rows
      → receipts_of rows t key ≡ some e
      → (a : Approval) × (e ≡ existing_of a)
        × (where_rows (has_key (bound ctx settings) t key) rows ≡ a ∷ [])
  found_some [] e d h = cc
  found_some (a ∷ rows) e (apart, d) h = elim (Bool-cases (is_keyed t key a)) [
    | inl own ↦ (
      a,
      some_injective (sym h ∙ first_receipt a rows own),
      first_found a rows own
          ∙ ap (λ l. a ∷ l) (found_none rows (ap existing_among (clashes_keyed a rows own apart))),
    )
    | inr other ↦
        (let (b, same, found) = found_some rows e d (sym (first_receipt a rows other) ∙ h) in
          (b, same, first_found a rows other ∙ found))
  ]
