-- ===== src/History/Sound.antt =====
-- The tables and the session between requests: what holds of the approvals and of their audit cards.
use as_baptist_api.Prelude.{
  ℕ, ◌≤◌, ◌≡◌, refl, Bool, true, false, ◌&&◌, String, Option, none, some, List, [], ◌∷◌, any_row,
  ◌==◌, str_eq, length, if◌then◌else◌,
}
use as_baptist_api.Prelude.Int.{ℤ}
use as_baptist_api.Db.{Caller, Db, Approval, AuditCard, executed, Session}
use as_baptist_api.Ladder.{Env, Dispatch, is_approval, mark_executed}
use as_baptist_api.History.Approvals.{IsDistinct, settle}

abbrev pub names : Option ℕ → ℕ → Bool
names none id = false
names (some i) id = i == id

-- The audit card of an execution.
abbrev pub is_card_of : Approval → AuditCard → Bool
is_card_of a card =
    card.tenant_id == a.tenant_id && (str_eq card.verb "execute" && names card.approval_id a.id)

-- Every approval is executed, and has its audit card.
abbrev pub AreAudited : List AuditCard → List Approval → Type 0
AreAudited cards [] = Unit {0}
AreAudited cards (a ∷ rows) =
    (a.status ≡ executed) × (any_row (is_card_of a) cards ≡ true) × AreAudited cards rows

-- Cards are only ever added.
abbrev pub HasCardsOf : Db → Db → Type 0
HasCardsOf db db' = (p : AuditCard → Bool) → any_row p db.cards ≡ true → any_row p db'.cards ≡ true

-- Outside work that leaves the approvals alone and takes no audit card away: the table is
-- append-only for `app_api` (`migrations/versions/0004_audit_and_cost.py`).
pub record IsOutside (dispatch : Dispatch) : Type 0 where
  pub keeps_approvals : (db : Db) → (dispatch db).1.approvals ≡ db.approvals
  pub keeps_cards : (db : Db) → HasCardsOf db (dispatch db).1

pub record IsSound (s : Session) : Type 0 where
  pub idle : s.in_transaction ≡ false
  pub distinct : IsDistinct s.db.approvals
  pub audited : AreAudited s.db.cards s.db.approvals
  pub paid : length s.db.approvals ≤ s.dispatches

pub AreAudited-HasCardsOf :
    (db db' : Db) (rows : List Approval)
    → HasCardsOf db db'
    → AreAudited db.cards rows
    → AreAudited db'.cards rows
AreAudited-HasCardsOf db db' [] grow h = tt
AreAudited-HasCardsOf db db' (a ∷ rows) grow (done, carded, rest) =
    (done, grow (is_card_of a) carded, AreAudited-HasCardsOf db db' rows grow rest)

module _ (c : Caller) (id : ℕ) (env : Env) (cost : ℤ) (x : String) (cards : List AuditCard) where
  settle-audited_head :
      (b : Bool) (a : Approval)
      → a.status ≡ executed
      → any_row (is_card_of a) cards ≡ true
      → let a' = if b then mark_executed env cost x a else a in
        (a'.status ≡ executed) × (any_row (is_card_of a') cards ≡ true)
  settle-audited_head true a done carded = (refl, carded)
  settle-audited_head false a done carded = (done, carded)

  pub settle-AreAudited :
      (rows : List Approval)
      → AreAudited cards rows
      → AreAudited cards (settle c id env cost x rows)
  settle-AreAudited [] h = tt
  settle-AreAudited (a ∷ rows) (done, carded, rest) =
      let head = settle-audited_head (is_approval c id a) a done carded in
      (head.0, head.1, settle-AreAudited rows rest)
