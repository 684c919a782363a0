-- ===== src/Db/Frame.antt =====
-- What a body leaves alone: a view of the tables that no statement of it changes.
use as_baptist_api.Prelude.{◌≡◌, refl, ◌∙◌, Bool, true, false, List, [], ◌∷◌, if◌then◌else◌}
use as_baptist_api.Db.Rows.{Db}
use as_baptist_api.Db.Statements.{
  Caller, in_failed_transaction, database, Failure, Sql, done, fail, Statement, Exec, Tx, Result,
  ok, err, run, finish, ◌>>=◌, pure, raise_if, one_or_none,
}

continue_from : {A A' : Type 0} → (A → Exec A') → Result A × Tx → Result A' × Tx
continue_from k p = elim p.0 [ ok a ↦ k a p.1 | err e ↦ (err e, p.1) ]

module _ {B : Type 0} (view : Db → B) where
  -- A statement's outcome in which the view is a given one, if it succeeds.
  abbrev pub Keeping : {A : Type 0} → B → Sql A → Type 0
  Keeping b (done a db) = view db ≡ b
  Keeping b (fail e) = Unit {0}

  -- The tables and the count of outside calls, seen from before a step.
  abbrev pub IsKept : Tx → Tx → Type 0
  IsKept t t' = (view t'.db ≡ view t.db) × (t'.dispatches ≡ t.dispatches)

  abbrev pub Keeps : {A : Type 0} → Exec A → Type 0
  Keeps m = (t : Tx) → IsKept t (m t).1

  module _ {A : Type 0} where
    pub if-Keeping :
        (b : B) (test : Bool) (x y : Sql A)
        → Keeping b x
        → Keeping b y
        → Keeping b (if test then x else y)
    if-Keeping b true x y hx hy = hx
    if-Keeping b false x y hx hy = hy

    run-IsKept :
        (t : Tx) (aborted : Bool) (s : Sql A)
        → Keeping (view t.db) s
        → IsKept t (if aborted then (err (database in_failed_transaction), t) else finish t s).1
    run-IsKept t true s h = (refl, refl)
    run-IsKept t false (done a db) h = (h, refl)
    run-IsKept t false (fail e) h = (refl, refl)

    pub run-Keeps :
        (st : Statement A) → ((c : Caller) (db : Db) → Keeping (view db) (st c db)) → Keeps (run st)
    unfolding run
    run-Keeps st h t = run-IsKept t t.aborted (st t.caller t.db) (h t.caller t.db)

    pub pure-Keeps : (a : A) → Keeps (pure a)
    pure-Keeps a t = (refl, refl)

    pub one_or_none-Keeps : (rows : List A) → Keeps (one_or_none rows)
    one_or_none-Keeps [] t = (refl, refl)
    one_or_none-Keeps (a ∷ []) t = (refl, refl)
    one_or_none-Keeps (a ∷ b ∷ rows) t = (refl, refl)

    module _ {A' : Type 0} where
      continue_from-IsKept :
          (k : A → Exec A') (r : Result A) (t : Tx)
          → ((a : A) → Keeps (k a))
          → IsKept t (continue_from k (r, t)).1
      unfolding continue_from
      continue_from-IsKept k (ok a) t h = h a t
      continue_from-IsKept k (err e) t h = (refl, refl)

      pub bind-Keeps :
          (m : Exec A) (k : A → Exec A') → Keeps m → ((a : A) → Keeps (k a)) → Keeps (m >>= k)
      unfolding continue_from
      bind-Keeps m k hm hk t =
          let rest = continue_from-IsKept k (m t).0 (m t).1 hk in
          (rest.0 ∙ (hm t).0, rest.1 ∙ (hm t).1)

  pub raise_if-Keeps : (b : Bool) (e : Failure) → Keeps (raise_if b e)
  raise_if-Keeps b e t = (refl, refl)
