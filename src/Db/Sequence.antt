-- ===== src/Db/Sequence.antt =====
-- A step of a do block whose outcome is known.
use mathlib.Core.Path.{ap}
use as_baptist_api.Prelude.{◌≡◌}
use as_baptist_api.Db.{Exec, Tx, Result, ok, err, Failure, ◌>>=◌}

module _ {A B : Type 0} where
  continue_with : (A → Exec B) → Result A × Tx → Result B × Tx
  continue_with k p = elim p.0 [ ok a ↦ k a p.1 | err e ↦ (err e, p.1) ]

  pub bind_ok :
      (m : Exec A) (k : A → Exec B) (t : Tx) {t' : Tx} {a : A}
      → m t ≡ (ok a, t')
      → (m >>= k) t ≡ k a t'
  unfolding continue_with
  bind_ok m k t e = ap (continue_with k) e

  pub bind_err :
      (m : Exec A) (k : A → Exec B) (t : Tx) {t' : Tx} {f : Failure}
      → m t ≡ (err f, t')
      → (m >>= k) t ≡ (err f, t')
  unfolding continue_with
  bind_err m k t e = ap (continue_with k) e
