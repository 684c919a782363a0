-- ===== src/Examples/Overlap.antt =====
-- A purchase and its retry at the same time: the retry looks for the key before the purchase has
-- committed.
use mathlib.Core.Path.{refl}
use as_baptist_api.Prelude.{◌≡◌}
use as_baptist_api.Db.{active}
use as_baptist_api.Ladder.{execute}
use as_baptist_api.Ladder.Concurrent.{execute_among, overlapping_once}
use as_baptist_api.Examples.World.{world, env, purchase, queue, operator_caller}
use as_baptist_api.Examples.Execution.{start, retry, later, purchase_succeeds}

overlapping_once_example :
    (execute_among later retry queue
      (λ db. db)
      (λ db. (execute env purchase queue start).1.db)
      (active operator_caller world 0)).1.dispatches
    ≡ 0
overlapping_once_example =
    overlapping_once env later purchase retry queue queue operator_caller operator_caller world
      world 0 0 (λ db. db) (λ db. (execute env purchase queue start).1.db) (λ db. refl)
      purchase_succeeds refl refl (λ p h. h)
