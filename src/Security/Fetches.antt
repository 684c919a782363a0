-- ===== src/Security/Fetches.antt =====
-- The lock of `JwksCache` and the second look under it: a stampede makes one fetch.
use as_baptist_api.Security.{is_fresh, KeySet, is_empty, JwksCache, get_locked, Reading, drain}
use mathlib.Core.Path.{refl}
use as_baptist_api.Prelude.{[], some, arith, false, String, ◌∷◌, List, ℕ, ◌+◌, ◌≡◌, ◌<◌}

-- Each call takes the lock before the time `t`.
abbrev pub AllBefore : ℕ → List Reading → Type 0
AllBefore t [] = Unit {0}
AllBefore t (r ∷ rs) = (r.locked < t) × AllBefore t rs

fresh_drain :
    (rs : List Reading) (cache : JwksCache)
    → is_empty cache.keys ≡ false
    → AllBefore cache.expires_at rs
    → drain rs cache ≡ (cache, 0)
unfolding drain get_locked
fresh_drain [] cache filled before = refl
fresh_drain (r ∷ rs) cache filled before = ground (arith, fresh_drain rs cache filled before.1)

-- However many calls wait for the lock, if the first of them fetches a key set that is not empty and
-- the others get the lock before it expires, there is exactly one fetch, and the cache they leave
-- holds what it fetched.
pub stampede_fetches_once :
    (r : Reading) (rs : List Reading) (cache : JwksCache) (k : String × String) (ks : KeySet)
    → is_fresh r.locked cache ≡ false
    → r.fetched ≡ some (k ∷ ks)
    → AllBefore (r.finished + cache.ttl) rs
    → ((drain (r ∷ rs) cache).1 ≡ 1) × ((drain (r ∷ rs) cache).0.keys ≡ k ∷ ks)
unfolding drain get_locked
stampede_fetches_once r rs cache k ks stale fetched before = ground (
  arith,
  fresh_drain rs (record cache { keys = k ∷ ks; expires_at = r.finished + cache.ttl }) refl before,
)
