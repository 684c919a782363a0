-- ===== src/Security/Jwks.antt =====
-- `JwksCache`: the ten-minute cache of the key set. Times count microseconds; a key set is a list of
-- keys by `kid`, and a key is its JSON text.
use as_baptist_api.Prelude.{
  ℕ, ◌+◌, Bool, true, false, ◌&&◌, not, String, Option, none, some, List, [], ◌∷◌, ltb,
  if◌then◌else◌,
}

abbrev pub KeySet : Type 0
KeySet = List (String × String)

pub record JwksCache : Type 0 where
  pub ttl : ℕ
  pub expires_at : ℕ
  pub keys : KeySet

-- A new cache, with a time to live of 600 seconds.
abbrev pub new_cache : JwksCache
new_cache = record { ttl = 600000000; expires_at = 0; keys = [] }

abbrev pub is_empty : KeySet → Bool
is_empty [] = true
is_empty (_ ∷ _) = false

-- `now < self._expires_at and self._keys`.
abbrev pub is_fresh : ℕ → JwksCache → Bool
is_fresh now cache = ltb now cache.expires_at && not (is_empty cache.keys)

-- What one call of `get` reads: the clock on entry, the clock when it holds the lock, what the
-- fetcher returns (`none` where it raises), and the clock after the fetch.
pub record Reading : Type 0 where
  pub entered : ℕ
  pub locked : ℕ
  pub fetched : Option KeySet
  pub finished : ℕ

-- The outcome of a call: the keys (`none` is an exception), the cache, and the number of fetches.
pub record Got : Type 0 where
  pub keys : Option KeySet
  pub cache : JwksCache
  pub fetches : ℕ

abbrev store_keys : Reading → JwksCache → KeySet → Got
store_keys r cache [] = record { keys = none; cache = cache; fetches = 1 }
store_keys r cache (k ∷ ks) = record {
  keys = some (k ∷ ks);
  cache = record cache { keys = k ∷ ks; expires_at = r.finished + cache.ttl };
  fetches = 1;
}

-- The body under the lock, with its second look at the cache.
unfoldable pub get_locked : Reading → JwksCache → Got
get_locked r cache =
    if is_fresh r.locked cache
    then record { keys = some cache.keys; cache = cache; fetches = 0 }
    else elim r.fetched [
      | none ↦ record { keys = none; cache = cache; fetches = 1 }
      | some ks ↦ store_keys r cache ks
    ]

-- `get`, where `waited` is the cache as other calls left it when this one got the lock.
unfoldable pub get_keys : Reading → JwksCache → JwksCache → Got
unfolding get_locked
get_keys r cache waited =
    if is_fresh r.entered cache
    then record { keys = some cache.keys; cache = waited; fetches = 0 }
    else get_locked r waited

-- Calls that all found the cache stale on entry, and then take the lock one after another: the cache
-- that they leave and how often they fetched.
unfoldable pub drain : List Reading → JwksCache → JwksCache × ℕ
unfolding get_locked
drain [] cache = (cache, 0)
drain (r ∷ rs) cache =
    let got = get_locked r cache in
    let (after, more) = drain rs got.cache in (after, got.fetches + more)
