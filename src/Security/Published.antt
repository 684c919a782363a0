-- ===== src/Security/Published.antt =====
-- The keys that are published are the keys that are served.
use mathlib.Core.Path.{refl, sym, ap, ◌∙◌}
use as_baptist_api.Prelude.{
  Bool, true, false, String, Option, none, some, List, [], ◌∷◌, ◌≡◌, ◌+◌, str_eq, eq_iff, any_row,
  Bool-cases, inl, inr, if◌then◌else◌,
}
use as_baptist_api.Security.{
  text, no_text, KeySet, JwksCache, Reading, is_fresh, is_empty, drain, get_key, RawKey, key_object,
  no_object, published, put_key, with_raw_key, collect_keys, fetch,
}
use as_baptist_api.Security.Fetches.{AllBefore, stampede_fetches_once}

abbrev pub or_else : Option String → Option String → Option String
or_else (some x) o = some x
or_else none o = o

-- The key that an item publishes under an id.
abbrev pub own_key : String → RawKey → Option String
own_key kid (key_object (text k) jwk) = if str_eq k kid then some jwk else none
own_key kid (key_object no_text jwk) = none
own_key kid no_object = none

-- The last key that is published under an id.
abbrev pub last_key : String → List RawKey → Option String
last_key kid [] = none
last_key kid (r ∷ rs) = or_else (last_key kid rs) (own_key kid r)

abbrev pub is_usable : RawKey → Bool
is_usable (key_object (text k) jwk) = true
is_usable (key_object no_text jwk) = false
is_usable no_object = false

other_id : (kid k k' : String) → str_eq k' k ≡ false → str_eq k' kid ≡ true → str_eq k kid ≡ false
other_id kid k k' differ found = elim (Bool-cases (str_eq k kid)) [
  | inl same ↦
      absurd
        (cc (sym differ ∙ (eq_iff k' k).1 ((eq_iff k' kid).0 found ∙ sym ((eq_iff k kid).0 same))))
  | inr other ↦ other
]

get_key-put_key :
    (kid k jwk : String) (ks : KeySet)
    → get_key kid (put_key k jwk ks) ≡ (if str_eq k kid then some jwk else get_key kid ks)
unfolding get_key
get_key-put_key kid k jwk [] = refl
get_key-put_key kid k jwk ((k', j) ∷ rest) = elim (Bool-cases (str_eq k' k)) [
  | inl same ↦ elim (Bool-cases (str_eq k kid)) [
    | inl found ↦ rw (same, found, ap (λ x. str_eq x kid) ((eq_iff k' k).0 same), found)
    | inr other ↦ rw (same, other, ap (λ x. str_eq x kid) ((eq_iff k' k).0 same), other)
  ]
  | inr differ ↦ elim (Bool-cases (str_eq k' kid)) [
    | inl found ↦ rw (differ, other_id kid k k' differ found, found)
    | inr other ↦ rw (differ, other, get_key-put_key kid k jwk rest)
  ]
]

get_key-with_raw_key :
    (kid : String) (r : RawKey) (ks : KeySet)
    → get_key kid (with_raw_key r ks) ≡ or_else (own_key kid r) (get_key kid ks)
get_key-with_raw_key kid (key_object (text k) jwk) ks =
    get_key-put_key kid k jwk ks
    ∙ (elim (Bool-cases (str_eq k kid)) [ inl found ↦ rw found | inr other ↦ rw other ])
get_key-with_raw_key kid (key_object no_text jwk) ks = refl
get_key-with_raw_key kid no_object ks = refl

or_else_assoc : (a b c : Option String) → or_else a (or_else b c) ≡ or_else (or_else a b) c
or_else_assoc (some x) b c = refl
or_else_assoc none b c = refl

or_else-none : (o : Option String) → or_else o none ≡ o
or_else-none (some x) = refl
or_else-none none = refl

get_key-collect_keys :
    (kid : String) (ks : KeySet) (rs : List RawKey)
    → get_key kid (collect_keys ks rs) ≡ or_else (last_key kid rs) (get_key kid ks)
get_key-collect_keys kid ks [] = refl
get_key-collect_keys kid ks (r ∷ rs) =
    get_key-collect_keys kid (with_raw_key r ks) rs
    ∙ (ap (or_else (last_key kid rs)) (get_key-with_raw_key kid r ks)
        ∙ or_else_assoc (last_key kid rs) (own_key kid r) (get_key kid ks))

put_key-not_empty : (kid jwk : String) (ks : KeySet) → is_empty (put_key kid jwk ks) ≡ false
put_key-not_empty kid jwk [] = refl
put_key-not_empty kid jwk ((k, j) ∷ rest) = elim (Bool-cases (str_eq k kid)) [
  | inl same ↦ rw same
  | inr other ↦ rw other
]

with_raw_key-not_empty :
    (r : RawKey) (ks : KeySet) → is_empty ks ≡ false → is_empty (with_raw_key r ks) ≡ false
with_raw_key-not_empty (key_object (text kid) jwk) ks h = put_key-not_empty kid jwk ks
with_raw_key-not_empty (key_object no_text jwk) ks h = h
with_raw_key-not_empty no_object ks h = h

collect_keys-not_empty :
    (rs : List RawKey) (ks : KeySet) → is_empty ks ≡ false → is_empty (collect_keys ks rs) ≡ false
collect_keys-not_empty [] ks h = h
collect_keys-not_empty (r ∷ rs) ks h =
    collect_keys-not_empty rs (with_raw_key r ks) (with_raw_key-not_empty r ks h)

usable_collected :
    (rs : List RawKey) (ks : KeySet)
    → any_row is_usable rs ≡ true
    → is_empty (collect_keys ks rs) ≡ false
usable_collected [] ks h = absurd (cc h)
usable_collected (key_object (text kid) jwk ∷ rs) ks h =
    collect_keys-not_empty rs (put_key kid jwk ks) (put_key-not_empty kid jwk ks)
usable_collected (key_object no_text jwk ∷ rs) ks h = usable_collected rs ks h
usable_collected (no_object ∷ rs) ks h = usable_collected rs ks h

stampede_stores :
    (r : Reading) (rs : List Reading) (cache : JwksCache) (ks : KeySet)
    → is_fresh r.locked cache ≡ false
    → r.fetched ≡ some ks
    → is_empty ks ≡ false
    → AllBefore (r.finished + cache.ttl) rs
    → ((drain (r ∷ rs) cache).1 ≡ 1) × ((drain (r ∷ rs) cache).0.keys ≡ ks)
stampede_stores r rs cache [] stale fetched filled before = absurd (cc filled)
stampede_stores r rs cache (k ∷ ks) stale fetched filled before =
    stampede_fetches_once r rs cache k ks stale fetched before

-- However many calls wait for the lock of a stale cache, if the first of them is answered with a list
-- that has a usable key and the others get the lock before what it stored expires, there is exactly one
-- fetch, and afterwards the cache finds under each key id the last key that the answer has under it,
-- and no key under an id that the answer does not have.
pub stampede_serves_published :
    (r : Reading) (rs : List Reading) (cache : JwksCache) (raw_keys : List RawKey)
    → is_fresh r.locked cache ≡ false
    → r.fetched ≡ fetch (published raw_keys)
    → any_row is_usable raw_keys ≡ true
    → AllBefore (r.finished + cache.ttl) rs
    → ((drain (r ∷ rs) cache).1 ≡ 1)
      × ((kid : String) → get_key kid (drain (r ∷ rs) cache).0.keys ≡ last_key kid raw_keys)
unfolding fetch get_key
stampede_serves_published r rs cache raw_keys stale fetched usable before =
    let stored =
      stampede_stores r rs cache (collect_keys [] raw_keys) stale fetched
        (usable_collected raw_keys [] usable) before in
    (
      stored.0,
      λ kid.
          ap (get_key kid) stored.1
          ∙ (get_key-collect_keys kid [] raw_keys ∙ or_else-none (last_key kid raw_keys)),
    )
