-- ===== src/Security/Fetching.antt =====
-- `JwksCache._fetch`: the keys of an answer. The request and the JSON reader are httpx's: what they
-- give is a value of `Answer`.
use as_baptist_api.Security.Claims.{Claim, text, no_text}
use as_baptist_api.Security.Jwks.{KeySet}
use as_baptist_api.Prelude.{String, Option, none, some, List, [], ◌∷◌, str_eq, if◌then◌else◌}

-- An item of the list `keys`: an object by what `raw_key.get("kid")` is and by its JSON text, or not
-- an object.
pub data RawKey : Type 0 where
  key_object : Claim → String → RawKey
  no_object : RawKey

-- `failed` is a request, a status or a body that raises; `misshapen` is JSON of another shape.
pub data Answer : Type 0 where
  failed misshapen : Answer
  published : List RawKey → Answer

-- `result[kid] = raw_key`.
abbrev pub put_key : String → String → KeySet → KeySet
put_key kid jwk [] = (kid, jwk) ∷ []
put_key kid jwk ((k, j) ∷ rest) =
    let later = put_key kid jwk rest in if str_eq k kid then (k, jwk) ∷ rest else (k, j) ∷ later

abbrev pub with_raw_key : RawKey → KeySet → KeySet
with_raw_key (key_object (text kid) jwk) result = put_key kid jwk result
with_raw_key (key_object no_text jwk) result = result
with_raw_key no_object result = result

-- The loop over the items.
abbrev pub collect_keys : KeySet → List RawKey → KeySet
collect_keys result [] = result
collect_keys result (raw_key ∷ rest) = collect_keys (with_raw_key raw_key result) rest

-- `_fetch`, which gives nothing where it raises.
unfoldable pub fetch : Answer → Option KeySet
fetch failed = none
fetch misshapen = none
fetch (published raw_keys) = some (collect_keys [] raw_keys)
