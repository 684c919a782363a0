-- ===== src/Config/Cors.antt =====
-- `parse_cors_origins` of `app/config.py`: the origins that may call the service, from a text or from
-- a sequence. A sequence stands for its items, each by its `str`, in the order Python iterates them.
use Prim.Native.Char.{Char, code}
use as_baptist_api.Config.{is_space}
use as_baptist_api.Prelude.{
  Bool, true, false, ◌&&◌, String, Option, none, some, List, [], ◌∷◌, ◌==◌, if◌then◌else◌,
}

pub data CorsValue : Type 0 where
  text : String → CorsValue
  sequence : List String → CorsValue
  other : CorsValue

abbrev pub is_empty_text : String → Bool
is_empty_text String.[] = true
is_empty_text (String.◌∷◌ c t) = false

-- `t.lstrip()`.
abbrev pub lstrip : String → String
lstrip String.[] = ""
lstrip (String.◌∷◌ c t) = let rest = lstrip t in if is_space c then rest else String.◌∷◌ c t

-- `t.rstrip()`.
abbrev pub rstrip : String → String
rstrip String.[] = ""
rstrip (String.◌∷◌ c t) =
    let rest = rstrip t in if is_empty_text rest && is_space c then "" else String.◌∷◌ c rest

unfoldable pub strip : String → String
strip t = rstrip (lstrip t)

abbrev pub is_comma : Char → Bool
is_comma c = code c == 44

abbrev pub in_first : Char → List String → List String
in_first c [] = String.◌∷◌ c "" ∷ []
in_first c (piece ∷ pieces) = String.◌∷◌ c piece ∷ pieces

-- `t.split(",")`.
abbrev pub split_commas : String → List String
split_commas String.[] = "" ∷ []
split_commas (String.◌∷◌ c t) =
    let rest = split_commas t in if is_comma c then "" ∷ rest else in_first c rest

-- `origin.strip() for origin in origins if origin.strip()`.
unfoldable pub stripped : List String → List String
unfolding strip
stripped [] = []
stripped (origin ∷ origins) =
    let rest = stripped origins in
    if is_empty_text (strip origin) then rest else strip origin ∷ rest

-- `parse_cors_origins`, which gives nothing where it raises a `TypeError`.
unfoldable pub parse_cors_origins : CorsValue → Option (List String)
unfolding stripped
parse_cors_origins (text t) = some (stripped (split_commas t))
parse_cors_origins (sequence origins) = some (stripped origins)
parse_cors_origins other = none
