-- ===== src/Web/Etag.antt =====
-- `app/core/etag.py`: entity tags that belong to one tenant. SHA-256 in hexadecimal is a parameter.
use Prim.Native.String.{◌++◌ as text_append}
use as_baptist_api.Prelude.{Bool, false, String, Option, none, some, str_eq}
use as_baptist_api.Db.{UuidText, RequestContext}

-- `compute_etag`.
unfoldable pub compute_etag : UuidText → (String → String) → RequestContext → String → String
compute_etag u hexdigest ctx payload = text_append "\"" (
    text_append (u.to_text ctx.tenant_id) (
      text_append "." (
        text_append (hexdigest (text_append (u.to_text ctx.tenant_id) (text_append ":" payload)))
          "\"")))

-- `matches`.
abbrev pub etag_matches : Option String → String → Bool
etag_matches none etag = false
etag_matches (some t) etag = str_eq t etag
