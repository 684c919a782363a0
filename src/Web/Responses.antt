-- ===== src/Web/Responses.antt =====
-- Responses: `build_meta` of `app/core/envelope.py`, the wrappers of `app/schemas/common.py`, and the
-- conditional replies of the routes.
use as_baptist_api.Prelude.{ℕ, Bool, false, String, Option, none, some, List, str_eq, if◌then◌else◌}
use as_baptist_api.Db.{
  DataSource, data_source, RequestContext, UuidText, Result, ok, err, value_error,
}
use as_baptist_api.Web.Etag.{compute_etag, etag_matches}

pub record ResponseScope : Type 0 where
  pub tenant : String
  pub location : Option String

pub data MetaSource : Type 0 where
  of_source : DataSource → MetaSource
  mixed : MetaSource

pub record ResponseMeta : Type 0 where
  pub request_id : String
  pub generated_at : ℕ
  pub as_of : Option String
  pub source : MetaSource
  pub sources : Option (List DataSource)
  pub stale : Bool
  pub scope : ResponseScope

pub record Envelope (A : Type 0) : Type 0 where
  pub data_ : A
  pub meta : ResponseMeta

-- The argument `source`: a member of the enumeration, or a text.
pub data SourceArgument : Type 0 where
  member : DataSource → SourceArgument
  raw : String → SourceArgument

abbrev of_member : Option DataSource → Result MetaSource
of_member none = err value_error
of_member (some d) = ok (of_source d)

unfoldable pub resolve_source : SourceArgument → Result MetaSource
resolve_source (member d) = ok (of_source d)
resolve_source (raw t) = if str_eq t "mixed" then ok mixed else of_member (data_source t)

-- What a request brings to a response: the header `If-None-Match`, and `request.state.request_id`.
pub record Incoming : Type 0 where
  pub if_none_match : Option String
  pub request_id : Option String

-- Where responses are made: SHA-256, printing and the clock are Python's.
pub record Site : Type 0 where
  pub uuid : UuidText
  pub hexdigest : String → String
  pub utc_now : ℕ

abbrev state_request_id : Option String → String
state_request_id none = "unknown"
state_request_id (some t) = t

abbrev meta_of :
    Site
    → Incoming
    → RequestContext
    → Option String
    → Bool
    → Option String
    → MetaSource
    → ResponseMeta
meta_of w req ctx as_of stale location source = record {
  request_id = state_request_id req.request_id;
  generated_at = w.utc_now;
  as_of = as_of;
  source = source;
  sources = none;
  stale = stale;
  scope = record { tenant = w.uuid.to_text ctx.tenant_id; location = location };
}

abbrev with_source : Result MetaSource → (MetaSource → ResponseMeta) → Result ResponseMeta
with_source (ok s) f = ok (f s)
with_source (err e) f = err e

-- `build_meta`.
unfoldable pub build_meta :
    Site
    → Incoming
    → RequestContext
    → SourceArgument
    → Option String
    → Bool
    → Option String
    → Result ResponseMeta
unfolding resolve_source
build_meta w req ctx source as_of stale location =
    with_source (resolve_source source) (meta_of w req ctx as_of stale location)

-- A reply: a body with its status and its tag, or 304.
pub data Reply (A : Type 0) : Type 0 where
  body : ℕ → Option String → A → Reply A
  not_modified : String → Reply A

abbrev pub enveloped :
    {A : Type 0} → ℕ → Option String → A → Result ResponseMeta → Result (Reply (Envelope A))
enveloped status etag data_ (ok meta) =
    ok (body status etag (record { data_ = data_; meta = meta }))
enveloped status etag data_ (err e) = err e

-- The response of a route that has no tag.
unfoldable pub respond :
    {A : Type 0}
    → Site
    → Incoming
    → RequestContext
    → ℕ
    → SourceArgument
    → Option String
    → A
    → Result (Reply (Envelope A))
unfolding build_meta
respond w req ctx status source location data_ =
    enveloped status none data_ (build_meta w req ctx source none false location)

-- The response of a route that a tag makes conditional.
unfoldable pub respond_if_changed :
    {A : Type 0}
    → Site
    → Incoming
    → RequestContext
    → SourceArgument
    → Option String
    → (A → String)
    → A
    → Result (Reply (Envelope A))
unfolding build_meta compute_etag
respond_if_changed w req ctx source location json data_ =
    let etag = compute_etag w.uuid w.hexdigest ctx (json data_) in
    if etag_matches req.if_none_match etag
    then ok (not_modified etag)
    else enveloped 200 (some etag) data_ (build_meta w req ctx source none false location)
