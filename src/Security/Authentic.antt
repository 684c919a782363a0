-- ===== src/Security/Authentic.antt =====
-- Who is let in: what stands behind every user that `TokenVerifier.verify` returns.
use mathlib.Core.Path.{refl, ap, ◌∙◌}
use as_baptist_api.Prelude.{
  eq_iff, ◌≡◌, inl, inr, String, Option, none, some, Bool, true, false, Option-cases, if◌then◌else◌,
}
use as_baptist_api.Db.{UuidText}
use as_baptist_api.Security.{
  text_claim, is_rs256, Claim, text, no_text, ClaimSet, AuthenticatedUser, from_claims, KeySet,
  JwksCache, Reading, get_keys, Verified, accepted, raised, Header, JwtLibrary, AuthSettings,
  supabase, user, non_empty, get_key, decode_options, ◌then◌, header_kid, accept_claims, recode,
  check_token, verify_with_kid, verify_supabase, verify, JwtException,
}

then_accepted :
    {A B : Type 0} {b : B} (m : Verified A) (f : A → Verified B)
    → ◌then◌ m f ≡ accepted b
    → (a : A) × (m ≡ accepted a) × (f a ≡ accepted b)
then_accepted (accepted a) f h = (a, refl, h)
then_accepted (raised e) f h = cc

recode-user :
    {w : AuthenticatedUser} (v : Verified AuthenticatedUser) → recode v ≡ user w → v ≡ accepted w
recode-user (accepted w') h = cc
recode-user (raised JwtException.expired_signature) h = cc
recode-user (raised JwtException.invalid_token) h = cc
recode-user (raised JwtException.value_error) h = cc
recode-user (raised JwtException.uncaught) h = cc

accept_claims_lem :
    {w : AuthenticatedUser} (u : UuidText) (o : Option ClaimSet)
    → accept_claims u o ≡ accepted w
    → (claims : ClaimSet) × (o ≡ some claims) × (from_claims u claims ≡ some w)
unfolding accept_claims
accept_claims_lem u none h = cc
accept_claims_lem u (some claims) h = elim (Option-cases (from_claims u claims)) [
  | inl bad ↦ cc
  | inr (w', good) ↦ (claims, refl, cc)
]

is_rs256_lem : (o : Option Claim) → is_rs256 o ≡ true → o ≡ some (text "RS256")
is_rs256_lem none h = cc
is_rs256_lem (some no_text) h = cc
is_rs256_lem (some (text alg)) h = ap (λ t. some (text t)) ((eq_iff alg "RS256").0 h)

text_claim_lem : {t : String} (o : Option Claim) → text_claim o ≡ accepted t → o ≡ some (text t)
text_claim_lem none h = cc
text_claim_lem (some no_text) h = cc
text_claim_lem (some (text t')) h = cc

if_accepted :
    {A : Type 0} {x : Verified A} {a : A} (e : JwtException) (b : Bool)
    → (if b then x else raised e) ≡ accepted a
    → (b ≡ true) × (x ≡ accepted a)
if_accepted e true h = (refl, h)
if_accepted e false h = cc

-- A header that names RS256 and a key.
header_kid_lem :
    {kid : String} (h : Header)
    → header_kid h ≡ accepted kid
    → (h.alg ≡ some (text "RS256")) × (h.kid ≡ some (text kid))
unfolding header_kid
header_kid_lem h e =
    let (rs256, kid) = if_accepted _ (is_rs256 h.alg) e in
    (is_rs256_lem h.alg rs256, text_claim_lem h.kid kid)

-- What stands behind a user: a header that names RS256 and a key of the key set, a signature that
-- the library accepts for that key and for RS256 alone, with `exp` and `sub` required and the
-- configured audience and issuer, and the claims that the user is made of.
pub record IsAuthentic {K : Type 0} (lib : JwtLibrary K) (u : UuidText) (s : AuthSettings)
    (token : String) (keys : Option KeySet) (w : AuthenticatedUser) : Type 0 where
  pub header : Header
  pub kid : String
  pub key_set : KeySet
  pub jwk : String
  pub key : K
  pub claims : ClaimSet
  pub header_read : lib.get_unverified_header token ≡ accepted header
  pub alg_is_rs256 : header.alg ≡ some (text "RS256")
  pub kid_named : header.kid ≡ some (text kid)
  pub fetched : keys ≡ some key_set
  pub key_known : get_key kid key_set ≡ some jwk
  pub key_read : lib.from_jwk jwk ≡ accepted key
  pub decoded : lib.decode token key (decode_options s) ≡ accepted (some claims)
  pub user_made : from_claims u claims ≡ some w

module _ {K : Type 0} (lib : JwtLibrary K) (u : UuidText) (s : AuthSettings) (token : String)
    {w : AuthenticatedUser} where
  -- The steps from the keys on, for a header that was accepted.
  key_IsAuthentic :
      (header : Header) (kid : String) (ks : KeySet) (jwk : String)
      → lib.get_unverified_header token ≡ accepted header
      → header_kid header ≡ accepted kid
      → get_key kid ks ≡ some jwk
      → ◌then◌
          (lib.from_jwk jwk)
          (λ key. ◌then◌ (lib.decode token key (decode_options s)) (accept_claims u))
        ≡ accepted w
      → IsAuthentic lib u s token (some ks) w
  key_IsAuthentic header kid ks jwk read named known checked =
      let (key, key_read, signed) = then_accepted (lib.from_jwk jwk) _ checked in
      let (payload, decoded, made) =
        then_accepted (lib.decode token key (decode_options s)) (accept_claims u) signed in
      let (claims, is_object, user_made) = accept_claims_lem u payload made in
      record {
        header = header;
        kid = kid;
        key_set = ks;
        jwk = jwk;
        key = key;
        claims = claims;
        header_read = read;
        alg_is_rs256 = (header_kid_lem header named).0;
        kid_named = (header_kid_lem header named).1;
        fetched = refl;
        key_known = known;
        key_read = key_read;
        decoded = decoded ∙ ap (λ o. accepted o) is_object;
        user_made = user_made;
      }

  check_token-IsAuthentic :
      (header : Header) (kid : String) (keys : Option KeySet)
      → lib.get_unverified_header token ≡ accepted header
      → header_kid header ≡ accepted kid
      → check_token lib u s token kid keys ≡ accepted w
      → IsAuthentic lib u s token keys w
  unfolding check_token
  check_token-IsAuthentic header kid none read named checked = cc
  check_token-IsAuthentic header kid (some ks) read named checked =
      elim (Option-cases (get_key kid ks)) [
        | inl unknown ↦ cc
        | inr (jwk, known) ↦ key_IsAuthentic header kid ks jwk read named known cc
      ]

  kid_IsAuthentic :
      (r : Reading) (cache waited : JwksCache) (v : Verified String)
      → ◌then◌ (lib.get_unverified_header token) header_kid ≡ v
      → (verify_with_kid lib u s token r cache waited v).0 ≡ user w
      → IsAuthentic lib u s token (get_keys r cache waited).keys w
  unfolding verify_with_kid
  kid_IsAuthentic r cache waited (raised e) h accepted_ =
      absurd (cc (recode-user (raised e) accepted_))
  kid_IsAuthentic r cache waited (accepted kid) h accepted_ =
      let (header, read, named) = then_accepted (lib.get_unverified_header token) header_kid h in
      check_token-IsAuthentic header kid (get_keys r cache waited).keys read named
        (recode-user (check_token lib u s token kid (get_keys r cache waited).keys) accepted_)

  -- In the mode `supabase`, a user is returned only for a token whose header names RS256 and a key of
  -- the key set that the cache gives, which the library verifies with that key and the configured
  -- options, and from whose claims the user is made.
  pub verify-IsAuthentic :
      (r : Reading) (cache waited : JwksCache)
      → s.auth_mode ≡ supabase
      → (verify lib u s token r cache waited).0 ≡ user w
      → IsAuthentic lib u s token (get_keys r cache waited).keys w
  unfolding verify verify_supabase
  verify-IsAuthentic r cache waited mode passed =
      elim (Option-cases (non_empty s.supabase_jwks_url)) [
        | inl no_url ↦ cc
        | inr (url, given) ↦
            kid_IsAuthentic r cache waited (◌then◌ (lib.get_unverified_header token) header_kid)
              refl cc
      ]
