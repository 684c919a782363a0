-- ===== src/Web/Tenants.antt =====
-- Entity tags of different tenants differ.
use Prim.Native.String.{◌++◌ as text_append}
use Prim.Native.String.append
use Prim.Native.Char.{Char, code}
use mathlib.Core.Path.{refl, ap, sym, subst, ◌∙◌}
use as_baptist_api.Prelude.{
  inl, inr, Bool-cases, str_eq, eq_iff, ℕ, ◌≡◌, ◌≢◌, ◌==◌, ◌||◌, Bool, true, false, String, some,
  arith,
}
use as_baptist_api.Db.{UuidText, RequestContext}
use as_baptist_api.Web.{compute_etag, etag_matches}

-- Whether a text has a full stop, the character 46.
unfoldable pub has_dot : String → Bool
has_dot String.[] = false
has_dot (String.◌∷◌ c s) = (code c == 46) || has_dot s

-- A text that continues a full stop begins with one.
dot_first :
    (d : Char) (t x y : String)
    → text_append "" (text_append "." x) ≡ text_append (String.◌∷◌ d t) y
    → has_dot (String.◌∷◌ d t) ≡ true
unfolding has_dot
dot_first d t x y e =
    let dot : text_append "." x ≡ String.◌∷◌ "." (text_append "" x) = append.cons "." "" x in
    let step : String.◌∷◌ "." (text_append "" x) ≡ String.◌∷◌ d (text_append t y) =
      sym dot ∙ sym (append.nil (text_append "." x)) ∙ e ∙ append.cons d t y in
    let same : "." ≡ d = cc step in
    subst (λ (c : Char). ((code c == 46) || has_dot t) ≡ true) same refl

-- Two texts without a full stop that end at the first one of the same text are the same.
until_dot_unique :
    (s t x y : String)
    → has_dot s ≡ false
    → has_dot t ≡ false
    → text_append s (text_append "." x) ≡ text_append t (text_append "." y)
    → s ≡ t
unfolding has_dot
until_dot_unique String.[] String.[] x y hs ht e = refl
until_dot_unique String.[] (String.◌∷◌ d t) x y hs ht e =
    absurd (cc (dot_first d t x (text_append "." y) e, ht))
until_dot_unique (String.◌∷◌ c s) String.[] x y hs ht e =
    absurd (cc (dot_first c s y (text_append "." x) (sym e), hs))
until_dot_unique (String.◌∷◌ c s) (String.◌∷◌ d t) x y hs ht e =
    let step : String.◌∷◌ c (text_append s (text_append "." x))
        ≡ String.◌∷◌ d (text_append t (text_append "." y)) =
      sym (append.cons c s (text_append "." x)) ∙ e ∙ append.cons d t (text_append "." y) in
    cc (step, until_dot_unique s t x y (ground (arith, hs)) (ground (arith, ht)) (cc step))

pub append_injective : (s x y : String) → text_append s x ≡ text_append s y → x ≡ y
append_injective String.[] x y e = sym (append.nil x) ∙ e ∙ append.nil y
append_injective (String.◌∷◌ c s) x y e =
    append_injective s x y (cc (sym (append.cons c s x) ∙ e ∙ append.cons c s y))

-- The tenant can be read off an entity tag.
same_tag-same_tenant :
    (u : UuidText) (hexdigest : String → String) (mine theirs : RequestContext) (p p' : String)
    → ((n : ℕ) → has_dot (u.to_text n) ≡ false)
    → compute_etag u hexdigest theirs p' ≡ compute_etag u hexdigest mine p
    → mine.tenant_id ≡ theirs.tenant_id
unfolding compute_etag
same_tag-same_tenant u hexdigest mine theirs p p' no_dot e =
    let texts : u.to_text theirs.tenant_id ≡ u.to_text mine.tenant_id =
      until_dot_unique (u.to_text theirs.tenant_id) (u.to_text mine.tenant_id) _ _
        (no_dot theirs.tenant_id) (no_dot mine.tenant_id) (append_injective "\"" _ _ e) in
    let read : some mine.tenant_id ≡ some theirs.tenant_id =
      sym (u.of_text-to_text mine.tenant_id)
      ∙ ap u.of_text (sym texts)
      ∙ u.of_text-to_text theirs.tenant_id in
    cc read

-- If the text of a UUID has no full stop, an entity tag of one tenant never matches what another
-- tenant computes, whatever the payloads are, and even if their digests are the same.
pub etag_matches-other_tenant :
    (u : UuidText) (hexdigest : String → String) (mine theirs : RequestContext) (p p' : String)
    → ((n : ℕ) → has_dot (u.to_text n) ≡ false)
    → mine.tenant_id ≢ theirs.tenant_id
    → etag_matches (some (compute_etag u hexdigest theirs p')) (compute_etag u hexdigest mine p)
      ≡ false
etag_matches-other_tenant u hexdigest mine theirs p p' no_dot other =
    let theirs_tag = compute_etag u hexdigest theirs p' in
    let my_tag = compute_etag u hexdigest mine p in
    elim (Bool-cases (str_eq theirs_tag my_tag)) [
      | inr apart ↦ apart
      | inl same ↦ absurd (
          other (
            same_tag-same_tenant u hexdigest mine theirs p p' no_dot
              ((eq_iff theirs_tag my_tag).0 same)))
    ]
