-- ===== src/Web/Conditional.antt =====
-- What a conditional reply says of the version that the client holds.
use Prim.Native.String.{◌++◌ as text_append}
use Prim.Native.String.append
use Prim.Native.Char.{Char}
use text.Mathlib.TextLemmas.{cons≢nil}
use as_baptist_api.Prelude.{
  ◌≢◌, ℕ, ◌≡◌, ◌↔◌, Bool, false, String, Option, some, none, refl, sym, ap, ◌∙◌, str_eq, eq_iff,
  eq_refl, Bool-cases, inl, inr, if◌then◌else◌,
}
use as_baptist_api.Db.{err, RequestContext, Result, ok}
use as_baptist_api.Web.{
  ResponseMeta, enveloped, Site, Incoming, SourceArgument, Reply, Envelope, not_modified,
  respond_if_changed, compute_etag, etag_matches, build_meta,
}
use as_baptist_api.Web.Tenants.{append_injective}

closed_not_empty : (t : String) → text_append t "\"" ≡ "" → ⊥
closed_not_empty String.[] e = cons≢nil (sym (append.nil "\"") ∙ e)
closed_not_empty (String.◌∷◌ d t) e = cons≢nil (sym (append.cons d t "\"") ∙ e)

not_closed : (d : Char) (t : String) → "\"" ≡ String.◌∷◌ d (text_append t "\"") → ⊥
not_closed d t e = closed_not_empty t (cc e)

-- A text is determined by what stands before a quotation mark that closes it.
append_right_injective : (s t : String) → text_append s "\"" ≡ text_append t "\"" → s ≡ t
append_right_injective String.[] String.[] e = refl
append_right_injective String.[] (String.◌∷◌ d t) e =
    absurd (not_closed d t (sym (append.nil "\"") ∙ e ∙ append.cons d t "\""))
append_right_injective (String.◌∷◌ c s) String.[] e =
    absurd (not_closed c s (sym (append.nil "\"") ∙ sym e ∙ append.cons c s "\""))
append_right_injective (String.◌∷◌ c s) (String.◌∷◌ d t) e =
    let step : String.◌∷◌ c (text_append s "\"") ≡ String.◌∷◌ d (text_append t "\"") =
      sym (append.cons c s "\"") ∙ e ∙ append.cons d t "\"" in
    cc (step, append_right_injective s t (cc step))

-- The text that is digested for a payload.
abbrev pub digested : Site → RequestContext → String → String
digested w ctx payload = text_append (w.uuid.to_text ctx.tenant_id) (text_append ":" payload)

-- Two payloads whose digested texts do not collide.
abbrev pub AreApart : Site → RequestContext → String → String → Type 0
AreApart w ctx a b =
    w.hexdigest (digested w ctx a) ≡ w.hexdigest (digested w ctx b)
    → digested w ctx a ≡ digested w ctx b

compute_etag-injective :
    (w : Site) (ctx : RequestContext) (a b : String)
    → AreApart w ctx a b
    → compute_etag w.uuid w.hexdigest ctx a ≡ compute_etag w.uuid w.hexdigest ctx b
    → a ≡ b
unfolding compute_etag
compute_etag-injective w ctx a b apart e =
    let tenant = w.uuid.to_text ctx.tenant_id in
    append_injective ":" a b (
      append_injective tenant (text_append ":" a) (text_append ":" b) (
        apart (
          append_right_injective _ _ (
            append_injective "." _ _ (append_injective tenant _ _ (append_injective "\"" _ _ e))))))

enveloped-ne-not_modified :
    {A : Type 0} (status : ℕ) (etag : Option String) (data_ : A) (r : Result ResponseMeta)
    (tag : String)
    → enveloped status etag data_ r ≡ ok (not_modified tag)
    → ⊥
enveloped-ne-not_modified status etag data_ (ok meta) tag e = cc
enveloped-ne-not_modified status etag data_ (err f) tag e = cc

module _ {A : Type 0} (w : Site) (req : Incoming) (ctx : RequestContext) (source : SourceArgument)
    (location : Option String) (json : A → String) where
  tag : A → String
  tag d = compute_etag w.uuid w.hexdigest ctx (json d)

  full : A → Result (Reply (Envelope A))
  full d =
      enveloped 200 (some (compute_etag w.uuid w.hexdigest ctx (json d))) d
        (build_meta w req ctx source none false location)

  module _ (held data_ : A)
      (presented : req.if_none_match ≡ some (compute_etag w.uuid w.hexdigest ctx (json held)))
      (apart : AreApart w ctx (json held) (json data_))
      (faithful : json held ≡ json data_ → held ≡ data_) where
    reply_to :
        {b : Bool}
        → str_eq (tag held) (tag data_) ≡ b
        → respond_if_changed w req ctx source location json data_
          ≡ (if b then ok (not_modified (tag data_)) else full data_)
    unfolding respond_if_changed tag full
    reply_to tested =
        ap (λ o. if etag_matches o (tag data_) then ok (not_modified (tag data_)) else full data_)
          presented
        ∙ ap (λ b. if b then ok (not_modified (tag data_)) else full data_) tested

    changed :
        str_eq (tag held) (tag data_) ≡ false
        → respond_if_changed w req ctx source location json data_
          ≡ ok (not_modified (compute_etag w.uuid w.hexdigest ctx (json data_)))
        → held ≡ data_
    unfolding full
    changed other reply =
        absurd (enveloped-ne-not_modified 200 _ data_ _ _ (sym (reply_to other) ∙ reply))

    -- A client that presents the tag of a version is told that nothing changed exactly if the data
    -- are still those of that version.
    pub respond_if_changed_iff :
        (respond_if_changed w req ctx source location json data_
          ≡ ok (not_modified (compute_etag w.uuid w.hexdigest ctx (json data_))))
        ↔ (held ≡ data_)
    unfolding tag
    respond_if_changed_iff = elim (Bool-cases (str_eq (tag held) (tag data_))) [
      | inl same ↦ (
        λ reply. faithful (
            compute_etag-injective w ctx (json held) (json data_) apart
              ((eq_iff (tag held) (tag data_)).0 same)),
        λ unchanged. reply_to same,
      )
      | inr other ↦ (changed other, λ unchanged. absurd (cc (other, eq_refl (tag held), unchanged)))
    ]

    -- A client that presents the tag of another version gets the data in full, under their tag.
    pub respond_if_changed_full :
        held ≢ data_
        → respond_if_changed w req ctx source location json data_
          ≡ enveloped 200
              (some (compute_etag w.uuid w.hexdigest ctx (json data_)))
              data_
              (build_meta w req ctx source none false location)
    unfolding tag full
    respond_if_changed_full other = elim (Bool-cases (str_eq (tag held) (tag data_))) [
      | inr differ ↦ reply_to differ
      | inl same ↦ absurd (
          other (
            faithful (
              compute_etag-injective w ctx (json held) (json data_) apart
                ((eq_iff (tag held) (tag data_)).0 same))))
    ]
