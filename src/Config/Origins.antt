-- ===== src/Config/Origins.antt =====
-- The two spellings of the origins, and what the parser leaves unchanged.
use mathlib.Core.Path.{refl, ap, ◌∙◌}
use Prim.Native.Char.{Char}
use Prim.Native.String.{◌++◌ as text_append}
use Prim.Native.String.append.{nil as append_nil, cons as append_cons}
use as_baptist_api.Prelude.{
  Bool, true, false, ◌&&◌, ◌||◌, String, some, List, [], ◌∷◌, any_row, ◌≡◌, Bool-cases, inl, inr,
}
use as_baptist_api.Config.{is_space}
use as_baptist_api.Config.Cors.{
  text, sequence, is_empty_text, lstrip, rstrip, strip, is_comma, split_commas, stripped,
  parse_cors_origins,
}

abbrev pub has_comma : String → Bool
has_comma String.[] = false
has_comma (String.◌∷◌ c t) = is_comma c || has_comma t

-- `",".join(origins)`.
abbrev pub join_commas : List String → String
join_commas [] = ""
join_commas (o ∷ []) = o
join_commas (o ∷ p ∷ rest) = text_append o (text_append "," (join_commas (p ∷ rest)))

or_false : (a b : Bool) → (a || b) ≡ false → (a ≡ false) × (b ≡ false)
or_false true b h = absurd (cc h)
or_false false b h = (refl, h)

split_last : (o : String) → has_comma o ≡ false → split_commas o ≡ o ∷ []
split_last String.[] h = refl
split_last (String.◌∷◌ c t) h =
    let (here, later) = or_false (is_comma c) (has_comma t) h in rw (here, split_last t later)

split_cons :
    (c : Char) (t piece : String) (pieces : List String)
    → is_comma c ≡ false
    → split_commas t ≡ piece ∷ pieces
    → split_commas (String.◌∷◌ c t) ≡ String.◌∷◌ c piece ∷ pieces
split_cons c t piece pieces plain h = rw (plain, h)

split_first :
    (o rest : String)
    → has_comma o ≡ false
    → split_commas (text_append o (text_append "," rest)) ≡ o ∷ split_commas rest
split_first String.[] rest h =
    ap split_commas (λ i. append_nil (text_append "," rest) i)
    ∙ (ap split_commas (λ i. append_cons "," "" rest i)
        ∙ ap (λ t. split_commas (String.◌∷◌ "," t)) (λ i. append_nil rest i))
split_first (String.◌∷◌ c t) rest h =
    let (here, later) = or_false (is_comma c) (has_comma t) h in
    ap split_commas (λ i. append_cons c t (text_append "," rest) i)
    ∙ split_cons c (text_append t (text_append "," rest)) t (split_commas rest) here
        (split_first t rest later)

split-join :
    (o : String) (os : List String)
    → any_row has_comma (o ∷ os) ≡ false
    → split_commas (join_commas (o ∷ os)) ≡ o ∷ os
split-join o [] h = split_last o (or_false (has_comma o) false h).0
split-join o (p ∷ rest) h =
    let (here, later) = or_false (has_comma o) (any_row has_comma (p ∷ rest)) h in
    rw (split_first o (join_commas (p ∷ rest)) here, split-join p rest later)

-- Splitting the joined origins gives them back, but for the empty list, whose one piece is empty.
stripped-split :
    (os : List String)
    → any_row has_comma os ≡ false
    → stripped (split_commas (join_commas os)) ≡ stripped os
unfolding stripped
stripped-split [] h = refl
stripped-split (o ∷ os) h = ap stripped (split-join o os h)

rstrip_again : (t : String) → rstrip (rstrip t) ≡ rstrip t
rstrip_again String.[] = refl
rstrip_again (String.◌∷◌ c t) = elim (Bool-cases (is_empty_text (rstrip t) && is_space c)) [
  | inl dropped ↦ rw dropped
  | inr kept ↦ rw (kept, rstrip_again t, kept)
]

-- A text that begins with no space keeps its first character.
lstrip-rstrip :
    (c : Char) (t : String)
    → is_space c ≡ false
    → lstrip (rstrip (String.◌∷◌ c t)) ≡ rstrip (String.◌∷◌ c t)
lstrip-rstrip c t solid = elim (Bool-cases (is_empty_text (rstrip t))) [
  | inl empty ↦ rw (empty, solid, solid)
  | inr filled ↦ rw (filled, solid)
]

lstrip-strip : (t : String) → lstrip (rstrip (lstrip t)) ≡ rstrip (lstrip t)
lstrip-strip String.[] = refl
lstrip-strip (String.◌∷◌ c t) = elim (Bool-cases (is_space c)) [
  | inl space ↦ rw (space, lstrip-strip t)
  | inr solid ↦ rw (solid, lstrip-rstrip c t solid)
]

strip_again : (t : String) → strip (strip t) ≡ strip t
unfolding strip
strip_again t = rw (lstrip-strip t, rstrip_again (lstrip t))

stripped_again : (os : List String) → stripped (stripped os) ≡ stripped os
unfolding stripped
stripped_again [] = refl
stripped_again (o ∷ os) = elim (Bool-cases (is_empty_text (strip o))) [
  | inl empty ↦ rw (empty, stripped_again os)
  | inr filled ↦ rw (filled, strip_again o, filled, stripped_again os)
]

-- Origins without a comma are read the same from one text with commas between them and from a
-- sequence, and reading the result again as a sequence changes nothing.
pub parse_cors_origins_stable :
    (os : List String)
    → any_row has_comma os ≡ false
    → (origins : List String) × (parse_cors_origins (text (join_commas os)) ≡ some origins)
      × (parse_cors_origins (sequence os) ≡ some origins)
      × (parse_cors_origins (sequence origins) ≡ some origins)
unfolding parse_cors_origins
parse_cors_origins_stable os h =
    (stripped os, ap some (stripped-split os h), refl, ap some (stripped_again os))
