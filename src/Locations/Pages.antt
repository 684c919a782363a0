-- ===== src/Locations/Pages.antt =====
-- What a page of locations shows, and what it leaves out.
use mathlib.Core.Path.{refl, ap, sym, ◌∙◌}
use as_baptist_api.Prelude.{
  ℕ, zero, suc, ◌+◌, ◌-◌, ◌≡◌, Bool, true, false, ◌&&◌, not, List, [], ◌∷◌, length, take, drop,
  where_rows, any_row, arith, ltb, leb, if◌then◌else◌,
}
use as_baptist_api.Prelude.Int.{pos, ◌+ℤ◌}
use as_baptist_api.Db.{run, Caller, Db, Location, ok, active}
use as_baptist_api.Locations.{
  Collation, ListQuery, can_see, is_listed, listed, list_locations, build_page, is_fleet, given,
}

module _ {A : Type 0} where
  length-where_rows_all : (xs : List A) → length (where_rows (λ _. true) xs) ≡ length xs
  length-where_rows_all [] = refl
  length-where_rows_all (x ∷ xs) = ap suc (length-where_rows_all xs)

  any_row_of_length :
      (p : A → Bool) (xs : List A) → length (where_rows p xs) ≡ 0 → any_row p xs ≡ false
  any_row_of_length p [] h = refl
  any_row_of_length p (x ∷ xs) h = ground (arith, any_row_of_length p xs)

  -- A test that fails on every row selected selects none of them.
  where_rows-where_rows :
      (p s : A → Bool) (xs : List A)
      → ((x : A) → s x ≡ true → p x ≡ false)
      → length (where_rows p (where_rows s xs)) ≡ 0
  where_rows-where_rows p s [] apart = refl
  where_rows-where_rows p s (x ∷ xs) apart =
      ground (arith, apart x, where_rows-where_rows p s xs apart)

  any_row-drop :
      (p : A → Bool) (n : ℕ) (xs : List A) → any_row p xs ≡ false → any_row p (drop n xs) ≡ false
  any_row-drop p zero xs h = h
  any_row-drop p (suc n) [] h = refl
  any_row-drop p (suc n) (x ∷ xs) h = ground (arith, any_row-drop p n xs)

  any_row-take :
      (p : A → Bool) (n : ℕ) (xs : List A) → any_row p xs ≡ false → any_row p (take n xs) ≡ false
  any_row-take p zero xs h = refl
  any_row-take p (suc n) [] h = refl
  any_row-take p (suc n) (x ∷ xs) h = ground (arith, any_row-take p n xs)

  length-drop : (n : ℕ) (xs : List A) → length (drop n xs) ≡ length xs - n
  length-drop zero xs = omega arith
  length-drop (suc n) [] = omega arith
  length-drop (suc n) (x ∷ xs) = omega (arith, length-drop n xs)

  length-take :
      (n : ℕ) (xs : List A) → length (take n xs) ≡ (if leb n (length xs) then n else length xs)
  length-take zero xs = ground arith
  length-take (suc n) [] = ground arith
  length-take (suc n) (x ∷ xs) = ground (arith, length-take n xs)

module _ (k : Collation) (q : ListQuery) (c : Caller) (db : Db) where
  abbrev found : List Location
  found = k.by_name (listed k q c db)

  -- The row is one that the caller may see and that the query asks for.
  abbrev pub wanted : Location → Bool
  wanted l = can_see c db l && is_listed k q l

  length-found : length found ≡ length (listed k q c db)
  length-found =
      sym (length-where_rows_all found)
      ∙ k.same_rows (λ _. true) (listed k q c db)
      ∙ length-where_rows_all (listed k q c db)

  all_wanted : any_row (λ l. not (wanted l)) found ≡ false
  all_wanted =
      any_row_of_length (λ l. not (wanted l)) found
        (k.same_rows (λ l. not (wanted l)) (listed k q c db)
          ∙ where_rows-where_rows (λ l. not (wanted l)) wanted db.locations (λ l h. ap not h))

  length-page :
      (n : ℕ)
      → let total = length (listed k q c db) in
        length (take n (drop q.offset found))
        ≡ (if leb n (total - q.offset) then n else total - q.offset)
  length-page n =
      length-take n (drop q.offset found)
      ∙ ap (λ m. if leb n m then n else m)
          (length-drop q.offset found ∙ ap (λ m. m - q.offset) length-found)

  has_more_lem :
      (n rows total : ℕ)
      → rows ≡ (if leb n (total - q.offset) then n else total - q.offset)
      → (build_page (pos n) q.offset total).has_more ≡ ltb (q.offset + rows) total
  unfolding build_page ◌+ℤ◌
  has_more_lem n rows total h = ground (arith, h)

  page_lem :
      (n calls : ℕ)
      → q.limit ≡ pos n
      → given q.fleet is_fleet ≡ true
      → list_locations k q (active c db calls)
        ≡ (ok (take n (drop q.offset found), length (listed k q c db)), active c db calls)
  unfolding list_locations run
  page_lem n calls limited valid = rw valid (rw limited)

  -- A listing with a limit that is not negative and a valid fleet succeeds and changes nothing. Its
  -- total counts the rows that the caller may see and the query asks for; each row of the page is one
  -- of them, the page is full unless it is the last, and `has_more` says exactly whether rows are left
  -- after it.
  pub list_locations_pages :
      (n calls : ℕ)
      → q.limit ≡ pos n
      → given q.fleet is_fleet ≡ true
      → (rows : List Location) × (total : ℕ) × (list_locations k q (active c db calls)
          ≡ (ok (rows, total), active c db calls))
        × (total ≡ length (where_rows wanted db.locations))
        × (any_row (λ l. not (wanted l)) rows ≡ false)
        × (length rows ≡ (if leb n (total - q.offset) then n else total - q.offset))
        × ((build_page q.limit q.offset total).has_more ≡ ltb (q.offset + length rows) total)
  list_locations_pages n calls limited valid = (
    take n (drop q.offset found),
    length (listed k q c db),
    page_lem n calls limited valid,
    refl,
    any_row-take (λ l. not (wanted l)) n (drop q.offset found)
        (any_row-drop (λ l. not (wanted l)) q.offset found all_wanted),
    length-page n,
    ap (λ x. (build_page x q.offset (length (listed k q c db))).has_more) limited
        ∙ has_more_lem n (length (take n (drop q.offset found))) (length (listed k q c db))
            (length-page n),
  )
