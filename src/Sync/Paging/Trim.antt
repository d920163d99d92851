-- ===== src/Sync/Paging/Trim.antt =====
-- What a probe page is trimmed to (src/routes/sync/paging.rs: `trim_page`).
use mathlib.Core.List.{append_assoc, append-nil}
use teddy_fyi_api_rust.Prelude.{
  ℕ, zero, suc, ◌<◌, ◌≤◌, ◌≡◌, refl, sym, ap, subst, ◌∙◌, none, some, List, [], ◌∷◌, ◌++◌, arith,
  leb, leb→le, length, length-append, get_elem?, take, filter, Bool-cases, Option-cases, inl, inr,
  take-short, take-take, get_elem?-take, get_elem?-some, filter-append,
}
use teddy_fyi_api_rust.Prelude.Int.{ℤ, ◌<ℤ◌}
use teddy_fyi_api_rust.Sync.Paging.{
  Page, complete, truncated, whole_millisecond, pop_from, last, trim_page,
}
use teddy_fyi_api_rust.Sync.Paging.Cut.{
  From, Ordered, up_to, From-append, After-weaken, pop_from-split, last-pop_from, last-none,
  Ordered-left, Ordered-UpTo, filter-UpTo, filter-After, take-split,
}

length-last : {T : Type 0} (xs : List T) (x : T) → last xs ≡ some x → 0 < length xs
unfolding last
length-last [] x h = absurd (ground arith)
length-last (y ∷ xs) x h = omega arith

get_elem?-length :
    {T : Type 0} (xs : List T) (n : ℕ) (x : T) → get_elem? xs n ≡ some x → n < length xs
get_elem?-length [] n x h = absurd (ground (arith, h))
get_elem?-length (y ∷ xs) zero x h = omega arith
get_elem?-length (y ∷ xs) (suc n) x h = omega (arith, get_elem?-length xs n x h)

length-take-le : {T : Type 0} (n : ℕ) (xs : List T) → length (take n xs) ≤ n
length-take-le zero xs = omega arith
length-take-le (suc n) [] = omega arith
length-take-le (suc n) (x ∷ xs) = omega (arith, length-take-le n xs)

module _ {T : Type 0} (at : T → ℤ) where
  -- What a page of `n` rows, with the rows that it was read from, has to be.
  abbrev pub Trimmed : List T → ℕ → List T × Page → Type 0
  Trimmed rows n (kept, complete) = (kept ≡ rows) × (length rows ≤ n)
  Trimmed rows n (kept, truncated m) =
      (kept ≡ filter (up_to at m) rows) × (0 < length kept) × (length kept ≤ n) × (n < length rows)
  Trimmed rows n (kept, whole_millisecond m) =
      (p : T) × (at p ≡ m) × (get_elem? rows n ≡ some p) × From at m rows

  cut_of :
      (kept rest : List T) (row : T) (b : ℤ)
      → Ordered at (kept ++ rest)
      → From at b rest
      → last kept ≡ some row
      → at row <ℤ b
      → kept ≡ filter (up_to at (at row)) (kept ++ rest)
  cut_of kept rest row b o late e h =
      let here =
        filter-UpTo at (at row) kept (Ordered-UpTo at kept row (Ordered-left at kept rest o) e) in
      let there = filter-After at (at row) rest (After-weaken at b (at row) rest h late) in
      sym (
        filter-append (up_to at (at row)) kept rest
        ∙ ap (λ z. z ++ filter (up_to at (at row)) rest) here.0
        ∙ ap (λ z. kept ++ z) there.1
        ∙ append-nil kept)

  cut_at :
      (kept rest rows : List T) (p : T) (n : ℕ)
      → rows ≡ kept ++ rest
      → From at (at p) rest
      → Ordered at rows
      → ((row : T) → last kept ≡ some row → at row <ℤ at p)
      → get_elem? rows n ≡ some p
      → length kept ≤ n
      → Trimmed rows n (
        kept,
        elim (last kept) [ some row ↦ truncated (at row) | none ↦ whole_millisecond (at p) ],
      )
  cut_at kept rest rows p n same late o before g few = elim (Option-cases (last kept)) [
    | inl e ↦ rw e (
      p,
      refl,
      g,
      subst (From at (at p)) (sym (same ∙ ap (λ z. z ++ rest) (last-none at kept e))) late,
    )
    | inr (row, e) ↦ rw e (
      cut_of kept rest row (at p) (subst (Ordered at) same o) late e (before row e)
          ∙ ap (filter (up_to at (at row))) (sym same),
      length-last kept row e,
      few,
      get_elem?-length rows n p g,
    )
  ]

  full_page :
      (rows : List T) (n : ℕ) (p : T)
      → Ordered at rows
      → get_elem? rows n ≡ some p
      → let kept = pop_from at (at p) (take n rows) in
        Trimmed rows n (
          kept,
          elim (last kept) [ some row ↦ truncated (at row) | none ↦ whole_millisecond (at p) ],
        )
  full_page rows n p o g =
      let (rest, same, late) = take-split at n rows p o g in
      let (popped, same', late') = pop_from-split at (at p) (take n rows) in
      let kept = pop_from at (at p) (take n rows) in
      cut_at kept (popped ++ rest) rows p n
        (same ∙ ap (λ z. z ++ rest) same' ∙ append_assoc kept popped rest)
        (From-append at (at p) popped rest late' late) o (last-pop_from at (at p) (take n rows)) g
        (omega (arith, ap length same', length-append kept popped, length-take-le n rows))

  -- The first `n + 1` of some rows in the order of their milliseconds, trimmed to a page of `n`:
  -- either there are at most `n` rows, and the page is complete and is all of them; or there are more,
  -- and the page, of at least one and at most `n` rows, is exactly the rows up to its cursor; or there
  -- are more, and no row is before the millisecond that the page names, which is that of the row
  -- behind it.
  pub trim_page-Trimmed :
      (rows : List T) (n : ℕ)
      → Ordered at rows
      → Trimmed rows n (trim_page at (take (suc n) rows) n)
  unfolding trim_page
  trim_page-Trimmed rows n o = elim (Bool-cases (leb (length (take (suc n) rows)) n)) [
    | inl h ↦
        let whole = take-short n rows (leb→le _ _ h) in
        rw h (whole, omega (arith, leb→le _ _ h, ap length whole))
    | inr h ↦
        let (p, g) = get_elem?-some (take (suc n) rows) n (ground arith) in
        rw (h, g, take-take n rows) (full_page rows n p o (sym (get_elem?-take n rows) ∙ g))
  ]
