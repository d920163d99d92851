-- ===== src/Sync/Paging/Cut.antt =====
-- Rows in the order of their milliseconds, and where they can be cut (src/routes/sync/paging.rs).
use teddy_fyi_api_rust.Prelude.{
  length, ltb→lt, ◌<◌, ℕ, zero, suc, ◌≡◌, ◌≢◌, refl, sym, ap, subst, ◌∙◌, Bool, none, some, List,
  [], ◌∷◌, ◌++◌, arith, leb→le, get_elem?, take, filter, Bool-cases, inl, inr, ◌⊎◌,
}
use teddy_fyi_api_rust.Prelude.Int.{ℤ, leb_ℤ, ltb_ℤ, ◌≤ℤ◌, ◌<ℤ◌}
use teddy_fyi_api_rust.Sync.Paging.{pop_from, last}

List-cases : {T : Type 0} (xs : List T) → (xs ≡ []) ⊎ ((y : T) × (ys : List T) × (xs ≡ y ∷ ys))
List-cases [] = inl refl
List-cases (x ∷ xs) = inr (x, xs, refl)

module _ {T : Type 0} (at : T → ℤ) where
  abbrev pub UpTo : ℤ → List T → Type 0
  UpTo m [] = Unit {0}
  UpTo m (x ∷ xs) = (at x ≤ℤ m) × UpTo m xs

  abbrev pub From : ℤ → List T → Type 0
  From m [] = Unit {0}
  From m (x ∷ xs) = (m ≤ℤ at x) × From m xs

  abbrev pub After : ℤ → List T → Type 0
  After m [] = Unit {0}
  After m (x ∷ xs) = (m <ℤ at x) × After m xs

  abbrev pub Ordered : List T → Type 0
  Ordered [] = Unit {0}
  Ordered (x ∷ xs) = From (at x) xs × Ordered xs

  pub From-weaken : (m n : ℤ) (xs : List T) → n ≤ℤ m → From m xs → From n xs
  From-weaken m n [] h a = tt
  From-weaken m n (x ∷ xs) h a = (omega (arith, a.0), From-weaken m n xs h a.1)

  pub After-weaken : (m n : ℤ) (xs : List T) → n <ℤ m → From m xs → After n xs
  After-weaken m n [] h a = tt
  After-weaken m n (x ∷ xs) h a = (omega (arith, a.0), After-weaken m n xs h a.1)

  pub From-append : (m : ℤ) (xs ys : List T) → From m xs → From m ys → From m (xs ++ ys)
  From-append m [] ys a b = b
  From-append m (x ∷ xs) ys a b = (a.0, From-append m xs ys a.1 b)

  -- What is popped off a list is at or past the boundary.
  pub pop_from-split :
      (b : ℤ) (xs : List T) → (popped : List T) × (xs ≡ pop_from at b xs ++ popped) × From b popped
  unfolding pop_from
  pop_from-split b [] = ([], refl, tt)
  pop_from-split b (x ∷ xs) =
      let (popped, same, late) = pop_from-split b xs in
      elim (List-cases (pop_from at b xs)) [
        | inl e ↦ elim (Bool-cases (leb_ℤ b (at x))) [
          | inl h ↦ (
            x ∷ xs,
            ground arith,
            (leb→le _ _ h, subst (From b) (sym (same ∙ ap (λ z. z ++ popped) e)) late),
          )
          | inr h ↦ (popped, ground arith, late)
        ]
        | inr (y, ys, e) ↦ (popped, ground arith, late)
      ]

  -- What is kept ends before it.
  pub last-pop_from :
      (b : ℤ) (xs : List T) (row : T) → last (pop_from at b xs) ≡ some row → at row <ℤ b
  unfolding pop_from last
  last-pop_from b [] row e = ground arith
  last-pop_from b (x ∷ xs) row e = ground (arith, last-pop_from b xs row)

  nonempty : (zs : List T) (y : T) (ys : List T) → zs ≡ y ∷ ys → zs ≢ []
  nonempty zs y ys h e = ground arith

  pub last-none : (xs : List T) → last xs ≡ none → xs ≡ []
  unfolding last
  last-none [] e = refl
  last-none (x ∷ []) e = ground arith
  last-none (x ∷ y ∷ xs) e = absurd (nonempty (y ∷ xs) y xs refl (last-none (y ∷ xs) e))

  From-left : (m : ℤ) (xs ys : List T) → From m (xs ++ ys) → From m xs
  From-left m [] ys a = tt
  From-left m (x ∷ xs) ys a = (a.0, From-left m xs ys a.1)

  pub Ordered-left : (xs ys : List T) → Ordered (xs ++ ys) → Ordered xs
  Ordered-left [] ys o = tt
  Ordered-left (x ∷ xs) ys o = (From-left (at x) xs ys o.0, Ordered-left xs ys o.1)

  pub Ordered-UpTo : (xs : List T) (row : T) → Ordered xs → last xs ≡ some row → UpTo (at row) xs
  unfolding last
  Ordered-UpTo [] row o e = tt
  Ordered-UpTo (x ∷ []) row o e = ground arith
  Ordered-UpTo (x ∷ y ∷ xs) row o e =
      let rest = Ordered-UpTo (y ∷ xs) row o.1 e in (omega (arith, o.0.0, rest.0), rest)

  abbrev pub up_to : ℤ → T → Bool
  up_to m x = leb_ℤ (at x) m

  abbrev pub later : ℤ → T → Bool
  later m x = ltb_ℤ m (at x)

  pub filter-UpTo :
      (m : ℤ) (xs : List T) → UpTo m xs → (filter (up_to m) xs ≡ xs) × (filter (later m) xs ≡ [])
  filter-UpTo m [] a = (refl, refl)
  filter-UpTo m (x ∷ xs) a =
      let ih = filter-UpTo m xs a.1 in (ground (arith, a.0, ih.0), ground (arith, a.0, ih.1))

  pub filter-After :
      (m : ℤ) (xs : List T) → After m xs → (filter (later m) xs ≡ xs) × (filter (up_to m) xs ≡ [])
  filter-After m [] a = (refl, refl)
  filter-After m (x ∷ xs) a =
      let ih = filter-After m xs a.1 in (ground (arith, a.0, ih.0), ground (arith, a.0, ih.1))

  -- Rows in order fall into those up to a millisecond and those after it.
  pub split_at :
      (m : ℤ) (xs : List T) → Ordered xs → xs ≡ filter (up_to m) xs ++ filter (later m) xs
  split_at m [] o = refl
  split_at m (x ∷ xs) o = elim (Bool-cases (up_to m x)) [
    | inl h ↦ ground (arith, split_at m xs o.1)
    | inr h ↦
        let all =
          filter-After m (x ∷ xs) (ground arith, After-weaken (at x) m xs (ground arith) o.0) in
        sym (all.0) ∙ ap (λ z. z ++ filter (later m) (x ∷ xs)) (sym all.1)
  ]

  filter-From : (m : ℤ) (p : T → Bool) (xs : List T) → From m xs → From m (filter p xs)
  filter-From m p [] a = tt
  filter-From m p (x ∷ xs) a =
      let ih = filter-From m p xs a.1 in
      elim (Bool-cases (p x)) [ inl h ↦ ground (arith, a.0, ih) | inr h ↦ ground (arith, ih) ]

  pub filter-Ordered : (p : T → Bool) (xs : List T) → Ordered xs → Ordered (filter p xs)
  filter-Ordered p [] o = tt
  filter-Ordered p (x ∷ xs) o =
      let ih = filter-Ordered p xs o.1 in
      let b = filter-From (at x) p xs o.0 in
      elim (Bool-cases (p x)) [ inl h ↦ rw h (b, ih) | inr h ↦ ground (arith, ih) ]

  -- What lies behind a full page.
  pub take-split :
      (n : ℕ) (xs : List T) (p : T)
      → Ordered xs
      → get_elem? xs n ≡ some p
      → (rest : List T) × (xs ≡ take n xs ++ rest) × From (at p) rest
  take-split n [] p o h = absurd (ground arith)
  take-split zero (x ∷ xs) p o h = (x ∷ xs, refl, ground (arith, o.0))
  take-split (suc n) (x ∷ xs) p o h =
      let (rest, same, late) = take-split n xs p o.1 h in (rest, ap (λ z. x ∷ z) same, late)

  pub After-of_later : (m : ℤ) (xs : List T) → After m (filter (later m) xs)
  After-of_later m [] = tt
  After-of_later m (x ∷ xs) = elim (Bool-cases (later m x)) [
    | inl h ↦ rw h (ltb→lt _ _ h, After-of_later m xs)
    | inr h ↦ rw h (After-of_later m xs)
  ]

  pub filter-nonempty :
      (m : ℤ) (xs : List T) (n : ℕ) (p : T)
      → at p ≤ℤ m
      → get_elem? xs n ≡ some p
      → 0 < length (filter (up_to m) xs)
  filter-nonempty m [] n p h g = absurd (ground arith)
  filter-nonempty m (x ∷ xs) zero p h g = ground arith
  filter-nonempty m (x ∷ xs) (suc n) p h g = ground (arith, filter-nonempty m xs n p h g)

  pub After-up_to : (c m : ℤ) (xs : List T) → After c xs → 0 < length (filter (up_to m) xs) → c <ℤ m
  After-up_to c m [] a h = absurd (omega (arith, h))
  After-up_to c m (x ∷ xs) a h = elim (Bool-cases (up_to m x)) [
    | inl e ↦ omega (arith, a.0, leb→le _ _ e)
    | inr e ↦ After-up_to c m xs a.1 (ground (arith, h))
  ]
