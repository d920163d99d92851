-- ===== src/Prelude/Membership.antt =====
-- Membership in a list with the place kept, which the library's truncates.
use mathlib.Core.Path.{◌≡◌, refl, sym, ap, ◌∙◌}
use mathlib.Core.Logic.{◌⊎◌, inl, inr}
use mathlib.Core.Bool.{Bool, true, false}
use mathlib.Core.List.{List, [], ◌∷◌, ◌++◌, map}
use teddy_fyi_api_rust.Prelude.Tests.{Bool-cases, if◌then◌else◌}
use teddy_fyi_api_rust.Prelude.Lists.{filter}

module _ {A : Type 0} where
  abbrev pub IsIn : A → List A → Type 0
  IsIn a [] = ⊥
  IsIn a (x ∷ xs) = (a ≡ x) ⊎ IsIn a xs

  pub IsIn-append : (a : A) (xs ys : List A) → IsIn a (xs ++ ys) → IsIn a xs ⊎ IsIn a ys
  IsIn-append a [] ys h = inr h
  IsIn-append a (x ∷ xs) ys (inl e) = inl (inl e)
  IsIn-append a (x ∷ xs) ys (inr h) = elim (IsIn-append a xs ys h) [
    | inl p ↦ inl (inr p)
    | inr q ↦ inr q
  ]

  pub append-IsIn_left : (a : A) (xs ys : List A) → IsIn a xs → IsIn a (xs ++ ys)
  append-IsIn_left a [] ys h = absurd h
  append-IsIn_left a (x ∷ xs) ys (inl e) = inl e
  append-IsIn_left a (x ∷ xs) ys (inr h) = inr (append-IsIn_left a xs ys h)

  pub append-IsIn_right : (a : A) (xs ys : List A) → IsIn a ys → IsIn a (xs ++ ys)
  append-IsIn_right a [] ys h = h
  append-IsIn_right a (x ∷ xs) ys h = inr (append-IsIn_right a xs ys h)

  IsIn-if :
      (b : Bool) (a x : A) (xs : List A)
      → IsIn a (if b then x ∷ xs else xs)
      → ((a ≡ x) × (b ≡ true)) ⊎ IsIn a xs
  IsIn-if true a x xs (inl e) = inl (e, refl)
  IsIn-if true a x xs (inr h) = inr h
  IsIn-if false a x xs h = inr h

  pub IsIn-filter :
      (p : A → Bool) (a : A) (xs : List A) → IsIn a (filter p xs) → IsIn a xs × (p a ≡ true)
  IsIn-filter p a [] h = absurd h
  IsIn-filter p a (x ∷ xs) h = elim (IsIn-if (p x) a x (filter p xs) h) [
    | inl (e, q) ↦ (inl e, ap p e ∙ q)
    | inr m ↦ let r = IsIn-filter p a xs m in (inr r.0, r.1)
  ]

  pub filter-IsIn :
      (p : A → Bool) (a : A) (xs : List A) → IsIn a xs → p a ≡ true → IsIn a (filter p xs)
  filter-IsIn p a [] h e = absurd h
  filter-IsIn p a (x ∷ xs) (inl q) e = rw (ap p (sym q) ∙ e) (inl q)
  filter-IsIn p a (x ∷ xs) (inr h) e = elim (Bool-cases (p x)) [
    | inl y ↦ rw y (inr (filter-IsIn p a xs h e))
    | inr n ↦ rw n (filter-IsIn p a xs h e)
  ]

module _ {A B : Type 0} (f : A → B) where
  pub IsIn-map : (b : B) (xs : List A) → IsIn b (map f xs) → (a : A) × IsIn a xs × (b ≡ f a)
  IsIn-map b [] h = absurd h
  IsIn-map b (x ∷ xs) (inl e) = (x, inl refl, e)
  IsIn-map b (x ∷ xs) (inr h) = let (a, m, e) = IsIn-map b xs h in (a, inr m, e)

  pub map-IsIn : (a : A) (xs : List A) → IsIn a xs → IsIn (f a) (map f xs)
  map-IsIn a [] h = absurd h
  map-IsIn a (x ∷ xs) (inl e) = inl (ap f e)
  map-IsIn a (x ∷ xs) (inr h) = inr (map-IsIn a xs h)
