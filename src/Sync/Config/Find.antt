-- ===== src/Sync/Config/Find.antt =====
-- What `find` finds (the queries of src/routes/sync/config.rs), in terms of the rows that are there.
use teddy_fyi_api_rust.Prelude.{
  ◌≡◌, refl, sym, ap, ◌∙◌, subst, Bool, true, false, ◌⊎◌, inl, inr, none, some, List, [], ◌∷◌, map,
  arith, Bool-cases, Option-cases, if◌then◌else◌,
}
use teddy_fyi_api_rust.Prelude.Membership.{IsIn, IsIn-map, map-IsIn}
use teddy_fyi_api_rust.Sync.Paging.Fetch.{ConfigRow}
use teddy_fyi_api_rust.Sync.Config.Statements.{find, change_where}

-- No two rows meet the condition.
abbrev pub AtMostOne : (ConfigRow → Bool) → List ConfigRow → Type 0
AtMostOne p rows = (r s : ConfigRow) → IsIn r rows → IsIn s rows → p r ≡ true → p s ≡ true → r ≡ s

-- Of the rows that meet the condition, both lists hold the same.
abbrev pub SameWhere : (ConfigRow → Bool) → List ConfigRow → List ConfigRow → Type 0
SameWhere p rows rows' =
    (r : ConfigRow) → p r ≡ true → (IsIn r rows → IsIn r rows') × (IsIn r rows' → IsIn r rows)

module _ (p : ConfigRow → Bool) where
  pub find-some :
      (rows : List ConfigRow) (r : ConfigRow) → find p rows ≡ some r → IsIn r rows × (p r ≡ true)
  unfolding find
  find-some [] r e = cc
  find-some (x ∷ rows) r e = elim (Bool-cases (p x)) [
    | inl h ↦ (inl (ground arith), ground arith)
    | inr h ↦ let (m, q) = find-some rows r (ground arith) in (inr m, q)
  ]

  pub find-none :
      (rows : List ConfigRow) (r : ConfigRow) → find p rows ≡ none → IsIn r rows → p r ≡ false
  unfolding find
  find-none [] r e h = absurd h
  find-none (x ∷ rows) r e (inl h) = ground arith
  find-none (x ∷ rows) r e (inr h) = ground (arith, find-none rows r)

  pub find-IsIn :
      (rows : List ConfigRow) (r : ConfigRow)
      → AtMostOne p rows
      → IsIn r rows
      → p r ≡ true
      → find p rows ≡ some r
  find-IsIn rows r one m h = elim (Option-cases (find p rows)) [
    | inl e ↦ absurd (ground (arith, find-none rows r e m))
    | inr (s, e) ↦ let (n, q) = find-some rows s e in ground (arith, one r s m n h q)
  ]

  pub find-not-IsIn :
      (rows : List ConfigRow) → ((r : ConfigRow) → IsIn r rows → p r ≡ false) → find p rows ≡ none
  unfolding find
  find-not-IsIn [] h = refl
  find-not-IsIn (x ∷ rows) h = rw (h x (inl refl)) (find-not-IsIn rows (λ r m. h r (inr m)))

  pub find-SameWhere :
      (rows rows' : List ConfigRow)
      → AtMostOne p rows'
      → SameWhere p rows rows'
      → find p rows ≡ find p rows'
  find-SameWhere rows rows' one same = elim (Option-cases (find p rows)) [
    | inl e ↦
        rw
          (
            e,
            find-not-IsIn rows' (λ r m. elim (Bool-cases (p r)) [
              | inl h ↦ absurd (ground (arith, find-none rows r e ((same r h).1 m)))
              | inr h ↦ h
            ]),
          )
          refl
    | inr (s, e) ↦
        let (m, h) = find-some rows s e in rw (e, find-IsIn rows' s one ((same s h).0 m) h) refl
  ]

module _ (p : ConfigRow → Bool) (f : ConfigRow → ConfigRow) where
  -- A row after an update is one that the update passed over, or one that it made.
  pub IsIn-change_where :
      (r : ConfigRow) (rows : List ConfigRow)
      → IsIn r (map (change_where p f) rows)
      → (IsIn r rows × (p r ≡ false)) ⊎ ((s : ConfigRow) × IsIn s rows × (p s ≡ true) × (r ≡ f s))
  IsIn-change_where r rows h =
      let (s, m, e) = IsIn-map (change_where p f) r rows h in made (p s) s m refl e
    where
      made :
          (b : Bool) (s : ConfigRow)
          → IsIn s rows
          → p s ≡ b
          → r ≡ (if b then f s else s)
          → (IsIn r rows × (p r ≡ false))
            ⊎ ((s : ConfigRow) × IsIn s rows × (p s ≡ true) × (r ≡ f s))
      made true s m q e = inr (s, m, q, e)
      made false s m q e = inl (subst (λ x. IsIn x rows) (sym e) m, ap p e ∙ q)

  pub change_where-IsIn :
      (r : ConfigRow) (rows : List ConfigRow)
      → IsIn r rows
      → p r ≡ false
      → IsIn r (map (change_where p f) rows)
  change_where-IsIn r rows m n =
      subst (λ x. IsIn x (map (change_where p f) rows)) (rw n refl)
        (map-IsIn (change_where p f) r rows m)
