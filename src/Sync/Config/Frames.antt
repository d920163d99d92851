-- ===== src/Sync/Config/Frames.antt =====
-- Which rows of `configs` a statement of src/routes/sync/config.rs leaves as they are, and what keeps a
-- condition from being met twice.
use teddy_fyi_api_rust.Prelude.{
  ◌≡◌, refl, sym, ap, ◌∙◌, Bool, true, false, inl, inr, List, ◌∷◌, map, arith,
}
use teddy_fyi_api_rust.Prelude.Membership.{IsIn}
use teddy_fyi_api_rust.Sync.Paging.Fetch.{ConfigRow}
use teddy_fyi_api_rust.Sync.Config.Statements.{change_where}
use teddy_fyi_api_rust.Sync.Config.Find.{AtMostOne, SameWhere, IsIn-change_where, change_where-IsIn}

module _ (p : ConfigRow → Bool) where
  pub SameWhere-trans :
      (a b c : List ConfigRow) → SameWhere p a b → SameWhere p b c → SameWhere p a c
  SameWhere-trans a b c f g r h = (λ m. (g r h).0 ((f r h).0 m), λ m. (f r h).1 ((g r h).1 m))

  pub insert-SameWhere :
      (n : ConfigRow) (rows : List ConfigRow) → p n ≡ false → SameWhere p rows (n ∷ rows)
  insert-SameWhere n rows h r e =
      (λ m. inr m, λ m. elim m [ inl q ↦ absurd (ground arith) | inr m ↦ m ])

  pub insert-AtMostOne :
      (n : ConfigRow) (rows : List ConfigRow)
      → ((r : ConfigRow) → IsIn r rows → p n ≡ true → p r ≡ false)
      → AtMostOne p rows
      → AtMostOne p (n ∷ rows)
  insert-AtMostOne n rows h one r s (inl a) (inl b) e f = a ∙ sym b
  insert-AtMostOne n rows h one r s (inl a) (inr b) e f = absurd (ground (arith, h s b))
  insert-AtMostOne n rows h one r s (inr a) (inl b) e f = absurd (ground (arith, h r a))
  insert-AtMostOne n rows h one r s (inr a) (inr b) e f = one r s a b e f

  module _ (q : ConfigRow → Bool) (f : ConfigRow → ConfigRow) where
    pub change-SameWhere :
        (rows : List ConfigRow)
        → ((s : ConfigRow) → IsIn s rows → q s ≡ true → (p s ≡ false) × (p (f s) ≡ false))
        → SameWhere p rows (map (change_where q f) rows)
    change-SameWhere rows h r e = (
      λ m. change_where-IsIn q f r rows m (passed r m e (q r) refl),
      λ m. elim (IsIn-change_where q f r rows m) [
        | inl (n, _) ↦ n
        | inr (s, n, c, d) ↦ absurd (ground (arith, h s n c))
      ],
    )
      where
        passed : (r : ConfigRow) → IsIn r rows → p r ≡ true → (b : Bool) → q r ≡ b → q r ≡ false
        passed r m e true c = absurd (ground (arith, h r m c))
        passed r m e false c = c

    pub change-AtMostOne :
        (rows : List ConfigRow)
        → ((s r : ConfigRow)
            → IsIn s rows
            → IsIn r rows
            → q s ≡ true
            → p (f s) ≡ true
            → p r ≡ true
            → q r ≡ true)
        → AtMostOne q rows
        → AtMostOne p rows
        → AtMostOne p (map (change_where q f) rows)
    change-AtMostOne rows h oneq onep r s a b e d = elim (IsIn-change_where q f r rows a) [
      | inl (m, x) ↦ elim (IsIn-change_where q f s rows b) [
        | inl (n, y) ↦ onep r s m n e d
        | inr (v, n, y, z) ↦ absurd (ground (arith, h v r n m y (sym (ap p z) ∙ d) e))
      ]
      | inr (u, m, x, w) ↦ elim (IsIn-change_where q f s rows b) [
        | inl (n, y) ↦ absurd (ground (arith, h u s m n x (sym (ap p w) ∙ e) d))
        | inr (v, n, y, z) ↦ w ∙ (ap f (oneq u v m n x y) ∙ sym z)
      ]
    ]
