-- ===== src/Sync/Config/Answers.antt =====
-- What the prefetch (src/routes/sync/config.rs) answers for a lookup that it was loaded for is what a
-- statement on the table it was read from answers.
use teddy_fyi_api_rust.Prelude.{
  ◌≡◌, refl, sym, String, Bool, true, ◌&&◌, inl, inr, List, arith, Bool-cases, Option-cases, str_eq,
  str_eq_iff,
}
use teddy_fyi_api_rust.Prelude.Membership.{IsIn}
use teddy_fyi_api_rust.Sync.Paging.Fetch.{ConfigRow}
use teddy_fyi_api_rust.Sync.Config.Statements.{find, has_id, has_owned_id, has_key}
use teddy_fyi_api_rust.Sync.Config.Find.{AtMostOne, find-some, find-none, find-IsIn, find-not-IsIn}
use teddy_fyi_api_rust.Sync.Config.Batch.{ConfigBatch, has, id_at, keep_if}
use teddy_fyi_api_rust.Sync.Config.Loaded.{IsKeyed, Prefetched, at_place}
use teddy_fyi_api_rust.Sync.Config.Resolve.{row_of}

module _ {user : String} {rows : List ConfigRow} {batch : ConfigBatch} (keyed : IsKeyed rows)
    (pre : Prefetched user rows batch) where
  -- A row that is held is the one the table has under its id.
  by_id-IsIn :
      (r s : ConfigRow) → IsIn r batch.by_id → IsIn s rows → str_eq s.id r.id ≡ true → r ≡ s
  by_id-IsIn r s m n e =
      keyed.one_id r.id r s (pre.sound r m).0 n (ground (arith, str_eq_iff r.id r.id)) e

  by_id-AtMostOne : (p : ConfigRow → Bool) → AtMostOne p rows → AtMostOne p batch.by_id
  by_id-AtMostOne p one r s m n = one r s (pre.sound r m).0 (pre.sound s n).0

  pub find-by_id :
      (q : ConfigRow → Bool) (id : String)
      → has batch.prefetched_ids id ≡ true
      → keep_if (λ row. str_eq row.user_id user && q row) (find (has_id id) batch.by_id)
        ≡ find (λ row. has_owned_id user id row && q row) rows
  find-by_id q id h = elim (Option-cases (find (λ row. has_owned_id user id row && q row) rows)) [
    | inl e ↦ elim (Option-cases (find (has_id id) batch.by_id)) [
      | inl d ↦ rw (d, e) refl
      | inr (r, d) ↦
          let (m, i) = find-some (has_id id) batch.by_id r d in
          let (n, o) = pre.sound r m in
          let f = find-none (λ row. has_owned_id user id row && q row) rows r e n in
          rw (d, e) (ground (arith, f, i, o))
    ]
    | inr (s, e) ↦
        let (n, c) = find-some (λ row. has_owned_id user id row && q row) rows s e in
        let i : str_eq s.id id ≡ true = ground (arith, c) in
        let m = pre.by_ids s n (ground (arith, c)) (ground (arith, str_eq_iff s.id id, i, h)) in
        let d =
          find-IsIn (has_id id) batch.by_id s (by_id-AtMostOne (has_id id) (keyed.one_id id)) m i in
        rw (d, e) (ground (arith, c))
  ]

  pub row_of-by_key :
      (device key : String)
      → has batch.prefetched_keys key ≡ true
      → row_of (id_at batch.by_key (device, key)) batch.by_id ≡ find (has_key user device key) rows
  row_of-by_key device key h = elim (Option-cases (find (at_place (device, key)) batch.by_id)) [
    | inl e ↦
        rw (pre.mirrors (device, key), e)
          (sym (
            find-not-IsIn (has_key user device key) rows (λ r n.
              elim (Bool-cases (has_key user device key r)) [
                | inl c ↦
                    let m =
                      pre.by_keys r n (ground (arith, c))
                        (ground (arith, str_eq_iff r.key key, c, h)) in
                    absurd (ground (arith, c, find-none (at_place (device, key)) batch.by_id r e m))
                | inr c ↦ c
              ])))
    | inr (r, e) ↦
        let (m, c) = find-some (at_place (device, key)) batch.by_id r e in
        let (n, o) = pre.sound r m in
        let d =
          find-IsIn (has_id r.id) batch.by_id r (by_id-AtMostOne (has_id r.id) (keyed.one_id r.id))
            m (ground (arith, str_eq_iff r.id r.id)) in
        let f =
          find-IsIn (has_key user device key) rows r (keyed.one_key user device key) n
            (ground (arith, c, o)) in
        rw (pre.mirrors (device, key), e, d, f) refl
  ]
