-- ===== src/Sync/Paging/Download.antt =====
-- A client that downloads its configs page by page: it keeps the cursor of each reply and asks again
-- from there (src/routes/sync/paging.rs, and `fetch_config_download` of src/routes/sync/config.rs).
use mathlib.Core.List.{map-append}
use teddy_fyi_api_rust.Prelude.{
  ℕ, zero, suc, ◌≤◌, ◌<◌, ◌≡◌, refl, sym, ap, subst, ◌∙◌, false, ◌&&◌, Option, none, some, List,
  ◌++◌, map, arith, length, take, filter, take-all, length-append, length-filter-le, filter-ext,
  filter-filter,
}
use teddy_fyi_api_rust.Prelude.Int.{ℤ, pos, ◌≤ℤ◌, ◌<ℤ◌, ◌-ℤ◌, -ℤ_parts}
use teddy_fyi_api_rust.Sync.Types.{ConfigSyncItem}
use teddy_fyi_api_rust.Sync.Paging.{
  Page, complete, truncated, whole_millisecond, trim_page, trim_size, probe_limit, max_i64,
}
use teddy_fyi_api_rust.Sync.Paging.Cut.{
  From, After, Ordered, up_to, later, After-weaken, filter-After, filter-Ordered, split_at,
  After-of_later, filter-nonempty, After-up_to,
}
use teddy_fyi_api_rust.Sync.Paging.Trim.{Trimmed, trim_page-Trimmed}
use teddy_fyi_api_rust.Sync.Paging.Resumed.{late_not_initial}
use teddy_fyi_api_rust.Sync.Paging.Fetch.{
  ConfigRow, Reader, visible, in_window, fetch_config_page, cursor_ms, download_page, download_rows,
  sync_item, fetch_config_download,
}

abbrev pub at : ConfigRow → ℤ
at row = row.last_modified

-- The items of all the pages that the client asks for, where `fuel` pages are enough.
unfoldable pub download_all : ℕ → Reader → List ConfigRow → ℕ → ℤ → Option (List ConfigSyncItem)
unfolding fetch_config_download
download_all zero who table page_size cursor = none
download_all (suc fuel) who table page_size cursor =
    let reply = fetch_config_download who table (some cursor) (some page_size) in
    elim reply.next_cursor_ms [
      | none ↦ some reply.items
      | some ms ↦ elim (download_all fuel who table page_size ms) [
        | none ↦ none
        | some items ↦ some (reply.items ++ items)
      ]
    ]

-- What the account holds for this client past a cursor.
unfoldable pub remaining : Reader → List ConfigRow → ℤ → List ConfigRow
remaining who table cursor =
    filter (λ row. visible who false row && in_window cursor none row) table

module _ (who : Reader) (table : List ConfigRow) (o : Ordered at table) where
  remaining-later :
      (c : ℤ) → remaining who table c ≡ filter (later at c) (filter (visible who false) table)
  unfolding remaining in_window
  remaining-later c =
      filter-ext _ _ table (λ row. ground arith)
      ∙ sym (filter-filter (later at c) (visible who false) table)

  remaining-Ordered : (c : ℤ) → Ordered at (remaining who table c)
  unfolding remaining
  remaining-Ordered c = filter-Ordered at _ table o

  -- Past a later cursor is what comes later of what is past this one.
  remaining-remaining :
      (c m : ℤ) → c ≤ℤ m → filter (later at m) (remaining who table c) ≡ remaining who table m
  remaining-remaining c m h =
      rw (remaining-later c, remaining-later m)
        (filter-filter (later at m) (later at c) _
          ∙ filter-ext (λ x. later at c x && later at m x) (later at m) _ (λ row. ground arith))

  whole_window :
      (c m : ℤ)
      → c <ℤ m
      → From at m (remaining who table c)
      → filter (λ row. visible who false row && in_window (m -ℤ pos 1) (some m) row) table
        ≡ filter (up_to at m) (remaining who table c)
  unfolding in_window
  whole_window c m h from =
      let before = m -ℤ pos 1 in
      let same =
        sym (remaining-remaining c before (omega (arith, h, -ℤ_parts m (pos 1))))
        ∙ (filter-After at before (remaining who table c) (
            After-weaken at m before (remaining who table c) (omega (arith, -ℤ_parts m (pos 1)))
              from)).0 in
      sym (
        ap (filter (up_to at m)) (sym same)
        ∙ unfold remaining in
          filter-filter (up_to at m) _ table
          ∙ filter-ext
              (λ row. (visible who false row && in_window before none row) && up_to at m row)
              (λ row. visible who false row && in_window before (some m) row) table
              (λ row. ground arith))

  -- The page that is one millisecond, read whole.
  whole_page :
      (c m : ℤ) (limit : ℕ)
      → c <ℤ m
      → From at m (remaining who table c)
      → length table ≤ limit
      → fetch_config_page who table (m -ℤ pos 1) (some m) false limit
        ≡ filter (up_to at m) (remaining who table c)
  unfolding fetch_config_page
  whole_page c m limit h from small =
      take-all limit _ (
        omega (
          arith,
          small,
          length-filter-le (λ row. visible who false row && in_window (m -ℤ pos 1) (some m) row)
              table,
        ))
      ∙ whole_window c m h from

  -- What one reply holds: everything, or all that is past its cursor up to the next one.
  abbrev Paged : ℤ → List ConfigRow × Option ℤ → Type 0
  Paged c (rows, none) = rows ≡ remaining who table c
  Paged c (rows, some m) =
      (c <ℤ m) × (rows ≡ filter (up_to at m) (remaining who table c)) × (0 < length rows)

  remaining-After : (c : ℤ) → After at c (remaining who table c)
  remaining-After c = subst (After at c) (sym (remaining-later c)) (After-of_later at c _)

  probe_limit-some : (n : ℕ) → n < max_i64 → probe_limit (some n) ≡ suc n
  unfolding probe_limit
  probe_limit-some n h = ground arith

  reply_Paged :
      (c : ℤ) (n : ℕ) (trimmed : List ConfigRow × Page)
      → length table ≤ max_i64
      → Trimmed at (remaining who table c) n trimmed
      → Paged c (elim (trimmed.1) [
        | complete ↦ (trimmed.0, none)
        | truncated ms ↦ (trimmed.0, some ms)
        | whole_millisecond ms ↦
            (fetch_config_page who table (ms -ℤ pos 1) (some ms) false max_i64, some ms)
      ])
  reply_Paged c n (rows, complete) small h = h.0
  reply_Paged c n (rows, truncated m) small h =
      (After-up_to at c m _ (remaining-After c) (subst (λ z. 0 < length z) h.0 h.1), h.0, h.1)
  reply_Paged c n (rows, whole_millisecond m) small (p, e, g, from) =
      let some_of = filter-nonempty at m (remaining who table c) n p (ground arith) g in
      let forward = After-up_to at c m (remaining who table c) (remaining-After c) some_of in
      let page = whole_page c m max_i64 forward from small in
      (forward, page, subst (λ z. 0 < length z) (sym page) some_of)

  probe-remaining :
      (c : ℤ) (n : ℕ) → fetch_config_page who table c none false n ≡ take n (remaining who table c)
  unfolding fetch_config_page remaining
  probe-remaining c n = refl

  download_rows-Paged :
      (c : ℤ) (n : ℕ)
      → pos 1000 ≤ℤ c
      → n < max_i64
      → length table ≤ max_i64
      → Paged c (download_rows who table (some c) (some n))
  unfolding download_rows cursor_ms trim_size trim_page remaining
  download_rows-Paged c n late h small =
      subst (λ b. Paged c (download_page who table c b (probe_limit (some n)) n))
        (sym (late_not_initial c late))
        (subst (λ l. Paged c (download_page who table c false l n)) (sym (probe_limit-some n h))
          (unfold download_page in
            reply_Paged c n _ small
              (trim_page-Trimmed at (remaining who table c) n (remaining-Ordered c))))

  pages_left :
      (c m : ℤ) (rows : List ConfigRow)
      → Paged c (rows, some m)
      → (remaining who table c ≡ rows ++ remaining who table m)
        × (length (remaining who table m) < length (remaining who table c))
  pages_left c m rows (h, page, some_of) =
      let whole =
        split_at at m (remaining who table c) (remaining-Ordered c)
        ∙ ap (λ z. z ++ filter (later at m) (remaining who table c)) (sym page)
        ∙ ap (λ z. rows ++ z) (remaining-remaining c m (omega (arith, h))) in
      (whole, omega (arith, some_of, ap length whole, length-append rows (remaining who table m)))

  -- One reply, and what the client makes of it.
  abbrev with_reply : ℕ → ℕ → List ConfigRow × Option ℤ → Option (List ConfigSyncItem)
  with_reply fuel n (rows, none) = some (map sync_item rows)
  with_reply fuel n (rows, some ms) = elim (download_all fuel who table n ms) [
    | none ↦ none
    | some items ↦ some (map sync_item rows ++ items)
  ]

  download_all-step :
      (fuel n : ℕ) (c : ℤ)
      → download_all (suc fuel) who table n c
        ≡ with_reply fuel n (download_rows who table (some c) (some n))
  unfolding download_all fetch_config_download
  download_all-step fuel n c = refl

  after_reply :
      (fuel : ℕ) (c : ℤ) (n : ℕ) (reply : List ConfigRow × Option ℤ)
      → ((m : ℤ)
          → c <ℤ m
          → length (remaining who table m) < length (remaining who table c)
          → download_all fuel who table n m ≡ some (map sync_item (remaining who table m)))
      → Paged c reply
      → with_reply fuel n reply ≡ some (map sync_item (remaining who table c))
  after_reply fuel c n (rows, none) later_pages page = ap (λ z. some (map sync_item z)) page
  after_reply fuel c n (rows, some m) later_pages page =
      let (whole, fewer) = pages_left c m rows page in
      rw (later_pages m page.0 fewer, with_reply)
        (ap some (
          sym (map-append sync_item rows (remaining who table m)) ∙ ap (map sync_item) (sym whole)))

  -- Over a table of at most 2^63 - 1 rows in the order of their milliseconds, a download page by
  -- page, with any page size below 2^63 - 1 and from a cursor past the epoch's first second, ends
  -- within one page more than there are rows left for the client past that cursor, and hands over
  -- each of them, once and in order.
  pub download_all_complete :
      (fuel : ℕ) (c : ℤ) (n : ℕ)
      → pos 1000 ≤ℤ c
      → n < max_i64
      → length table ≤ max_i64
      → length (remaining who table c) < fuel
      → download_all fuel who table n c ≡ some (map sync_item (remaining who table c))
  download_all_complete zero c n late h small enough = absurd (omega (arith, enough))
  download_all_complete (suc fuel) c n late h small enough =
      download_all-step fuel n c
      ∙ after_reply fuel c n (download_rows who table (some c) (some n))
          (λ m h' fewer.
            download_all_complete fuel m n (omega (arith, late, h')) h small
              (omega (arith, enough, fewer)))
          (download_rows-Paged c n late h small)
