-- ===== src/Sync/Paging/Resumed.antt =====
-- What a download that is resumed leaves out (src/routes/sync/config.rs: `fetch_config_download`).
use teddy_fyi_api_rust.Prelude.{
  ℕ, zero, suc, ◌≡◌, sym, subst, String, false, ◌&&◌, Option, none, some, List, [], ◌∷◌, str_eq,
  arith, take, filter, Bool-cases, inl, inr, get_elem?, Option-cases,
}
use teddy_fyi_api_rust.Prelude.Int.{ℤ, pos, ◌≤ℤ◌, ◌-ℤ◌}
use teddy_fyi_api_rust.Sync.Paging.{
  Page, complete, truncated, whole_millisecond, trim_page, pop_from, probe_limit, trim_size,
  max_i64,
}
use teddy_fyi_api_rust.Sync.Paging.Fetch.{
  ConfigRow, Reader, visible, in_window, fetch_config_page, is_initial, cursor_ms, download_page,
  download_rows,
}

-- None of the rows was last written by this client.
abbrev pub NotBy : String → List ConfigRow → Type 0
NotBy client [] = Unit {0}
NotBy client (row ∷ rows) = (str_eq row.client_uuid client ≡ false) × NotBy client rows

NotBy-take :
    (client : String) (n : ℕ) (rows : List ConfigRow)
    → NotBy client rows
    → NotBy client (take n rows)
NotBy-take client zero rows a = tt
NotBy-take client (suc n) [] a = tt
NotBy-take client (suc n) (row ∷ rows) a = (a.0, NotBy-take client n rows a.1)

NotBy-pop_from :
    (client : String) (at : ConfigRow → ℤ) (b : ℤ) (rows : List ConfigRow)
    → NotBy client rows
    → NotBy client (pop_from at b rows)
unfolding pop_from
NotBy-pop_from client at b [] a = tt
NotBy-pop_from client at b (row ∷ rows) a =
    let ih = NotBy-pop_from client at b rows a.1 in ground (arith, a.0, ih)

NotBy-visible :
    (who : Reader) (c : ℤ) (through : Option ℤ) (rows : List ConfigRow)
    → NotBy who.client_id (filter (λ row. visible who false row && in_window c through row) rows)
unfolding visible
NotBy-visible who c through [] = tt
NotBy-visible who c through (row ∷ rows) =
    let ih = NotBy-visible who c through rows in
    elim (Bool-cases (visible who false row && in_window c through row)) [
      | inl e ↦ rw e (ground arith, ih)
      | inr e ↦ rw e ih
    ]

NotBy-fetch :
    (who : Reader) (table : List ConfigRow) (c : ℤ) (through : Option ℤ) (limit : ℕ)
    → NotBy who.client_id (fetch_config_page who table c through false limit)
unfolding fetch_config_page
NotBy-fetch who table c through limit =
    NotBy-take who.client_id limit _ (NotBy-visible who c through table)

NotBy-trim_page :
    (client : String) (at : ConfigRow → ℤ) (rows : List ConfigRow) (n : ℕ)
    → NotBy client rows
    → NotBy client (trim_page at rows n).0
unfolding trim_page
NotBy-trim_page client at rows n a = elim (Option-cases (get_elem? rows n)) [
  | inl e ↦ ground (arith, a)
  | inr (p, e) ↦
      ground (arith, a, NotBy-pop_from client at (at p) (take n rows) (NotBy-take client n rows a))
]

NotBy-reply :
    (who : Reader) (table : List ConfigRow) (trimmed : List ConfigRow × Page)
    → NotBy who.client_id trimmed.0
    → NotBy who.client_id
        (elim (trimmed.1) as (λ x. List ConfigRow × Option ℤ) [
          | complete ↦ (trimmed.0, none)
          | truncated ms ↦ (trimmed.0, some ms)
          | whole_millisecond ms ↦
              (fetch_config_page who table (ms -ℤ pos 1) (some ms) false max_i64, some ms)
        ]).0
NotBy-reply who table (rows, complete) a = a
NotBy-reply who table (rows, truncated m) a = a
NotBy-reply who table (rows, whole_millisecond m) a =
    NotBy-fetch who table (m -ℤ pos 1) (some m) max_i64

NotBy-download_page :
    (who : Reader) (table : List ConfigRow) (c : ℤ) (limit size : ℕ)
    → NotBy who.client_id (download_page who table c false limit size).0
unfolding download_page trim_page
NotBy-download_page who table c limit size = NotBy-reply who table _ (
    NotBy-trim_page who.client_id (λ row. row.last_modified) _ size
      (NotBy-fetch who table c none limit))

pub late_not_initial : (c : ℤ) → pos 1000 ≤ℤ c → is_initial (some c) ≡ false
unfolding is_initial
late_not_initial c h = ground arith

-- A page that is asked for with a cursor past the epoch's first second, as every page after the first
-- is, holds none of the rows that the client itself wrote last, whatever its size: what the first
-- page of an initial sync did not carry of them is not handed over.
pub resumed-NotBy :
    (who : Reader) (table : List ConfigRow) (c : ℤ) (page_size : Option ℕ)
    → pos 1000 ≤ℤ c
    → NotBy who.client_id (download_rows who table (some c) page_size).0
unfolding download_rows cursor_ms
resumed-NotBy who table c page_size h =
    subst
      (λ b.
        NotBy who.client_id
          (download_page who table c b (probe_limit page_size) (trim_size page_size)).0)
      (sym (late_not_initial c h))
      (NotBy-download_page who table c (probe_limit page_size) (trim_size page_size))
