-- ===== src/Sync/Paging.antt =====
-- src/routes/sync/paging.rs: where one page of a download ends. Times are `i64` milliseconds, kept as
-- integers; a `usize` and a `LIMIT` are numbers.
pub mod Cut
pub mod Trim
pub mod Fetch
pub mod Download
pub mod Resumed
use teddy_fyi_api_rust.Prelude.{
  ℕ, suc, ◌+◌, ◌-◌, ◌^◌, Bool, true, false, Option, none, some, List, [], ◌∷◌, leb, min,
  if◌then◌else◌, length, get_elem?, take,
}
use teddy_fyi_api_rust.Prelude.Int.{ℤ, leb_ℤ}

pub data Page : Type 0 where
  complete : Page
  -- the client's next cursor
  truncated : ℤ → Page
  -- more than a page of rows share this one millisecond
  whole_millisecond : ℤ → Page

abbrev pub max_usize : ℕ
max_usize = 2 ^ 64 - 1

abbrev pub max_i64 : ℕ
max_i64 = 2 ^ 63 - 1

-- `usize::saturating_add(1)`, and the cast to `i64` of what `min` leaves.
unfoldable pub probe_limit : Option ℕ → ℕ
probe_limit none = max_i64
probe_limit (some n) = min (min (n + 1) max_usize) max_i64

unfoldable pub trim_size : Option ℕ → ℕ
trim_size none = max_usize
trim_size (some n) = n

unfoldable pub last : {T : Type 0} → List T → Option T
last [] = none
last (row ∷ []) = some row
last (_ ∷ row ∷ rows) = last (row ∷ rows)

module _ {T : Type 0} (last_modified : T → ℤ) where
  -- `while rows.last() is at or past the boundary { rows.pop() }`: the longest tail of such rows.
  unfoldable pub pop_from : ℤ → List T → List T
  pop_from boundary [] = []
  pop_from boundary (row ∷ rows) =
      let rest = pop_from boundary rows in
      elim rest [
        | [] ↦ if leb_ℤ boundary (last_modified row) then [] else row ∷ []
        | kept ∷ more ↦ row ∷ kept ∷ more
      ]

  -- The rows that are kept, and what the page is. `rows[page_size]` is there when the rows are more
  -- than a page.
  unfoldable pub trim_page : List T → ℕ → List T × Page
  unfolding pop_from last
  trim_page rows page_size =
      if leb (length rows) page_size then (rows, complete) else elim (get_elem? rows page_size) [
        | none ↦ (rows, complete)
        | some probe ↦
            let boundary = last_modified probe in
            let kept = pop_from boundary (take page_size rows) in
            (
              kept,
              elim (last kept) [
                | some row ↦ truncated (last_modified row)
                | none ↦ whole_millisecond boundary
              ],
            )
      ]
