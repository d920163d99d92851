-- ===== src/Tests/Paging.antt =====
-- src/routes/sync/paging.rs and the config download at concrete inputs.
use teddy_fyi_api_rust.Prelude.{ℕ, ◌≡◌, String, false, none, some, List, [], ◌∷◌, map, arith, take}
use teddy_fyi_api_rust.Prelude.Int.{pos}
use teddy_fyi_api_rust.Sync.Paging.{trim_page}
use teddy_fyi_api_rust.Sync.Paging.Cut.{Ordered}
use teddy_fyi_api_rust.Sync.Paging.Trim.{Trimmed, trim_page-Trimmed}
use teddy_fyi_api_rust.Sync.Paging.Fetch.{
  ConfigRow, Reader, sync_item, download_rows, visible, in_window,
}
use teddy_fyi_api_rust.Sync.Paging.Resumed.{NotBy, resumed-NotBy}
use teddy_fyi_api_rust.Sync.Paging.Download.{at, download_all, remaining, download_all_complete}

abbrev config : String → String → ℕ → ConfigRow
config id client ms = record {
  id = id;
  user_id = "ada";
  device_uuid = "d1";
  client_uuid = client;
  version = pos 1;
  is_deleted = false;
  last_modified = pos ms;
  sync_state = none;
  key = "theme";
  value = "dark";
}

abbrev reader : Reader
reader = record { user_id = "ada"; client_id = "phone"; device_filter = none }

-- Three rows share a millisecond, and one is the reader's own.
abbrev configs : List ConfigRow
configs =
    config "1" "tablet" 2000
    ∷ config "2" "tablet" 3000
    ∷ config "3" "tablet" 3000
    ∷ config "4" "tablet" 3000
    ∷ config "5" "phone" 4000
    ∷ config "6" "tablet" 5000
    ∷ []

ordered : Ordered at configs
ordered = ground arith

download_all_complete_example :
    download_all 9 reader configs 2 (pos 1500)
    ≡ some (map sync_item (remaining reader configs (pos 1500)))
unfolding remaining visible in_window
download_all_complete_example =
    download_all_complete reader configs ordered 9 (pos 1500) 2 (omega arith) (omega arith)
      (omega arith) (omega arith)

trim_page-Trimmed_example : Trimmed at configs 2 (trim_page at (take 3 configs) 2)
trim_page-Trimmed_example = trim_page-Trimmed at configs 2 ordered

-- The phone's own row is left out, though nothing was downloaded before.
resumed-NotBy_example : NotBy "phone" (download_rows reader configs (some (pos 3500)) (some 2)).0
resumed-NotBy_example = resumed-NotBy reader configs (pos 3500) (some 2) (omega arith)
