-- ===== src/Sync/Paging/Fetch.antt =====
-- `fetch_config_download` and `fetch_config_page` (src/routes/sync/config.rs): one page of the configs
-- that changed since the client's cursor. The table is the list of its rows in the order of the query,
-- by `last_modified` and then by id.
use teddy_fyi_api_rust.Prelude.{
  ℕ, String, Bool, true, false, not, ◌&&◌, ◌||◌, Option, none, some, List, map, str_eq, filter,
  take,
}
use teddy_fyi_api_rust.Prelude.Int.{ℤ, pos, ◌-ℤ◌, leb_ℤ, ltb_ℤ}
use teddy_fyi_api_rust.Sync.Types.{ConfigSyncItem, OperationType, update, delete}
use teddy_fyi_api_rust.Sync.Paging.{
  complete, truncated, whole_millisecond, probe_limit, trim_size, trim_page, max_i64,
}

pub record ConfigRow : Type 0 where
  pub id : String
  pub user_id : String
  pub device_uuid : String
  pub client_uuid : String
  pub version : ℤ
  pub is_deleted : Bool
  pub last_modified : ℤ
  pub sync_state : Option String
  pub key : String
  pub value : String

-- The delta of a row, with `ConfigData` as the row it is made of.
pub record ConfigChangeDelta : Type 0 where
  pub id : String
  pub operation_type : OperationType
  pub version : ℤ
  pub device_uuid : Option String
  pub payload : ConfigRow

pub record ConfigDownload : Type 0 where
  pub remote_changes : List ConfigChangeDelta
  pub items : List ConfigSyncItem
  pub next_cursor_ms : Option ℤ

abbrev pub state_of : ConfigRow → String
state_of row = elim row.sync_state [ none ↦ "SYNCED" | some s ↦ s ]

unfoldable pub sync_item : ConfigRow → ConfigSyncItem
sync_item row = record {
  id = row.id;
  device_uuid = some row.device_uuid;
  key = row.key;
  value = row.value;
  sync_state = state_of row;
  version = row.version;
  is_deleted = row.is_deleted;
  last_modified = row.last_modified;
}

unfoldable pub change_delta : ConfigRow → ConfigChangeDelta
change_delta row = record {
  id = row.id;
  operation_type = elim row.is_deleted [ true ↦ delete | false ↦ update ];
  version = row.version;
  device_uuid = some row.device_uuid;
  payload = record row { sync_state = some (state_of row) };
}

-- The account, the client that asks, and the device it asks about, if it names one.
pub record Reader : Type 0 where
  pub user_id : String
  pub client_id : String
  pub device_filter : Option String

-- `user_id = $1 AND ($4 OR client_uuid != $3) AND ($5 IS NULL OR device_uuid = $5)`
unfoldable pub visible : Reader → Bool → ConfigRow → Bool
visible who is_initial_sync row =
    str_eq row.user_id who.user_id
    && (is_initial_sync || not (str_eq row.client_uuid who.client_id))
    && elim who.device_filter [ none ↦ true | some device ↦ str_eq row.device_uuid device ]

-- `last_modified > $2 AND ($6 IS NULL OR last_modified <= $6)`
unfoldable pub in_window : ℤ → Option ℤ → ConfigRow → Bool
in_window after_ms through_ms row =
    ltb_ℤ after_ms row.last_modified
    && elim through_ms [ none ↦ true | some ms ↦ leb_ℤ row.last_modified ms ]

unfoldable pub fetch_config_page :
    Reader → List ConfigRow → ℤ → Option ℤ → Bool → ℕ → List ConfigRow
fetch_config_page who table after_ms through_ms is_initial_sync limit =
    take limit
      (filter (λ row. visible who is_initial_sync row && in_window after_ms through_ms row) table)

-- Absent, or within the first second of the epoch.
unfoldable pub is_initial : Option ℤ → Bool
is_initial none = true
is_initial (some ms) = ltb_ℤ ms (pos 1000)

unfoldable pub cursor_ms : Option ℤ → ℤ
cursor_ms none = pos 0
cursor_ms (some ms) = ms

-- The rows of the page, and the next cursor where the page was cut short.
unfoldable pub download_page :
    Reader → List ConfigRow → ℤ → Bool → ℕ → ℕ → List ConfigRow × Option ℤ
unfolding fetch_config_page ◌-ℤ◌
download_page who table after_ms is_initial_sync limit size =
    let probe = fetch_config_page who table after_ms none is_initial_sync limit in
    let (rows, page) = trim_page (λ row. row.last_modified) probe size in
    elim page [
      | complete ↦ (rows, none)
      | truncated ms ↦ (rows, some ms)
      | whole_millisecond ms ↦
          (fetch_config_page who table (ms -ℤ pos 1) (some ms) is_initial_sync max_i64, some ms)
    ]

unfoldable pub download_rows :
    Reader → List ConfigRow → Option ℤ → Option ℕ → List ConfigRow × Option ℤ
unfolding download_page is_initial cursor_ms
download_rows who table last_synced_at page_size =
    download_page who table (cursor_ms last_synced_at) (is_initial last_synced_at)
      (probe_limit page_size) (trim_size page_size)

-- An initial sync leaves deleted rows out of `remote_changes`, and not out of `items`.
unfoldable pub fetch_config_download :
    Reader → List ConfigRow → Option ℤ → Option ℕ → ConfigDownload
unfolding download_rows sync_item change_delta
fetch_config_download who table last_synced_at page_size =
    let (rows, next_cursor_ms) = download_rows who table last_synced_at page_size in
    record {
      remote_changes =
          map change_delta (filter (λ row. not (is_initial last_synced_at && row.is_deleted)) rows);
      items = map sync_item rows;
      next_cursor_ms = next_cursor_ms;
    }
