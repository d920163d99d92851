-- ===== src/Sync/Config/Pending.antt =====
-- `ConfigPending` (src/routes/sync/config.rs): the writes of one run, and the statements that issue them.
-- A statement that would break a key of the table is refused, and so is here one that names a row
-- twice, of which the database would apply either.
use teddy_fyi_api_rust.Prelude.{
  String, Bool, false, not, ◌&&◌, ◌||◌, none, some, List, [], ◌∷◌, ◌++◌, map, if◌then◌else◌,
}
use teddy_fyi_api_rust.Prelude.Int.{ℤ}
use teddy_fyi_api_rust.Errors.{Result, ok, err, database, DatabaseError, AppError, ◌>>=◌}
use teddy_fyi_api_rust.Sync.Types.{ConfigSyncItem}
use teddy_fyi_api_rust.Sync.Paging.Fetch.{ConfigRow, sync_item}
use teddy_fyi_api_rust.Sync.Config.Statements.{
  ConfigRequest, ConfigWrite, find, has_id, has_owned_id, has_device_id, has_key, insert_config,
  update_config, bump_config, delete_config,
}
use teddy_fyi_api_rust.Sync.Config.Batch.{has}
use teddy_fyi_api_rust.Sync.Config.Resolve.{is_some}

-- One entry of the `bump_*` or of the `del_*` vectors.
pub record InPlace : Type 0 where
  pub id : String
  pub version : ℤ
  pub device_uuid : String

-- The `ins_*` and `upd_*` vectors hold the id beside the columns.
pub record ConfigPending : Type 0 where
  pub ins : List (String × ConfigWrite)
  pub upd : List (String × ConfigWrite)
  pub bump : List InPlace
  pub del : List InPlace

pub record ConfigBroadcast : Type 0 where
  pub device_uuid : String
  pub item : ConfigSyncItem

abbrev pub no_writes : ConfigPending
no_writes = record { ins = []; upd = []; bump = []; del = [] }

unfoldable pub repeats : List String → Bool
unfolding has
repeats [] = false
repeats (x ∷ xs) = has xs x || repeats xs

abbrev pub refused : AppError
refused = database DatabaseError.other

module _ (req : ConfigRequest) where
  abbrev pub collides : String → ConfigWrite → ConfigRow → Bool
  collides id w row = has_id id row || has_key req.user_id w.device_uuid w.key row

  unfoldable pub issue_insert : String → ConfigWrite → List ConfigRow → Result (List ConfigRow)
  unfolding find insert_config
  issue_insert id w rows =
      if is_some (find (collides id w) rows) then err refused else ok (insert_config req id w rows)

  unfoldable pub issue_update :
      String → String → ConfigWrite → List ConfigRow → Result (List ConfigRow)
  unfolding find update_config
  issue_update id new_id w rows =
      if is_some (find (has_owned_id req.user_id id) rows)
        && is_some
            (find (λ row. not (has_owned_id req.user_id id row) && collides new_id w row) rows)
      then err refused
      else ok (update_config req id new_id w rows)

  unfoldable pub insert_all : List (String × ConfigWrite) → List ConfigRow → Result (List ConfigRow)
  unfolding issue_insert
  insert_all [] rows = ok rows
  insert_all ((id, w) ∷ ws) rows = issue_insert id w rows >>= insert_all ws

  unfoldable pub update_each :
      List (String × ConfigWrite) → List ConfigRow → Result (List ConfigRow)
  unfolding issue_update
  update_each [] rows = ok rows
  update_each ((id, w) ∷ ws) rows = issue_update id id w rows >>= update_each ws

  unfoldable pub update_all : List (String × ConfigWrite) → List ConfigRow → Result (List ConfigRow)
  unfolding update_each repeats
  update_all ws rows = if repeats (map (λ w. w.0) ws) then err refused else update_each ws rows

  unfoldable pub bump_each : List InPlace → List ConfigRow → List ConfigRow
  unfolding bump_config
  bump_each [] rows = rows
  bump_each (b ∷ bs) rows = bump_each bs (bump_config req b.id b.device_uuid b.version rows)

  unfoldable pub bump_all : List InPlace → List ConfigRow → Result (List ConfigRow)
  unfolding bump_each repeats
  bump_all bs rows = if repeats (map (λ b. b.id) bs) then err refused else ok (bump_each bs rows)

  unfoldable pub delete_each : List InPlace → List ConfigRow → List ConfigRow
  unfolding delete_config
  delete_each [] rows = rows
  delete_each (d ∷ ds) rows = delete_each ds (delete_config req d.id d.device_uuid d.version rows)

  unfoldable pub delete_all : List InPlace → List ConfigRow → Result (List ConfigRow)
  unfolding delete_each repeats
  delete_all ds rows =
      if repeats (map (λ d. d.id) ds) then err refused else ok (delete_each ds rows)

  -- What a statement returns of the rows it wrote.
  unfoldable pub returned : List InPlace → List ConfigRow → List ConfigBroadcast
  unfolding find sync_item
  returned [] rows = []
  returned (b ∷ bs) rows =
      elim (find (has_device_id req.user_id b.id b.device_uuid) rows) [
        | none ↦ []
        | some row ↦ record { device_uuid = row.device_uuid; item = sync_item row } ∷ []
      ]
      ++ returned bs rows

  -- The table after the run, and its broadcasts.
  unfoldable pub flush_configs :
      ConfigPending → List ConfigRow → Result (List ConfigRow × List ConfigBroadcast)
  unfolding insert_all update_all bump_all delete_all returned
  flush_configs p rows = do
    inserted ← insert_all p.ins rows
    updated ← update_all p.upd inserted
    bumped ← bump_all p.bump updated
    removed ← delete_all p.del bumped
    ok (removed, returned p.bump bumped ++ returned p.del removed)
