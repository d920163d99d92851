-- ===== src/Sync/Deletes.antt =====
-- src/routes/sync/deletes.rs: a delete of a row that the server never had.
use teddy_fyi_api_rust.Prelude.{String}
use teddy_fyi_api_rust.Prelude.Int.{ℤ, pos}

abbrev pub unsynced_delete_version : ℤ
unsynced_delete_version = pos 1

unfoldable pub ack_unsynced_delete : String → ℤ
ack_unsynced_delete id = unsynced_delete_version
