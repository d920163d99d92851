-- ===== src/Sync/Config/JoinInPlace.antt =====
-- A write in place that joins a run (src/routes/sync/config.rs): the table that the run will leave is
-- the one that the write, issued at once, would.
use teddy_fyi_api_rust.Prelude.{
  ◌≡◌, sym, ap, subst, String, true, false, List, [], ◌∷◌, ◌++◌, map, arith, str_eq,
}
use teddy_fyi_api_rust.Prelude.Int.{ℤ}
use teddy_fyi_api_rust.Prelude.Membership.{IsIn}
use teddy_fyi_api_rust.Errors.{ok}
use teddy_fyi_api_rust.Sync.Batching.{RunTracker}
use teddy_fyi_api_rust.Sync.Paging.Fetch.{ConfigRow}
use teddy_fyi_api_rust.Sync.Config.Statements.{
  ConfigRequest, has_device_id, bump_config, delete_config,
}
use teddy_fyi_api_rust.Sync.Config.Batch.{ConfigBatch, has, has_place, note_version_bump}
use teddy_fyi_api_rust.Sync.Config.Pending.{ConfigPending, InPlace, flush_configs, returned}
use teddy_fyi_api_rust.Sync.Config.Issue.{has-append}
use teddy_fyi_api_rust.Sync.Config.Push.{push-bump, push-del, id_of, ids-append}
use teddy_fyi_api_rust.Sync.Config.Steps.{bump-Untouched, delete-Untouched}
use teddy_fyi_api_rust.Sync.Config.Cached.{bump-Sound, delete-Sound}
use teddy_fyi_api_rust.Sync.Config.Buffer.{
  ConfigKind, version_bump, delete_kind, id_token, key_token, record_all,
}
use teddy_fyi_api_rust.Sync.Config.Tracks.{OfKind, names_id, Tracks}
use teddy_fyi_api_rust.Sync.Config.Tokens.{Absent, Differ, record_all-ids}
use teddy_fyi_api_rust.Sync.Config.Join.{
  add_bump, add_del, joined-Tracked, id_token-differ, key_token-differ,
}

module _ (req : ConfigRequest) (batch : ConfigBatch) (p : ConfigPending)
    (runs : RunTracker ConfigKind) (base rows : List ConfigRow)
    (at : Tracks req batch p runs base rows) where
  module _ (id device : String) (version : ℤ) (row : ConfigRow) (held : IsIn row rows)
      (has_it : has_device_id req.user_id id device row ≡ true) where
    abbrev entry : InPlace
    entry = record { id = id; version = version; device_uuid = device }

    abbrev row_tokens : List String
    row_tokens = id_token id ∷ key_token device row.key ∷ []

    note_bump-ids :
        (i : String)
        → Differ row_tokens (id_token i)
        → has at.noted.stale_ids i ≡ false
        → has (note_version_bump at.noted device id row.key).stale_ids i ≡ false
    unfolding note_version_bump has
    note_bump-ids i d h = ground (arith, id_token-differ id i d.0, h)

    note_bump-places :
        (d k : String)
        → Differ row_tokens (key_token d k)
        → has_place at.noted.stale_keys (d, k) ≡ false
        → has_place (note_version_bump at.noted device id row.key).stale_keys (d, k) ≡ false
    unfolding note_version_bump has_place
    note_bump-places d k t h = ground (arith, key_token-differ device row.key d k t.1.0, h)

    named-bump :
        (i : String)
        → names_id p i ≡ false
        → str_eq id i ≡ false
        → names_id (add_bump entry p) i ≡ false
    named-bump i h d =
        ground (arith, h, d, ids-append id_of p.bump entry, has-append (map id_of p.bump) id i)

    named-del :
        (i : String)
        → names_id p i ≡ false
        → str_eq id i ≡ false
        → names_id (add_del entry p) i ≡ false
    named-del i h d =
        ground (arith, h, d, ids-append id_of p.del entry, has-append (map id_of p.del) id i)

    pub bump-Tracks :
        OfKind version_bump p
        → Absent runs row_tokens
        → Tracks req
            (note_version_bump batch device id row.key)
            (add_bump entry p)
            (record_all runs version_bump row_tokens)
            base
            (bump_config req id device version rows)
    bump-Tracks (bs, only) absent =
        let sent =
          push-bump req base rows at.sent bs entry (ground (arith, only, at.named id absent.0))
            (subst (λ q. flush_configs req q base ≡ ok (rows, at.sent)) only at.flushed) in
        record {
          tracked =
              joined-Tracked (add_bump entry p) runs version_bump (id_token id)
                (key_token device row.key ∷ []) (bs ++ entry ∷ [], ap (add_bump entry) only);
          named = λ i h.
              let r = record_all-ids runs version_bump row_tokens (id_token i) h in
              named-bump i (at.named i r.0) (id_token-differ id i r.1.0);
          sound = bump-Sound req at.sound id device version row held has_it;
          sent = returned req (bs ++ entry ∷ []) (bump_config req id device version rows) ++ [];
          flushed =
              subst
                (λ q.
                  flush_configs req (add_bump entry q) base
                  ≡ ok (
                    bump_config req id device version rows,
                    returned req (bs ++ entry ∷ []) (bump_config req id device version rows) ++ [],
                  ))
                (sym only) sent;
          noted = note_version_bump at.noted device id row.key;
          unsent =
              bump-Untouched req at.noted base rows at.unsent at.sound.keyed id device version row
                held has_it;
          ids = λ i h.
              let r = record_all-ids runs version_bump row_tokens (id_token i) h in
              note_bump-ids i r.1 (at.ids i r.0);
          places = λ d k h.
              let r = record_all-ids runs version_bump row_tokens (key_token d k) h in
              note_bump-places d k r.1 (at.places d k r.0);
        }

    pub delete-Tracks :
        OfKind delete_kind p
        → Absent runs row_tokens
        → Tracks req
            (note_version_bump batch device id row.key)
            (add_del entry p)
            (record_all runs delete_kind row_tokens)
            base
            (delete_config req id device version rows)
    delete-Tracks (bs, only) absent =
        let sent =
          push-del req base rows at.sent bs entry (ground (arith, only, at.named id absent.0))
            (subst (λ q. flush_configs req q base ≡ ok (rows, at.sent)) only at.flushed) in
        record {
          tracked =
              joined-Tracked (add_del entry p) runs delete_kind (id_token id)
                (key_token device row.key ∷ []) (bs ++ entry ∷ [], ap (add_del entry) only);
          named = λ i h.
              let r = record_all-ids runs delete_kind row_tokens (id_token i) h in
              named-del i (at.named i r.0) (id_token-differ id i r.1.0);
          sound = delete-Sound req at.sound id device version row held has_it;
          sent = returned req (bs ++ entry ∷ []) (delete_config req id device version rows);
          flushed =
              subst
                (λ q.
                  flush_configs req (add_del entry q) base
                  ≡ ok (
                    delete_config req id device version rows,
                    returned req (bs ++ entry ∷ []) (delete_config req id device version rows),
                  ))
                (sym only) sent;
          noted = note_version_bump at.noted device id row.key;
          unsent =
              delete-Untouched req at.noted base rows at.unsent at.sound.keyed id device version row
                held has_it;
          ids = λ i h.
              let r = record_all-ids runs delete_kind row_tokens (id_token i) h in
              note_bump-ids i r.1 (at.ids i r.0);
          places = λ d k h.
              let r = record_all-ids runs delete_kind row_tokens (key_token d k) h in
              note_bump-places d k r.1 (at.places d k r.0);
        }
