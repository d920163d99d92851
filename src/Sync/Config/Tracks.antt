-- ===== src/Sync/Config/Tracks.antt =====
-- An upload (src/routes/sync/config.rs) whose last writes are still in its run, and the table as it
-- will be once they are issued.
use teddy_fyi_api_rust.Prelude.{
  ◌≡◌, refl, String, Bool, true, false, ◌||◌, Option, none, some, List, [], ◌++◌, map,
}
use teddy_fyi_api_rust.Errors.{ok}
use teddy_fyi_api_rust.Sync.Batching.{RunTracker, clear}
use teddy_fyi_api_rust.Sync.Paging.Fetch.{ConfigRow}
use teddy_fyi_api_rust.Sync.Config.Statements.{ConfigRequest, ConfigWrite}
use teddy_fyi_api_rust.Sync.Config.Batch.{ConfigBatch, has, has_place, empty_batch}
use teddy_fyi_api_rust.Sync.Config.Pending.{
  ConfigPending, ConfigBroadcast, InPlace, no_writes, flush_configs, insert_all,
}
use teddy_fyi_api_rust.Sync.Config.Issue.{flush-ins, only_ins, only_upd, only_bump, only_del}
use teddy_fyi_api_rust.Sync.Config.Push.{Fails, key_of, id_of}
use teddy_fyi_api_rust.Sync.Config.Steps.{Untouched}
use teddy_fyi_api_rust.Sync.Config.Cached.{Sound}
use teddy_fyi_api_rust.Sync.Config.Buffer.{
  ConfigKind, insert_kind, update_in_place, version_bump, delete_kind, Uploading, id_token,
  key_token, flush_run, flush_if,
}

-- A run holds writes of one kind.
abbrev pub OfKind : ConfigKind → ConfigPending → Type 0
OfKind insert_kind p = (ws : List (String × ConfigWrite)) × (p ≡ only_ins ws)
OfKind update_in_place p = (ws : List (String × ConfigWrite)) × (p ≡ only_upd ws)
OfKind version_bump p = (bs : List InPlace) × (p ≡ only_bump bs)
OfKind delete_kind p = (ds : List InPlace) × (p ≡ only_del ds)

abbrev pub OfRun : Option ConfigKind → ConfigPending → Type 0
OfRun none p = p ≡ no_writes
OfRun (some kind) p = OfKind kind p

pub no_writes-OfKind : (kind : ConfigKind) → OfKind kind no_writes
no_writes-OfKind insert_kind = ([], refl)
no_writes-OfKind update_in_place = ([], refl)
no_writes-OfKind version_bump = ([], refl)
no_writes-OfKind delete_kind = ([], refl)

-- The ids that the statements over rows already there name.
abbrev pub names_id : ConfigPending → String → Bool
names_id p id = has (map key_of p.upd) id || (has (map id_of p.bump) id || has (map id_of p.del) id)

-- What the tracker knows of a run.
pub record Tracked (p : ConfigPending) (runs : RunTracker ConfigKind) : Type 0 where
  pub of_run : OfRun runs.kind p
  pub idle : runs.kind ≡ none → (t : String) → runs.ids t ≡ false

module _ (req : ConfigRequest) where
  -- The table is `rows` once the run is issued, which touches only what the tracker has the tokens of.
  pub record Tracks (batch : ConfigBatch) (p : ConfigPending) (runs : RunTracker ConfigKind)
      (base rows : List ConfigRow) : Type 0 where
    pub tracked : Tracked p runs
    pub named : (id : String) → runs.ids (id_token id) ≡ false → names_id p id ≡ false
    pub sound : Sound req.user_id batch rows
    pub sent : List ConfigBroadcast
    pub flushed : flush_configs req p base ≡ ok (rows, sent)
    pub noted : ConfigBatch
    pub unsent : Untouched req.user_id noted base rows
    pub ids : (id : String) → runs.ids (id_token id) ≡ false → has noted.stale_ids id ≡ false
    pub places :
        (device key : String)
        → runs.ids (key_token device key) ≡ false
        → has_place noted.stale_keys (device, key) ≡ false

  abbrev pub IsAt : Uploading → List ConfigRow → Type 0
  IsAt s rows = Tracks s.batch s.pending s.runs s.rows rows

  -- A run that the database will refuse.
  pub record Doomed (p : ConfigPending) (runs : RunTracker ConfigKind) (base : List ConfigRow)
      : Type 0 where
    pub tracked : Tracked p runs
    pub fails : Fails (flush_configs req p base)

  abbrev pub IsDoomed : Uploading → Type 0
  IsDoomed s = Doomed s.pending s.runs s.rows

  no_writes-Tracked : (runs : RunTracker ConfigKind) → Tracked no_writes (clear runs)
  unfolding clear has
  no_writes-Tracked runs = record { of_run = refl; idle = λ _ _. refl }

  pub flush-no_writes : (rows : List ConfigRow) → flush_configs req no_writes rows ≡ ok (rows, [])
  unfolding insert_all
  flush-no_writes rows = flush-ins req [] rows

  -- Where nothing is pending, the table is what it is.
  pub no_writes-Tracks :
      (batch : ConfigBatch) (runs : RunTracker ConfigKind) (rows : List ConfigRow)
      → Sound req.user_id batch rows
      → Tracks batch no_writes (clear runs) rows rows
  unfolding clear has has_place empty_batch
  no_writes-Tracks batch runs rows sound = record {
    tracked = no_writes-Tracked runs;
    named = λ _ _. refl;
    sound = sound;
    sent = [];
    flushed = flush-no_writes rows;
    noted = empty_batch [] [] [];
    unsent = record { ids = λ _ _ _ _. (λ m. m, λ m. m); places = λ _ _ _ _ _. (λ m. m, λ m. m) };
    ids = λ _ _. refl;
    places = λ _ _ _. refl;
  }

  -- What a guard of the loop leaves.
  pub record Passed (b : Bool) (s s' : Uploading) (rows : List ConfigRow) : Type 0 where
    pub run : flush_if req b s ≡ ok s'
    pub at : IsAt s' rows
    pub told : s'.told ≡ s.told
    pub batch : s'.batch ≡ s.batch
    pub fewer : (t : String) → s.runs.ids t ≡ false → s'.runs.ids t ≡ false
    pub gone : b ≡ true → (s'.runs.kind ≡ none) × ((t : String) → s'.runs.ids t ≡ false)
    pub same : b ≡ false → s'.runs ≡ s.runs

  pub flush_if-Passed :
      (b : Bool) (s : Uploading) (rows : List ConfigRow)
      → IsAt s rows
      → (s' : Uploading) × Passed b s s' rows
  unfolding flush_if flush_run clear
  flush_if-Passed false s rows at = (
    s,
    record {
      run = refl;
      at = at;
      told = refl;
      batch = refl;
      fewer = λ t h. h;
      gone = λ h. cc;
      same = λ _. refl;
    },
  )
  flush_if-Passed true s rows at = (
    record s {
      pending = no_writes;
      runs = clear s.runs;
      rows = rows;
      broadcasts = s.broadcasts ++ at.sent;
    },
    record {
      run = rw at.flushed refl;
      at = no_writes-Tracks s.batch s.runs rows at.sound;
      told = refl;
      batch = refl;
      fewer = λ _ _. refl;
      gone = λ _. (refl, λ _. refl);
      same = λ h. cc;
    },
  )

  pub flush_run-Doomed : (s : Uploading) → IsDoomed s → Fails (flush_run req s)
  unfolding flush_run
  flush_run-Doomed s d = let (e, h) = d.fails in (e, rw h refl)
