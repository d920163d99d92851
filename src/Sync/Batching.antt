-- ===== src/Sync/Batching.antt =====
-- src/routes/sync/batching.rs: where one run of batchable writes ends and the next begins. A set of
-- ids is its membership test.
use teddy_fyi_api_rust.Prelude.{String, Bool, false, Option, none, some, ◌||◌, not, str_eq}

pub record RunTracker (K : Type 0) : Type 0 where
  pub kind : Option K
  pub ids : String → Bool

module _ {K : Type 0} where
  unfoldable pub empty_run : RunTracker K
  empty_run = record { kind = none; ids = λ _. false }

  -- `same` is `PartialEq` of the processor's kinds.
  unfoldable pub needs_flush : (K → K → Bool) → RunTracker K → K → String → Bool
  needs_flush same runs kind id = elim runs.kind [
    | none ↦ false
    | some pending ↦ not (same pending kind) || runs.ids id
  ]

  unfoldable pub contains_id : RunTracker K → String → Bool
  contains_id runs id = runs.ids id

  unfoldable pub record_write : RunTracker K → K → String → RunTracker K
  record_write runs kind id = record {
    kind = some kind;
    ids = λ other. str_eq other id || runs.ids other;
  }

  unfoldable pub clear : RunTracker K → RunTracker K
  clear runs = record { kind = none; ids = λ _. false }
