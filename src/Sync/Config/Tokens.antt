-- ===== src/Sync/Config/Tokens.antt =====
-- The run tracker of an upload (src/routes/sync/config.rs) after its test, and after it has recorded a
-- write.
use teddy_fyi_api_rust.Prelude.{
  ◌≡◌, refl, sym, ap, ◌∙◌, subst, String, true, false, inl, inr, Option, none, some, List, [], ◌∷◌,
  arith, Bool-cases, str_eq,
}
use teddy_fyi_api_rust.Sync.Batching.{RunTracker, needs_flush, record_write}
use teddy_fyi_api_rust.Sync.Paging.Fetch.{ConfigRow}
use teddy_fyi_api_rust.Sync.Config.Statements.{ConfigRequest}
use teddy_fyi_api_rust.Sync.Config.Pending.{ConfigPending}
use teddy_fyi_api_rust.Sync.Config.Buffer.{
  ConfigKind, insert_kind, update_in_place, version_bump, delete_kind, same_config_kind, Uploading,
  record_all, any_needs_flush,
}
use teddy_fyi_api_rust.Sync.Config.Tracks.{OfKind, OfRun, no_writes-OfKind, Tracked, Passed}

abbrev pub Absent : RunTracker ConfigKind → List String → Type 0
Absent runs [] = Unit {0}
Absent runs (t ∷ ts) = (runs.ids t ≡ false) × Absent runs ts

abbrev pub Differ : List String → String → Type 0
Differ [] t = Unit {0}
Differ (x ∷ xs) t = (str_eq t x ≡ false) × Differ xs t

pub record_all-ids :
    (runs : RunTracker ConfigKind) (kind : ConfigKind) (ts : List String) (t : String)
    → (record_all runs kind ts).ids t ≡ false
    → (runs.ids t ≡ false) × Differ ts t
unfolding record_all record_write
record_all-ids runs kind [] t h = (h, tt)
record_all-ids runs kind (x ∷ ts) t h =
    let r = record_all-ids (record_write runs kind x) kind ts t h in
    (ground (arith, r.0), (ground (arith, r.0), r.1))

pub record_all-kind :
    (runs : RunTracker ConfigKind) (kind : ConfigKind) (ts : List String)
    → runs.kind ≡ some kind
    → (record_all runs kind ts).kind ≡ some kind
unfolding record_all record_write
record_all-kind runs kind [] h = h
record_all-kind runs kind (x ∷ ts) h = record_all-kind (record_write runs kind x) kind ts refl

same_config_kind_eq : (a b : ConfigKind) → same_config_kind a b ≡ true → a ≡ b
unfolding same_config_kind
same_config_kind_eq insert_kind insert_kind h = refl
same_config_kind_eq update_in_place update_in_place h = refl
same_config_kind_eq version_bump version_bump h = refl
same_config_kind_eq delete_kind delete_kind h = refl
same_config_kind_eq a b h = cc

idle-Absent :
    (runs : RunTracker ConfigKind) (ts : List String)
    → ((t : String) → runs.ids t ≡ false)
    → Absent runs ts
idle-Absent runs [] h = tt
idle-Absent runs (t ∷ ts) h = (h t, idle-Absent runs ts h)

unneeded-Absent :
    (runs : RunTracker ConfigKind) (kind k : ConfigKind) (ts : List String)
    → runs.kind ≡ some k
    → any_needs_flush runs kind ts ≡ false
    → Absent runs ts
unfolding any_needs_flush needs_flush
unneeded-Absent runs kind k [] e h = tt
unneeded-Absent runs kind k (t ∷ ts) e h =
    (ground (arith, e, h), unneeded-Absent runs kind k ts e (ground (arith, h)))

unneeded-kind :
    (runs : RunTracker ConfigKind) (kind k : ConfigKind) (t : String) (ts : List String)
    → runs.kind ≡ some k
    → any_needs_flush runs kind (t ∷ ts) ≡ false
    → k ≡ kind
unfolding any_needs_flush needs_flush
unneeded-kind runs kind k t ts e h = same_config_kind_eq k kind (ground (arith, e, h))

-- Nothing to flush: no token is in the run, and it is of the kind or empty.
pub unneeded :
    (p : ConfigPending) (runs : RunTracker ConfigKind) (kind : ConfigKind) (t : String)
    (ts : List String)
    → Tracked p runs
    → any_needs_flush runs kind (t ∷ ts) ≡ false
    → OfKind kind p × Absent runs (t ∷ ts)
unneeded p runs kind t ts tracked h = by_kind runs.kind refl
  where
    by_kind : (o : Option ConfigKind) → runs.kind ≡ o → OfKind kind p × Absent runs (t ∷ ts)
    by_kind none e = (
      subst (OfKind kind) (sym (subst (λ o. OfRun o p) e tracked.of_run)) (no_writes-OfKind kind),
      idle-Absent runs (t ∷ ts) (tracked.idle e),
    )
    by_kind (some k) e = (
      subst (λ k. OfKind k p) (unneeded-kind runs kind k t ts e h)
          (subst (λ o. OfRun o p) e tracked.of_run),
      unneeded-Absent runs kind k (t ∷ ts) e h,
    )

-- After the test, and the flush that it may call for, the write can join the run.
pub ready :
    (req : ConfigRequest) (s s' : Uploading) (rows : List ConfigRow) (kind : ConfigKind)
    (t : String) (ts : List String)
    → Tracked s'.pending s'.runs
    → Passed req (any_needs_flush s.runs kind (t ∷ ts)) s s' rows
    → OfKind kind s'.pending × Absent s'.runs (t ∷ ts)
ready req s s' rows kind t ts tracked passed =
    elim (Bool-cases (any_needs_flush s.runs kind (t ∷ ts))) [
      | inl y ↦
          let (none_left, empty) = passed.gone y in
          (
            subst (OfKind kind) (sym (subst (λ o. OfRun o s'.pending) none_left tracked.of_run))
                (no_writes-OfKind kind),
            idle-Absent s'.runs (t ∷ ts) empty,
          )
      | inr n ↦
          unneeded s'.pending s'.runs kind t ts tracked
            (ap (λ r. any_needs_flush r kind (t ∷ ts)) (passed.same n) ∙ n)
    ]
