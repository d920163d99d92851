-- ===== src/Sync/Config/Finish.antt =====
-- From the states that the loop of an upload of configs (src/routes/sync/config.rs) leaves to what the
-- request comes to.
use teddy_fyi_api_rust.Prelude.{
  ◌≡◌, refl, subst, String, true, false, none, List, [], ◌∷◌, arith, inl, inr, Bool-cases,
}
use teddy_fyi_api_rust.Errors.{Result, ok, err, AppError, ◌>>=◌, committed}
use teddy_fyi_api_rust.Sync.Devices.{Device}
use teddy_fyi_api_rust.Sync.Devices.Registered.{IsSteady}
use teddy_fyi_api_rust.Sync.Config.Statements.{ConfigRequest}
use teddy_fyi_api_rust.Sync.Config.Pending.{ConfigPending, no_writes, flush_configs}
use teddy_fyi_api_rust.Sync.Config.Buffer.{Uploading, flush_run, flush_if}
use teddy_fyi_api_rust.Sync.Config.Process.{Uploader}
use teddy_fyi_api_rust.Sync.Config.Changes.{is_nil, has_writes}
use teddy_fyi_api_rust.Sync.Config.Alone.{Alone}
use teddy_fyi_api_rust.Sync.Config.Tracks.{IsAt, IsDoomed, flush_run-Doomed, flush-no_writes}
use teddy_fyi_api_rust.Sync.Config.Push.{Fails}
use teddy_fyi_api_rust.Sync.Config.Doom.{Dead}
use teddy_fyi_api_rust.Sync.Config.Branches.{Agree}

is_nil-eq : {A : Type 0} (xs : List A) → is_nil xs ≡ true → xs ≡ []
unfolding is_nil
is_nil-eq [] h = refl
is_nil-eq (x ∷ xs) h = cc

nothing_pending : (p : ConfigPending) → has_writes p ≡ false → p ≡ no_writes
unfolding has_writes
nothing_pending p h =
    let ins = is_nil-eq p.ins (ground (arith, h)) in
    let upd = is_nil-eq p.upd (ground (arith, h)) in
    let bump = is_nil-eq p.bump (ground (arith, h)) in
    let del = is_nil-eq p.del (ground (arith, h)) in cc

-- The rows and what was told, of a state of the loop.
abbrev pub outcome : Result Uploading → Result Alone
outcome r = r >>= λ s. ok record { rows = s.rows; told = s.told }

module _ (who : Uploader) (candidates : List String) (ds : List Device) where
  abbrev req : ConfigRequest
  req = who.request

  abbrev Alike : Result Uploading → Result Alone → Type 0
  Alike = Agree who candidates ds

  Dead-Alike : (r : Result Uploading) (e : AppError) → Dead req r → Alike r (err e)
  Dead-Alike (ok s) e d = d
  Dead-Alike (err _) e d = tt

  pub bind-Alike :
      (r : Result Uploading) (q : Result Alone) (f : Uploading → Result Uploading)
      (g : Alone → Result Alone)
      → Alike r q
      → ((s : Uploading) (a : Alone)
          → IsAt req s a.rows
          → s.told ≡ a.told
          → IsSteady ds who.device_rule a.told.devices
          → Alike (f s) (g a))
      → ((s : Uploading) → IsDoomed req s → Dead req (f s))
      → Alike (r >>= f) (q >>= g)
  bind-Alike (ok s) (ok a) f g h go dead = go s a h.0 h.1 h.2
  bind-Alike (ok s) (err e) f g h go dead = Dead-Alike (f s) e (dead s h)
  bind-Alike (err _) (ok a) f g h go dead = absurd h
  bind-Alike (err _) (err _) f g h go dead = tt

  unfoldable pub finish : Uploading → Result Uploading
  finish s = flush_if req (has_writes s.pending) s

  -- The last flush leaves the table that was to be, or fails with the run.
  finish-at :
      (s : Uploading) (a : Alone) → IsAt req s a.rows → s.told ≡ a.told → outcome (finish s) ≡ ok a
  unfolding finish flush_if flush_run
  finish-at s a at told = elim (Bool-cases (has_writes s.pending)) [
    | inl y ↦ rw (y, at.flushed, told) refl
    | inr n ↦
        let flushed =
          subst (λ p. flush_configs req p s.rows ≡ ok (a.rows, at.sent))
            (nothing_pending s.pending n) at.flushed in
        rw (n, told) (ground (arith, flushed, flush-no_writes req s.rows))
  ]

  finish-Doomed : (s : Uploading) → IsDoomed req s → committed (outcome (finish s)) ≡ none
  unfolding finish flush_if
  finish-Doomed s d = elim (Bool-cases (has_writes s.pending)) [
    | inl y ↦ let (e, h) = flush_run-Doomed req s d in rw (y, h) refl
    | inr n ↦
        let (e, h) =
          subst (λ p. Fails (flush_configs req p s.rows)) (nothing_pending s.pending n) d.fails in
        absurd (ground (arith, h, flush-no_writes req s.rows))
  ]

  pub settled :
      (r : Result Uploading) (q : Result Alone)
      → Alike r q
      → committed (outcome (r >>= finish)) ≡ committed q
  settled (ok s) (ok a) h = rw (finish-at s a h.0 h.1) refl
  settled (ok s) (err e) h = finish-Doomed s h
  settled (err _) (ok a) h = absurd h
  settled (err _) (err _) h = refl
