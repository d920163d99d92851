-- ===== src/Sync/Todo/Invariant.antt =====
-- The run that the loop of src/routes/sync/todo accumulates is of one kind and names distinct rows,
-- and one step of the loop keeps it so and does what its statement alone would.
use mathlib.Core.List.{map-append}
use teddy_fyi_api_rust.Prelude.{
  ℕ, ◌≤◌, ◌<◌, ◌≡◌, refl, sym, ap, ◌∙◌, String, Bool, false, Option, none, some, List, [], ◌∷◌,
  ◌++◌, ◌||◌, str_eq, arith, length, length-append,
}
use teddy_fyi_api_rust.Prelude.Int.{ℤ, pos}
use teddy_fyi_api_rust.Errors.{◌>>=◌, committed}
use teddy_fyi_api_rust.Sync.Types.{synced}
use teddy_fyi_api_rust.Sync.Batching.{needs_flush, record_write}
use teddy_fyi_api_rust.Sync.Todo.Table.{Upsert, Request, contains, has_repeat}
use teddy_fyi_api_rust.Sync.Todo.Pending.{Pending, del_ids}
use teddy_fyi_api_rust.Sync.Todo.Decide.{
  WriteKind, upsert, version_bump, delete_kind, same_kind, Write, put, bump, remove, kind_of,
  target, Action, write,
}
use teddy_fyi_api_rust.Sync.Todo.Process.{Batch, push, settle}
use teddy_fyi_api_rust.Sync.Todo.OneByOne.{perform_now}
use teddy_fyi_api_rust.Sync.Todo.Runs.{contains-append, has_repeat-append, Below}
use teddy_fyi_api_rust.Sync.Todo.Batched.{
  up_ids, only_ups, only_bumps, only_dels, settle-put, settle-bump, settle-remove,
}

module _ {C : Type 0} where
  -- What is pending, by the kind of the run: rows of that kind alone, whose ids the tracker holds.
  abbrev pub Fits : Option WriteKind → Pending C → (String → Bool) → Type 0
  Fits none p ids = (p ≡ only_ups []) × ((j : String) → ids j ≡ false)
  Fits (some upsert) p ids =
      (us : List (Upsert C)) × (p ≡ only_ups us)
      × (has_repeat (up_ids us) ≡ false)
      × ((j : String) → ids j ≡ contains (up_ids us) j)
  Fits (some version_bump) p ids = (bs : List (String × ℤ)) × (p ≡ only_bumps bs)
  Fits (some delete_kind) p ids =
      (ds : List (String × ℕ)) × (p ≡ only_dels ds)
      × ((j : String) → ids j ≡ contains (del_ids ds) j)

  pub record IsRun (b : Batch C) : Type 0 where
    pub fits : Fits b.runs.kind b.pending b.runs.ids
    pub placed : Below (length b.upload_status) b.pending.dels

pub Below-mono : (m n : ℕ) (ds : List (String × ℕ)) → m ≤ n → Below m ds → Below n ds
Below-mono m n [] h b = tt
Below-mono m n ((id, i) ∷ ds) h b = (omega arith, Below-mono m n ds h b.1)

Below-append :
    (n : ℕ) (ds : List (String × ℕ)) (id : String) (i : ℕ)
    → Below n ds
    → i < n
    → Below n (ds ++ (id, i) ∷ [])
Below-append n [] id i b h = (h, tt)
Below-append n ((d, k) ∷ ds) id i b h = (b.0, Below-append n ds id i b.1 h)

-- One more id, at the end of the run and in the tracker.
tracks-append :
    (ids : String → Bool) (xs : List String) (x j : String)
    → ids j ≡ contains xs j
    → (str_eq j x || ids j) ≡ contains (xs ++ x ∷ []) j
tracks-append ids xs x j h = ground (arith, contains-append xs x j)

module _ {C : Type 0} (req : Request C) where
  push-put :
      (b : Batch C) (us : List (Upsert C)) (change_id : String) (u : Upsert C)
      → IsRun b
      → b.pending ≡ only_ups us
      → has_repeat (up_ids us) ≡ false
      → ((j : String) → b.runs.ids j ≡ contains (up_ids us) j)
      → contains (up_ids us) u.id ≡ false
      → IsRun (push req b change_id (put u))
  unfolding push record_write
  push-put b us change_id u v e h k f = record {
    fits = (
      us ++ u ∷ [],
      rw e,
      rw map-append (has_repeat-append (up_ids us) u.id h f),
      λ j. rw map-append (tracks-append b.runs.ids (up_ids us) u.id j (k j)),
    );
    placed = rw e tt;
  }

  push-bump :
      (b : Batch C) (bs : List (String × ℤ)) (change_id id : String) (version : ℤ)
      → b.pending ≡ only_bumps bs
      → IsRun (push req b change_id (bump id version))
  unfolding push record_write
  push-bump b bs change_id id version e = record {
    fits = (bs ++ (id, version) ∷ [], rw e);
    placed = rw e tt;
  }

  push-remove :
      (b : Batch C) (ds : List (String × ℕ)) (change_id id : String)
      → IsRun b
      → b.pending ≡ only_dels ds
      → ((j : String) → b.runs.ids j ≡ contains (del_ids ds) j)
      → IsRun (push req b change_id (remove id))
  unfolding push record_write
  push-remove b ds change_id id v e k = record {
    fits = (
      ds ++ (id, length b.upload_status) ∷ [],
      rw e,
      λ j. rw map-append (tracks-append b.runs.ids (del_ids ds) id j (k j)),
    );
    placed =
        Below-append _ b.pending.dels id (length b.upload_status)
          (Below-mono (length b.upload_status) _ b.pending.dels
            (omega (arith, length-append b.upload_status (synced change_id (pos 0) ∷ []))) v.placed)
          (omega (arith, length-append b.upload_status (synced change_id (pos 0) ∷ [])));
  }

  -- What a step owes: the run stays a run, and to end it then is to end it before and go on.
  abbrev pub Owes : Batch C → String → Action C → Batch C → Type 0
  Owes b change_id a b' =
      IsRun b'
      × (committed (settle req b')
          ≡ committed (settle req b >>= λ o. perform_now req o change_id a))

  -- A write that needs no flush joins the run.
  pub push_joins :
      (b : Batch C) (k : Option WriteKind) (change_id : String) (w : Write C)
      → IsRun b
      → b.runs.kind ≡ k
      → Fits k b.pending b.runs.ids
      → needs_flush same_kind (record (b.runs) { kind = k }) (kind_of w) (target w) ≡ false
      → Owes b change_id (write w) (push req b change_id w)
  unfolding needs_flush same_kind kind_of target contains has_repeat
  push_joins b none change_id (put u) v e (p, k) h =
      (push-put b [] change_id u v p refl k refl, settle-put req b [] change_id u p refl refl)
  push_joins b none change_id (bump id version) v e (p, k) h =
      (push-bump b [] change_id id version p, settle-bump req b [] change_id id version p)
  push_joins b none change_id (remove id) v e (p, k) h =
      (push-remove b [] change_id id v p k, settle-remove req b [] change_id id p tt refl)
  push_joins b (some upsert) change_id (put u) v e (us, p, r, k) h =
      let out : contains (up_ids us) u.id ≡ false = sym (k u.id) ∙ h in
      (push-put b us change_id u v p r k out, settle-put req b us change_id u p r out)
  push_joins b (some version_bump) change_id (bump id version) v e (bs, p) h =
      (push-bump b bs change_id id version p, settle-bump req b bs change_id id version p)
  push_joins b (some delete_kind) change_id (remove id) v e (ds, p, k) h =
      let placed : Below (length b.upload_status) ds =
        rw (ap (λ (q : Pending C). q.dels) p) at (v.placed) in
      (
        push-remove b ds change_id id v p k,
        settle-remove req b ds change_id id p placed (sym (k id) ∙ h),
      )
  push_joins b (some upsert) change_id (bump id version) v e f h = cc
  push_joins b (some upsert) change_id (remove id) v e f h = cc
  push_joins b (some version_bump) change_id (put u) v e f h = cc
  push_joins b (some version_bump) change_id (remove id) v e f h = cc
  push_joins b (some delete_kind) change_id (put u) v e f h = cc
  push_joins b (some delete_kind) change_id (bump id version) v e f h = cc
