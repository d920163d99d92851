-- ===== src/Sync/Todo/InTurn.antt =====
-- One row of src/routes/sync/todo over many requests, and its version up to the ceiling of
-- src/routes/sync/versioning.rs.
use teddy_fyi_api_rust.Prelude.{
  ℕ, zero, suc, ◌+◌, ◌≤◌, ◌<◌, ◌≡◌, refl, ap, ◌∙◌, subst, String, true, false, Option, none, some,
  [], ◌∷◌, ◌⊎◌, inl, inr, arith, leb, Bool-cases, str_eq_iff,
}
use teddy_fyi_api_rust.Prelude.Int.{ℤ, pos}
use teddy_fyi_api_rust.Json.{Value, is_null}
use teddy_fyi_api_rust.Errors.{ok, err, conflict, committed}
use teddy_fyi_api_rust.Sync.Versioning.{advance_version}
use teddy_fyi_api_rust.Sync.Versioning.Ceiling.{advance_version_at}
use teddy_fyi_api_rust.Sync.Types.{update, ChangeDelta, is_update, synced}
use teddy_fyi_api_rust.Sync.Todo.Table.{
  Row, Table, Request, insert_on_conflict, dangles, upsert_row, written,
}
use teddy_fyi_api_rust.Sync.Todo.Decide.{
  owns, Item, put, existing_map, decide, write, decide_write, decide_upsert, next_version,
  has_no_data,
}
use teddy_fyi_api_rust.Sync.Todo.Process.{process_changes}
use teddy_fyi_api_rust.Sync.Todo.OneByOne.{
  write_now, perform_now, begin, one_by_one, process_one_by_one,
}
use teddy_fyi_api_rust.Sync.Todo.Rows.{existing_map-agrees}
use teddy_fyi_api_rust.Sync.Todo.Equivalence.{process_changes_one_by_one}
use teddy_fyi_api_rust.Sync.Todo.Faults.{OwnUpdate, advanced, decide_update}

module _ {C : Type 0} (from_value : Value → Option (Item C))
    (prepare : ChangeDelta → Item C → Item C × String) (req : Request C)
    (change : ChangeDelta) where
  -- The change is sent `n` times, each time in a request of its own; nothing, once one fails.
  unfoldable pub after_requests : ℕ → Table C → Option (Table C)
  after_requests zero t = some t
  after_requests (suc n) t =
      elim (committed (process_changes from_value prepare req (change ∷ []) t)) [
        | none ↦ none
        | some o ↦ after_requests n o.table
      ]

  -- An update with a payload that can be read, names the change's own id, and refers only to rows that
  -- are there.
  pub record Readable (item : Item C) : Type 0 where
    pub value : Value
    pub is_an_update : change.operation_type ≡ update
    pub carries : change.payload ≡ some value
    pub not_null : is_null value ≡ false
    pub reads : from_value value ≡ some item
    pub names : (prepare change item).0.id ≡ change.id
    pub refers : req.references (prepare change item).0.columns ≡ true

  -- The caller's own row, at a version.
  pub record OwnRow (t : Table C) (v : ℕ) : Type 0 where
    pub row : Row C
    pub held : t change.id ≡ some row
    pub owned : owns req.user_id row ≡ true
    pub version : row.version ≡ pos v

  module _ (item : Item C) (readable : Readable item) where
    own_update :
        (t : Table C) (v : ℕ) (n : ℤ) (own : OwnRow t v)
        → advance_version change.id (pos v) ≡ ok n
        → OwnUpdate from_value prepare req t n change item
    own_update t v n own e = record {
      value = readable.value;
      row = own.row;
      is_an_update = readable.is_an_update;
      carries = readable.carries;
      not_null = readable.not_null;
      reads = readable.reads;
      held = own.held;
      owned = own.owned;
      advances = ap (advance_version change.id) own.version ∙ e;
      refers = readable.refers;
    }

    OwnRow-read : (t : Table C) (v : ℕ) → OwnRow t v → OwnRow (existing_map (change ∷ []) t) v
    OwnRow-read t v own = record {
      row = own.row;
      held = (existing_map-agrees (change ∷ []) t).0 ∙ own.held;
      owned = own.owned;
      version = own.version;
    }

    abbrev next : Table C → ℤ → Table C
    next t n = upsert_row req (advanced from_value prepare req change item n) t

    update_now :
        (existing t : Table C) (n : ℤ)
        → decide from_value prepare req.user_id existing change
          ≡ ok (write (put (advanced from_value prepare req change item n)))
        → one_by_one from_value prepare req existing (change ∷ []) (begin req t)
          ≡ ok (record {
            table = next t n;
            success_ids = change.id ∷ [];
            upload_status = synced change.id n ∷ [];
            remote_changes = [];
          })
    unfolding one_by_one begin perform_now write_now insert_on_conflict dangles upsert_row
    update_now existing t n d = rw (d, readable.refers)

    request_advances :
        (t : Table C) (v m : ℕ)
        → OwnRow t v
        → advance_version change.id (pos v) ≡ ok (pos (suc v))
        → after_requests (suc m) t ≡ after_requests m (next t (pos (suc v)))
    unfolding after_requests process_one_by_one
    request_advances t v m own e =
        let existing = existing_map (change ∷ []) t in
        let d =
          decide_update from_value prepare req existing (pos (suc v)) change item
            (own_update existing v (pos (suc v)) (OwnRow-read t v own) e) in
        let done =
          process_changes_one_by_one from_value prepare req (change ∷ []) t
          ∙ ap committed (update_now existing t (pos (suc v)) d) in
        rw (after_requests, done) refl

    decide_refused :
        (existing : Table C) (v : ℕ)
        → OwnRow existing v
        → advance_version change.id (pos v) ≡ err (conflict change.id)
        → decide from_value prepare req.user_id existing change ≡ err (conflict change.id)
    unfolding decide decide_write decide_upsert next_version is_update has_no_data
    decide_refused existing v own e =
        let at_row : advance_version change.id own.row.version ≡ err (conflict change.id) =
          ap (advance_version change.id) own.version ∙ e in
        ground (
          arith, readable.is_an_update, readable.carries, readable.not_null, readable.reads,
          own.held, own.owned, at_row,
        )

    request_refused :
        (t : Table C) (v m : ℕ)
        → OwnRow t v
        → advance_version change.id (pos v) ≡ err (conflict change.id)
        → after_requests (suc m) t ≡ none
    unfolding after_requests process_one_by_one one_by_one
    request_refused t v m own e =
        let existing = existing_map (change ∷ []) t in
        let d = decide_refused existing v (OwnRow-read t v own) e in
        rw (after_requests, process_changes_one_by_one from_value prepare req (change ∷ []) t, d)
          refl

    OwnRow-next : (t : Table C) (v : ℕ) → OwnRow t v → OwnRow (next t (pos (suc v))) (suc v)
    unfolding upsert_row written owns
    OwnRow-next t v own = record {
      row = written req (advanced from_value prepare req change item (pos (suc v))) (some own.row);
      held =
          ground (arith, str_eq_iff change.id (prepare change item).0.id, readable.names, own.held);
      owned = ground (arith, str_eq_iff req.user_id req.user_id);
      version = refl;
    }

    -- A row of the caller's at version `v`, at most the ceiling of 2,000,000,000, to which one update is
    -- sent `n` times, each in a request of its own, is at `v + n` and still the caller's if that is
    -- within the ceiling; otherwise one of the requests fails. The update's payload can be read, names
    -- the row's id, and refers only to rows that are there.
    pub updates_in_turn :
        (n v : ℕ) (t : Table C)
        → OwnRow t v
        → v ≤ 2_000_000_000
        → ((v + n ≤ 2_000_000_000)
            × ((t' : Table C) × (after_requests n t ≡ some t') × OwnRow t' (v + n)))
          ⊎ ((2_000_000_000 < v + n) × (after_requests n t ≡ none))
    unfolding after_requests
    updates_in_turn zero v t own h =
        inl (omega (arith, h), (t, refl, subst (OwnRow t) (omega arith) own))
    updates_in_turn (suc n) v t own h = elim (Bool-cases (leb (suc v) 2_000_000_000)) [
      | inl room ↦
          let e : advance_version change.id (pos v) ≡ ok (pos (suc v)) =
            ground (arith, advance_version_at change.id v (suc v) refl, room) in
          let step = request_advances t v n own e in
          elim (updates_in_turn n (suc v) (next t (pos (suc v))) (OwnRow-next t v own)
            (ground (arith, room))) [
              | inl (within, (t', same, later)) ↦
                  inl (
                    omega (arith, within),
                    (t', step ∙ same, subst (OwnRow t') (omega arith) later),
                  )
              | inr (beyond, fails) ↦ inr (omega (arith, beyond), step ∙ fails)
            ]
      | inr full ↦
          let e : advance_version change.id (pos v) ≡ err (conflict change.id) =
            ground (arith, advance_version_at change.id v (suc v) refl, full) in
          inr (ground (arith, full), request_refused t v n own e)
    ]
