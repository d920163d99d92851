-- ===== src/Sync/Todo/Faults.antt =====
-- The loop of src/routes/sync/todo on a payload that carries another id than its change, on two
-- updates of one row, and on an update without data.
use teddy_fyi_api_rust.Prelude.{
  ◌≡◌, ◌≢◌, refl, ap, String, true, false, Option, none, some, [], ◌∷◌, str_eq_iff, arith, ◌∙◌,
}
use teddy_fyi_api_rust.Prelude.Int.{ℤ}
use teddy_fyi_api_rust.Json.{Value, is_null}
use teddy_fyi_api_rust.Errors.{ok, committed}
use teddy_fyi_api_rust.Sync.Versioning.{advance_version, seed_version}
use teddy_fyi_api_rust.Sync.Types.{update, ChangeDelta, insert, is_update, synced}
use teddy_fyi_api_rust.Sync.Todo.Table.{
  Row, Table, Request, insert_on_conflict, dangles, upsert_row, Upsert, written,
}
use teddy_fyi_api_rust.Sync.Todo.Decide.{
  owns, Item, put, bump, existing_map, decide, write, decide_write, decide_delete, decide_upsert,
  decide_bump, decide_need_update, next_version, has_no_data,
}
use teddy_fyi_api_rust.Sync.Todo.Process.{Outcome, process_changes}
use teddy_fyi_api_rust.Sync.Todo.OneByOne.{
  write_now, perform_now, begin, one_by_one, process_one_by_one,
}
use teddy_fyi_api_rust.Sync.Todo.Rows.{existing_map-agrees}
use teddy_fyi_api_rust.Sync.Todo.Equivalence.{process_changes_one_by_one}

module _ {C : Type 0} (from_value : Value → Option (Item C))
    (prepare : ChangeDelta → Item C → Item C × String) (req : Request C) where
  -- No change of a todo table asks for a version bump: the branch that would is behind the test
  -- that sends every update without data back as an echo.
  pub no_version_bump :
      (existing : Table C) (change : ChangeDelta) (id : String) (version : ℤ)
      → decide from_value prepare req.user_id existing change ≢ ok (write (bump id version))
  unfolding decide decide_write decide_delete decide_upsert decide_bump decide_need_update
      has_no_data
  no_version_bump existing change id version e = ground arith

  abbrev seeded : ChangeDelta → Item C → Upsert C
  seeded change item =
      let (prepared, client) = prepare change item in
      record {
        id = prepared.id;
        columns = prepared.columns;
        created_at = prepared.created_at;
        version = prepared.version;
        is_deleted = prepared.is_deleted;
        updated_by = client;
      }

  decide_insert :
      (existing : Table C) (change : ChangeDelta) (v : Value) (item : Item C)
      → change.operation_type ≡ insert
      → change.payload ≡ some v
      → from_value v ≡ some item
      → existing change.id ≡ none
      → seed_version change.id (prepare change item).0.version ≡ ok (prepare change item).0.version
      → decide from_value prepare req.user_id existing change
        ≡ ok (write (put (seeded change item)))
  unfolding decide decide_write decide_upsert next_version is_update
  decide_insert existing change v item i p q n s = ground arith

  insert_now :
      (existing t : Table C) (change : ChangeDelta) (v : Value) (item : Item C)
      → decide from_value prepare req.user_id existing change
        ≡ ok (write (put (seeded change item)))
      → req.references (prepare change item).0.columns ≡ true
      → one_by_one from_value prepare req existing (change ∷ []) (begin req t)
        ≡ ok (record {
          table = upsert_row req (seeded change item) t;
          success_ids = change.id ∷ [];
          upload_status = synced change.id (prepare change item).0.version ∷ [];
          remote_changes = [];
        })
  unfolding one_by_one begin perform_now write_now insert_on_conflict dangles upsert_row
  insert_now existing t change v item d refers = rw (d, refers)

  existing_map-none :
      (t : Table C) (change : ChangeDelta)
      → t change.id ≡ none
      → existing_map (change ∷ []) t change.id ≡ none
  unfolding existing_map
  existing_map-none t change h = ground arith

  -- The owner is looked up under the change's id, and the row is written under the payload's: an
  -- insert of an id that the table does not hold, with a payload that can be read, names an acceptable
  -- first version and refers only to rows that are there, is applied also where the payload carries
  -- the id of a row that is there, whoever owns it, and makes the caller the owner of that row, with
  -- the columns of the payload.
  pub upsert_takes_over :
      (t : Table C) (change : ChangeDelta) (v : Value) (item : Item C) (victim : Row C)
      → change.operation_type ≡ insert
      → change.payload ≡ some v
      → from_value v ≡ some item
      → t change.id ≡ none
      → t (prepare change item).0.id ≡ some victim
      → seed_version change.id (prepare change item).0.version ≡ ok (prepare change item).0.version
      → req.references (prepare change item).0.columns ≡ true
      → (o : Outcome C) × (row : Row C) × (committed
            (process_changes from_value prepare req (change ∷ []) t)
          ≡ some o)
        × (o.table (prepare change item).0.id ≡ some row)
        × (row.user_id ≡ some req.user_id)
        × (row.columns ≡ (prepare change item).0.columns)
  unfolding process_one_by_one
  upsert_takes_over t change v item victim i p q n h s refers =
      let d =
        decide_insert (existing_map (change ∷ []) t) change v item i p q
          (existing_map-none t change n) s in
      let u = seeded change item in
      (
        record {
          table = upsert_row req u t;
          success_ids = change.id ∷ [];
          upload_status = synced change.id u.version ∷ [];
          remote_changes = [];
        },
        written req u (some victim),
        process_changes_one_by_one from_value prepare req (change ∷ []) t
            ∙ ap committed (insert_now (existing_map (change ∷ []) t) t change v item d refers),
        unfold upsert_row in ground (arith, str_eq_iff u.id u.id),
        unfold written in refl,
        unfold written in refl,
      )

  abbrev pub advanced : ChangeDelta → Item C → ℤ → Upsert C
  advanced change item version =
      let (prepared, client) = prepare change item in
      record {
        id = prepared.id;
        columns = prepared.columns;
        created_at = prepared.created_at;
        version = version;
        is_deleted = prepared.is_deleted;
        updated_by = client;
      }

  -- A change that carries an update of a row of the caller's, which is at a version that advances to
  -- `n`, with columns that refer only to rows that are there.
  pub record OwnUpdate (existing : Table C) (n : ℤ) (change : ChangeDelta) (item : Item C)
      : Type 0 where
    pub value : Value
    pub row : Row C
    pub is_an_update : change.operation_type ≡ update
    pub carries : change.payload ≡ some value
    pub not_null : is_null value ≡ false
    pub reads : from_value value ≡ some item
    pub held : existing change.id ≡ some row
    pub owned : owns req.user_id row ≡ true
    pub advances : advance_version change.id row.version ≡ ok n
    pub refers : req.references (prepare change item).0.columns ≡ true

  pub decide_update :
      (existing : Table C) (n : ℤ) (change : ChangeDelta) (item : Item C)
      → OwnUpdate existing n change item
      → decide from_value prepare req.user_id existing change
        ≡ ok (write (put (advanced change item n)))
  unfolding decide decide_write decide_upsert next_version is_update has_no_data
  decide_update existing n change item u =
      ground (arith, u.is_an_update, u.carries, u.not_null, u.reads, u.held, u.owned, u.advances)

  two_now :
      (existing t : Table C) (n : ℤ) (c c' : ChangeDelta) (i i' : Item C)
      → decide from_value prepare req.user_id existing c ≡ ok (write (put (advanced c i n)))
      → decide from_value prepare req.user_id existing c' ≡ ok (write (put (advanced c' i' n)))
      → req.references (prepare c i).0.columns ≡ true
      → req.references (prepare c' i').0.columns ≡ true
      → one_by_one from_value prepare req existing (c ∷ c' ∷ []) (begin req t)
        ≡ ok (record {
          table = upsert_row req (advanced c' i' n) (upsert_row req (advanced c i n) t);
          success_ids = c.id ∷ c'.id ∷ [];
          upload_status = synced c.id n ∷ synced c'.id n ∷ [];
          remote_changes = [];
        })
  unfolding one_by_one begin perform_now write_now insert_on_conflict dangles upsert_row
  two_now existing t n c c' i i' d d' f f' = rw (d, f, d', f')

  OwnUpdate-read :
      (existing t : Table C) (n : ℤ) (change : ChangeDelta) (item : Item C)
      → existing change.id ≡ t change.id
      → OwnUpdate t n change item
      → OwnUpdate existing n change item
  OwnUpdate-read existing t n change item e u = record {
    value = u.value;
    row = u.row;
    is_an_update = u.is_an_update;
    carries = u.carries;
    not_null = u.not_null;
    reads = u.reads;
    held = e ∙ u.held;
    owned = u.owned;
    advances = u.advances;
    refers = u.refers;
  }

  -- Two updates of one row in one request, which is the caller's and can advance, each with a
  -- payload that can be read and refers only to rows that are there, are both applied, and both report the same version, the one after the
  -- row's: the rows are read once, before the loop.
  pub updates_share_version :
      (t : Table C) (n : ℤ) (c c' : ChangeDelta) (i i' : Item C)
      → c'.id ≡ c.id
      → OwnUpdate t n c i
      → OwnUpdate t n c' i'
      → (o : Outcome C) × (committed (process_changes from_value prepare req (c ∷ c' ∷ []) t)
          ≡ some o)
        × (o.upload_status ≡ synced c.id n ∷ synced c.id n ∷ [])
  unfolding process_one_by_one
  updates_share_version t n c c' i i' same u u' =
      let existing = existing_map (c ∷ c' ∷ []) t in
      let agree = existing_map-agrees (c ∷ c' ∷ []) t in
      let d = decide_update existing n c i (OwnUpdate-read existing t n c i agree.0 u) in
      let d' = decide_update existing n c' i' (OwnUpdate-read existing t n c' i' agree.1.0 u') in
      (
        record {
          table = upsert_row req (advanced c' i' n) (upsert_row req (advanced c i n) t);
          success_ids = c.id ∷ c'.id ∷ [];
          upload_status = synced c.id n ∷ synced c'.id n ∷ [];
          remote_changes = [];
        },
        process_changes_one_by_one from_value prepare req (c ∷ c' ∷ []) t
            ∙ ap committed (two_now existing t n c c' i i' d d' u.refers u'.refers),
        ap (λ x. synced c.id n ∷ synced x n ∷ []) same,
      )
