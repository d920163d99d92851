-- ===== src/Sync/Todo/Ownership.antt =====
-- Whose rows a batch can touch, and that rows stay (src/routes/sync/todo/todo_lists.rs,
-- todo_items.rs).
use teddy_fyi_api_rust.Prelude.{
  ◌≡◌, refl, sym, ap, ◌∙◌, String, true, false, Option, some, List, [], ◌∷◌, inl, inr, str_eq,
  str_eq_iff, arith, Bool-cases,
}
use teddy_fyi_api_rust.Prelude.Int.{ℤ, ◌≤ℤ◌, ◌+ℤ◌}
use teddy_fyi_api_rust.Json.{Value}
use teddy_fyi_api_rust.Errors.{ok}
use teddy_fyi_api_rust.Sync.Versioning.Ceiling.{advance_version-le}
use teddy_fyi_api_rust.Sync.Types.{ChangeDelta}
use teddy_fyi_api_rust.Sync.Todo.Table.{
  Row, Table, Request, insert_on_conflict, bump_row, soft_delete, written, delete_row, deleted,
}
use teddy_fyi_api_rust.Sync.Todo.Decide.{
  Item, Write, put, bump, remove, target, owns, existing_map, decide, write, decide_write,
  decide_delete, decide_upsert, decide_bump, decide_need_update, next_version,
}
use teddy_fyi_api_rust.Sync.Todo.Process.{Outcome, process_changes}
use teddy_fyi_api_rust.Sync.Todo.OneByOne.{write_now}
use teddy_fyi_api_rust.Sync.Todo.Rows.{
  AllChanges, existing_map-agrees, NamesItself, write_now_other, decide-target, decide_foreign,
}
use teddy_fyi_api_rust.Sync.Todo.Keeps.{WriteKeeps, process_changes_keeps}

AllChanges-zip :
    (P Q R : ChangeDelta → Type 0) (cs : List ChangeDelta)
    → ((c : ChangeDelta) → P c → Q c → R c)
    → AllChanges P cs
    → AllChanges Q cs
    → AllChanges R cs
AllChanges-zip P Q R [] f a b = tt
AllChanges-zip P Q R (c ∷ cs) f a b = (f c a.0 b.0, AllChanges-zip P Q R cs f a.1 b.1)

-- The version that a write names, if it names one.
abbrev new_version : {C : Type 0} → Row C → Write C → ℤ
new_version r (put u) = u.version
new_version r (bump id v) = v
new_version r (remove id) = r.version

module _ {C : Type 0} (from_value : Value → Option (Item C))
    (prepare : ChangeDelta → Item C → Item C × String) (req : Request C) where
  -- A row that is written again moves up from the version that the loop read.
  decide_put-le :
      (existing : Table C) (change : ChangeDelta) (r : Row C) (w : Write C)
      → existing change.id ≡ some r
      → decide from_value prepare req.user_id existing change ≡ ok (write w)
      → r.version ≤ℤ new_version r w
  unfolding decide decide_write decide_delete decide_upsert decide_bump decide_need_update
      next_version
  decide_put-le existing change r (put u) h e =
      ground (arith, advance_version-le change.id r.version u.version)
  decide_put-le existing change r (bump id v) h e =
      ground (arith, advance_version-le change.id r.version v)
  decide_put-le existing change r (remove id) h e = omega arith

  module _ (t : Table C) (j : String) (r : Row C) (held : t j ≡ some r) where
    -- The row as the loop sees it, and as it stands, for a write that names it.
    found :
        (existing : Table C) (change : ChangeDelta) (w : Write C)
        → existing change.id ≡ t change.id
        → target w ≡ change.id
        → str_eq j (target w) ≡ true
        → existing change.id ≡ some r
    found existing change w agree tar e =
        agree ∙ ap t (sym (((str_eq_iff j (target w)).0 e) ∙ tar)) ∙ held

    foreign_write :
        (existing : Table C) (change : ChangeDelta)
        → owns req.user_id r ≡ false
        → existing change.id ≡ t change.id
        → NamesItself from_value prepare req.user_id change
        → WriteKeeps from_value prepare req (λ t'. t' j ≡ some r) existing change
    foreign_write existing change f agree named w t1 t2 v e m p =
        let tar = decide-target from_value prepare req.user_id existing change w named e in
        elim (Bool-cases (str_eq j (target w))) [
          | inl hit ↦ absurd (
              decide_foreign from_value prepare req.user_id existing change r w
                (found existing change w agree tar hit) f e)
          | inr miss ↦ write_now_other req w t1 t2 v j miss m ∙ p
        ]

    -- Where every payload carries the id of its change, a batch that is applied leaves each row of
    -- another account, or of none, exactly as it was.
    pub foreign_row_kept :
        (changes : List ChangeDelta) (o : Outcome C)
        → owns req.user_id r ≡ false
        → AllChanges (NamesItself from_value prepare req.user_id) changes
        → process_changes from_value prepare req changes t ≡ ok o
        → o.table j ≡ some r
    foreign_row_kept changes o f named e =
        process_changes_keeps from_value prepare req (λ t'. t' j ≡ some r) changes t o
          (AllChanges-zip _ _ _ changes
            (λ c agree n. foreign_write (existing_map changes t) c f agree n)
            (existing_map-agrees changes t) named)
          e held

    -- The row is still there, as old, and its version has not fallen.
    abbrev pub Survives : Table C → Type 0
    Survives t' =
        (r' : Row C) × (t' j ≡ some r') × (r.version ≤ℤ r'.version) × (r'.created_at ≡ r.created_at)

    Survives-here :
        (w : Write C) (t1 t2 : Table C) (v : ℤ)
        → r.version ≤ℤ new_version r w
        → j ≡ target w
        → write_now req w t1 ≡ ok (t2, v)
        → Survives t1
        → Survives t2
    unfolding write_now target insert_on_conflict bump_row soft_delete written delete_row ◌+ℤ◌
    Survives-here (put u) t1 t2 v h e m (r', p, le, old) =
        (written req u (some r'), ground (arith, str_eq_iff j u.id), h, old)
    Survives-here (bump id n) t1 t2 v h e m (r', p, le, old) = (
      record r' {
        version = n;
        updated_at = req.server_timestamp;
        updated_by_client = some req.client_id;
        sync_state = "SYNCED";
      },
      ground (arith, str_eq_iff j id),
      h,
      old,
    )
    Survives-here (remove id) t1 t2 v h e m (r', p, le, old) =
        (deleted req r', ground (arith, str_eq_iff j id), ground arith, old)

    Survives-write :
        (existing : Table C) (change : ChangeDelta)
        → existing change.id ≡ t change.id
        → NamesItself from_value prepare req.user_id change
        → WriteKeeps from_value prepare req Survives existing change
    Survives-write existing change agree named w t1 t2 v e m (r', p, le, old) =
        let tar = decide-target from_value prepare req.user_id existing change w named e in
        elim (Bool-cases (str_eq j (target w))) [
          | inl hit ↦
              Survives-here w t1 t2 v
                (decide_put-le existing change r w (found existing change w agree tar hit) e)
                ((str_eq_iff j (target w)).0 hit) m (r', p, le, old)
          | inr miss ↦ (r', write_now_other req w t1 t2 v j miss m ∙ p, le, old)
        ]

    -- Where every payload carries the id of its change, a batch that is applied removes no row: each
    -- row of the table is still there, with its creation time, and its version has not fallen.
    pub rows_survive :
        (changes : List ChangeDelta) (o : Outcome C)
        → AllChanges (NamesItself from_value prepare req.user_id) changes
        → process_changes from_value prepare req changes t ≡ ok o
        → Survives o.table
    rows_survive changes o named e =
        process_changes_keeps from_value prepare req Survives changes t o
          (AllChanges-zip _ _ _ changes
            (λ c agree n. Survives-write (existing_map changes t) c agree n)
            (existing_map-agrees changes t) named)
          e (r, held, omega arith, refl)
