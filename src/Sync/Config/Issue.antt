-- ===== src/Sync/Config/Issue.antt =====
-- A run of one kind of write (src/routes/sync/config.rs): what it issues, and what one write more adds.
use teddy_fyi_api_rust.Prelude.{
  ◌≡◌, refl, String, true, false, ◌||◌, List, [], ◌∷◌, ◌++◌, arith, str_eq, str_eq_iff,
}
use teddy_fyi_api_rust.Errors.{Result, ok, err, ◌>>=◌}
use teddy_fyi_api_rust.Sync.Paging.Fetch.{ConfigRow}
use teddy_fyi_api_rust.Sync.Config.Statements.{
  ConfigRequest, ConfigWrite, bump_config, delete_config,
}
use teddy_fyi_api_rust.Sync.Config.Batch.{has}
use teddy_fyi_api_rust.Sync.Config.Pending.{
  ConfigPending, ConfigBroadcast, InPlace, repeats, issue_insert, issue_update, insert_all,
  update_each, update_all, bump_each, bump_all, delete_each, delete_all, returned, flush_configs,
}

abbrev pub only_ins : List (String × ConfigWrite) → ConfigPending
only_ins ws = record { ins = ws; upd = []; bump = []; del = [] }

abbrev pub only_upd : List (String × ConfigWrite) → ConfigPending
only_upd ws = record { ins = []; upd = ws; bump = []; del = [] }

abbrev pub only_bump : List InPlace → ConfigPending
only_bump bs = record { ins = []; upd = []; bump = bs; del = [] }

abbrev pub only_del : List InPlace → ConfigPending
only_del ds = record { ins = []; upd = []; bump = []; del = ds }

pub has-append :
    (xs : List String) (x id : String) → has (xs ++ x ∷ []) id ≡ (has xs id || str_eq x id)
unfolding has
has-append [] x id = ground arith
has-append (y ∷ xs) x id = ground (arith, has-append xs x id)

pub repeats-append :
    (xs : List String) (x : String) → has xs x ≡ false → repeats (xs ++ x ∷ []) ≡ repeats xs
unfolding repeats has
repeats-append [] x h = refl
repeats-append (y ∷ xs) x h =
    ground (arith, has-append xs x y, repeats-append xs x, str_eq_iff y x, str_eq_iff x y)

bind_ok : {A : Type 0} (r : Result A) (f : A → Result A) → ((a : A) → f a ≡ ok a) → (r >>= f) ≡ r
bind_ok (ok a) f h = h a
bind_ok (err e) f h = refl

bind_assoc :
    {A B C : Type 0} (r : Result A) (f : A → Result B) (g : B → Result C) (h : A → Result C)
    → ((a : A) → h a ≡ (f a >>= g))
    → (r >>= h) ≡ ((r >>= f) >>= g)
bind_assoc (ok a) f g h e = e a
bind_assoc (err _) f g h e = refl

pub repeats-append_true :
    (xs : List String) (x : String) → repeats xs ≡ true → repeats (xs ++ x ∷ []) ≡ true
unfolding repeats
repeats-append_true [] x h = cc
repeats-append_true (y ∷ xs) x h = ground (arith, has-append xs x y, repeats-append_true xs x)

-- What a run issues, as it goes.
abbrev pub then_sent :
    Result (List ConfigRow)
    → (List ConfigRow → List ConfigBroadcast)
    → Result (List ConfigRow × List ConfigBroadcast)
then_sent r sent = r >>= λ rows. ok (rows, sent rows)

module _ (req : ConfigRequest) where
  pub insert_all-append :
      (ws : List (String × ConfigWrite)) (id : String) (w : ConfigWrite) (rows : List ConfigRow)
      → insert_all req (ws ++ (id, w) ∷ []) rows
        ≡ (insert_all req ws rows >>= issue_insert req id w)
  unfolding insert_all
  insert_all-append [] id w rows =
      bind_ok (issue_insert req id w rows) (insert_all req []) (λ _. refl)
  insert_all-append ((i, x) ∷ ws) id w rows =
      bind_assoc (issue_insert req i x rows) (insert_all req ws) (issue_insert req id w)
        (insert_all req (ws ++ (id, w) ∷ [])) (insert_all-append ws id w)

  pub update_each-append :
      (ws : List (String × ConfigWrite)) (id : String) (w : ConfigWrite) (rows : List ConfigRow)
      → update_each req (ws ++ (id, w) ∷ []) rows
        ≡ (update_each req ws rows >>= issue_update req id id w)
  unfolding update_each
  update_each-append [] id w rows =
      bind_ok (issue_update req id id w rows) (update_each req []) (λ _. refl)
  update_each-append ((i, x) ∷ ws) id w rows =
      bind_assoc (issue_update req i i x rows) (update_each req ws) (issue_update req id id w)
        (update_each req (ws ++ (id, w) ∷ [])) (update_each-append ws id w)

  pub bump_each-append :
      (bs : List InPlace) (b : InPlace) (rows : List ConfigRow)
      → bump_each req (bs ++ b ∷ []) rows
        ≡ bump_config req b.id b.device_uuid b.version (bump_each req bs rows)
  unfolding bump_each
  bump_each-append [] b rows = refl
  bump_each-append (x ∷ bs) b rows = bump_each-append bs b _

  pub delete_each-append :
      (bs : List InPlace) (b : InPlace) (rows : List ConfigRow)
      → delete_each req (bs ++ b ∷ []) rows
        ≡ delete_config req b.id b.device_uuid b.version (delete_each req bs rows)
  unfolding delete_each
  delete_each-append [] b rows = refl
  delete_each-append (x ∷ bs) b rows = delete_each-append bs b _

  pub flush-ins :
      (ws : List (String × ConfigWrite)) (rows : List ConfigRow)
      → flush_configs req (only_ins ws) rows ≡ then_sent (insert_all req ws rows) (λ _. [])
  unfolding flush_configs update_all update_each repeats bump_all bump_each delete_all delete_each
      returned
  flush-ins ws rows = ground arith

  pub flush-upd :
      (ws : List (String × ConfigWrite)) (rows : List ConfigRow)
      → flush_configs req (only_upd ws) rows ≡ then_sent (update_all req ws rows) (λ _. [])
  unfolding flush_configs insert_all repeats bump_all bump_each delete_all delete_each returned
  flush-upd ws rows = ground arith

  pub flush-bump :
      (bs : List InPlace) (rows : List ConfigRow)
      → flush_configs req (only_bump bs) rows
        ≡ then_sent (bump_all req bs rows) (λ r. returned req bs r ++ [])
  unfolding flush_configs insert_all update_all update_each repeats delete_all delete_each returned
  flush-bump bs rows = ground arith

  pub flush-del :
      (ds : List InPlace) (rows : List ConfigRow)
      → flush_configs req (only_del ds) rows
        ≡ then_sent (delete_all req ds rows) (λ r. returned req ds r)
  unfolding flush_configs insert_all update_all update_each repeats bump_all bump_each returned
  flush-del ds rows = ground arith
