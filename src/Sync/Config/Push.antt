-- ===== src/Sync/Config/Push.antt =====
-- One write more in a run (src/routes/sync/config.rs): issuing the longer run is issuing the run, and
-- then the write.
use teddy_fyi_api_rust.Prelude.{
  ◌≡◌, refl, sym, ap, ◌∙◌, subst, String, false, inl, inr, List, [], ◌∷◌, ◌++◌, map, arith,
  Bool-cases,
}
use teddy_fyi_api_rust.Errors.{Result, ok, err, AppError, ◌>>=◌}
use teddy_fyi_api_rust.Sync.Paging.Fetch.{ConfigRow}
use teddy_fyi_api_rust.Sync.Config.Statements.{
  ConfigRequest, ConfigWrite, bump_config, delete_config,
}
use teddy_fyi_api_rust.Sync.Config.Batch.{has}
use teddy_fyi_api_rust.Sync.Config.Pending.{
  ConfigBroadcast, InPlace, repeats, issue_insert, issue_update, insert_all, update_all, bump_all,
  delete_all, returned, flush_configs, refused,
}
use teddy_fyi_api_rust.Sync.Config.Issue.{
  only_ins, only_upd, only_bump, only_del, repeats-append, repeats-append_true, then_sent,
  insert_all-append, update_each-append, bump_each-append, delete_each-append, flush-ins, flush-upd,
  flush-bump, flush-del,
}

abbrev pub Fails : {A : Type 0} → Result A → Type 0
Fails r = (e : AppError) × (r ≡ err e)

sent-ok :
    (r : Result (List ConfigRow)) (f : List ConfigRow → List ConfigBroadcast)
    (rows : List ConfigRow) (sent : List ConfigBroadcast)
    → then_sent r f ≡ ok (rows, sent)
    → r ≡ ok rows
sent-ok (ok r) f rows sent h = ground arith
sent-ok (err e) f rows sent h = cc

sent-Fails :
    (r : Result (List ConfigRow)) (f : List ConfigRow → List ConfigBroadcast)
    → Fails (then_sent r f)
    → Fails r
sent-Fails (ok r) f (e, h) = cc
sent-Fails (err e) f h = (e, refl)

Fails-sent :
    (r : Result (List ConfigRow)) (f : List ConfigRow → List ConfigBroadcast)
    → Fails r
    → Fails (then_sent r f)
Fails-sent r f (e, h) = (e, rw h refl)

Fails-bind : {A B : Type 0} (r : Result A) (f : A → Result B) → Fails r → Fails (r >>= f)
Fails-bind r f (e, h) = (e, rw h refl)

pub ids-append :
    {A : Type 0} (f : A → String) (xs : List A) (x : A)
    → map f (xs ++ x ∷ []) ≡ map f xs ++ f x ∷ []
ids-append f [] x = refl
ids-append f (y ∷ xs) x = ap (λ t. f y ∷ t) (ids-append f xs x)

abbrev pub key_of : String × ConfigWrite → String
key_of w = w.0

abbrev pub id_of : InPlace → String
id_of b = b.id

module _ (req : ConfigRequest) (base rows : List ConfigRow) (sent : List ConfigBroadcast) where
  pub push-ins :
      (ws : List (String × ConfigWrite)) (id : String) (w : ConfigWrite)
      → flush_configs req (only_ins ws) base ≡ ok (rows, sent)
      → flush_configs req (only_ins (ws ++ (id, w) ∷ [])) base
        ≡ then_sent (issue_insert req id w rows) (λ _. [])
  push-ins ws id w h =
      let done =
        sent-ok (insert_all req ws base) (λ _. []) rows sent (sym (flush-ins req ws base) ∙ h) in
      rw (flush-ins req (ws ++ (id, w) ∷ []) base, insert_all-append req ws id w base, done) refl

  pub push-upd :
      (ws : List (String × ConfigWrite)) (id : String) (w : ConfigWrite)
      → has (map key_of ws) id ≡ false
      → flush_configs req (only_upd ws) base ≡ ok (rows, sent)
      → flush_configs req (only_upd (ws ++ (id, w) ∷ [])) base
        ≡ then_sent (issue_update req id id w rows) (λ _. [])
  unfolding update_all
  push-upd ws id w n h =
      let done =
        sent-ok (update_all req ws base) (λ _. []) rows sent (sym (flush-upd req ws base) ∙ h) in
      ground (
        arith,
        done,
        flush-upd req (ws ++ (id, w) ∷ []) base,
        update_each-append req ws id w base,
        ids-append key_of ws (id, w),
        repeats-append (map key_of ws) id n,
      )

  pub push-bump :
      (bs : List InPlace) (b : InPlace)
      → has (map id_of bs) b.id ≡ false
      → flush_configs req (only_bump bs) base ≡ ok (rows, sent)
      → flush_configs req (only_bump (bs ++ b ∷ [])) base
        ≡ ok (
          bump_config req b.id b.device_uuid b.version rows,
          returned req (bs ++ b ∷ []) (bump_config req b.id b.device_uuid b.version rows) ++ [],
        )
  unfolding bump_all
  push-bump bs b n h =
      let done =
        sent-ok (bump_all req bs base) (λ r. returned req bs r ++ []) rows sent
          (sym (flush-bump req bs base) ∙ h) in
      ground (
        arith,
        done,
        flush-bump req (bs ++ b ∷ []) base,
        bump_each-append req bs b base,
        ids-append id_of bs b,
        repeats-append (map id_of bs) b.id n,
      )

  pub push-del :
      (bs : List InPlace) (b : InPlace)
      → has (map id_of bs) b.id ≡ false
      → flush_configs req (only_del bs) base ≡ ok (rows, sent)
      → flush_configs req (only_del (bs ++ b ∷ [])) base
        ≡ ok (
          delete_config req b.id b.device_uuid b.version rows,
          returned req (bs ++ b ∷ []) (delete_config req b.id b.device_uuid b.version rows),
        )
  unfolding delete_all
  push-del bs b n h =
      let done =
        sent-ok (delete_all req bs base) (λ r. returned req bs r) rows sent
          (sym (flush-del req bs base) ∙ h) in
      ground (
        arith,
        done,
        flush-del req (bs ++ b ∷ []) base,
        delete_each-append req bs b base,
        ids-append id_of bs b,
        repeats-append (map id_of bs) b.id n,
      )

-- A run that cannot be issued is not mended by a write more.
module _ (req : ConfigRequest) (base : List ConfigRow) where
  pub push-ins_Fails :
      (ws : List (String × ConfigWrite)) (id : String) (w : ConfigWrite)
      → Fails (flush_configs req (only_ins ws) base)
      → Fails (flush_configs req (only_ins (ws ++ (id, w) ∷ [])) base)
  push-ins_Fails ws id w h = subst Fails (sym (flush-ins req (ws ++ (id, w) ∷ []) base)) (
      Fails-sent _ (λ _. [])
        (subst Fails (sym (insert_all-append req ws id w base)) (
          Fails-bind (insert_all req ws base) (issue_insert req id w) (
            sent-Fails (insert_all req ws base) (λ _. [])
              (subst Fails (flush-ins req ws base) h)))))

  update_all-Fails :
      (ws : List (String × ConfigWrite)) (id : String) (w : ConfigWrite)
      → Fails (update_all req ws base)
      → Fails (update_all req (ws ++ (id, w) ∷ []) base)
  unfolding update_all
  update_all-Fails ws id w (e, h) = elim (Bool-cases (repeats (map key_of (ws ++ (id, w) ∷ [])))) [
    | inl y ↦ (refused, rw y refl)
    | inr n ↦ (
      e,
      ground (
        arith,
        update_each-append req ws id w base,
        ids-append key_of ws (id, w),
        repeats-append_true (map key_of ws) id,
      ),
    )
  ]

  pub push-upd_Fails :
      (ws : List (String × ConfigWrite)) (id : String) (w : ConfigWrite)
      → Fails (flush_configs req (only_upd ws) base)
      → Fails (flush_configs req (only_upd (ws ++ (id, w) ∷ [])) base)
  push-upd_Fails ws id w h = subst Fails (sym (flush-upd req (ws ++ (id, w) ∷ []) base)) (
      Fails-sent (update_all req (ws ++ (id, w) ∷ []) base) (λ _. [])
        (update_all-Fails ws id w
          (sent-Fails (update_all req ws base) (λ _. []) (subst Fails (flush-upd req ws base) h))))

  bump_all-Fails :
      (bs : List InPlace) (b : InPlace)
      → Fails (bump_all req bs base)
      → Fails (bump_all req (bs ++ b ∷ []) base)
  unfolding bump_all
  bump_all-Fails bs b (e, h) =
      (e, ground (arith, ids-append id_of bs b, repeats-append_true (map id_of bs) b.id))

  pub push-bump_Fails :
      (bs : List InPlace) (b : InPlace)
      → Fails (flush_configs req (only_bump bs) base)
      → Fails (flush_configs req (only_bump (bs ++ b ∷ [])) base)
  push-bump_Fails bs b h = subst Fails (sym (flush-bump req (bs ++ b ∷ []) base)) (
      Fails-sent (bump_all req (bs ++ b ∷ []) base) (λ r. returned req (bs ++ b ∷ []) r ++ [])
        (bump_all-Fails bs b (
          sent-Fails (bump_all req bs base) (λ r. returned req bs r ++ [])
            (subst Fails (flush-bump req bs base) h))))

  delete_all-Fails :
      (bs : List InPlace) (b : InPlace)
      → Fails (delete_all req bs base)
      → Fails (delete_all req (bs ++ b ∷ []) base)
  unfolding delete_all
  delete_all-Fails bs b (e, h) =
      (e, ground (arith, ids-append id_of bs b, repeats-append_true (map id_of bs) b.id))

  pub push-del_Fails :
      (bs : List InPlace) (b : InPlace)
      → Fails (flush_configs req (only_del bs) base)
      → Fails (flush_configs req (only_del (bs ++ b ∷ [])) base)
  push-del_Fails bs b h = subst Fails (sym (flush-del req (bs ++ b ∷ []) base)) (
      Fails-sent (delete_all req (bs ++ b ∷ []) base) (λ r. returned req (bs ++ b ∷ []) r)
        (delete_all-Fails bs b (
          sent-Fails (delete_all req bs base) (λ r. returned req bs r)
            (subst Fails (flush-del req bs base) h))))
