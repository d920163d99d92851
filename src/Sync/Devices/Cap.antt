-- ===== src/Sync/Devices/Cap.antt =====
-- What `ensure_device` and `fallback_device` (src/routes/sync/device.rs) do to the devices of an
-- account.
use teddy_fyi_api_rust.Prelude.{
  ℕ, ◌+◌, ◌≤◌, ◌<◌, ◌≡◌, ◌≢◌, refl, sym, ap, ◌∙◌, subst, String, Bool, true, false, Option, none,
  some, List, [], ◌∷◌, ◌++◌, map, arith, leb, leb→le, str_eq, str_eq_iff, if◌then◌else◌, inl, inr,
  Bool-cases,
}
use teddy_fyi_api_rust.Errors.{Result, ok, err, forbidden, too_many_requests}
use teddy_fyi_api_rust.Sync.Devices.{
  Device, find_device, names, registered_count, rename, clean_name, unwrap_or, ensure_device,
  default_device_name,
}

-- A rename leaves every id with its account.
abbrev pub holder : String → List Device → Option String
holder id ds = elim (find_device (names id) ds) [ none ↦ none | some d ↦ some d.user_id ]

renamed : String → Device → Device → Device
renamed name row d = if str_eq d.id row.id then record d { name = name } else d

holder-renamed :
    (name : String) (row : Device) (ds : List Device) (id : String)
    → holder id (map (renamed name row) ds) ≡ holder id ds
unfolding find_device renamed
holder-renamed name row [] id = refl
holder-renamed name row (d ∷ ds) id = ground (arith, holder-renamed name row ds id)

count-renamed :
    (name : String) (row : Device) (ds : List Device) (user : String)
    → registered_count user (map (renamed name row) ds) ≡ registered_count user ds
unfolding registered_count renamed
count-renamed name row [] user = refl
count-renamed name row (d ∷ ds) user = ground (arith, count-renamed name row ds user)

holder-rename :
    (name : Option String) (row : Device) (ds : List Device) (id : String)
    → holder id (rename name row ds) ≡ holder id ds
unfolding rename renamed
holder-rename none row ds id = refl
holder-rename (some name) row ds id = elim (Bool-cases (str_eq name row.name)) [
  | inl e ↦ rw e refl
  | inr e ↦ rw e (holder-renamed name row ds id)
]

registered_count-rename :
    (name : Option String) (row : Device) (ds : List Device) (user : String)
    → registered_count user (rename name row ds) ≡ registered_count user ds
unfolding rename renamed
registered_count-rename none row ds user = refl
registered_count-rename (some name) row ds user = elim (Bool-cases (str_eq name row.name)) [
  | inl e ↦ rw e refl
  | inr e ↦ rw e (count-renamed name row ds user)
]

module _ (new : Device) where
  count-added :
      (ds : List Device) (user : String)
      → registered_count user (ds ++ new ∷ [])
        ≡ registered_count user ds + (if str_eq new.user_id user then 1 else 0)
  unfolding registered_count
  count-added [] user = ground arith
  count-added (d ∷ ds) user = ground (arith, count-added ds user)

  holder-added :
      (ds : List Device) (id : String)
      → holder id (ds ++ new ∷ []) ≡ elim (holder id ds) [
        | none ↦ if str_eq new.id id then some new.user_id else none
        | some user ↦ some user
      ]
  unfolding find_device
  holder-added [] id = ground arith
  holder-added (d ∷ ds) id = ground (arith, holder-added ds id)

module _ (limit : ℕ) (user id : String) (ds : List Device) where
  -- The devices afterwards: the accounts of those there were stay, and `added` joins the account.
  pub record Grown (added : ℕ) (ds' : List Device) : Type 0 where
    pub held : holder id ds' ≡ some user
    pub kept : (other owner : String) → holder other ds ≡ some owner → holder other ds' ≡ some owner
    pub counted : registered_count user ds' ≡ registered_count user ds + added
    pub others :
        (other : String)
        → str_eq user other ≡ false
        → registered_count other ds' ≡ registered_count other ds

  -- What a registration may answer, and when.
  pub data Registration : Result (List Device) → Type 0 where
    registered :
        (ds' : List Device) → holder id ds ≡ some user → Grown 0 ds' → Registration (ok ds')
    taken :
        (owner : String)
        → holder id ds ≡ some owner
        → owner ≢ user
        → Registration (err (forbidden id))
    full :
        holder id ds ≡ none
        → limit ≤ registered_count user ds
        → Registration (err too_many_requests)
    added :
        (ds' : List Device)
        → holder id ds ≡ none
        → registered_count user ds < limit
        → Grown 1 ds'
        → Registration (ok ds')

  abbrev new_device : Option String → Device
  new_device name = record {
    id = id;
    user_id = user;
    name = unwrap_or (clean_name name) default_device_name;
  }

  new_device-Grown :
      (name : Option String) → holder id ds ≡ none → Grown 1 (ds ++ new_device name ∷ [])
  new_device-Grown name h = record {
    held = holder-added (new_device name) ds id ∙ rw h (ground (arith, str_eq_iff id id));
    kept = λ other owner k. holder-added (new_device name) ds other ∙ rw k refl;
    counted = ground (arith, count-added (new_device name) ds user, str_eq_iff user user);
    others = λ other n. ground (arith, count-added (new_device name) ds other);
  }

  rename-Grown :
      (name : Option String) (row : Device)
      → holder id ds ≡ some user
      → Grown 0 (rename name row ds)
  rename-Grown name row h = record {
    held = holder-rename name row ds id ∙ h;
    kept = λ other owner k. holder-rename name row ds other ∙ k;
    counted = ground (arith, registered_count-rename name row ds user);
    others = λ other n. registered_count-rename name row ds other;
  }

  -- A registration answers in one of four ways: a device of the account stays with it and takes no
  -- room, whatever the cap; one of another account is refused with a 403; one that no account has is
  -- refused with a 429 where the account is at the cap, and else takes one place in it.
  pub ensure_device-Registration :
      (name : Option String) → Registration (ensure_device limit user id name ds)
  unfolding ensure_device
  ensure_device-Registration name =
      answer (find_device (names id) ds) refl (leb limit (registered_count user ds)) refl
    where
      answer :
          (o : Option Device)
          → find_device (names id) ds ≡ o
          → (b : Bool) → leb limit (registered_count user ds) ≡ b
          → Registration (ensure_device limit user id name ds)
      answer none e true c =
          subst Registration (sym (ground (arith, e, c)))
            (full (rw (holder, e) refl) (leb→le limit (registered_count user ds) c))
      answer none e false c =
          let h : holder id ds ≡ none = rw (holder, e) refl in
          subst Registration (sym (ground (arith, e, c)))
            (added (ds ++ new_device name ∷ []) h (ground arith) (new_device-Grown name h))
      answer (some row) e b c =
          let h : holder id ds ≡ some row.user_id = rw (holder, e) refl in
          elim (Bool-cases (str_eq row.user_id user)) [
            | inl own ↦
                let mine = h ∙ ap some ((str_eq_iff row.user_id user).0 own) in
                subst Registration (sym (ground (arith, e, own))) (
                  registered (rename (clean_name name) row ds) mine
                    (rename-Grown (clean_name name) row mine))
            | inr other ↦
                subst Registration (sym (ground (arith, e, other)))
                  (taken row.user_id h (ground (arith, str_eq_iff row.user_id user)))
          ]
