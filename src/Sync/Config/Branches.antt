-- ===== src/Sync/Config/Branches.antt =====
-- What follows a resolved device or a row that is looked up, in both forms of the upload of configs
-- (src/routes/sync/config.rs), against the same change on its own.
use teddy_fyi_api_rust.Prelude.{◌≡◌, refl, String, Option, none, some, List, inl, inr}
use teddy_fyi_api_rust.Errors.{Result, Result-cases, ◌>>=◌}
use teddy_fyi_api_rust.Sync.Devices.{Device, registered_device_set, resolve_item_device}
use teddy_fyi_api_rust.Sync.Devices.Registered.{
  IsSteady, resolve_item_device_cached_steady, resolve_item_device-IsSteady,
}
use teddy_fyi_api_rust.Sync.Paging.Fetch.{ConfigRow}
use teddy_fyi_api_rust.Sync.Config.Statements.{ConfigRequest}
use teddy_fyi_api_rust.Sync.Config.Buffer.{Uploading}
use teddy_fyi_api_rust.Sync.Config.Process.{Uploader, with_devices, resolve_device}
use teddy_fyi_api_rust.Sync.Config.Alone.{Alone, resolve_alone}
use teddy_fyi_api_rust.Sync.Config.Tracks.{IsAt}
use teddy_fyi_api_rust.Sync.Config.Landing.{Follows}

module _ (who : Uploader) (candidates : List String) (ds : List Device) where
  abbrev req : ConfigRequest
  req = who.request

  abbrev pub Agree : Result Uploading → Result Alone → Type 0
  Agree = Follows who candidates ds

  abbrev pub set : List String
  set = registered_device_set who.device_rule req.user_id candidates ds

  -- A device is resolved alike, and what follows goes on from states that agree.
  pub device-Follows :
      (change_id : String) (named : Option String) (s : Uploading) (rows : List ConfigRow)
      (f : String × Uploading → Result Uploading) (g : String × Alone → Result Alone)
      → IsAt req s rows
      → IsSteady ds who.device_rule s.told.devices
      → ((device : String) (after : List Device)
          → IsSteady ds who.device_rule after
          → Agree
              (f (device, with_devices after s))
              (g (device, record { rows = rows; told = record (s.told) { devices = after } })))
      → Agree
          (resolve_device who set change_id named s >>= f)
          (resolve_alone who change_id named record { rows = rows; told = s.told } >>= g)
  unfolding resolve_device resolve_alone
  device-Follows change_id named s rows f g at steady next =
      let same =
        resolve_item_device_cached_steady who.max_devices req.user_id candidates ds s.told.devices
          who.device_rule named change_id steady in
      elim (Result-cases (
        resolve_item_device who.max_devices who.device_rule req.user_id named change_id
          s.told.devices)) [
            | inr (x, e) ↦ rw (same, e) tt
            | inl ((device, after), e) ↦
                rw (same, e)
                  (next device after (
                    resolve_item_device-IsSteady who.max_devices req.user_id candidates ds
                      s.told.devices who.device_rule named change_id device after steady e))
          ]

  pub found-Follows :
      (o : Option ConfigRow) (n : Result Uploading) (f : ConfigRow → Result Uploading)
      (n' : Result Alone) (f' : ConfigRow → Result Alone)
      → (o ≡ none → Agree n n')
      → ((row : ConfigRow) → o ≡ some row → Agree (f row) (f' row))
      → Agree (elim o [ none ↦ n | some row ↦ f row ]) (elim o [ none ↦ n' | some row ↦ f' row ])
  found-Follows none n f n' f' dn df = dn refl
  found-Follows (some row) n f n' f' dn df = df row refl
