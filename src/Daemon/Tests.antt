-- ===== src/Daemon/Tests.antt =====
-- The theorems on the reload and the sync at concrete input. In the reload one account changes
-- and one is gone.
use signal2sip.Base.{ℕ, ◌++◌, List, refl, ◌≡◌, true, some, [], ◌∷◌, codes, ok, err}
use signal2sip.Storage.Records.{Database, SyncedContactRecord}
use signal2sip.Storage.Sample.{sample, sample_account, alice, bob}
use signal2sip.Storage.Contacts.{
  save_synced_contact, conflicts, existing_id, id_of, select, written_row, has_aci, has_e164,
  clashes, update_row,
}
use signal2sip.Storage.Accounts.{has_account, find_account}
use signal2sip.Storage.Contacts.Unique.{Distinct}
use signal2sip.Storage.Contacts.Saving.{Inv}
use signal2sip.Daemon.Sync.{
  Stored, save_or_skip, sync_contacts, sync_storage_contacts, sync_storage_contacts-Stored,
}
use signal2sip.Config.Accept.{built}
use signal2sip.Config.Load.{GlobalConfig, DaemonConfig, cannot_open_config}
use signal2sip.Daemon.{Running, find_config, by_name, reload_config}
use signal2sip.Daemon.Reload.{reloaded, find_config-reload_config}

abbrev global : GlobalConfig
global = record {
  db_path = codes "p";
  db_key = codes "k";
  sip_reg_watchdog_sec = 60;
  resolved_contact_ttl_sec = 86400;
  storage_sync_interval_sec = 43200;
  config_poll_interval_sec = 30;
}

abbrev before : Running
before = record {
  global = global;
  accounts =
      (codes "main", built (codes "main") sample_account)
      ∷ (codes "alt", built (codes "alt") sample_account)
      ∷ [];
}

abbrev daemon : DaemonConfig
daemon = record {
  global = global;
  accounts = built (codes "main") (record sample_account { config_version = 5 }) ∷ [];
}

find_config-reload_config_example :
    (find_config (codes "main") (reload_config (λ c. true) (ok daemon) before).accounts
      ≡ reloaded
          (λ c. true)
          (find_config (codes "main") (by_name daemon.accounts))
          (find_config (codes "main") before.accounts))
    × (reload_config (λ c. true) (err cannot_open_config) before ≡ before)
find_config-reload_config_example =
    find_config-reload_config (λ c. true) daemon cannot_open_config before (codes "main")

-- A database without synced contacts.
abbrev empty : Database
empty = record sample { synced_contact = [] }

empty-Inv : Inv empty
unfolding Distinct
empty-Inv = record { distinct = tt; ids_below = tt }

-- The third contact has the number of one row and the ACI of the other, and is refused.
abbrev before_bob : List (ℕ × SyncedContactRecord)
before_bob = (5, alice) ∷ (6, bob) ∷ (7, record alice { aci = bob.aci }) ∷ []

abbrev after_bob : Database
after_bob = sync_contacts (codes "main") empty ((5, alice) ∷ (8, bob) ∷ [])

bob-saved :
    save_synced_contact (sync_contacts (codes "main") empty before_bob) (codes "main") 8 bob
    ≡ ok after_bob
unfolding save_synced_contact sync_contacts save_or_skip conflicts existing_id id_of select
    has_account find_account written_row has_aci has_e164 clashes update_row
bob-saved = refl

sync_storage_contacts-Stored_example : Stored (codes "main") 8 bob (
    (sync_storage_contacts
      (codes "main")
      (some (1 ∷ []))
      90
      (some (before_bob ++ (8, bob) ∷ []))
      empty).0)
sync_storage_contacts-Stored_example =
    sync_storage_contacts-Stored (codes "main") (1 ∷ []) 90 8 before_bob bob empty after_bob
      empty-Inv refl refl bob-saved
