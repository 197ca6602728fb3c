-- ===== src/Storage/Contacts/Tests.antt =====
-- Runs of `saveSyncedContact`, and its theorems at concrete input.
use signal2sip.Base.{◌≡◌, refl, ◌⊎◌, true, some, [], ◌∷◌, arith, is_empty, Bytes, codes, ok, err}
use signal2sip.Storage.Records.{Database, SyncedContactRecord, unique_failed}
use signal2sip.Storage.Sample.{sample, alice, bob}
use signal2sip.Storage.Contacts.{
  has_e164, has_aci, select, id_of, existing_id, clashes, conflicts, update_row, written_row,
  save_synced_contact, load_synced_contact, load_synced_contact_by_aci,
}
use signal2sip.Storage.Contacts.Unique.{Distinct}
use signal2sip.Storage.Contacts.Saving.{Inv}
use signal2sip.Storage.Contacts.Lookup.{load_synced_contact-save}

abbrev main : Bytes
main = codes "main"

-- Alice under a new name.
abbrev renamed : SyncedContactRecord
renamed = record alice { given_name = codes "Alicia" }

abbrev after : Database
after = record sample {
  synced_contact =
      record { id = 1; account_name = main; contact = record renamed { synced_at = 9 } }
      ∷ record { id = 2; account_name = main; contact = bob }
      ∷ [];
}

save_renamed : save_synced_contact sample main 9 renamed ≡ ok after
unfolding save_synced_contact written_row existing_id id_of select has_e164 has_aci conflicts
    clashes update_row
save_renamed = refl

-- The number of Alice with the identifier of Bob belongs to two rows.
refused : save_synced_contact sample main 9 (record alice { aci = codes "y" }) ≡ err unique_failed
unfolding save_synced_contact written_row existing_id id_of select has_e164 has_aci conflicts
    clashes update_row
refused = refl

sample-Inv : Inv sample
unfolding Distinct clashes has_e164 has_aci
sample-Inv = record {
  distinct = ((record { ids = λ e. omega arith; keys = refl }, tt), (tt, tt));
  ids_below = (omega arith, (omega arith, tt));
}

load_synced_contact-save_example :
    ((is_empty renamed.e164 ≡ true)
      ⊎ (load_synced_contact after main renamed.e164 ≡ some (record renamed { synced_at = 9 })))
    × ((is_empty renamed.aci ≡ true)
        ⊎ (load_synced_contact_by_aci after main renamed.aci
            ≡ some (record renamed { synced_at = 9 })))
load_synced_contact-save_example =
    load_synced_contact-save sample after main 9 renamed sample-Inv save_renamed
