-- ===== src/Storage/Isolation/Tests.antt =====
-- The theorem on `deleteAccount` at concrete input.
use signal2sip.Base.{◌≡◌, none, if◌then◌else◌, Bytes, codes, eqb, err}
use signal2sip.Storage.Records.{no_account_row}
use signal2sip.Storage.Sample.{sample}
use signal2sip.Storage.Accounts.{load_account}
use signal2sip.Storage.Keys.{
  load_identity_keypair, load_signed_prekey, load_kyber_prekey, load_session, load_remote_identity,
  load_resolved_contact,
}
use signal2sip.Storage.Contacts.{load_synced_contact, load_synced_contact_by_aci}
use signal2sip.Storage.Isolation.{delete_everything, delete_everything_lem}

abbrev main : Bytes
main = codes "main"

abbrev alt : Bytes
alt = codes "alt"

delete_everything_lem_example :
    let next = delete_everything sample alt in
    (load_account next main
      ≡ (if eqb alt main then err no_account_row else load_account sample main))
    × (load_identity_keypair next main main
        ≡ (if eqb alt main then none else load_identity_keypair sample main main))
    × (load_signed_prekey next main main
        ≡ (if eqb alt main then none else load_signed_prekey sample main main))
    × (load_kyber_prekey next main main
        ≡ (if eqb alt main then none else load_kyber_prekey sample main main))
    × (load_session next main main ≡ (if eqb alt main then none else load_session sample main main))
    × (load_remote_identity next main main
        ≡ (if eqb alt main then none else load_remote_identity sample main main))
    × (load_resolved_contact next main main
        ≡ (if eqb alt main then none else load_resolved_contact sample main main))
    × (load_synced_contact next main main
        ≡ (if eqb alt main then none else load_synced_contact sample main main))
    × (load_synced_contact_by_aci next main main
        ≡ (if eqb alt main then none else load_synced_contact_by_aci sample main main))
delete_everything_lem_example = delete_everything_lem sample alt main main
