-- ===== src/Storage/Sample.antt =====
-- A small database for the tests.
use signal2sip.Base.{true, false, none, some, [], ◌∷◌, codes}
use signal2sip.Storage.Records.{AccountRecord, Database, SyncedContactRecord}

abbrev pub sample_account : AccountRecord
sample_account = record {
  e164 = codes "+380000000001";
  aci = codes "a1";
  pni = codes "p1";
  password = codes "secret";
  device_id = 1;
  registration_id = 10;
  pni_registration_id = 11;
  flow = none;
  account_entropy_pool = none;
  media_root_backup_key = none;
  profile_key = none;
  registered_at = some 100;
  linked_at = none;
  prekeys_refreshed_at = none;
  server_url = codes "https://chat.signal.org";
  sip_host = codes "pbx";
  sip_extension = codes "100";
  sip_password = [];
  sip_bridge_destination = codes "200";
  sip_bridge_did = [];
  sip_srtp = codes "optional";
  sip_transport = codes "tls";
  sip_tls_ca_file = [];
  sip_tls_insecure = true;
  outgoing_call_target = [];
  signal_proxy = [];
  signal_censorship_circumvention = false;
  enabled = true;
  config_version = 4;
}

abbrev pub alice : SyncedContactRecord
alice = record {
  e164 = codes "+1";
  aci = codes "x";
  pni = [];
  profile_key = [];
  given_name = codes "Alice";
  family_name = [];
  synced_at = 5;
}

abbrev pub bob : SyncedContactRecord
bob = record {
  e164 = [];
  aci = codes "y";
  pni = [];
  profile_key = [];
  given_name = codes "Bob";
  family_name = [];
  synced_at = 6;
}

abbrev pub sample : Database
sample = record {
  account = (codes "main", sample_account) ∷ (codes "alt", sample_account) ∷ [];
  identity_keypair = [];
  signed_prekey = [];
  kyber_prekey = [];
  session = (codes "main", codes "x.1", 1 ∷ 2 ∷ []) ∷ [];
  remote_identity = [];
  resolved_contact = [];
  synced_contact =
      record { id = 1; account_name = codes "main"; contact = alice }
      ∷ record { id = 2; account_name = codes "main"; contact = bob }
      ∷ [];
  next_id = 3;
}
