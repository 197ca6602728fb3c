-- ===== src/Storage/Records.antt =====
-- storage/Storage.h and storage/schema.sql: the records, the tables and the errors.
-- An `int64_t` here is only stored and compared, except for `config_version`, which is counted up.
use signal2sip.Base.{ℕ, Bool, Option, List, Bytes}

pub record AccountRecord : Type 0 where
  pub e164 : Bytes
  pub aci : Bytes
  pub pni : Bytes
  pub password : Bytes
  pub device_id : ℕ
  pub registration_id : ℕ
  pub pni_registration_id : ℕ
  pub flow : Option Bytes
  pub account_entropy_pool : Option Bytes
  pub media_root_backup_key : Option Bytes
  pub profile_key : Option Bytes
  pub registered_at : Option ℕ
  pub linked_at : Option ℕ
  pub prekeys_refreshed_at : Option ℕ
  pub server_url : Bytes
  pub sip_host : Bytes
  pub sip_extension : Bytes
  pub sip_password : Bytes
  pub sip_bridge_destination : Bytes
  pub sip_bridge_did : Bytes
  pub sip_srtp : Bytes
  pub sip_transport : Bytes
  pub sip_tls_ca_file : Bytes
  pub sip_tls_insecure : Bool
  pub outgoing_call_target : Bytes
  pub signal_proxy : Bytes
  pub signal_censorship_circumvention : Bool
  pub enabled : Bool
  pub config_version : ℕ

pub record AccountSummary : Type 0 where
  pub account_name : Bytes
  pub e164 : Bytes
  pub enabled : Bool
  pub config_version : ℕ

pub record IdentityKeypairRecord : Type 0 where
  pub private_key : Bytes
  pub public_key : Bytes

-- `SignedPrekeyRecord` and `KyberPrekeyRecord` have the same two members.
pub record PrekeyRecord : Type 0 where
  pub key_id : ℕ
  pub serialized : Bytes

pub record ResolvedContactRecord : Type 0 where
  pub aci : Bytes
  pub pni : Bytes
  pub resolved_at : ℕ

pub record SyncedContactRecord : Type 0 where
  pub e164 : Bytes
  pub aci : Bytes
  pub pni : Bytes
  pub profile_key : Bytes
  pub given_name : Bytes
  pub family_name : Bytes
  pub synced_at : ℕ

-- A row of `synced_contact`: its id and account beside the contact.
pub record SyncedRow : Type 0 where
  pub id : ℕ
  pub account_name : Bytes
  pub contact : SyncedContactRecord

-- One database file. `next_id` is what AUTOINCREMENT gives the next row of `synced_contact`.
pub record Database : Type 0 where
  pub account : List (Bytes × AccountRecord)
  pub identity_keypair : List (Bytes × Bytes × IdentityKeypairRecord)
  pub signed_prekey : List (Bytes × Bytes × PrekeyRecord)
  pub kyber_prekey : List (Bytes × Bytes × PrekeyRecord)
  pub session : List (Bytes × Bytes × Bytes)
  pub remote_identity : List (Bytes × Bytes × Bytes)
  pub resolved_contact : List (Bytes × Bytes × ResolvedContactRecord)
  pub synced_contact : List SyncedRow
  pub next_id : ℕ

-- Why a statement fails: a constraint of the schema, or no row to work on.
pub data SqlError : Type 0 where
  check_failed : SqlError
  foreign_key_failed : SqlError
  unique_failed : SqlError
  no_account_row : SqlError
