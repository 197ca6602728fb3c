-- ===== src/Storage/Accounts.antt =====
-- The methods of `Storage` on the table `account`.
pub mod Columns
mod Tests
use signal2sip.Base.{
  ℕ, zero, suc, ◌+◌, ◌-◌, ◌*◌, ◌/◌, ◌%◌, ◌^◌, ◌≤◌, ◌<◌, ◌≡◌, refl, sym, ap, ap₂, subst, ◌∙◌, ◌≢◌,
  ◌↔◌, ◌⊎◌, inl, inr, Bool, true, false, not, ◌&&◌, ◌||◌, Option, none, some, List, [], ◌∷◌, ◌++◌,
  map, arith, ltb, leb, ◌==◌, if◌then◌else◌, ==_iff, Bool-cases, Option-cases, is_some, length,
  get_or, set, take, drop, replicate, is_empty, All, length-append, length-replicate, length-set,
  length-take-le, get_or-set_self, get_or-set_ne, take-append_left, drop-append_left, All-append,
  length-take, is_empty→nil, take-all, drop-all, get_or-append_right, suc-add, get_or-replicate,
  Bytes, IsByte, codes, eqb, eqb_refl, eqb→eq, eqb_iff, Result, ok, err, ◌>>=◌, ok_or,
}
use signal2sip.Base.Bits.{passes_below, passes_below→test, bit_or-shl}
use mathlib.Core.List.{append-nil, append_assoc}
use signal2sip.Storage.Records.{AccountRecord, AccountSummary, Database, SqlError, no_account_row}

unfoldable pub find_account : Bytes → List (Bytes × AccountRecord) → Option AccountRecord
find_account a [] = none
find_account a ((b, row) ∷ rows) = if eqb a b then some row else find_account a rows

-- `hasAccount`: the count of a primary key is positive when there is a row.
unfoldable pub has_account : Database → Bytes → Bool
has_account db a = is_some (find_account a db.account)

unfoldable pub load_account : Database → Bytes → Result SqlError AccountRecord
load_account db a = elim (find_account a db.account) [
  | some row ↦ ok row
  | none ↦ err no_account_row
]

-- The columns that `saveAccount` inserts; the others are the schema's defaults.
pub inserted : AccountRecord → AccountRecord
inserted r = record r {
  server_url = [];
  sip_host = [];
  sip_extension = [];
  sip_password = [];
  sip_bridge_destination = [];
  sip_bridge_did = [];
  sip_srtp = codes "disabled";
  sip_transport = codes "udp";
  sip_tls_ca_file = [];
  sip_tls_insecure = false;
  outgoing_call_target = [];
  signal_proxy = [];
  signal_censorship_circumvention = false;
  enabled = true;
  config_version = 0;
}

-- `DO UPDATE SET e164 = excluded.e164, …`: the columns of the account, not those of its config.
pub updated : AccountRecord → AccountRecord → AccountRecord
updated row r = record row {
  e164 = r.e164;
  aci = r.aci;
  pni = r.pni;
  device_id = r.device_id;
  password = r.password;
  registration_id = r.registration_id;
  pni_registration_id = r.pni_registration_id;
  flow = r.flow;
  account_entropy_pool = r.account_entropy_pool;
  media_root_backup_key = r.media_root_backup_key;
  profile_key = r.profile_key;
  registered_at = r.registered_at;
  linked_at = r.linked_at;
  prekeys_refreshed_at = r.prekeys_refreshed_at;
}

pub upsert_account :
    Bytes → AccountRecord → List (Bytes × AccountRecord) → List (Bytes × AccountRecord)
upsert_account a r [] = (a, inserted r) ∷ []
upsert_account a r ((b, row) ∷ rows) =
    if eqb a b then (b, updated row r) ∷ rows else (b, row) ∷ upsert_account a r rows

unfoldable pub save_account : Database → Bytes → AccountRecord → Database
save_account db a r = record db { account = upsert_account a r db.account }

-- `UPDATE account SET server_url = ?, …, config_version = config_version + 1`
unfoldable pub configured : AccountRecord → AccountRecord → AccountRecord
configured row r = record row {
  server_url = r.server_url;
  sip_host = r.sip_host;
  sip_extension = r.sip_extension;
  sip_password = r.sip_password;
  sip_bridge_destination = r.sip_bridge_destination;
  sip_bridge_did = r.sip_bridge_did;
  sip_srtp = r.sip_srtp;
  sip_transport = r.sip_transport;
  sip_tls_ca_file = r.sip_tls_ca_file;
  sip_tls_insecure = r.sip_tls_insecure;
  outgoing_call_target = r.outgoing_call_target;
  signal_proxy = r.signal_proxy;
  signal_censorship_circumvention = r.signal_censorship_circumvention;
  enabled = r.enabled;
  config_version = row.config_version + 1;
}

unfoldable pub update_config :
    Bytes → AccountRecord → List (Bytes × AccountRecord) → List (Bytes × AccountRecord)
update_config a r [] = []
update_config a r ((b, row) ∷ rows) =
    let rest = update_config a r rows in (b, if eqb a b then configured row r else row) ∷ rest

-- No row changed is an error.
unfoldable pub save_account_config : Database → Bytes → AccountRecord → Result SqlError Database
save_account_config db a r =
    if has_account db a
    then ok (record db { account = update_config a r db.account })
    else err no_account_row

-- `ORDER BY account_name`: by bytes.
abbrev pub text_leb : Bytes → Bytes → Bool
text_leb [] ys = true
text_leb (x ∷ xs) [] = false
text_leb (x ∷ xs) (y ∷ ys) = ltb x y || ((x == y) && text_leb xs ys)

unfoldable pub insert_summary : AccountSummary → List AccountSummary → List AccountSummary
insert_summary s [] = s ∷ []
insert_summary s (t ∷ rest) =
    if text_leb s.account_name t.account_name then s ∷ t ∷ rest else t ∷ insert_summary s rest

unfoldable pub summary_of : Bytes → AccountRecord → AccountSummary
summary_of a row = record {
  account_name = a;
  e164 = row.e164;
  enabled = row.enabled;
  config_version = row.config_version;
}

unfoldable pub summaries : List (Bytes × AccountRecord) → List AccountSummary
summaries [] = []
summaries ((a, row) ∷ rows) = insert_summary (summary_of a row) (summaries rows)

unfoldable pub list_all_accounts : Database → List AccountSummary
list_all_accounts db = summaries db.account

-- `DELETE FROM account WHERE account_name = ?`
unfoldable pub delete_row : Bytes → List (Bytes × AccountRecord) → List (Bytes × AccountRecord)
delete_row a [] = []
delete_row a ((b, row) ∷ rows) =
    let rest = delete_row a rows in if eqb a b then rest else (b, row) ∷ rest
