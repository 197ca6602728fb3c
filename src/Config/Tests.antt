-- ===== src/Config/Tests.antt =====
-- Runs of daemon/Config.cpp, and its theorems at concrete input.
use signal2sip.Base.{◌-◌, ◌^◌, ◌≡◌, refl, false, some, [], ◌∷◌, ◌++◌, All, Bytes, codes, ok, err}
use signal2sip.Base.Dict.{find, upsert}
use signal2sip.Storage.Records.{AccountRecord}
use signal2sip.Storage.Sample.{sample, sample_account}
use signal2sip.Storage.Accounts.{
  find_account, summaries, insert_summary, summary_of, load_account, list_all_accounts,
}
use signal2sip.Config.Ini.{
  Reader, trim_start, trim_end, trim, split_eq, last_byte, prepend, lines_of, read_line, read_lines,
  parse_ini, ini_get_or,
}
use signal2sip.Config.Ini.Assign.{IsTrimmed, IsKey}
use signal2sip.Config.Accept.{
  tls_needs_ca_file, default_to, is_srtp, is_transport, built, account_config_from_record, IsUsable,
}
use signal2sip.Config.Load.{
  DaemonConfig, load, load_global, required_setting, unsigned_setting, load_accounts, try_account,
  load-IsUsable, stoul, magnitude, digits_value, is_digit, skip_blanks,
}

abbrev text : Bytes
text = codes "; c" ++ 10 ∷ codes "[global]" ++ 10 ∷ codes " db_key = a=b # c" ++ 10 ∷ []

-- A trailing comment stays in the value.
parsed : parse_ini (some text) ≡ some ((codes "global", codes "db_key", codes "a=b # c") ∷ [])
unfolding parse_ini lines_of prepend read_lines read_line trim trim_start trim_end split_eq
    last_byte upsert
parsed = refl

stoul_minus_one : stoul (codes " -1x") ≡ some (2 ^ 64 - 1)
unfolding stoul magnitude digits_value is_digit skip_blanks
stoul_minus_one = refl

abbrev reader : Reader
reader = record { section = codes "global"; result = [] }

IsKey-fine : IsKey (codes "db_key")
unfolding trim_end split_eq
IsKey-fine = record {
  trimmed = record { start = refl; end = refl };
  nonempty = refl;
  no_comment = refl;
  no_section = refl;
  no_eq = refl;
}

IsTrimmed-fine : IsTrimmed (codes "a=b # c")
unfolding trim_end
IsTrimmed-fine = record { start = refl; end = refl }

accepted :
    account_config_from_record (codes "main") sample_account
    ≡ ok (built (codes "main") sample_account)
unfolding account_config_from_record built is_srtp is_transport default_to
accepted = refl

abbrev careless : AccountRecord
careless = record sample_account { sip_tls_insecure = false }

rejected : account_config_from_record (codes "main") careless ≡ err tls_needs_ca_file
unfolding account_config_from_record built is_srtp is_transport default_to
rejected = refl

abbrev global_text : Bytes
global_text = codes "[global]" ++ 10 ∷ codes "db_path=p" ++ 10 ∷ codes "db_key=k" ++ 10 ∷ []

abbrev daemon : DaemonConfig
daemon = record {
  global = record {
    db_path = codes "p";
    db_key = codes "k";
    sip_reg_watchdog_sec = 60;
    resolved_contact_ttl_sec = 86400;
    storage_sync_interval_sec = 43200;
    config_poll_interval_sec = 30;
  };
  accounts = built (codes "alt") sample_account ∷ built (codes "main") sample_account ∷ [];
}

loaded : load (λ path. some global_text) (λ path key. some sample) [] ≡ ok daemon
unfolding load load_global required_setting unsigned_setting stoul magnitude digits_value is_digit
    skip_blanks parse_ini lines_of prepend read_lines read_line trim trim_start trim_end split_eq
    last_byte upsert find ini_get_or load_accounts try_account list_all_accounts summaries
    insert_summary summary_of load_account find_account account_config_from_record built is_srtp
    is_transport default_to
loaded = refl

load-IsUsable_example : All IsUsable daemon.accounts
load-IsUsable_example =
    load-IsUsable (λ path. some global_text) (λ path key. some sample) [] daemon loaded
