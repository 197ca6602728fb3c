-- ===== src/Gendb/Bootstrap/Tests.antt =====
-- A first run at concrete input.
use signal2sip.Base.{
  ◌≡◌, refl, Bool, true, Option, none, some, [], ◌∷◌, ◌++◌, if◌then◌else◌, Bytes, codes, eqb, ok,
  err,
}
use signal2sip.Base64.{char_of, base64_encode}
use signal2sip.Config.Load.{GlobalConfig, load_global_config_lenient}
use signal2sip.Config.Ini.{
  parse_ini, read_line, read_lines, lines_of, prepend, trim, trim_start, trim_end, split_eq,
  last_byte, ini_get_or,
}
use signal2sip.Base.Dict.{find, upsert}
use signal2sip.Gendb.Encoding.{drop_end, base64_no_padding}
use signal2sip.Gendb.Bootstrap.{
  database_exists, setting_line, appended, when_missing, contents, complete_config,
  bootstrap_global_config_if_needed,
}
use signal2sip.Gendb.Bootstrap.Loads.{Completed, bootstrap-Completed}

-- A file that has a path and does not end with a newline; no database is there.
abbrev text : Bytes
text = codes "[global]\ndb_path=/tmp/x"

abbrev is_there : Bytes → Bool
is_there path = eqb path (codes "c")

abbrev file : Bytes → Option Bytes
file path = if eqb path (codes "c") then some text else none

abbrev seen : GlobalConfig
seen = record {
  db_path = codes "/tmp/x";
  db_key = [];
  sip_reg_watchdog_sec = 60;
  resolved_contact_ttl_sec = 86400;
  storage_sync_interval_sec = 43200;
  config_poll_interval_sec = 30;
}

seen_lem : load_global_config_lenient is_there file (codes "c") ≡ ok seen
unfolding load_global_config_lenient parse_ini read_line read_lines lines_of prepend trim trim_start
    trim_end split_eq last_byte ini_get_or find upsert
seen_lem = refl

abbrev written : Bytes
written = text ++ codes "\n[global]\ndb_key=AQID\n"

completed_lem :
    bootstrap_global_config_if_needed is_there file true (1 ∷ 2 ∷ 3 ∷ []) (codes "c")
    ≡ ok (some written)
unfolding bootstrap_global_config_if_needed complete_config appended setting_line when_missing
    contents base64_no_padding drop_end base64_encode char_of load_global_config_lenient parse_ini
    read_line read_lines lines_of prepend trim trim_start trim_end split_eq last_byte ini_get_or
    find upsert
completed_lem = refl

-- With a database there, no key is made up.
refuses :
    bootstrap_global_config_if_needed (λ path. true) file true (1 ∷ 2 ∷ 3 ∷ []) (codes "c")
    ≡ err database_exists
unfolding bootstrap_global_config_if_needed complete_config load_global_config_lenient parse_ini
    read_line read_lines lines_of prepend trim trim_start trim_end split_eq last_byte ini_get_or
    find upsert
refuses = refl

bootstrap-Completed_example : Completed (1 ∷ 2 ∷ 3 ∷ []) seen written
bootstrap-Completed_example =
    bootstrap-Completed is_there file true (1 ∷ 2 ∷ 3 ∷ []) (codes "c") written seen refl seen_lem
      completed_lem
