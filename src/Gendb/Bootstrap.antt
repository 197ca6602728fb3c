-- ===== src/Gendb/Bootstrap.antt =====
-- gendb/main.cpp, `bootstrapGlobalConfigIfNeeded`: the section that a first run appends to the
-- configuration file. The file system and the random bytes are arguments.
pub mod Appended
pub mod Loads
mod Tests
use signal2sip.Base.{
  ℕ, zero, suc, ◌+◌, ◌-◌, ◌*◌, ◌/◌, ◌%◌, ◌^◌, ◌≤◌, ◌<◌, ◌≡◌, refl, sym, ap, ap₂, subst, ◌∙◌, ◌≢◌,
  ◌↔◌, ◌⊎◌, inl, inr, Bool, true, false, not, ◌&&◌, ◌||◌, Option, none, some, List, [], ◌∷◌, ◌++◌,
  map, arith, ltb, leb, ◌==◌, if◌then◌else◌, ==_iff, Bool-cases, Option-cases, is_some, length,
  get_or, set, take, drop, replicate, is_empty, All, length-append, length-replicate, length-set,
  length-take-le, get_or-set_self, get_or-set_ne, take-append_left, drop-append_left, All-append,
  length-take, is_empty→nil, take-all, drop-all, get_or-append_right, suc-add, get_or-replicate,
  Bytes, IsByte, codes, eqb, eqb_refl, eqb→eq, eqb_iff, Result, ok, err, ◌>>=◌, ok_or, Result-cases,
}
use signal2sip.Base.Bits.{passes_below, passes_below→test, bit_or-shl}
use mathlib.Core.List.{append-nil, append_assoc}
use signal2sip.Config.Ini.{IniMap, parse_ini, ini_get_or}
use signal2sip.Config.Load.{GlobalConfig, LoadError, load_global_config_lenient}
use signal2sip.Gendb.Encoding.{base64_no_padding}

pub data BootstrapError : Type 0 where
  bad_config : LoadError → BootstrapError
  database_exists : BootstrapError
  cannot_write_config : BootstrapError

abbrev pub default_db_path : Bytes
default_db_path = codes "/var/lib/signal2sip/signal2sip.db"

-- A line of the section, if the setting is missing.
unfoldable pub setting_line : Bytes → Option Bytes → Bytes
setting_line key none = []
setting_line key (some value) = key ++ (61 ∷ value) ++ (10 ∷ [])

unfoldable pub appended : Option Bytes → Option Bytes → Bytes
appended db_path db_key =
    10
    ∷ (codes "[global]"
        ++ (10 ∷ (setting_line (codes "db_path") db_path ++ setting_line (codes "db_key") db_key)))

unfoldable pub when_missing : Bytes → Bytes → Option Bytes
when_missing present value = if is_empty present then some value else none

unfoldable pub contents : Option Bytes → Bytes
contents none = []
contents (some text) = text

-- With the settings there are: the new contents of the file, or nothing to do.
unfoldable pub complete_config :
    (Bytes → Bool) → Bool → Bytes → Bytes → GlobalConfig → Result BootstrapError (Option Bytes)
complete_config file_exists writable random text existing =
    let db_path = if is_empty existing.db_path then default_db_path else existing.db_path in
    if not (is_empty existing.db_path) && not (is_empty existing.db_key)
    then ok none
    else if is_empty existing.db_key && file_exists db_path
    then err database_exists
    else if not writable
    then err cannot_write_config
    else ok (
        some (
          text
          ++ appended (when_missing existing.db_path default_db_path)
              (when_missing existing.db_key (base64_no_padding random))))

unfoldable pub bootstrap_global_config_if_needed :
    (Bytes → Bool)
    → (Bytes → Option Bytes)
    → Bool
    → Bytes
    → Bytes
    → Result BootstrapError (Option Bytes)
bootstrap_global_config_if_needed file_exists read_file writable random path =
    elim (load_global_config_lenient file_exists read_file path) [
      | err e ↦ err (bad_config e)
      | ok existing ↦
          complete_config file_exists writable random (contents (read_file path)) existing
    ]
