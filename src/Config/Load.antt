-- ===== src/Config/Load.antt =====
-- `DaemonConfig::load` and `loadGlobalConfigLenient`.
-- The environment is a parameter: the contents of the configuration file, and the database that a
-- path and a key open (`none` if the file is not a database for that key).
use signal2sip.Base.{
  ℕ, ◌+◌, ◌-◌, ◌*◌, ◌%◌, ◌^◌, ◌≡◌, sym, subst, inl, inr, Bool, not, ◌&&◌, ◌||◌, Option, none, some,
  List, [], ◌∷◌, arith, ltb, leb, ◌==◌, if◌then◌else◌, Bool-cases, Option-cases, get_or, drop,
  is_empty, All, Bytes, codes, Result, ok, err, ◌>>=◌, Result-cases,
}
use signal2sip.Storage.Records.{AccountSummary, Database}
use signal2sip.Storage.Accounts.{load_account, list_all_accounts}
use signal2sip.Config.Ini.{IniMap, parse_ini, ini_get_or}
use signal2sip.Config.Accept.{
  AccountConfig, account_config_from_record, IsUsable, account_config_from_record-IsUsable,
}

pub record GlobalConfig : Type 0 where
  pub db_path : Bytes
  pub db_key : Bytes
  pub sip_reg_watchdog_sec : ℕ
  pub resolved_contact_ttl_sec : ℕ
  pub storage_sync_interval_sec : ℕ
  pub config_poll_interval_sec : ℕ

pub record DaemonConfig : Type 0 where
  pub global : GlobalConfig
  pub accounts : List AccountConfig

pub data LoadError : Type 0 where
  cannot_open_config : LoadError
  db_path_required : LoadError
  db_key_required : LoadError
  not_a_number : Bytes → LoadError
  cannot_open_database : LoadError

-- `std::stoul`: blanks, a sign, digits; what follows the digits is ignored.
unfoldable pub is_digit : ℕ → Bool
is_digit c = leb 48 c && leb c 57

unfoldable pub skip_blanks : Bytes → Bytes
skip_blanks [] = []
skip_blanks (c ∷ cs) = if (c == 32) || (leb 9 c && leb c 13) then skip_blanks cs else c ∷ cs

unfoldable pub digits_value : ℕ → Bytes → ℕ
digits_value n [] = n
digits_value n (c ∷ cs) = if is_digit c then digits_value (n * 10 + (c - 48)) cs else n

-- The magnitude, if there is a digit and it fits in 64 bits.
unfoldable pub magnitude : Bytes → Option ℕ
magnitude s =
    if is_digit (get_or s 0 0) && ltb (digits_value 0 s) (2 ^ 64)
    then some (digits_value 0 s)
    else none

unfoldable pub stoul : Bytes → Option ℕ
stoul s =
    let t = skip_blanks s in
    let first = get_or t 0 0 in
    let rest = magnitude (drop 1 t) in
    if first == 45
    then elim rest [ none ↦ none | some n ↦ some ((2 ^ 64 - n) % 2 ^ 64) ]
    else if first == 43
    then rest
    else magnitude t

-- `static_cast<unsigned>(std::stoul(getOr(ini, "global", key, fallback)))`
unfoldable pub unsigned_setting : IniMap → Bytes → Bytes → Result LoadError ℕ
unsigned_setting ini key fallback =
    let text = ini_get_or ini (codes "global") key fallback in
    elim (stoul text) [ none ↦ err (not_a_number text) | some n ↦ ok (n % 2 ^ 32) ]

unfoldable pub required_setting : IniMap → Bytes → LoadError → Result LoadError Bytes
required_setting ini key e =
    let text = ini_get_or ini (codes "global") key [] in if is_empty text then err e else ok text

unfoldable pub load_global : IniMap → Result LoadError GlobalConfig
load_global ini = required_setting ini (codes "db_path") db_path_required >>= (λ db_path.
    required_setting ini (codes "db_key") db_key_required >>= (λ db_key.
      unsigned_setting ini (codes "sip_reg_watchdog_sec") (codes "60") >>= (λ watchdog.
        unsigned_setting ini (codes "resolved_contact_ttl_sec") (codes "86400") >>= (λ ttl.
          unsigned_setting ini (codes "storage_sync_interval_sec") (codes "43200") >>= (λ sync.
            unsigned_setting ini (codes "config_poll_interval_sec") (codes "30") >>= (λ poll.
              ok (record {
                db_path = db_path;
                db_key = db_key;
                sip_reg_watchdog_sec = watchdog;
                resolved_contact_ttl_sec = ttl;
                storage_sync_interval_sec = sync;
                config_poll_interval_sec = poll;
              })))))))

-- One round of the loop's `try`: the account, or nothing after the message on stderr.
unfoldable pub try_account : Database → Bytes → Option AccountConfig
try_account db name = elim (load_account db name) [
  | err e ↦ none
  | ok row ↦ elim (account_config_from_record name row) [ err e ↦ none | ok c ↦ some c ]
]

unfoldable pub load_accounts : Database → List AccountSummary → List AccountConfig
load_accounts db [] = []
load_accounts db (s ∷ rest) =
    let others = load_accounts db rest in
    if not s.enabled
    then others
    else elim (try_account db s.account_name) [ none ↦ others | some c ↦ c ∷ others ]

unfoldable pub load :
    (Bytes → Option Bytes)
    → (Bytes → Bytes → Option Database)
    → Bytes
    → Result LoadError DaemonConfig
load read_file open_database path = elim (parse_ini (read_file path)) [
  | none ↦ err cannot_open_config
  | some ini ↦ load_global ini >>= (λ global. elim (open_database global.db_path global.db_key) [
    | none ↦ err cannot_open_database
    | some db ↦ ok (record { global = global; accounts = load_accounts db (list_all_accounts db) })
  ])
]

-- A missing file leaves the members' initial values; only the two settings that `gendb` needs are
-- read.
unfoldable pub load_global_config_lenient :
    (Bytes → Bool) → (Bytes → Option Bytes) → Bytes → Result LoadError GlobalConfig
load_global_config_lenient file_exists read_file path =
    let initial : GlobalConfig = record {
      db_path = [];
      db_key = [];
      sip_reg_watchdog_sec = 60;
      resolved_contact_ttl_sec = 86400;
      storage_sync_interval_sec = 43200;
      config_poll_interval_sec = 30;
    } in
    if not (file_exists path) then ok initial else elim (parse_ini (read_file path)) [
      | none ↦ err cannot_open_config
      | some ini ↦ ok (record initial {
        db_path = ini_get_or ini (codes "global") (codes "db_path") [];
        db_key = ini_get_or ini (codes "global") (codes "db_key") [];
      })
    ]

-- `resolveConfigPath`: `argument` is `argv[1]`, if there is one.
pub resolve_config_path : (Bytes → Bool) → Option Bytes → Bytes
resolve_config_path file_exists argument =
    let installed = codes "/etc/signal2sip/signal2sip.conf" in
    let found = if file_exists installed then installed else codes "./signal2sip.conf" in
    elim argument [ none ↦ found | some path ↦ if is_empty path then found else path ]

pub resolve_ca_cert_path : (Bytes → Bool) → Bytes
resolve_ca_cert_path file_exists =
    let installed = codes "/etc/signal2sip/certs/signal-root-ca.pem" in
    if file_exists installed then installed else codes "./certs/signal-root-ca.pem"

try_account-IsUsable :
    (db : Database) (name : Bytes) (c : AccountConfig) → try_account db name ≡ some c → IsUsable c
unfolding try_account
try_account-IsUsable db name c h = elim (Result-cases (load_account db name)) [
  | inl e ↦ absurd (ground (arith, e.1, h))
  | inr e ↦ elim (Result-cases (account_config_from_record name e.0)) [
    | inl f ↦ absurd (ground (arith, e.1, f.1, h))
    | inr f ↦
        subst IsUsable (ground (arith, e.1, f.1, h))
          (account_config_from_record-IsUsable name e.0 f.0 f.1)
  ]
]

load_accounts-IsUsable :
    (db : Database) (ss : List AccountSummary) → All IsUsable (load_accounts db ss)
unfolding load_accounts try_account
load_accounts-IsUsable db [] = tt
load_accounts-IsUsable db (s ∷ rest) =
    let others : All IsUsable (load_accounts db rest) = load_accounts-IsUsable db rest in
    elim (Bool-cases s.enabled) [
      | inr e ↦ rw e others
      | inl e ↦ elim (Option-cases (try_account db s.account_name)) [
        | inl f ↦ rw e (rw f others)
        | inr f ↦ rw e (rw (f.1) (try_account-IsUsable db s.account_name f.0 f.1, others))
      ]
    ]

load-accounts :
    (read_file : Bytes → Option Bytes) (open_database : Bytes → Bytes → Option Database)
    (path : Bytes) (d : DaemonConfig)
    → load read_file open_database path ≡ ok d
    → (db : Database) × (d.accounts ≡ load_accounts db (list_all_accounts db))
unfolding load
load-accounts read_file open_database path d h = elim (Option-cases (parse_ini (read_file path))) [
  | inl e ↦ absurd (ground (arith, e, h))
  | inr e ↦ elim (Result-cases (load_global e.0)) [
    | inl f ↦ absurd (ground (arith, e.1, f.1, h))
    | inr f ↦ elim (Option-cases (open_database f.0.db_path f.0.db_key)) [
      | inl g ↦ absurd (ground (arith, e.1, f.1, g, h))
      | inr g ↦ (g.0, ground (arith, e.1, f.1, g.1, h))
    ]
  ]
]

-- Every account of a configuration that loads is usable: none without a number, with an unknown
-- SRTP mode or transport, or with tls that neither pins a certificate nor is told to skip
-- verification.
pub load-IsUsable :
    (read_file : Bytes → Option Bytes) (open_database : Bytes → Bytes → Option Database)
    (path : Bytes) (d : DaemonConfig)
    → load read_file open_database path ≡ ok d
    → All IsUsable d.accounts
load-IsUsable read_file open_database path d h =
    let from = load-accounts read_file open_database path d h in
    subst (All IsUsable) (sym from.1) (load_accounts-IsUsable from.0 (list_all_accounts from.0))
