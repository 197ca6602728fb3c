-- ===== src/Daemon.antt =====
-- daemon/main.cpp: which accounts run. Bringing an account up is a parameter: whether it ends with
-- the account in `g_accounts`.
pub mod Reload
pub mod Calls
pub mod Sync
pub mod Watchdog
pub mod Push
pub mod StorageService
mod Tests
use signal2sip.Base.{
  ℕ, zero, suc, ◌+◌, ◌-◌, ◌*◌, ◌/◌, ◌%◌, ◌^◌, ◌≤◌, ◌<◌, ◌≡◌, refl, sym, ap, ap₂, subst, ◌∙◌, ◌≢◌,
  ◌↔◌, ◌⊎◌, inl, inr, Bool, true, false, not, ◌&&◌, ◌||◌, Option, none, some, List, [], ◌∷◌, ◌++◌,
  map, arith, ltb, leb, ◌==◌, if◌then◌else◌, ==_iff, Bool-cases, Option-cases, is_some, length,
  get_or, set, take, drop, replicate, is_empty, All, length-append, length-replicate, length-set,
  length-take-le, get_or-set_self, get_or-set_ne, take-append_left, drop-append_left, All-append,
  length-take, is_empty→nil, take-all, drop-all, get_or-append_right, suc-add, get_or-replicate,
  Bytes, IsByte, codes, eqb, eqb_refl, eqb→eq, eqb_iff, Result, ok, err, ◌>>=◌, ok_or, Result-cases,
}
use signal2sip.Base.Bits.{passes_below, passes_below→test, bit_or-shl}
use mathlib.Core.List.{append-nil, append_assoc}
use signal2sip.Config.Accept.{AccountConfig}
use signal2sip.Config.Load.{GlobalConfig, DaemonConfig, LoadError}

-- `std::map<std::string, …>` with the accounts' configurations, by name.
abbrev pub Accounts : Type 0
Accounts = List (Bytes × AccountConfig)

unfoldable pub find_config : Bytes → Accounts → Option AccountConfig
find_config a [] = none
find_config a ((b, c) ∷ rest) = if eqb a b then some c else find_config a rest

unfoldable pub erase_config : Bytes → Accounts → Accounts
erase_config a [] = []
erase_config a ((b, c) ∷ rest) =
    let others = erase_config a rest in if eqb a b then others else (b, c) ∷ others

-- `emplace`: the first account of a name stays.
unfoldable pub by_name : List AccountConfig → Accounts
by_name [] = []
by_name (c ∷ rest) = (c.name, c) ∷ erase_config c.name (by_name rest)

-- `setupAccount`, when it returns.
unfoldable pub setup_account : (AccountConfig → Bool) → AccountConfig → Accounts → Accounts
setup_account comes_up c running =
    if comes_up c then (c.name, c) ∷ erase_config c.name running else running

-- The first loop: accounts that are not in the new configuration are torn down.
unfoldable pub remove_missing : Accounts → Accounts → Accounts
remove_missing new [] = []
remove_missing new ((b, c) ∷ rest) =
    let others = remove_missing new rest in
    if is_some (find_config b new) then (b, c) ∷ others else others

-- A round of the second loop: an account that does not run is brought up, one whose version
-- differs is torn down and brought up again.
unfoldable pub bring_up : (AccountConfig → Bool) → Bytes → AccountConfig → Accounts → Accounts
bring_up comes_up name c running = elim (find_config name running) [
  | none ↦ setup_account comes_up c running
  | some old ↦
      if old.config_version == c.config_version
      then running
      else setup_account comes_up c (erase_config name running)
]

unfoldable pub bring_up_all : (AccountConfig → Bool) → Accounts → Accounts → Accounts
bring_up_all comes_up [] running = running
bring_up_all comes_up ((name, c) ∷ rest) running =
    bring_up_all comes_up rest (bring_up comes_up name c running)

-- `g_global` and `g_accounts`.
pub record Running : Type 0 where
  pub global : GlobalConfig
  pub accounts : Accounts

-- A configuration that does not load leaves everything as it is.
unfoldable pub reload_config :
    (AccountConfig → Bool) → Result LoadError DaemonConfig → Running → Running
reload_config comes_up (err e) running = running
reload_config comes_up (ok daemon) running = record {
  global = daemon.global;
  accounts =
      bring_up_all comes_up (by_name daemon.accounts)
        (remove_missing (by_name daemon.accounts) running.accounts);
}
