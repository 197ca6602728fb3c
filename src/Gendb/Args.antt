-- ===== src/Gendb/Args.antt =====
-- gendb/main.cpp, `parseArgs` and the choice of the command in `main`.
pub mod Anywhere
mod Tests
use signal2sip.Base.{
  ℕ, zero, suc, ◌+◌, ◌-◌, ◌*◌, ◌/◌, ◌%◌, ◌^◌, ◌≤◌, ◌<◌, ◌≡◌, refl, sym, ap, ap₂, subst, ◌∙◌, ◌≢◌,
  ◌↔◌, ◌⊎◌, inl, inr, Bool, true, false, not, ◌&&◌, ◌||◌, Option, none, some, List, [], ◌∷◌, ◌++◌,
  map, arith, ltb, leb, ◌==◌, if◌then◌else◌, ==_iff, Bool-cases, Option-cases, is_some, length,
  get_or, set, take, drop, replicate, is_empty, All, length-append, length-replicate, length-set,
  length-take-le, get_or-set_self, get_or-set_ne, take-append_left, drop-append_left, All-append,
  length-take, is_empty→nil, take-all, drop-all, get_or-append_right, suc-add, get_or-replicate,
  Bytes, IsByte, codes, eqb, eqb_refl, eqb→eq, eqb_iff, Result, ok, err, ◌>>=◌, ok_or, Result-cases,
}
use signal2sip.Base.Bits.{passes_below, passes_below→test, bit_or-shl}
use mathlib.Core.List.{append-nil, append_assoc}

pub record ParsedArgs : Type 0 where
  pub account_name : Bytes
  pub command : Bytes
  pub positional : List Bytes
  pub e164 : Bytes
  pub config_path : Bytes

-- The loop's variables.
pub record Scan : Type 0 where
  pub rest : List Bytes
  pub e164 : Bytes
  pub config_path : Bytes

unfoldable pub push : Bytes → Scan → Scan
push arg p = record p { rest = p.rest ++ arg ∷ [] }

-- An option that is the last argument has no value, and is an ordinary argument.
unfoldable pub scan : List Bytes → Scan → Scan
scan [] p = p
scan (arg ∷ []) p = push arg p
scan (arg ∷ value ∷ args) p = elim (eqb arg (codes "--e164")) [
  | true ↦ scan args (record p { e164 = value })
  | false ↦ elim (eqb arg (codes "--config")) [
    | true ↦ scan args (record p { config_path = value })
    | false ↦ scan (value ∷ args) (push arg p)
  ]
]

-- `list` stands alone; otherwise there are an account and a command. `none` is the exception.
unfoldable pub assemble : Scan → Option ParsedArgs
assemble p = elim p.rest [
  | [] ↦ none
  | a ∷ others ↦ elim others [
    | [] ↦
        if eqb a (codes "list")
        then some (record {
          account_name = [];
          command = codes "list";
          positional = [];
          e164 = p.e164;
          config_path = p.config_path;
        })
        else none
    | c ∷ positional ↦ some (record {
      account_name = a;
      command = c;
      positional = positional;
      e164 = p.e164;
      config_path = p.config_path;
    })
  ]
]

unfoldable pub parse_args : List Bytes → Option ParsedArgs
parse_args args = assemble (scan args (record { rest = []; e164 = []; config_path = [] }))

-- The command that `main` runs, with its arguments, or what is wrong.
pub data Command : Type 0 where
  register : Bytes → Command
  register_captcha : Bytes → Command
  verify : Bytes → Command
  link : Command
  unlink : Command
  deactivate : Command
  reactivate : Command
  delete_account : Command
  set_enabled : Bool → Command
  config_get : Bytes → Command
  config_set : Bytes → Bytes → Command
  list_accounts : Command
  usage : Command
  missing_argument : Command
  unknown_subcommand : Bytes → Command

unfoldable pub config_command : List Bytes → Command
config_command [] = missing_argument
config_command (sub ∷ values) =
    if eqb sub (codes "get") || eqb sub (codes "list")
    then config_get (get_or values 0 [])
    else if eqb sub (codes "set")
    then (if ltb (length values) 2
        then missing_argument
        else config_set (get_or values 0 []) (get_or values 1 []))
    else unknown_subcommand sub

unfoldable pub needs_one : (Bytes → Command) → List Bytes → Command
needs_one c [] = missing_argument
needs_one c (v ∷ vs) = c v

-- `args.positional.empty() ? "sms" : args.positional[0]`
unfoldable pub dispatch : ParsedArgs → Command
dispatch a =
    if eqb a.command (codes "register")
    then register (get_or a.positional 0 (codes "sms"))
    else if eqb a.command (codes "register-captcha")
    then needs_one register_captcha a.positional
    else if eqb a.command (codes "verify")
    then needs_one verify a.positional
    else if eqb a.command (codes "link")
    then link
    else if eqb a.command (codes "unlink")
    then unlink
    else if eqb a.command (codes "deactivate") || eqb a.command (codes "unregister")
    then deactivate
    else if eqb a.command (codes "reactivate")
    then reactivate
    else if eqb a.command (codes "delete-account")
    then delete_account
    else if eqb a.command (codes "enable")
    then set_enabled true
    else if eqb a.command (codes "disable")
    then set_enabled false
    else if eqb a.command (codes "config")
    then config_command a.positional
    else if eqb a.command (codes "list")
    then list_accounts
    else usage
