-- ===== src/Config/Ini.antt =====
-- `trim`, `parseIni` and `getOr`. The map of maps is one table keyed by section and key: an empty
-- section reads like a missing one.
pub mod Assign
use signal2sip.Base.{
  ℕ, zero, suc, ◌+◌, ◌-◌, ◌*◌, ◌/◌, ◌%◌, ◌^◌, ◌≤◌, ◌<◌, ◌≡◌, refl, sym, ap, ap₂, subst, ◌∙◌, ◌≢◌,
  ◌↔◌, ◌⊎◌, inl, inr, Bool, true, false, not, ◌&&◌, ◌||◌, Option, none, some, List, [], ◌∷◌, ◌++◌,
  map, arith, ltb, leb, ◌==◌, if◌then◌else◌, ==_iff, Bool-cases, Option-cases, is_some, length,
  get_or, set, take, drop, replicate, is_empty, All, length-append, length-replicate, length-set,
  length-take-le, get_or-set_self, get_or-set_ne, take-append_left, drop-append_left, All-append,
  length-take, is_empty→nil, take-all, drop-all, get_or-append_right, suc-add, get_or-replicate,
  Bytes, IsByte, codes, eqb, eqb_refl, eqb→eq, eqb_iff, Result, ok, err, ◌>>=◌, ok_or,
}
use signal2sip.Base.Bits.{passes_below, passes_below→test, bit_or-shl}
use mathlib.Core.List.{append-nil, append_assoc}
use signal2sip.Base.Dict.{find, upsert}

abbrev pub IniMap : Type 0
IniMap = List (Bytes × Bytes × Bytes)

-- One of " \t\r\n".
abbrev pub is_space : ℕ → Bool
is_space c = (c == 32) || ((c == 9) || ((c == 13) || (c == 10)))

unfoldable pub trim_start : Bytes → Bytes
trim_start [] = []
trim_start (c ∷ cs) = if is_space c then trim_start cs else c ∷ cs

unfoldable pub trim_end : Bytes → Bytes
trim_end [] = []
trim_end (c ∷ cs) = let rest = trim_end cs in if is_empty rest && is_space c then [] else c ∷ rest

unfoldable pub trim : Bytes → Bytes
trim s = trim_end (trim_start s)

-- `find('=')` and the two `substr` around it.
unfoldable pub split_eq : Bytes → Option (Bytes × Bytes)
split_eq [] = none
split_eq (c ∷ cs) =
    let rest = split_eq cs in
    if c == 61 then some ([], cs) else elim rest [ some p ↦ some (c ∷ p.0, p.1) | none ↦ none ]

unfoldable pub last_byte : Bytes → ℕ
last_byte [] = 0
last_byte (c ∷ cs) = if is_empty cs then c else last_byte cs

-- The loop's variables.
pub record Reader : Type 0 where
  pub section : Bytes
  pub result : IniMap

-- What a line does: `;` is 59, `#` is 35, `[` is 91 and `]` is 93.
unfoldable pub read_line : Reader → Bytes → Reader
read_line r line =
    let trimmed = trim line in
    let first = get_or trimmed 0 0 in
    let pair = split_eq trimmed in
    if is_empty trimmed || ((first == 59) || (first == 35))
    then r
    else if (first == 91) && (last_byte trimmed == 93)
    then record r { section = take (length trimmed - 2) (drop 1 trimmed) }
    else elim pair [
      | none ↦ r
      | some p ↦ record r { result = upsert r.section (trim p.0) (trim p.1) r.result }
    ]

unfoldable pub read_lines : Reader → List Bytes → Reader
read_lines r [] = r
read_lines r (line ∷ lines) = read_lines (read_line r line) lines

-- What `std::getline` returns, call by call.
unfoldable pub prepend : ℕ → List Bytes → List Bytes
prepend c [] = (c ∷ []) ∷ []
prepend c (line ∷ lines) = (c ∷ line) ∷ lines

unfoldable pub lines_of : Bytes → List Bytes
lines_of [] = []
lines_of (c ∷ cs) = let rest = lines_of cs in if c == 10 then [] ∷ rest else prepend c rest

-- The argument is the file's contents, `none` if it cannot be opened.
unfoldable pub parse_ini : Option Bytes → Option IniMap
parse_ini none = none
parse_ini (some text) =
    some (read_lines (record { section = []; result = [] }) (lines_of text)).result

unfoldable pub ini_get_or : IniMap → Bytes → Bytes → Bytes → Bytes
ini_get_or ini section key fallback = elim (find section key ini) [
  | none ↦ fallback
  | some value ↦ if is_empty value then fallback else value
]
