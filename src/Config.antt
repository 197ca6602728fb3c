-- ===== src/Config.antt =====
-- daemon/Config.cpp: the INI reader, the checks on one account's settings, and the loader of the
-- daemon's whole configuration. The file system and the opening of the database are parameters.
pub mod Ini
pub mod Accept
pub mod Load
mod Tests
use signal2sip.Base.{
  ℕ, zero, suc, ◌+◌, ◌-◌, ◌*◌, ◌/◌, ◌%◌, ◌^◌, ◌≤◌, ◌<◌, ◌≡◌, refl, sym, ap, ap₂, subst, ◌∙◌, ◌≢◌,
  ◌↔◌, ◌⊎◌, inl, inr, Bool, true, false, not, ◌&&◌, ◌||◌, Option, none, some, List, [], ◌∷◌, ◌++◌,
  map, arith, ltb, leb, ◌==◌, if◌then◌else◌, ==_iff, Bool-cases, Option-cases, is_some, length,
  get_or, set, take, drop, replicate, is_empty, All, length-append, length-replicate, length-set,
  length-take-le, get_or-set_self, get_or-set_ne, take-append_left, drop-append_left, All-append,
  length-take, is_empty→nil, take-all, drop-all, get_or-append_right, suc-add, get_or-replicate,
  Bytes, IsByte, codes, eqb, eqb_refl, eqb→eq, eqb_iff, Result, ok, err, ◌>>=◌, ok_or,
}
use signal2sip.Base.Bits.{passes_below, passes_below→test, bit_or-shl}
use mathlib.Core.List.{append-nil, append_assoc}
