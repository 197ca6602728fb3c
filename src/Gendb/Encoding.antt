-- ===== src/Gendb/Encoding.antt =====
-- gendb/ProvisioningClient.cpp, `base64NoPadding` and `urlEncode`.
pub mod RoundTrip
mod Tests
use signal2sip.Base.{
  ℕ, zero, suc, ◌+◌, ◌-◌, ◌*◌, ◌/◌, ◌%◌, ◌^◌, ◌≤◌, ◌<◌, ◌≡◌, refl, sym, ap, ap₂, subst, ◌∙◌, ◌≢◌,
  ◌↔◌, ◌⊎◌, inl, inr, Bool, true, false, not, ◌&&◌, ◌||◌, Option, none, some, List, [], ◌∷◌, ◌++◌,
  map, arith, ltb, leb, ◌==◌, if◌then◌else◌, ==_iff, Bool-cases, Option-cases, is_some, length,
  get_or, set, take, drop, replicate, is_empty, All, length-append, length-replicate, length-set,
  length-take-le, get_or-set_self, get_or-set_ne, take-append_left, drop-append_left, All-append,
  length-take, is_empty→nil, take-all, drop-all, get_or-append_right, suc-add, get_or-replicate,
  Bytes, IsByte, codes, eqb, eqb_refl, eqb→eq, eqb_iff, Result, ok, err, ◌>>=◌, ok_or, Result-cases,
}
use signal2sip.Base.Bits.{passes_below, passes_below→test, bit_or-shl}
use mathlib.Core.List.{append-nil, append_assoc}
use signal2sip.Base64.{base64_encode}

-- The loop with `pop_back`.
unfoldable pub drop_end : ℕ → Bytes → Bytes
drop_end e [] = []
drop_end e (c ∷ cs) = let rest = drop_end e cs in if is_empty rest && (c == e) then [] else c ∷ rest

unfoldable pub base64_no_padding : Bytes → Bytes
base64_no_padding data_bytes = drop_end b'=' (base64_encode data_bytes)

-- `isalnum` in the C locale.
unfoldable pub is_alnum : ℕ → Bool
is_alnum c = (leb 48 c && leb c 57) || ((leb 65 c && leb c 90) || (leb 97 c && leb c 122))

-- `-`, `_`, `.` and `~` are kept as well.
unfoldable pub is_unreserved : ℕ → Bool
is_unreserved c = is_alnum c || ((c == 45) || ((c == 95) || ((c == 46) || (c == 126))))

abbrev pub hex : Bytes
hex = codes "0123456789ABCDEF"

unfoldable pub url_encode : Bytes → Bytes
url_encode [] = []
url_encode (c ∷ cs) =
    let rest = url_encode cs in
    if is_unreserved c then c ∷ rest else 37 ∷ get_or hex (c / 16) 0 ∷ get_or hex (c % 16) 0 ∷ rest
