-- ===== src/Base64.antt =====
-- util/Base64.cpp: `base64Encode` and `base64Decode`.
-- A loop over the input is a recursion on the list; the decoder's three variables are a record.
pub mod RoundTrip
pub mod Robust
mod Tests
use signal2sip.Base.{
  ℕ, zero, suc, ◌+◌, ◌-◌, ◌*◌, ◌/◌, ◌%◌, ◌^◌, ◌≤◌, ◌<◌, ◌≡◌, refl, sym, ap, ap₂, subst, ◌∙◌, ◌≢◌,
  ◌↔◌, ◌⊎◌, inl, inr, Bool, true, false, not, ◌&&◌, ◌||◌, Option, none, some, List, [], ◌∷◌, ◌++◌,
  map, arith, ltb, leb, ◌==◌, if◌then◌else◌, ==_iff, Bool-cases, Option-cases, is_some, length,
  get_or, set, take, drop, replicate, is_empty, All, length-append, length-replicate, length-set,
  length-take-le, get_or-set_self, get_or-set_ne, take-append_left, drop-append_left, All-append,
  Bytes, codes, eqb, eqb_refl, eqb→eq, eqb_iff, Result, ok, err, ◌>>=◌, ok_or,
}
use mathlib.Core.List.{append-nil, append_assoc}
use Prim.Native.Nat.{bit_or}

abbrev pub alphabet : Bytes
alphabet = codes "ABCDEFGHIJKLMNOPQRSTUVWXYZabcdefghijklmnopqrstuvwxyz0123456789+/"

-- `kAlphabet[v]`; every caller masks `v` to six bits.
unfoldable pub char_of : ℕ → ℕ
char_of v = get_or alphabet v 0

-- Three input bytes make four characters; a rest of one or two bytes is padded with `=`.
unfoldable pub base64_encode : Bytes → Bytes
base64_encode [] = []
base64_encode (a ∷ []) =
    let n = a * 2 ^ 16 in char_of (n / 2 ^ 18 % 64) ∷ char_of (n / 2 ^ 12 % 64) ∷ b'=' ∷ b'=' ∷ []
base64_encode (a ∷ b ∷ []) =
    let n = bit_or (a * 2 ^ 16) (b * 2 ^ 8) in
    char_of (n / 2 ^ 18 % 64) ∷ char_of (n / 2 ^ 12 % 64) ∷ char_of (n / 2 ^ 6 % 64) ∷ b'=' ∷ []
base64_encode (a ∷ b ∷ c ∷ rest) =
    let n = bit_or (bit_or (a * 2 ^ 16) (b * 2 ^ 8)) c in
    char_of (n / 2 ^ 18 % 64)
    ∷ char_of (n / 2 ^ 12 % 64)
    ∷ char_of (n / 2 ^ 6 % 64)
    ∷ char_of (n % 64)
    ∷ base64_encode rest

-- `table[alphabet[i]] = i`, for each `i` in turn; `none` is the table's -1.
pub fill_table : ℕ → Bytes → List (Option ℕ) → List (Option ℕ)
fill_table i [] table = table
fill_table i (c ∷ cs) table = fill_table (i + 1) cs (set table c (some i))

pub decode_table : List (Option ℕ)
unfolding fill_table
decode_table = fill_table 0 alphabet (replicate 256 none)

pub value_of : ℕ → Option ℕ
unfolding decode_table
value_of c = get_or decode_table c none

-- The decoder's variables: a 32-bit shift register, how many of its low bits wait, the output.
pub record Decoder : Type 0 where
  pub buffer : ℕ
  pub bits : ℕ
  pub out : Bytes

-- One accepted character's six bits enter the register; a full byte leaves it.
pub absorb : Decoder → ℕ → Decoder
absorb d value =
    let buffer = bit_or (d.buffer * 2 ^ 6 % 2 ^ 32) value in
    let bits = d.bits + 6 in
    if leb 8 bits
    then record {
      buffer = buffer;
      bits = bits - 8;
      out = d.out ++ (buffer / 2 ^ (bits - 8) % 256) ∷ [];
    }
    else record { buffer = buffer; bits = bits; out = d.out }

-- A character outside the alphabet is skipped.
pub decode_char : Decoder → ℕ → Decoder
decode_char d c = elim (value_of c) [ none ↦ d | some value ↦ absorb d value ]

-- `=` ends the loop.
pub decode_loop : Decoder → Bytes → Bytes
decode_loop d [] = d.out
decode_loop d (c ∷ cs) = if c == b'=' then d.out else decode_loop (decode_char d c) cs

abbrev pub start : Decoder
start = record { buffer = 0; bits = 0; out = [] }

pub base64_decode : Bytes → Bytes
base64_decode input = decode_loop start input
