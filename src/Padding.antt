-- ===== src/Padding.antt =====
-- signal/Padding.cpp: `padMessageBody` and `stripPaddingMessageBody`.
-- Sizes are unbounded numbers: a `size_t` holds the size of any message in memory.
pub mod RoundTrip
mod Tests
use signal2sip.Base.{
  ℕ, zero, suc, ◌+◌, ◌-◌, ◌*◌, ◌/◌, ◌%◌, ◌^◌, ◌≤◌, ◌<◌, ◌≡◌, refl, sym, ap, ap₂, subst, ◌∙◌, ◌≢◌,
  ◌↔◌, ◌⊎◌, inl, inr, Bool, true, false, not, ◌&&◌, ◌||◌, Option, none, some, List, [], ◌∷◌, ◌++◌,
  map, arith, ltb, leb, ◌==◌, if◌then◌else◌, ==_iff, Bool-cases, Option-cases, is_some, length,
  get_or, set, take, drop, replicate, is_empty, All, length-append, length-replicate, length-set,
  length-take-le, get_or-set_self, get_or-set_ne, take-append_left, drop-append_left, All-append,
  get_or-append_right, get_or-replicate, Bytes, IsByte, codes, eqb, eqb_refl, eqb→eq, eqb_iff,
  Result, ok, err, ◌>>=◌, ok_or,
}
use mathlib.Core.List.{append-nil, append_assoc}

abbrev pub padding_block_size : ℕ
padding_block_size = 80

pub padded_message_length : ℕ → ℕ
padded_message_length message_length =
    let with_terminator = message_length + 1 in
    let part_count = with_terminator / padding_block_size in
    (if with_terminator % padding_block_size == 0 then part_count else part_count + 1)
    * padding_block_size

-- `std::copy` into the front of a buffer; the source writes only inside it (`RoundTrip.pad_room`).
pub copy : Bytes → Bytes → Bytes
copy [] buffer = buffer
copy (x ∷ xs) [] = []
copy (x ∷ xs) (y ∷ buffer) = x ∷ copy xs buffer

pub pad_message_body : Bytes → Bytes
pad_message_body body =
    set (copy body (replicate (padded_message_length (length body + 1) - 1) 0)) (length body) 0x80

-- The loop `for (i = size; i-- > 0;)`, with `i` as it is before the test.
pub strip_from : Bytes → ℕ → Bytes
strip_from message zero = message
strip_from message (suc i) =
    let rest = strip_from message i in
    let byte = get_or message i 0 in
    if byte == 0x80 then take i message else if byte == 0 then rest else message

pub strip_padding_message_body : Bytes → Bytes
strip_padding_message_body message = strip_from message (length message)
