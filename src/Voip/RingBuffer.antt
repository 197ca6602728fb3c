-- ===== src/Voip/RingBuffer.antt =====
-- voip/ring_buffer.h, the class `RingBuffer`: one call at a time. What the producer's and the
-- consumer's calls may do to one another is the subject of `Voip.Spsc`.
-- A sample is the 16-bit pattern of an `int16_t`; samples are only moved, and 0 is silence.
pub mod Inv
pub mod Slots
pub mod Refine
mod Tests
use signal2sip.Base.{
  ℕ, zero, suc, ◌+◌, ◌-◌, ◌*◌, ◌/◌, ◌%◌, ◌^◌, ◌≤◌, ◌<◌, ◌≡◌, refl, sym, ap, ap₂, subst, ◌∙◌, ◌≢◌,
  ◌↔◌, ◌⊎◌, inl, inr, Bool, true, false, not, ◌&&◌, ◌||◌, Option, none, some, List, [], ◌∷◌, ◌++◌,
  map, arith, ltb, leb, ◌==◌, if◌then◌else◌, ==_iff, Bool-cases, Option-cases, is_some, length,
  get_or, set, take, drop, replicate, is_empty, All, length-append, length-replicate, length-set,
  length-take-le, get_or-set_self, get_or-set_ne, take-append_left, drop-append_left, All-append,
  get_or-append_right, suc-add, get_or-replicate, Bytes, IsByte, codes, eqb, eqb_refl, eqb→eq,
  eqb_iff, Result, ok, err, ◌>>=◌, ok_or,
}
use mathlib.Core.List.{append-nil, append_assoc}

pub record RingBuffer : Type 0 where
  pub capacity : ℕ
  pub buffer : List ℕ
  pub head : ℕ
  pub tail : ℕ

-- `size_t` arithmetic.
abbrev pub size_add : ℕ → ℕ → ℕ
size_add a b = (a + b) % 2 ^ 64

abbrev pub size_sub : ℕ → ℕ → ℕ
size_sub a b = (a + 2 ^ 64 - b) % 2 ^ 64

pub create : ℕ → RingBuffer
create capacity = record { capacity = capacity; buffer = replicate capacity 0; head = 0; tail = 0 }

-- `(head - tail + capacity_) % capacity_`
abbrev pub stored : ℕ → ℕ → ℕ → ℕ
stored capacity head tail = size_add (size_sub head tail) capacity % capacity

-- The producer's `available`.
abbrev pub room : ℕ → ℕ → ℕ → ℕ
room capacity head tail = size_sub (size_sub capacity 1) (stored capacity head tail)

-- `buffer_[(head + i) % capacity_] = data[i]` for each remaining `i`.
pub write_from : ℕ → ℕ → ℕ → List ℕ → List ℕ → List ℕ
write_from capacity head i [] buffer = buffer
write_from capacity head i (x ∷ samples) buffer =
    write_from capacity head (i + 1) samples (set buffer (size_add head i % capacity) x)

-- The list is `data[0 .. samples)`.
pub push : RingBuffer → List ℕ → RingBuffer
push r samples =
    let available = room r.capacity r.head r.tail in
    let accepted = take available samples in
    if is_empty accepted then r else record r {
      buffer = write_from r.capacity r.head 0 accepted r.buffer;
      head = size_add r.head (length accepted) % r.capacity;
    }

-- `data[i] = buffer_[(tail + i) % capacity_]` for `count` rounds from `i` on.
pub read_from : List ℕ → ℕ → ℕ → ℕ → ℕ → List ℕ
read_from buffer capacity tail i zero = []
read_from buffer capacity tail i (suc count) =
    get_or buffer (size_add tail i % capacity) 0 ∷ read_from buffer capacity tail (i + 1) count

-- The samples read, padded with silence, and the ring after the call.
pub pop : RingBuffer → ℕ → List ℕ × RingBuffer
pop r samples =
    let available = stored r.capacity r.head r.tail in
    let to_copy = if ltb samples available then samples else available in
    (
      read_from r.buffer r.capacity r.tail 0 to_copy ++ replicate (samples - to_copy) 0,
      record r { tail = size_add r.tail to_copy % r.capacity },
    )
