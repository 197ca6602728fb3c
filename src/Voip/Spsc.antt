-- ===== src/Voip/Spsc.antt =====
-- voip/ring_buffer.h with its two threads: each access to the shared members is a step, and a
-- schedule says which thread moves next. A release store and the acquire load that reads it make the
-- samples written before it visible, so the shared state of the model is one.
-- A thread's own index is written by no other, so a call's two loads are one step.
pub mod Inv
pub mod Producing
pub mod Consuming
pub mod Steps
pub mod Fifo
mod Tests
use signal2sip.Base.{
  ℕ, zero, suc, ◌+◌, ◌-◌, ◌*◌, ◌/◌, ◌%◌, ◌^◌, ◌≤◌, ◌<◌, ◌≡◌, refl, sym, ap, ap₂, subst, ◌∙◌, ◌≢◌,
  ◌↔◌, ◌⊎◌, inl, inr, Bool, true, false, not, ◌&&◌, ◌||◌, Option, none, some, List, [], ◌∷◌, ◌++◌,
  map, arith, ltb, leb, ◌==◌, if◌then◌else◌, ==_iff, Bool-cases, Option-cases, is_some, length,
  get_or, set, take, drop, replicate, is_empty, All, length-append, length-replicate, length-set,
  length-take-le, get_or-set_self, get_or-set_ne, take-append_left, drop-append_left, All-append,
  get_or-append_right, suc-add, get_or-replicate, Bytes, IsByte, codes, eqb, eqb_refl, eqb→eq,
  eqb_iff, Result, ok, err, ◌>>=◌, ok_or,
}
use mathlib.Core.List.{append-nil, append_assoc}
use signal2sip.Voip.RingBuffer.{size_add, stored, room}

-- `push`: between calls, or with `head`, `i`, the samples still to write and those written.
pub data Producer : Type 0 where
  resting : Producer
  writing : (head i : ℕ) (todo done : List ℕ) → Producer

-- `pop`: between calls, or with `tail`, `i`, how many are still to copy and those copied.
pub data Consumer : Type 0 where
  resting : Consumer
  reading : (tail i left : ℕ) (out : List ℕ) → Consumer

-- The shared members, the two threads, and what has been published and taken so far.
pub record Shared : Type 0 where
  pub capacity : ℕ
  pub buffer : List ℕ
  pub head : ℕ
  pub tail : ℕ
  pub producer : Producer
  pub consumer : Consumer
  pub sent : List ℕ
  pub received : List ℕ

pub data Event : Type 0 where
  call_push : List ℕ → Event
  producer_moves : Event
  call_pop : ℕ → Event
  consumer_moves : Event

pub begin_push : Shared → Producer → List ℕ → Shared
begin_push s resting samples =
    let accepted = take (room s.capacity s.head s.tail) samples in
    if is_empty accepted then s else record s { producer = writing s.head 0 accepted [] }
begin_push s (writing head i todo done) samples = s

-- The next iteration of the loop, or the release store of `head_`.
pub producer_step : Shared → Producer → Shared
producer_step s resting = s
producer_step s (writing head i (x ∷ todo) done) = record s {
  buffer = set s.buffer (size_add head i % s.capacity) x;
  producer = writing head (i + 1) todo (done ++ x ∷ []);
}
producer_step s (writing head i [] done) = record s {
  head = size_add head i % s.capacity;
  producer = Producer.resting;
  sent = s.sent ++ done;
}

pub begin_pop : Shared → Consumer → ℕ → Shared
begin_pop s resting samples =
    let available = stored s.capacity s.head s.tail in
    let to_copy = if ltb samples available then samples else available in
    record s { consumer = reading s.tail 0 to_copy [] }
begin_pop s (reading tail i left out) samples = s

-- The next iteration of the copying loop, or the release store of `tail_`. The silence behind the
-- samples is written to the caller's own array and touches nothing shared.
pub consumer_step : Shared → Consumer → Shared
consumer_step s resting = s
consumer_step s (reading tail i (suc left) out) = record s {
  consumer =
      reading tail (i + 1) left (out ++ get_or s.buffer (size_add tail i % s.capacity) 0 ∷ []);
}
consumer_step s (reading tail i zero out) = record s {
  tail = size_add tail i % s.capacity;
  consumer = Consumer.resting;
  received = s.received ++ out;
}

pub step : Shared → Event → Shared
step s (call_push samples) = begin_push s s.producer samples
step s producer_moves = producer_step s s.producer
step s (call_pop samples) = begin_pop s s.consumer samples
step s consumer_moves = consumer_step s s.consumer

pub run : Shared → List Event → Shared
run s [] = s
run s (e ∷ events) = run (step s e) events

pub create : ℕ → Shared
create capacity = record {
  capacity = capacity;
  buffer = replicate capacity 0;
  head = 0;
  tail = 0;
  producer = Producer.resting;
  consumer = Consumer.resting;
  sent = [];
  received = [];
}
