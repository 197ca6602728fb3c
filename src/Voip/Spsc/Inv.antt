-- ===== src/Voip/Spsc/Inv.antt =====
-- What holds between any two steps of the two threads.
use signal2sip.Base.{ℕ, ◌+◌, ◌%◌, ◌^◌, ◌≤◌, ◌<◌, ◌≡◌, List, ◌++◌, length}
use signal2sip.Voip.RingBuffer.Slots.{slots}
use signal2sip.Voip.Spsc.{Producer, writing, Consumer, reading, Shared}

-- A producer in a call has written `done` behind what is published, and its `todo` fits.
abbrev pub Writes : Shared → List ℕ → Producer → Type 0
Writes s pending Producer.resting = Unit
Writes s pending (writing head i todo done) =
    (head ≡ s.head)
    × (i ≡ length done)
    × (slots s.buffer s.capacity (length s.received + length pending) (length done) ≡ done)
    × (length pending + length done + length todo < s.capacity)

-- A consumer in a call has copied the oldest pending samples, and what it still copies is pending.
abbrev pub Reads : Shared → List ℕ → Consumer → Type 0
Reads s pending Consumer.resting = Unit
Reads s pending (reading tail i left out) =
    (tail ≡ s.tail)
    × (i ≡ length out)
    × (rest : List ℕ) × (pending ≡ out ++ rest)
    × (left ≤ length rest)

-- `pending` are the samples published and not yet taken.
pub record Inv (s : Shared) : Type 0 where
  pub pos : 0 < s.capacity
  pub small : s.capacity ≤ 2 ^ 62
  pub sized : length s.buffer ≡ s.capacity
  pub pending : List ℕ
  pub order : s.sent ≡ s.received ++ pending
  pub held : slots s.buffer s.capacity (length s.received) (length pending) ≡ pending
  pub fits : length pending < s.capacity
  pub head_at : s.head ≡ (length s.received + length pending) % s.capacity
  pub tail_at : s.tail ≡ length s.received % s.capacity
  pub writes : Writes s pending s.producer
  pub reads : Reads s pending s.consumer
