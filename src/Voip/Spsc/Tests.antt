-- ===== src/Voip/Spsc/Tests.antt =====
-- Schedules of the two threads of voip/ring_buffer.h.
use signal2sip.Base.{ℕ, ◌%◌, ◌<◌, ◌≡◌, refl, ◌≢◌, List, [], ◌∷◌, ◌++◌, arith, length}
use signal2sip.Voip.RingBuffer.{size_add}
use signal2sip.Voip.Spsc.{
  writing, reading, Event, call_push, producer_moves, call_pop, step, run, create, begin_push,
  producer_step, begin_pop,
}
use signal2sip.Voip.Spsc.Fifo.{run-create_fifo, run-create_race_free}

-- The consumer copies the first sample while the producer writes a third into the freed ring.
abbrev mixed : List Event
mixed =
    call_push (5 ∷ 6 ∷ [])
    ∷ producer_moves
    ∷ producer_moves
    ∷ producer_moves
    ∷ call_pop 2
    ∷ call_push (7 ∷ 8 ∷ [])
    ∷ []

mixed_producer : (run (create 4) mixed).producer ≡ writing 2 0 (7 ∷ []) []
unfolding run step create begin_push producer_step begin_pop
mixed_producer = refl

mixed_consumer : (run (create 4) mixed).consumer ≡ reading 0 0 2 []
unfolding run step create begin_push producer_step begin_pop
mixed_consumer = refl

run-create_fifo_example :
    (pending : List ℕ) × ((run (create 4) mixed).sent ≡ (run (create 4) mixed).received ++ pending)
    × (length pending < 4)
run-create_fifo_example = run-create_fifo 4 mixed (omega arith) (omega arith)

run-create_race_free_example : size_add 2 0 % 4 ≢ size_add 0 0 % 4
run-create_race_free_example =
    run-create_race_free 4 mixed 2 0 0 0 1 7 [] [] [] (omega arith) (omega arith) mixed_producer
      mixed_consumer
