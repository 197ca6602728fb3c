-- ===== src/Voip/Spsc/Steps.antt =====
-- Every step of either thread keeps the invariant, and the capacity never changes.
use signal2sip.Base.{
  ℕ, zero, suc, ◌^◌, ◌≤◌, ◌<◌, ◌≡◌, refl, sym, ◌∙◌, List, [], ◌∷◌, arith, length-replicate,
}
use native.Mathlib.Nat.{mod-eq_of_lt}
use signal2sip.Voip.RingBuffer.Slots.{slots-zero}
use signal2sip.Voip.Spsc.{
  Producer, writing, Consumer, reading, Shared, Event, call_push, producer_moves, call_pop,
  consumer_moves, begin_push, producer_step, begin_pop, consumer_step, step, run, create,
}
use signal2sip.Voip.Spsc.Inv.{Inv}
use signal2sip.Voip.Spsc.Producing.{begin_push-Inv, producer_step-Inv}
use signal2sip.Voip.Spsc.Consuming.{begin_pop-Inv, consumer_step-Inv}

-- Whatever either thread does next, the invariant holds again.
pub step-Inv : {s : Shared} (e : Event) → Inv s → Inv (step s e)
unfolding step
step-Inv {s} (call_push xs) v = begin_push-Inv v s.producer xs refl
step-Inv {s} producer_moves v = producer_step-Inv v s.producer refl
step-Inv {s} (call_pop n) v = begin_pop-Inv v s.consumer n refl
step-Inv {s} consumer_moves v = consumer_step-Inv v s.consumer v.reads

pub run-Inv : {s : Shared} (es : List Event) → Inv s → Inv (run s es)
unfolding run
run-Inv {s} [] v = v
run-Inv {s} (e ∷ es) v = run-Inv {s = step s e} es (step-Inv e v)

pub create-Inv : (n : ℕ) → 0 < n → n ≤ 2 ^ 62 → Inv (create n)
unfolding create
create-Inv n p h = record {
  pos = p;
  small = h;
  sized = length-replicate {A = ℕ} n 0;
  pending = [];
  order = refl;
  held = sym (slots-zero _ _ _);
  fits = p;
  head_at = sym (mod-eq_of_lt p);
  tail_at = sym (mod-eq_of_lt p);
  writes = tt;
  reads = tt;
}

begin_push-capacity :
    (s : Shared) (p : Producer) (xs : List ℕ) → (begin_push s p xs).capacity ≡ s.capacity
unfolding begin_push
begin_push-capacity s Producer.resting xs = ground arith
begin_push-capacity s (writing head i todo done) xs = refl

producer_step-capacity : (s : Shared) (p : Producer) → (producer_step s p).capacity ≡ s.capacity
unfolding producer_step
producer_step-capacity s Producer.resting = refl
producer_step-capacity s (writing head i [] done) = refl
producer_step-capacity s (writing head i (x ∷ todo) done) = refl

begin_pop-capacity : (s : Shared) (q : Consumer) (n : ℕ) → (begin_pop s q n).capacity ≡ s.capacity
unfolding begin_pop
begin_pop-capacity s Consumer.resting n = refl
begin_pop-capacity s (reading tail i left out) n = refl

consumer_step-capacity : (s : Shared) (q : Consumer) → (consumer_step s q).capacity ≡ s.capacity
unfolding consumer_step
consumer_step-capacity s Consumer.resting = refl
consumer_step-capacity s (reading tail i zero out) = refl
consumer_step-capacity s (reading tail i (suc left) out) = refl

pub run-capacity : (s : Shared) (es : List Event) → (run s es).capacity ≡ s.capacity
unfolding run step
run-capacity s [] = refl
run-capacity s (call_push xs ∷ es) =
    run-capacity (begin_push s s.producer xs) es ∙ begin_push-capacity s s.producer xs
run-capacity s (producer_moves ∷ es) =
    run-capacity (producer_step s s.producer) es ∙ producer_step-capacity s s.producer
run-capacity s (call_pop n ∷ es) =
    run-capacity (begin_pop s s.consumer n) es ∙ begin_pop-capacity s s.consumer n
run-capacity s (consumer_moves ∷ es) =
    run-capacity (consumer_step s s.consumer) es ∙ consumer_step-capacity s s.consumer
