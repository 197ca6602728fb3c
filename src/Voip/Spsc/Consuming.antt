-- ===== src/Voip/Spsc/Consuming.antt =====
-- Every step of the thread that pops keeps the invariant.
use signal2sip.Base.{
  ℕ, zero, suc, ◌+◌, ◌%◌, ◌≤◌, ◌≡◌, refl, sym, ap, ◌∙◌, List, [], ◌∷◌, ◌++◌, arith, length, get_or,
  drop, length-append, drop-append_left, get_or-append_right,
}
use mathlib.Core.List.{append_assoc}
use native.Mathlib.Nat.{add-zero}
use signal2sip.Voip.RingBuffer.{size_add}
use signal2sip.Voip.RingBuffer.Slots.{slots, get_or-slots, drop-slots}
use signal2sip.Voip.Spsc.{Producer, writing, Consumer, reading, Shared, begin_pop, consumer_step}
use signal2sip.Voip.Spsc.Inv.{Inv, Writes, Reads}
use signal2sip.Voip.Spsc.Producing.{offset_index, pending_stored}

module _ {s : Shared} (v : Inv s) where
  pub begin_pop-Inv : (q : Consumer) (n : ℕ) → s.consumer ≡ q → Inv (begin_pop s q n)
  unfolding begin_pop
  begin_pop-Inv (reading tail i left out) n e = v
  begin_pop-Inv Consumer.resting n e = record {
    pos = v.pos;
    small = v.small;
    sized = v.sized;
    pending = v.pending;
    order = v.order;
    held = v.held;
    fits = v.fits;
    head_at = v.head_at;
    tail_at = v.tail_at;
    writes = v.writes;
    reads = (refl, refl, v.pending, refl, ground (arith, pending_stored v));
  }

  -- What the consumer reads next is the oldest sample that it has not copied.
  read_sample :
      (tail i left : ℕ) (out : List ℕ) (x : ℕ) (rest : List ℕ)
      → tail ≡ s.tail
      → i ≡ length out
      → v.pending ≡ out ++ x ∷ rest
      → get_or s.buffer (size_add tail i % s.capacity) 0 ≡ x
  read_sample tail i left out x rest t e p =
      let len : length v.pending ≡ length out + suc (length rest) =
        ap length p ∙ length-append out (x ∷ rest) in
      ap (λ (k : ℕ). get_or s.buffer k 0)
        (offset_index s.capacity tail (length s.received) i v.pos v.small (omega (arith, v.fits))
          (t ∙ v.tail_at))
      ∙ sym
          (get_or-slots s.buffer s.capacity (length s.received) (length v.pending) i (omega arith))
      ∙ ap (λ (l : List ℕ). get_or l i 0) (v.held ∙ p)
      ∙ ap (λ (k : ℕ). get_or (out ++ x ∷ rest) k 0) (e ∙ sym (add-zero (length out)))
      ∙ get_or-append_right out (x ∷ rest) 0 0

  read-Inv :
      (tail i left : ℕ) (out rest : List ℕ)
      → tail ≡ s.tail
      → i ≡ length out
      → v.pending ≡ out ++ rest
      → suc left ≤ length rest
      → Inv (consumer_step s (reading tail i (suc left) out))
  unfolding consumer_step
  read-Inv tail i left out [] t e p l = absurd (omega (arith, l))
  read-Inv tail i left out (x ∷ rest) t e p l =
      rw (read_sample tail i left out x rest t e p) (record {
        pos = v.pos;
        small = v.small;
        sized = v.sized;
        pending = v.pending;
        order = v.order;
        held = v.held;
        fits = v.fits;
        head_at = v.head_at;
        tail_at = v.tail_at;
        writes = v.writes;
        reads = (
          t,
          omega (arith, e, length-append out (x ∷ [])),
          rest,
          p ∙ sym (append_assoc out (x ∷ []) rest),
          omega (arith, l),
        );
      })

  take-Inv :
      (tail i : ℕ) (out rest : List ℕ)
      → tail ≡ s.tail
      → i ≡ length out
      → v.pending ≡ out ++ rest
      → Inv (consumer_step s (reading tail i 0 out))
  unfolding consumer_step
  take-Inv tail i out rest t e p = record {
    pos = v.pos;
    small = v.small;
    sized = v.sized;
    pending = rest;
    order = v.order ∙ ap (◌++◌ s.received) p ∙ sym (append_assoc s.received out rest);
    held =
        ap (λ (k : ℕ). slots s.buffer s.capacity k (length rest)) taken
        ∙ sym (drop-slots s.buffer s.capacity (length s.received) (length out) (length rest))
        ∙ ap (λ (k : ℕ). drop (length out) (slots s.buffer s.capacity (length s.received) k))
            (sym len)
        ∙ ap (drop (length out)) (v.held ∙ p)
        ∙ drop-append_left out rest;
    fits = omega (arith, v.fits, len);
    head_at = v.head_at ∙ ap (λ (k : ℕ). k % s.capacity) (omega (arith, len, taken));
    tail_at =
        offset_index s.capacity tail (length s.received) i v.pos v.small
          (omega (arith, v.fits, len, e)) (t ∙ v.tail_at)
        ∙ ap (λ (k : ℕ). k % s.capacity) (omega (arith, e, taken));
    writes = still s.producer v.writes;
    reads = tt;
  }
    where
      len : length v.pending ≡ length out + length rest
      len = ap length p ∙ length-append out rest

      taken : length (s.received ++ out) ≡ length s.received + length out
      taken = length-append s.received out

      still :
          (q : Producer)
          → Writes s v.pending q
          → Writes (consumer_step s (reading tail i 0 out)) rest q
      still Producer.resting h = tt
      still (writing head j todo done) (a, b, w, l) = (
        a,
        b,
        ap (λ (k : ℕ). slots s.buffer s.capacity k (length done)) (omega (arith, len, taken)) ∙ w,
        omega (arith, l, len),
      )

  pub consumer_step-Inv : (q : Consumer) → Reads s v.pending q → Inv (consumer_step s q)
  unfolding consumer_step
  consumer_step-Inv Consumer.resting h = v
  consumer_step-Inv (reading tail i zero out) (t, e, rest, p, l) = take-Inv tail i out rest t e p
  consumer_step-Inv (reading tail i (suc left) out) (t, e, rest, p, l) =
      read-Inv tail i left out rest t e p l
