-- ===== src/Voip/Spsc/Fifo.antt =====
-- What the two threads' promise amounts to, for every schedule.
use signal2sip.Base.{
  ℕ, suc, ◌+◌, ◌-◌, ◌%◌, ◌^◌, ◌≤◌, ◌<◌, ◌≡◌, sym, ap, subst, ◌∙◌, ◌≢◌, List, ◌∷◌, ◌++◌, arith,
  length, length-append,
}
use signal2sip.Voip.RingBuffer.{size_add}
use signal2sip.Voip.RingBuffer.Slots.{mod-ne}
use signal2sip.Voip.Spsc.{writing, reading, Shared, Event, run, create}
use signal2sip.Voip.Spsc.Inv.{Inv, Writes, Reads}
use signal2sip.Voip.Spsc.Producing.{offset_index}
use signal2sip.Voip.Spsc.Steps.{run-Inv, create-Inv, run-capacity}

capacity-run : (n : ℕ) (es : List Event) → (run (create n) es).capacity ≡ n
unfolding create
capacity-run n es = run-capacity (create n) es

race_free :
    {s : Shared} (v : Inv s) (head i tail j left x : ℕ) (todo done out : List ℕ)
    → Writes s v.pending (writing head i (x ∷ todo) done)
    → Reads s v.pending (reading tail j (suc left) out)
    → size_add head i % s.capacity ≢ size_add tail j % s.capacity
race_free {s} v head i tail j left x todo done out w (t, e, rest, p, l) h =
    mod-ne s.capacity (r + j) (n + i - j) (omega (arith, len, e, l)) (omega (arith, w, len, e, l))
      (ap (λ (k : ℕ). k % s.capacity) there ∙ sym written ∙ h ∙ readen)
  where
    r : ℕ
    r = length s.received

    n : ℕ
    n = length v.pending

    len : n ≡ length out + length rest
    len = ap length p ∙ length-append out rest

    there : r + j + (n + i - j) ≡ r + n + i
    there = omega (arith, len, e, l)

    written : size_add head i % s.capacity ≡ (r + n + i) % s.capacity
    written =
        offset_index s.capacity head (r + n) i v.pos v.small (omega (arith, w)) (w.0 ∙ v.head_at)

    readen : size_add tail j % s.capacity ≡ (r + j) % s.capacity
    readen =
        offset_index s.capacity tail r j v.pos v.small (omega (arith, v.fits, len, e, l))
          (t ∙ v.tail_at)

-- Under every schedule of the two threads, what the consumer has taken is a prefix of what the
-- producer has published, and fewer samples than the capacity lie between the two.
pub run-create_fifo :
    (n : ℕ) (es : List Event)
    → 0 < n
    → n ≤ 2 ^ 62
    → (pending : List ℕ) × ((run (create n) es).sent ≡ (run (create n) es).received ++ pending)
      × (length pending < n)
run-create_fifo n es p h =
    let v : Inv (run (create n) es) = run-Inv es (create-Inv n p h) in
    (v.pending, v.order, subst (λ (c : ℕ). length v.pending < c) (capacity-run n es) v.fits)

-- Under every schedule the slot that the producer writes next is not the slot that the consumer
-- reads next, although neither waits for the other.
pub run-create_race_free :
    (n : ℕ) (es : List Event) (head i tail j left x : ℕ) (todo done out : List ℕ)
    → 0 < n
    → n ≤ 2 ^ 62
    → (run (create n) es).producer ≡ writing head i (x ∷ todo) done
    → (run (create n) es).consumer ≡ reading tail j (suc left) out
    → size_add head i % n ≢ size_add tail j % n
run-create_race_free n es head i tail j left x todo done out p h ep ec =
    let v : Inv (run (create n) es) = run-Inv es (create-Inv n p h) in
    subst (λ (c : ℕ). size_add head i % c ≢ size_add tail j % c) (capacity-run n es)
      (race_free v head i tail j left x todo done out
        (subst (Writes (run (create n) es) v.pending) ep v.writes)
        (subst (Reads (run (create n) es) v.pending) ec v.reads))
