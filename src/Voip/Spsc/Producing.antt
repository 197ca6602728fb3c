-- ===== src/Voip/Spsc/Producing.antt =====
-- Every step of the thread that pushes keeps the invariant.
use signal2sip.Base.{
  ℕ, ◌+◌, ◌%◌, ◌^◌, ◌≤◌, ◌<◌, ◌≡◌, refl, sym, ap, ap₂, subst, ◌∙◌, inl, inr, List, [], ◌∷◌, ◌++◌,
  arith, Bool-cases, length, set, take, is_empty, length-append, length-set, length-take,
}
use mathlib.Core.List.{append_assoc}
use native.Mathlib.Nat.{mod-lt, mod-add-mod, add_assoc}
use signal2sip.Voip.RingBuffer.{size_add, stored, room}
use signal2sip.Voip.RingBuffer.Inv.{mod_cases, stored_cases, room_lem}
use signal2sip.Voip.RingBuffer.Slots.{slots, slots-append, slots-set, slots-set_snoc, slots-zero}
use signal2sip.Voip.Spsc.{Producer, writing, Consumer, reading, Shared, begin_push, producer_step}
use signal2sip.Voip.Spsc.Inv.{Inv, Writes, Reads}

-- An index plus an offset below the capacity does not wrap, and is a position's index.
pub offset_index :
    (c h p i : ℕ) → 0 < c → c ≤ 2 ^ 62 → i < c → h ≡ p % c → size_add h i % c ≡ (p + i) % c
offset_index c h p i pos small lt e =
    let h_lt : h < c = rw e (mod-lt p pos) in
    let no_wrap : size_add h i ≡ h + i = omega arith in
    ap (λ (k : ℕ). k % c) no_wrap ∙ ap (λ (k : ℕ). (k + i) % c) e ∙ mod-add-mod p c i

stored_pending :
    (c h t r n : ℕ)
    → 0 < c
    → c ≤ 2 ^ 62
    → n < c
    → h ≡ (r + n) % c
    → t ≡ r % c
    → (stored c h t ≡ n) × (room c h t + n < c)
stored_pending c h t r n pos small lt eh et =
    let h_lt : h < c = rw eh (mod-lt (r + n) pos) in
    let t_lt : t < c = rw et (mod-lt r pos) in
    let back : h ≡ (t + n) % c =
      eh ∙ sym (mod-add-mod r c n) ∙ ap (λ (k : ℕ). (k + n) % c) (sym et) in
    ground (
      arith,
      back,
      mod_cases (t + n) c,
      stored_cases c h t small h_lt t_lt,
      room_lem c h t small h_lt t_lt,
    )

module _ {s : Shared} (v : Inv s) where
  pub pending_stored :
      (stored s.capacity s.head s.tail ≡ length v.pending)
      × (room s.capacity s.head s.tail + length v.pending < s.capacity)
  pending_stored =
      stored_pending s.capacity s.head s.tail (length s.received) (length v.pending) v.pos v.small
        v.fits v.head_at v.tail_at

  pub begin_push-Inv : (p : Producer) (xs : List ℕ) → s.producer ≡ p → Inv (begin_push s p xs)
  unfolding begin_push
  begin_push-Inv (writing head i todo done) xs e = v
  begin_push-Inv Producer.resting xs e = elim (Bool-cases (is_empty accepted)) [
    | inl nothing ↦ rw (nothing, begin_push) v
    | inr more ↦ rw (more, begin_push) started
  ]
    where
      accepted : List ℕ
      accepted = take (room s.capacity s.head s.tail) xs

      started : Inv (record s { producer = writing s.head 0 accepted [] })
      started = record {
        pos = v.pos;
        small = v.small;
        sized = v.sized;
        pending = v.pending;
        order = v.order;
        held = v.held;
        fits = v.fits;
        head_at = v.head_at;
        tail_at = v.tail_at;
        reads = v.reads;
        writes = (
          refl,
          refl,
          sym (slots-zero _ _ _),
          omega (arith, pending_stored, length-take (room s.capacity s.head s.tail) xs),
        );
      }

  module _ (head i : ℕ) (done : List ℕ) (todo : List ℕ)
      (w : Writes s v.pending (writing head i todo done)) where
    -- Where the producer's next sample goes.
    write_index :
        i < s.capacity
        → size_add head i % s.capacity ≡ (length s.received + (length v.pending + i)) % s.capacity
    write_index lt =
        offset_index s.capacity head (length s.received + length v.pending) i v.pos v.small lt
          (w.0 ∙ v.head_at)
        ∙ ap (λ (k : ℕ). k % s.capacity) (add_assoc (length s.received) (length v.pending) i)

  write-Inv :
      (head i x : ℕ) (todo done : List ℕ)
      → Writes s v.pending (writing head i (x ∷ todo) done)
      → Inv (producer_step s (writing head i (x ∷ todo) done))
  unfolding producer_step
  write-Inv head i x todo done w = rw index (record {
    pos = v.pos;
    small = v.small;
    sized = length-set buffer _ x ∙ v.sized;
    pending = v.pending;
    order = v.order;
    held = slots-set buffer c r (n + i) n x (omega arith) (omega (arith, w)) ∙ v.held;
    fits = v.fits;
    head_at = v.head_at;
    tail_at = v.tail_at;
    reads = v.reads;
    writes = (
      w.0,
      omega (arith, w.1, length-append done (x ∷ [])),
      written,
      omega (arith, w, length-append done (x ∷ [])),
    );
  })
    where
      open s use {buffer, capacity as c}

      r : ℕ
      r = length s.received

      n : ℕ
      n = length v.pending

      index : size_add head i % c ≡ (r + (n + i)) % c
      index = write_index head i done (x ∷ todo) w (omega (arith, w))

      written :
          slots (set buffer ((r + (n + i)) % c) x) c (r + n) (length (done ++ x ∷ []))
          ≡ done ++ x ∷ []
      written =
          ap (λ (k : ℕ). slots (set buffer (k % c) x) c (r + n) (length (done ++ x ∷ [])))
            (omega (arith, w.1))
          ∙ ap (slots (set buffer ((r + n + length done) % c) x) c (r + n))
              (omega (arith, length-append done (x ∷ [])))
          ∙ slots-set_snoc buffer c (r + n) (length done) x v.sized (omega (arith, w))
          ∙ ap (λ (t : List ℕ). t ++ x ∷ []) (w.2)

  publish-Inv :
      (head i : ℕ) (done : List ℕ)
      → Writes s v.pending (writing head i [] done)
      → Inv (producer_step s (writing head i [] done))
  unfolding producer_step
  publish-Inv head i done w = record {
    pos = v.pos;
    small = v.small;
    sized = v.sized;
    pending = v.pending ++ done;
    order = ap (λ (t : List ℕ). t ++ done) v.order ∙ append_assoc s.received v.pending done;
    held =
        ap (slots s.buffer s.capacity r) grown
        ∙ slots-append s.buffer s.capacity r (length v.pending) (length done)
        ∙ ap₂ ◌++◌ v.held (w.2);
    fits = omega (arith, w, grown);
    head_at =
        write_index head i done [] w (omega (arith, w))
        ∙ ap (λ (k : ℕ). (r + k) % s.capacity) (omega (arith, w.1, grown));
    tail_at = v.tail_at;
    writes = tt;
    reads = still s.consumer v.reads;
  }
    where
      r : ℕ
      r = length s.received

      grown : length (v.pending ++ done) ≡ length v.pending + length done
      grown = length-append v.pending done

      still :
          (c : Consumer)
          → Reads s v.pending c
          → Reads (producer_step s (writing head i [] done)) (v.pending ++ done) c
      still Consumer.resting h = tt
      still (reading tail j left out) (a, b, rest, e, l) = (
        a,
        b,
        rest ++ done,
        ap (λ (t : List ℕ). t ++ done) e ∙ append_assoc out rest done,
        omega (arith, l, length-append rest done),
      )

  pub producer_step-Inv : (p : Producer) → s.producer ≡ p → Inv (producer_step s p)
  unfolding producer_step
  producer_step-Inv Producer.resting e = v
  producer_step-Inv (writing head i (x ∷ todo) done) e =
      write-Inv head i x todo done (subst (Writes s v.pending) e v.writes)
  producer_step-Inv (writing head i [] done) e =
      publish-Inv head i done (subst (Writes s v.pending) e v.writes)
