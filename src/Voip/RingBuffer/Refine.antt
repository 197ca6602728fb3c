-- ===== src/Voip/RingBuffer/Refine.antt =====
-- Through `contents`, a valid `RingBuffer` is a bounded queue of samples.
use signal2sip.Base.{
  ℕ, ◌+◌, ◌-◌, ◌%◌, ◌^◌, ◌≤◌, ◌<◌, ◌≡◌, sym, ap, ap₂, ◌∙◌, inl, inr, List, ◌++◌, arith, ltb,
  if◌then◌else◌, Bool-cases, length, take, drop, replicate, is_empty, length-append,
  length-replicate, length-take, is_empty→nil, take-all, drop-all,
}
use mathlib.Core.List.{append-nil}
use native.Mathlib.Nat.{mod-lt, add-zero, mod-eq_of_lt}
use signal2sip.Voip.RingBuffer.{
  RingBuffer, size_add, stored, room, write_from, push, read_from, pop,
}
use signal2sip.Voip.RingBuffer.Inv.{IsValid, mod_cases, stored_cases, room_lem}
use signal2sip.Voip.RingBuffer.Slots.{
  slots, read_from-slots, write_from-put, length-slots, slots_mod, slots-zero, put_mod, slots-put,
  take-slots, drop-slots,
}

-- The samples stored, oldest first.
abbrev pub used : RingBuffer → ℕ
used r = stored r.capacity r.head r.tail

abbrev pub contents : RingBuffer → List ℕ
contents r = slots r.buffer r.capacity r.tail (used r)

pub length-contents : (r : RingBuffer) → length (contents r) ≡ used r
length-contents r = length-slots r.buffer r.capacity r.tail (used r)

module _ (c h t : ℕ) (small : c ≤ 2 ^ 62) (head_in : h < c) (tail_in : t < c) where
  pub stored_grow :
      (m : ℕ) → stored c h t + m < c → stored c (size_add h m % c) t ≡ stored c h t + m
  stored_grow m lt =
      let e : size_add h m ≡ h + m = omega (arith, stored_cases c h t small head_in tail_in) in
      ap (λ (k : ℕ). stored c (k % c) t) e
      ∙ ground (
        arith,
        stored_cases c h t small head_in tail_in,
        stored_cases c ((h + m) % c) t small,
        mod_cases (h + m) c,
        mod-lt (h + m) {m = c},
      )

  pub stored_shrink : (m : ℕ) → m ≤ stored c h t → stored c h (size_add t m % c) ≡ stored c h t - m
  stored_shrink m le =
      let lt : stored c h t < c = mod-lt _ (omega arith) in
      let e : size_add t m ≡ t + m = omega arith in
      ap (λ (k : ℕ). stored c h (k % c)) e
      ∙ ground (
        arith,
        stored_cases c h t small head_in tail_in,
        stored_cases c h ((t + m) % c) small head_in,
        mod_cases (t + m) c,
        mod-lt (t + m) {m = c},
      )

  pub head_mod : h % c ≡ (t + stored c h t) % c
  head_mod = ground (
    arith,
    stored_cases c h t small head_in tail_in,
    mod_cases (t + stored c h t) c,
    mod_cases h c,
  )

-- A push into a valid ring appends what still fits, in order, and drops the rest: one slot of the
-- capacity always stays free.
pub push_refines :
    (r : RingBuffer) (xs : List ℕ)
    → IsValid r
    → contents (push r xs) ≡ contents r ++ take (r.capacity - 1 - length (contents r)) xs
unfolding push
push_refines r xs v =
    rw (length-contents r, fits)
      (elim (Bool-cases (is_empty accepted)) [
        | inl e ↦ rw (e, is_empty→nil accepted e) (sym (append-nil (contents r)))
        | inr e ↦ rw e stored_all
      ])
  where
    open r use {capacity, buffer, head, tail}

    accepted : List ℕ
    accepted = take (room capacity head tail) xs

    fits : capacity - 1 - used r ≡ room capacity head tail
    fits = omega (arith, room_lem capacity head tail v.small v.head_in v.tail_in)

    bound : used r + length accepted < capacity
    bound = omega (
      arith,
      room_lem capacity head tail v.small v.head_in v.tail_in,
      length-take (room capacity head tail) xs,
    )

    stored_all :
        slots
          (write_from capacity head 0 accepted buffer)
          capacity
          tail
          (stored capacity (size_add head (length accepted) % capacity) tail)
        ≡ contents r ++ accepted
    stored_all =
        ap (slots (write_from capacity head 0 accepted buffer) capacity tail)
          (stored_grow capacity head tail v.small v.head_in v.tail_in (length accepted) bound)
        ∙ ap (λ (b : List ℕ). slots b capacity tail (used r + length accepted))
            (write_from-put capacity head 0 accepted buffer (omega (arith, bound))
              ∙ put_mod buffer capacity (head + 0) (tail + used r) accepted (
                  ap (λ (k : ℕ). k % capacity) (add-zero head)
                  ∙ head_mod capacity head tail v.small v.head_in v.tail_in))
        ∙ slots-put buffer capacity tail (used r) accepted v.sized (omega (arith, bound))

-- The number of stored samples that a pop of `n` takes.
abbrev taken : RingBuffer → ℕ → ℕ
taken r n = if ltb n (used r) then n else used r

taken-cases :
    (r : RingBuffer) (n : ℕ) → (taken r n ≤ used r) × (taken r n ≤ n) × (n - taken r n ≡ n - used r)
taken-cases r n = ground arith

-- Taking or dropping `n` of the contents is taking or dropping `taken r n` of them.
take-taken :
    (r : RingBuffer) (n : ℕ) → take n (contents r) ≡ slots r.buffer r.capacity r.tail (taken r n)
take-taken r n = elim (Bool-cases (ltb n (used r))) [
  | inl e ↦ rw e (
      let split : used r ≡ n + (used r - n) = ground arith in
      ap (λ (k : ℕ). take n (slots r.buffer r.capacity r.tail k)) split
      ∙ take-slots r.buffer r.capacity r.tail n (used r - n))
  | inr e ↦ rw e (take-all n (contents r) (ground (arith, length-contents r)))
]

drop-taken :
    (r : RingBuffer) (n : ℕ)
    → drop n (contents r) ≡ slots r.buffer r.capacity (r.tail + taken r n) (used r - taken r n)
drop-taken r n = elim (Bool-cases (ltb n (used r))) [
  | inl e ↦ rw e (
      let split : used r ≡ n + (used r - n) = ground arith in
      ap (λ (k : ℕ). drop n (slots r.buffer r.capacity r.tail k)) split
      ∙ drop-slots r.buffer r.capacity r.tail n (used r - n))
  | inr e ↦ rw e (
      let none_left : 0 ≡ used r - used r = omega arith in
      drop-all n (contents r) (ground (arith, length-contents r))
      ∙ slots-zero r.buffer r.capacity (r.tail + used r)
      ∙ ap (slots r.buffer r.capacity (r.tail + used r)) none_left)
]

-- A pop from a valid ring returns as many samples as were asked for: the oldest ones stored, in
-- order, and silence behind them when there are too few; exactly the returned ones leave the ring.
pub pop_refines :
    (r : RingBuffer) (n : ℕ)
    → IsValid r
    → ((pop r n).0 ≡ take n (contents r) ++ replicate (n - length (contents r)) 0)
      × (contents (pop r n).1 ≡ drop n (contents r))
      × (length (pop r n).0 ≡ n)
unfolding pop
pop_refines r n v = (
  ap₂ ◌++◌ read (ap (λ (k : ℕ). replicate k 0) silent),
  left,
  length-append (read_from buffer capacity tail 0 m) (replicate (n - m) 0)
      ∙ ap₂ ◌+◌ (ap length read_slots ∙ length-slots buffer capacity tail m)
          (length-replicate {A = ℕ} (n - m) 0)
      ∙ omega (arith, taken-cases r n),
)
  where
    open r use {capacity, buffer, head, tail}

    m : ℕ
    m = taken r n

    silent : n - m ≡ n - length (contents r)
    silent = omega (arith, taken-cases r n, length-contents r)

    used_lt : used r < capacity
    used_lt = mod-lt _ v.pos

    no_wrap : size_add tail m ≡ tail + m
    no_wrap = omega (arith, taken-cases r n, used_lt)

    read_slots : read_from buffer capacity tail 0 m ≡ slots buffer capacity tail m
    read_slots =
        read_from-slots buffer capacity tail 0 m (omega (arith, taken-cases r n, used_lt))
        ∙ ap (λ (k : ℕ). slots buffer capacity k m) (add-zero tail)

    read : read_from buffer capacity tail 0 m ≡ take n (contents r)
    read = read_slots ∙ sym (take-taken r n)

    left : contents (pop r n).1 ≡ drop n (contents r)
    left =
        ap (slots buffer capacity (size_add tail m % capacity))
          (stored_shrink capacity head tail v.small v.head_in v.tail_in m (taken-cases r n).0)
        ∙ slots_mod buffer capacity (size_add tail m % capacity) (tail + m) (used r - m)
            (mod-eq_of_lt (mod-lt _ v.pos) ∙ ap (λ (k : ℕ). k % capacity) no_wrap)
        ∙ sym (drop-taken r n)
