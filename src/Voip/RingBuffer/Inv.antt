-- ===== src/Voip/RingBuffer/Inv.antt =====
-- The representation invariant of `RingBuffer`: indices stay in range and no `size_t` wraps.
use signal2sip.Base.{
  ℕ, ◌+◌, ◌-◌, ◌%◌, ◌^◌, ◌≤◌, ◌<◌, ◌≡◌, refl, ap, ◌∙◌, List, [], ◌∷◌, arith, ltb, if◌then◌else◌,
  length, set, take, length-replicate, length-set,
}
use native.Mathlib.Nat.{mod-lt, mod-eq_of_lt, mod-eq-sub-mod}
use native.Mathlib.Decide.{dec_lt}
use signal2sip.Voip.RingBuffer.{
  RingBuffer, size_add, size_sub, stored, room, create, write_from, push, pop,
}

pub record IsValid (r : RingBuffer) : Type 0 where
  pub pos : 0 < r.capacity
  pub small : r.capacity ≤ 2 ^ 62
  pub sized : length r.buffer ≡ r.capacity
  pub head_in : r.head < r.capacity
  pub tail_in : r.tail < r.capacity

pub create-IsValid : (n : ℕ) → 0 < n → n ≤ 2 ^ 62 → IsValid (create n)
unfolding create
create-IsValid n p h = ground (arith, length-replicate {A = ℕ} n 0)

-- A sum of two indices goes round the ring at most once.
pub mod_cases : (x c : ℕ) → x < c + c → x % c ≡ (if ltb x c then x else x - c)
mod_cases x c h = elim (dec_lt x c) [
  | yes p ↦ ground (arith, mod-eq_of_lt p)
  | no p ↦ ground (
    arith,
    mod-eq-sub-mod {n = x} {m = c} (omega arith),
    mod-eq_of_lt {n = x - c} {m = c} (omega arith),
  )
]

pub stored_cases :
    (c h t : ℕ) → c ≤ 2 ^ 62 → h < c → t < c → stored c h t ≡ (if ltb h t then h + c - t else h - t)
stored_cases c h t s p q =
    let e : size_add (size_sub h t) c ≡ h + c - t = omega arith in
    ap (λ (k : ℕ). k % c) e ∙ mod_cases (h + c - t) c (omega arith) ∙ ground arith

room_arith : (c u : ℕ) → c ≤ 2 ^ 62 → u < c → size_sub (size_sub c 1) u + u + 1 ≡ c
room_arith c u s h = omega arith

pub room_lem : (c h t : ℕ) → c ≤ 2 ^ 62 → h < c → t < c → room c h t + stored c h t + 1 ≡ c
room_lem c h t s p q =
    let lt : stored c h t < c = mod-lt (size_add (size_sub h t) c) (omega arith) in
    room_arith c (stored c h t) s lt

pub length-write_from :
    (c h i : ℕ) (xs buf : List ℕ) → length (write_from c h i xs buf) ≡ length buf
unfolding write_from
length-write_from c h i [] buf = refl
length-write_from c h i (x ∷ xs) buf =
    length-write_from c h (i + 1) xs (set buf _ x) ∙ length-set buf _ x

pub push-IsValid : (r : RingBuffer) (xs : List ℕ) → IsValid r → IsValid (push r xs)
unfolding push
push-IsValid r xs v =
    let n = take (room r.capacity r.head r.tail) xs in
    ground (
      arith,
      length-write_from r.capacity r.head 0 n r.buffer,
      mod-lt (size_add r.head (length n)) {m = r.capacity} v.pos,
    )

pub pop-IsValid : (r : RingBuffer) (n : ℕ) → IsValid r → IsValid (pop r n).1
unfolding pop
pop-IsValid r n v = ground (
  arith,
  mod-lt
      (size_add r.tail
        (if ltb n (stored r.capacity r.head r.tail) then n else stored r.capacity r.head r.tail))
      {m = r.capacity} v.pos,
)
