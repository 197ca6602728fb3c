-- ===== src/Voip/RingBuffer/Slots.antt =====
-- The slots of a ring by positions that never go back: position p lies at index p % c. The loops of
-- voip/ring_buffer.h are `slots` and `put` as long as no `size_t` wraps.
use signal2sip.Base.{
  ℕ, zero, suc, ◌+◌, ◌%◌, ◌^◌, ◌≤◌, ◌<◌, ◌≡◌, refl, sym, ap, ap₂, ◌∙◌, ◌≢◌, List, [], ◌∷◌, ◌++◌,
  arith, length, get_or, set, take, drop, length-set, get_or-set_self, get_or-set_ne,
  take-append_left, drop-append_left, suc-add,
}
use mathlib.Core.List.{append-nil, append_assoc}
use native.Mathlib.Nat.{mod-lt, mod-add-mod, add_assoc, add-zero, zero-add}
use signal2sip.Voip.RingBuffer.{size_add, write_from, read_from}
use signal2sip.Voip.RingBuffer.Inv.{mod_cases}

-- The samples at the `n` positions from `p` on.
pub slots : List ℕ → ℕ → ℕ → ℕ → List ℕ
slots buf c p zero = []
slots buf c p (suc n) = get_or buf (p % c) 0 ∷ slots buf c (p + 1) n

-- Samples written at the positions from `p` on.
pub put : List ℕ → ℕ → ℕ → List ℕ → List ℕ
put buf c p [] = buf
put buf c p (x ∷ xs) = put (set buf (p % c) x) c (p + 1) xs

pub read_from-slots :
    (buf : List ℕ) (c t i n : ℕ)
    → t + i + n ≤ 2 ^ 64
    → read_from buf c t i n ≡ slots buf c (t + i) n
unfolding read_from slots
read_from-slots buf c t i zero h = refl
read_from-slots buf c t i (suc n) h =
    let e : size_add t i ≡ t + i = omega arith in
    rw (e, read_from-slots buf c t (i + 1) n (omega arith), add_assoc)

pub write_from-put :
    (c h i : ℕ) (xs buf : List ℕ)
    → h + i + length xs ≤ 2 ^ 64
    → write_from c h i xs buf ≡ put buf c (h + i) xs
unfolding write_from put
write_from-put c h i [] buf le = refl
write_from-put c h i (x ∷ xs) buf le =
    let e : size_add h i ≡ h + i = omega arith in
    rw (e, write_from-put c h (i + 1) xs (set buf ((h + i) % c) x) (omega arith), add_assoc)

pub length-slots : (buf : List ℕ) (c p n : ℕ) → length (slots buf c p n) ≡ n
unfolding slots
length-slots buf c p zero = refl
length-slots buf c p (suc n) = ap suc (length-slots buf c (p + 1) n)

pub length-put : (buf : List ℕ) (c p : ℕ) (xs : List ℕ) → length (put buf c p xs) ≡ length buf
unfolding put
length-put buf c p [] = refl
length-put buf c p (x ∷ xs) = length-put (set buf (p % c) x) c (p + 1) xs ∙ length-set buf (p % c) x

next_mod : (p q c : ℕ) → p % c ≡ q % c → (p + 1) % c ≡ (q + 1) % c
next_mod p q c e = sym (mod-add-mod p c 1) ∙ ap (λ (k : ℕ). (k + 1) % c) e ∙ mod-add-mod q c 1

-- Only the position's index matters.
pub slots_mod : (buf : List ℕ) (c p q n : ℕ) → p % c ≡ q % c → slots buf c p n ≡ slots buf c q n
unfolding slots
slots_mod buf c p q zero e = refl
slots_mod buf c p q (suc n) e =
    ap₂ ◌∷◌ (ap (λ (k : ℕ). get_or buf k 0) e)
      (slots_mod buf c (p + 1) (q + 1) n (next_mod p q c e))

pub put_mod :
    (buf : List ℕ) (c p q : ℕ) (xs : List ℕ) → p % c ≡ q % c → put buf c p xs ≡ put buf c q xs
unfolding put
put_mod buf c p q [] e = refl
put_mod buf c p q (x ∷ xs) e =
    ap (λ (k : ℕ). put (set buf k x) c (p + 1) xs) e
    ∙ put_mod (set buf (q % c) x) c (p + 1) (q + 1) xs (next_mod p q c e)

-- Positions less than a ring apart have different indices.
pub mod-ne : (c a d : ℕ) → 0 < d → d < c → (a + d) % c ≢ a % c
mod-ne c a d p h e =
    let lt : a % c < c = mod-lt a (omega arith) in
    ground (arith, mod-add-mod a c d, mod_cases (a % c + d) c)

pub slots-set :
    (buf : List ℕ) (c p d n x : ℕ)
    → n ≤ d
    → d < c
    → slots (set buf ((p + d) % c) x) c p n ≡ slots buf c p n
unfolding slots
slots-set buf c p d zero x h k = refl
slots-set buf c p zero (suc n) x h k = absurd (omega arith)
slots-set buf c p (suc d) (suc n) x h k =
    let e : p + suc d ≡ p + 1 + d = omega arith in
    ap₂ ◌∷◌ (get_or-set_ne buf ((p + suc d) % c) (p % c) x 0 (mod-ne c p (suc d) (omega arith) k)) (
      ap (λ (k : ℕ). slots (set buf (k % c) x) c (p + 1) n) e
      ∙ slots-set buf c (p + 1) d n x (omega arith) (omega arith))

pub slots-zero : (buf : List ℕ) (c p : ℕ) → [] ≡ slots buf c p 0
unfolding slots
slots-zero buf c p = refl

slots-one : (buf : List ℕ) (c p : ℕ) → slots buf c p 1 ≡ get_or buf (p % c) 0 ∷ []
unfolding slots
slots-one buf c p = refl

pub slots-append :
    (buf : List ℕ) (c p m n : ℕ) → slots buf c p (m + n) ≡ slots buf c p m ++ slots buf c (p + m) n
unfolding slots
slots-append buf c p zero n =
    ap (slots buf c p) (zero-add n) ∙ ap (λ (k : ℕ). slots buf c k n) (sym (add-zero p))
slots-append buf c p (suc m) n =
    let e : p + 1 + m ≡ p + suc m = omega arith in
    ap (slots buf c p) (suc-add m n)
    ∙ ap (◌∷◌ (get_or buf (p % c) 0)) (
        slots-append buf c (p + 1) m n ∙ ap (λ (k : ℕ). slots buf c (p + 1) m ++ slots buf c k n) e)

pub slots_snoc :
    (buf : List ℕ) (c p k : ℕ)
    → slots buf c p (k + 1) ≡ slots buf c p k ++ get_or buf ((p + k) % c) 0 ∷ []
slots_snoc buf c p k =
    slots-append buf c p k 1 ∙ ap (◌++◌ (slots buf c p k)) (slots-one buf c (p + k))

-- What is written behind `k` stored samples is read back behind them.
pub slots-put :
    (buf : List ℕ) (c p k : ℕ) (xs : List ℕ)
    → length buf ≡ c
    → k + length xs ≤ c
    → slots (put buf c (p + k) xs) c p (k + length xs) ≡ slots buf c p k ++ xs
unfolding put
slots-put buf c p k [] e h = rw (add-zero, append-nil)
slots-put buf c p k (x ∷ xs) e h =
    let buf' = set buf ((p + k) % c) x in
    let here : (p + k) % c < length buf = rw e (mod-lt (p + k) (omega arith)) in
    ap (λ (n : ℕ). slots (put buf' c n xs) c p (k + suc (length xs))) (add_assoc p k 1)
    ∙ ap (slots (put buf' c (p + (k + 1)) xs) c p) (omega arith)
    ∙ slots-put buf' c p (k + 1) xs (length-set buf ((p + k) % c) x ∙ e) (omega arith)
    ∙ ap (λ (s : List ℕ). s ++ xs)
        (slots_snoc buf' c p k
          ∙ ap₂ (λ (s : List ℕ) (y : ℕ). s ++ y ∷ [])
              (slots-set buf c p k k x (omega arith) (omega arith))
              (get_or-set_self buf ((p + k) % c) x 0 here))
    ∙ append_assoc (slots buf c p k) (x ∷ []) xs

-- One more sample behind `k` stored ones.
pub slots-set_snoc :
    (buf : List ℕ) (c p k x : ℕ)
    → length buf ≡ c
    → k < c
    → slots (set buf ((p + k) % c) x) c p (k + 1) ≡ slots buf c p k ++ x ∷ []
unfolding put
slots-set_snoc buf c p k x e h = slots-put buf c p k (x ∷ []) e (omega arith)

pub get_or-slots :
    (buf : List ℕ) (c p n i : ℕ) → i < n → get_or (slots buf c p n) i 0 ≡ get_or buf ((p + i) % c) 0
unfolding slots
get_or-slots buf c p zero i h = absurd (omega arith)
get_or-slots buf c p (suc n) zero h = ap (λ (k : ℕ). get_or buf (k % c) 0) (sym (add-zero p))
get_or-slots buf c p (suc n) (suc i) h =
    get_or-slots buf c (p + 1) n i (omega arith)
    ∙ ap (λ (k : ℕ). get_or buf (k % c) 0) (omega arith)

pub take-slots : (buf : List ℕ) (c p m n : ℕ) → take m (slots buf c p (m + n)) ≡ slots buf c p m
take-slots buf c p m n =
    ap (take m) (slots-append buf c p m n)
    ∙ ap (λ (k : ℕ). take k (slots buf c p m ++ slots buf c (p + m) n))
        (sym (length-slots buf c p m))
    ∙ take-append_left (slots buf c p m) (slots buf c (p + m) n)

pub drop-slots :
    (buf : List ℕ) (c p m n : ℕ) → drop m (slots buf c p (m + n)) ≡ slots buf c (p + m) n
drop-slots buf c p m n =
    ap (drop m) (slots-append buf c p m n)
    ∙ ap (λ (k : ℕ). drop k (slots buf c p m ++ slots buf c (p + m) n))
        (sym (length-slots buf c p m))
    ∙ drop-append_left (slots buf c p m) (slots buf c (p + m) n)
