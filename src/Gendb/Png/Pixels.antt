-- ===== src/Gendb/Png/Pixels.antt =====
-- The pixels of the image that `writeQrPng` makes.
use signal2sip.Base.{
  ℕ, zero, suc, ◌+◌, ◌-◌, ◌*◌, ◌/◌, ◌%◌, ◌^◌, ◌≤◌, ◌<◌, ◌≡◌, refl, sym, ap, subst, ◌∙◌, ◌≢◌, inl,
  inr, Bool, true, false, ◌&&◌, [], ◌∷◌, arith, ltb, ◌==◌, if◌then◌else◌, ==_iff, Bool-cases,
  length, get_or, set, drop, replicate, All, length-replicate, length-set, get_or-set_self,
  get_or-set_ne, Bytes, IsByte,
}
use signal2sip.Base.Bits.{passes_below, passes_below→test}
use signal2sip.Base.{if-cases, if-true, if-false}
use Prim.Native.Nat.{bit_and}
use signal2sip.Gendb.Png.{QrCode, is_dark, clear_pixel, fill_row, png_row}

-- A pixel of a row of one bit each, the leftmost in the highest bit; 1 is white.
pub pixel : Bytes → ℕ → ℕ
pixel row x = get_or row (x / 8) 0 / 2 ^ (7 - x % 8) % 2

-- Clearing bit `k` from the left clears that one and leaves another bit `j`, for every octet.
clears : ℕ → ℕ → ℕ → Bool
clears k j b =
    (bit_and b (255 - 128 / 2 ^ k) / 2 ^ (7 - j) % 2 == (if j == k then 0 else b / 2 ^ (7 - j) % 2))
    && ltb (bit_and b (255 - 128 / 2 ^ k)) 256

clears_octets : ℕ → ℕ → Bool
clears_octets k j = passes_below (clears k j) 256

clears_row : ℕ → Bool
clears_row k = passes_below (clears_octets k) 8

all_clear : passes_below clears_row 8 ≡ true
unfolding passes_below clears_row clears_octets clears
all_clear = refl

clears_lem : (k j b : ℕ) → k < 8 → j < 8 → b < 256 → clears k j b ≡ true
unfolding clears_row clears_octets
clears_lem k j b lk lj lb =
    passes_below→test (clears k j) 256 b
      (passes_below→test (clears_octets k) 8 j (passes_below→test clears_row 8 k all_clear lk) lj)
      lb

module _ (k j b : ℕ) (lk : k < 8) (lj : j < 8) (lb : b < 256) where
  cleared-bit :
      bit_and b (255 - 128 / 2 ^ k) / 2 ^ (7 - j) % 2 ≡ (if j == k then 0 else b / 2 ^ (7 - j) % 2)
  unfolding clears
  cleared-bit = ground (arith, clears_lem k j b lk lj lb)

  cleared-octet : bit_and b (255 - 128 / 2 ^ k) < 256
  unfolding clears
  cleared-octet = ground (arith, clears_lem k j b lk lj lb)

IsByte-get_or : (row : Bytes) (i : ℕ) → All IsByte row → get_or row i 0 < 256
IsByte-get_or [] i w = omega arith
IsByte-get_or (c ∷ row) zero w = w.0
IsByte-get_or (c ∷ row) (suc i) w = IsByte-get_or row i (w.1)

set-All : (row : Bytes) (i v : ℕ) → All IsByte row → v < 256 → All IsByte (set row i v)
set-All [] i v w lt = tt
set-All (c ∷ row) zero v w lt = (lt, w.1)
set-All (c ∷ row) (suc i) v w lt = (w.0, set-All row i v (w.1) lt)

replicate-All : (n : ℕ) → All IsByte (replicate n 0xFF)
replicate-All zero = tt
replicate-All (suc n) = (omega arith, replicate-All n)

-- A row of octets with room for `n` pixels.
record HasRoom (n : ℕ) (row : Bytes) : Type 0 where
  room : n ≤ length row * 8
  octets : All IsByte row

clear-HasRoom : (n x : ℕ) (row : Bytes) → HasRoom n row → HasRoom n (clear_pixel x row)
unfolding clear_pixel
clear-HasRoom n x row w = record {
  room = omega (
    arith,
    length-set row (x / 8) (bit_and (get_or row (x / 8) 0) (255 - 128 / 2 ^ (x % 8))),
    w.room,
  );
  octets = set-All row (x / 8) _ w.octets (
      cleared-octet (x % 8) 0 (get_or row (x / 8) 0) (omega arith) (omega arith)
        (IsByte-get_or row (x / 8) w.octets));
}

clear_self : (n x : ℕ) (row : Bytes) → x < n → HasRoom n row → pixel (clear_pixel x row) x ≡ 0
unfolding clear_pixel pixel
clear_self n x row lt w =
    let old = get_or row (x / 8) 0 in
    ap (λ b. b / 2 ^ (7 - x % 8) % 2) (get_or-set_self row (x / 8) _ 0 (omega (arith, w.room)))
    ∙ cleared-bit (x % 8) (x % 8) old (omega arith) (omega arith)
        (IsByte-get_or row (x / 8) w.octets)
    ∙ if-true 0 (old / 2 ^ (7 - x % 8) % 2) ((==_iff (x % 8) (x % 8)).1 refl)

clear_other :
    (n x j : ℕ) (row : Bytes)
    → x < n
    → x ≢ j
    → HasRoom n row
    → pixel (clear_pixel x row) j ≡ pixel row j
unfolding clear_pixel pixel
clear_other n x j row lt ne w =
    let old = get_or row (x / 8) 0 in
    let new = bit_and old (255 - 128 / 2 ^ (x % 8)) in
    elim (Bool-cases (x / 8 == j / 8)) [
      | inl e ↦
          let same : x / 8 ≡ j / 8 = (==_iff _ _).0 e in
          let apart : (j % 8 == x % 8) ≡ false = ground arith in
          subst
            (λ i.
              get_or (set row (x / 8) new) i 0 / 2 ^ (7 - j % 8) % 2
              ≡ get_or row i 0 / 2 ^ (7 - j % 8) % 2)
            same
            (ap (λ b. b / 2 ^ (7 - j % 8) % 2)
                (get_or-set_self row (x / 8) new 0 (omega (arith, w.room)))
              ∙ cleared-bit (x % 8) (j % 8) old (omega arith) (omega arith)
                  (IsByte-get_or row (x / 8) w.octets)
              ∙ if-false 0 _ apart)
      | inr e ↦
          let differ : x / 8 ≢ j / 8 = λ h. ground (arith, h, e) in
          ap (λ b. b / 2 ^ (7 - j % 8) % 2) (get_or-set_ne row (x / 8) (j / 8) new 0 differ)
    ]

module _ (dark : ℕ → Bool) where
  fill-before :
      (x n m j : ℕ) (row : Bytes)
      → x + n ≤ m
      → j < x
      → HasRoom m row
      → pixel (fill_row dark x n row) j ≡ pixel row j
  unfolding fill_row
  fill-before x zero m j row le lt w = refl
  fill-before x (suc n) m j row le lt w =
      if-cases (λ r. pixel (fill_row dark (x + 1) n r) j ≡ pixel row j) (dark x)
        (λ e.
          fill-before (x + 1) n m j (clear_pixel x row) (omega arith) (omega arith)
            (clear-HasRoom m x row w)
          ∙ clear_other m x j row (omega arith) (λ h. omega (arith, h)) w)
        (λ e. fill-before (x + 1) n m j row (omega arith) (omega arith) w)

  fill-here :
      (x n m : ℕ) (row : Bytes)
      → x + suc n ≤ m
      → HasRoom m row
      → pixel (fill_row dark x (suc n) row) x ≡ (if dark x then 0 else pixel row x)
  unfolding fill_row
  fill-here x n m row le w = elim (Bool-cases (dark x)) [
    | inl e ↦
        ap (λ r. pixel (fill_row dark (x + 1) n r) x) (if-true (clear_pixel x row) row e)
        ∙ fill-before (x + 1) n m x (clear_pixel x row) (omega arith) (omega arith)
            (clear-HasRoom m x row w)
        ∙ clear_self m x row (omega arith) w
        ∙ sym (if-true 0 (pixel row x) e)
    | inr e ↦
        ap (λ r. pixel (fill_row dark (x + 1) n r) x) (if-false (clear_pixel x row) row e)
        ∙ fill-before (x + 1) n m x row (omega arith) (omega arith) w
        ∙ sym (if-false 0 (pixel row x) e)
  ]

  fill-in :
      (x n m j : ℕ) (row : Bytes)
      → x + n ≤ m
      → x ≤ j
      → j < x + n
      → HasRoom m row
      → pixel (fill_row dark x n row) j ≡ (if dark j then 0 else pixel row j)
  unfolding fill_row
  fill-in x zero m j row le ge lt w = absurd (omega arith)
  fill-in x (suc n) m j row le ge lt w = elim (Bool-cases (x == j)) [
    | inl e ↦
        let same : x ≡ j = (==_iff x j).0 e in
        subst (λ i. pixel (fill_row dark x (suc n) row) i ≡ (if dark i then 0 else pixel row i))
          same (fill-here x n m row le w)
    | inr e ↦
        let apart : x ≢ j = λ h. ground (arith, h, e) in
        let later : x + 1 ≤ j = ground arith in
        if-cases (λ r. pixel (fill_row dark (x + 1) n r) j ≡ (if dark j then 0 else pixel row j))
          (dark x)
          (λ d.
            fill-in (x + 1) n m j (clear_pixel x row) (omega arith) later (omega arith)
              (clear-HasRoom m x row w)
            ∙ ap (λ p. if dark j then 0 else p) (clear_other m x j row (omega arith) apart w))
          (λ d. fill-in (x + 1) n m j row (omega arith) later (omega arith) w)
  ]

get_or-white : (n i : ℕ) → i < n → get_or {A = ℕ} (replicate n 0xFF) i 0 ≡ 0xFF
get_or-white zero i lt = absurd (omega arith)
get_or-white (suc n) zero lt = refl
get_or-white (suc n) (suc i) lt = get_or-white n i (omega arith)

white_at : ℕ → Bool
white_at k = 0xFF / 2 ^ (7 - k) % 2 == 1

all_white : passes_below white_at 8 ≡ true
unfolding passes_below white_at
all_white = refl

white_bit : (k : ℕ) → k < 8 → 0xFF / 2 ^ (7 - k) % 2 ≡ 1
unfolding white_at
white_bit k lt = (==_iff _ 1).0 (passes_below→test white_at 8 k all_white lt)

white : (n x : ℕ) → x / 8 < n → pixel (replicate n 0xFF) x ≡ 1
unfolding pixel
white n x lt =
    let byte : get_or {A = ℕ} (replicate n 0xFF) (x / 8) 0 ≡ 0xFF = get_or-white n (x / 8) lt in
    ap (λ b. b / 2 ^ (7 - x % 8) % 2) byte ∙ white_bit (x % 8) (omega arith)

-- In the image, of `scale` pixels for each module, the pixel in column `x` and row `y` is black
-- where the QR code's module there is dark, and white elsewhere: in the quiet zone of four
-- modules, and for light modules.
pub png_row-pixel :
    (qr : QrCode) (scale size x y : ℕ)
    → x < size
    → pixel (drop 1 (png_row qr scale size y)) x
      ≡ (if is_dark qr (x / scale) (y / scale) then 0 else 1)
unfolding png_row
png_row-pixel qr scale size x y lt =
    let blank : Bytes = replicate ((size + 7) / 8) 0xFF in
    let w : HasRoom size blank = record {
      room = omega (arith, length-replicate {A = ℕ} ((size + 7) / 8) 0xFF);
      octets = replicate-All ((size + 7) / 8);
    } in
    fill-in (λ z. is_dark qr (z / scale) (y / scale)) 0 size size x blank (omega arith)
      (omega arith) (omega arith) w
    ∙ ap (λ p. if is_dark qr (x / scale) (y / scale) then 0 else p)
        (white ((size + 7) / 8) x (omega arith))
