-- ===== src/Base/Bits.antt =====
-- Shifts and masks. `x >> k` is `x / 2 ^ k` and `x & (2 ^ k - 1)` is `x % 2 ^ k`; an `|` of words
-- whose bits do not overlap is their sum.
use Prim.Native.Nat.{
  ℕ, zero, suc, ◌+◌, ◌*◌, ◌/◌, ◌^◌, ◌≤◌, ◌<◌, max, bit_or, digits, bit_or-bitwise,
}
use mathlib.Core.Path.{◌≡◌, refl, ap, ◌∙◌}
use mathlib.Core.Bool.{Bool, true, ◌&&◌}
use native.Mathlib.Nat.{pow-suc}
use native.Mathlib.Omega.{arith}

-- Whether a test passes at every number below a bound.
unfoldable pub passes_below : (ℕ → Bool) → ℕ → Bool
passes_below test zero = true
passes_below test (suc n) = passes_below test n && test n

pub passes_below→test :
    (test : ℕ → Bool) (n x : ℕ) → passes_below test n ≡ true → x < n → test x ≡ true
unfolding passes_below
passes_below→test test zero x h lt = elim lt [ ]
passes_below→test test (suc n) x h lt = ground (arith, passes_below→test test n x)

-- The binary digits of an `|`, where `n` bounds how many the left side has.
abbrev or_digits : ℕ → ℕ → ℕ → ℕ
or_digits = digits (λ b. b) max

or_digits-zero : (n x : ℕ) → x ≤ n → or_digits n x 0 ≡ x
or_digits-zero zero x le = omega arith
or_digits-zero (suc n) zero le = refl
or_digits-zero (suc n) (suc x) le = omega (arith, or_digits-zero n (suc x / 2) (omega arith))

or_digits-shl : (k n x a b : ℕ) → x ≤ n → x ≡ a * 2 ^ k → b < 2 ^ k → or_digits n x b ≡ x + b
or_digits-shl zero n x a b le e lt =
    let none_free : b ≡ 0 = omega arith in
    ap (or_digits n x) none_free ∙ or_digits-zero n x le ∙ omega arith
or_digits-shl (suc k) zero x a b le e lt = omega arith
or_digits-shl (suc k) (suc n) zero a b le e lt = omega arith
or_digits-shl (suc k) (suc n) (suc x) a b le e lt =
    let even : suc x ≡ 2 * (a * 2 ^ k) = e ∙ omega (arith, ap (λ (t : ℕ). a * t) (pow-suc 2 k)) in
    omega (
      arith,
      even,
      or_digits-shl k n (suc x / 2) a (b / 2) (omega arith) (omega (arith, even))
          (omega (arith, pow-suc 2 k)),
    )

-- `(a << k) | b` is the sum if `b` fits into the `k` bits that the shift leaves free.
pub bit_or-shl : (k a b : ℕ) → b < 2 ^ k → bit_or (a * 2 ^ k) b ≡ a * 2 ^ k + b
bit_or-shl k a b lt =
    bit_or-bitwise (a * 2 ^ k) b ∙ or_digits-shl k (a * 2 ^ k) (a * 2 ^ k) a b (omega arith) refl lt
