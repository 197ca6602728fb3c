-- ===== src/Base64/RoundTrip.antt =====
-- Decoding what was encoded.
use signal2sip.Base.{
  ℕ, ◌+◌, ◌*◌, ◌/◌, ◌%◌, ◌^◌, ◌<◌, ◌≡◌, refl, ap, Bool, true, false, not, ◌&&◌, Option, none, some,
  [], ◌∷◌, ◌++◌, arith, ◌==◌, All, Bytes, IsByte,
}
use signal2sip.Base.Bits.{passes_below, passes_below→test, bit_or-shl}
use mathlib.Core.List.{append-nil, append_assoc}
use Prim.Native.Nat.{bit_or}
use signal2sip.Base64.{
  base64_encode, base64_decode, char_of, value_of, Decoder, absorb, decode_char, decode_loop,
}

-- Every alphabet character is read back as its value, and none is the padding character.
abbrev good : ℕ → Option ℕ → Bool → Bool
good v none pad = false
good v (some w) pad = w == v && not pad

good_values : passes_below (λ v. good v (value_of (char_of v)) (char_of v == b'=')) 64 ≡ true
unfolding passes_below value_of char_of
good_values = refl

good_elim : (v : ℕ) (o : Option ℕ) (pad : Bool) → good v o pad ≡ true → (o ≡ some v) × (pad ≡ false)
good_elim v o pad h = ground arith

pub char_of_good :
    (v : ℕ) → v < 64 → (value_of (char_of v) ≡ some v) × ((char_of v == b'=') ≡ false)
char_of_good v h = good_elim v _ _ (passes_below→test _ 64 v good_values h)

-- Six bits of input at a time.
pub decode_loop-char_of :
    (d : Decoder) (v : ℕ) (cs : Bytes)
    → v < 64
    → decode_loop d (char_of v ∷ cs) ≡ decode_loop (absorb d v) cs
unfolding decode_loop decode_char
decode_loop-char_of d v cs h = ground (arith, char_of_good v h)

decode_loop-nil : (d : Decoder) → decode_loop d [] ≡ d.out
unfolding decode_loop
decode_loop-nil d = refl

pub decode_loop-pad : (d : Decoder) (cs : Bytes) → decode_loop d (b'=' ∷ cs) ≡ d.out
unfolding decode_loop
decode_loop-pad d cs = refl

-- The register with nothing waiting.
abbrev pub at : ℕ → ℕ → Bytes → Decoder
at bits buffer out = record { buffer = buffer; bits = bits; out = out }

or_six : (b v : ℕ) → v < 64 → bit_or (b * 2 ^ 6 % 2 ^ 32) v ≡ b * 64 % 2 ^ 32 + v
or_six b v h =
    let e : b * 64 % 2 ^ 32 ≡ b % 2 ^ 26 * 2 ^ 6 = omega arith in
    rw e (bit_or-shl 6 (b % 2 ^ 26) v h)

-- The register holds the last four values; older bits are never read.
abbrev low : ℕ → ℕ → ℕ
low b v = b * 64 % 2 ^ 32 + v

module _ (b : ℕ) (o : Bytes) (v : ℕ) (h : v < 64) where
  absorb_0 : absorb (at 0 b o) v ≡ at 6 (low b v) o
  unfolding absorb
  absorb_0 = rw (or_six b v h)

  absorb_6 : absorb (at 6 b o) v ≡ at 4 (low b v) (o ++ (low b v / 16 % 256) ∷ [])
  unfolding absorb
  absorb_6 = rw (or_six b v h)

  absorb_4 : absorb (at 4 b o) v ≡ at 2 (low b v) (o ++ (low b v / 4 % 256) ∷ [])
  unfolding absorb
  absorb_4 = rw (or_six b v h)

  absorb_2 : absorb (at 2 b o) v ≡ at 0 (low b v) (o ++ (low b v % 256) ∷ [])
  unfolding absorb
  absorb_2 =
      rw (or_six b v h)
        (ap (λ (t : ℕ). record { buffer = low b v; bits = 0; out = o ++ t ∷ [] }) (omega arith))

-- The bytes in a group of values.
abbrev first : ℕ → ℕ → ℕ
first v w = v * 4 + w / 16

abbrev second : ℕ → ℕ → ℕ
second w x = w % 16 * 16 + x / 4

abbrev third : ℕ → ℕ → ℕ
third x y = x % 4 * 64 + y

module _ (b : ℕ) (o : Bytes) (v w : ℕ) (hv : v < 64) (hw : w < 64) where
  decode_two :
      (cs : Bytes)
      → decode_loop (at 0 b o) (char_of v ∷ char_of w ∷ cs)
        ≡ decode_loop (at 4 (low (low b v) w) (o ++ first v w ∷ [])) cs
  decode_two cs =
      let e : low (low b v) w / 16 % 256 ≡ first v w = omega arith in
      rw (
        decode_loop-char_of (at 0 b o) v (char_of w ∷ cs) hv,
        absorb_0 b o v hv,
        decode_loop-char_of (at 6 (low b v) o) w cs hw,
        absorb_6 (low b v) o w hw,
        e,
      )

  module _ (x : ℕ) (hx : x < 64) where
    decode_three :
        (cs : Bytes)
        → decode_loop (at 0 b o) (char_of v ∷ char_of w ∷ char_of x ∷ cs)
          ≡ decode_loop (at 2 (low (low (low b v) w) x) (o ++ first v w ∷ second w x ∷ [])) cs
    decode_three cs =
        let e : low (low (low b v) w) x / 4 % 256 ≡ second w x = omega arith in
        rw (
          decode_two (char_of x ∷ cs),
          decode_loop-char_of _ x cs hx,
          absorb_4 _ _ x hx,
          e,
          append_assoc o (first v w ∷ []) (second w x ∷ []),
        )

    decode_four :
        (y : ℕ) (hy : y < 64) (cs : Bytes)
        → decode_loop (at 0 b o) (char_of v ∷ char_of w ∷ char_of x ∷ char_of y ∷ cs)
          ≡ decode_loop
              (at 0
                (low (low (low (low b v) w) x) y)
                (o ++ first v w ∷ second w x ∷ third x y ∷ []))
              cs
    decode_four y hy cs =
        let e : low (low (low (low b v) w) x) y % 256 ≡ third x y = omega arith in
        rw (
          decode_three (char_of y ∷ cs),
          decode_loop-char_of _ y cs hy,
          absorb_2 _ _ y hy,
          e,
          append_assoc o (first v w ∷ second w x ∷ []) (third x y ∷ []),
        )

or_two : (a b : ℕ) → b < 256 → bit_or (a * 2 ^ 16) (b * 2 ^ 8) ≡ a * 65536 + b * 256
or_two a b h = bit_or-shl 16 a (b * 256) (omega arith)

or_three :
    (a b c : ℕ)
    → b < 256
    → c < 256
    → bit_or (bit_or (a * 2 ^ 16) (b * 2 ^ 8)) c ≡ a * 65536 + b * 256 + c
or_three a b c h k =
    let e : a * 65536 + b * 256 ≡ (a * 256 + b) * 2 ^ 8 = omega arith in
    rw (or_two a b h, e) (bit_or-shl 8 (a * 256 + b) c k)

decode_group :
    (xs : Bytes) (b : ℕ) (o : Bytes)
    → All IsByte xs
    → decode_loop (at 0 b o) (base64_encode xs) ≡ o ++ xs
unfolding base64_encode
decode_group [] b o h = rw append-nil (decode_loop-nil (at 0 b o))
decode_group (x ∷ []) b o h =
    let n = x * 65536 in
    let e : first (n / 262144 % 64) (n / 4096 % 64) ≡ x = omega arith in
    rw (
      decode_two b o (n / 262144 % 64) (n / 4096 % 64) (omega arith) (omega arith),
      decode_loop-pad,
      e,
    )
decode_group (x ∷ y ∷ []) b o h = rw (or_two x y h.1.0) (
    let n = x * 65536 + y * 256 in
    let e : first (n / 262144 % 64) (n / 4096 % 64) ≡ x = omega arith in
    let f : second (n / 4096 % 64) (n / 64 % 64) ≡ y = omega arith in
    rw (
      decode_three b o (n / 262144 % 64) (n / 4096 % 64) (omega arith) (omega arith) (n / 64 % 64)
          (omega arith),
      decode_loop-pad,
      e,
      f,
    ))
decode_group (x ∷ y ∷ z ∷ xs) b o h = rw (or_three x y z h.1.0 h.1.1.0) (
    let n = x * 65536 + y * 256 + z in
    let e : first (n / 262144 % 64) (n / 4096 % 64) ≡ x = omega arith in
    let f : second (n / 4096 % 64) (n / 64 % 64) ≡ y = omega arith in
    let g : third (n / 64 % 64) (n % 64) ≡ z = omega arith in
    rw
      (
        decode_four b o (n / 262144 % 64) (n / 4096 % 64) (omega arith) (omega arith) (n / 64 % 64)
            (omega arith) (n % 64) (omega arith) (base64_encode xs),
        decode_group xs _ _ h.1.1.1,
        e,
        f,
        g,
      )
      (append_assoc o (x ∷ y ∷ z ∷ []) xs))

-- Every byte string comes back from its Base64 text unchanged.
pub base64_decode-base64_encode :
    (xs : Bytes) → All IsByte xs → base64_decode (base64_encode xs) ≡ xs
unfolding base64_decode
base64_decode-base64_encode xs h = decode_group xs 0 [] h
