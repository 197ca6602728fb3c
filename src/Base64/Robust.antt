-- ===== src/Base64/Robust.antt =====
-- What encoder and decoder promise of any input.
use signal2sip.Base.{
  ℕ, ◌+◌, ◌*◌, ◌/◌, ◌≤◌, ◌≡◌, refl, ◌≢◌, inl, inr, none, [], ◌∷◌, ◌++◌, arith, leb, ◌==◌,
  Bool-cases, Option-cases, length, All, length-append, All-append, Bytes, IsByte,
}
use signal2sip.Base64.{
  base64_encode, base64_decode, value_of, Decoder, start, absorb, decode_char, decode_loop,
}

-- The text of n bytes has four characters for each group of three begun: the size that the
-- encoder reserves.
pub length-base64_encode : (xs : Bytes) → length (base64_encode xs) ≡ (length xs + 2) / 3 * 4
unfolding base64_encode
length-base64_encode [] = refl
length-base64_encode (x ∷ []) = refl
length-base64_encode (x ∷ y ∷ []) = refl
length-base64_encode (x ∷ y ∷ z ∷ xs) = omega (arith, length-base64_encode xs)

absorb-IsByte : (d : Decoder) (v : ℕ) → All IsByte d.out → All IsByte (absorb d v).out
unfolding absorb
absorb-IsByte d v h = elim (Bool-cases (leb 8 (d.bits + 6))) [
  | inl e ↦ rw e (All-append IsByte d.out _ h (omega arith))
  | inr e ↦ rw e h
]

decode_char-IsByte : (d : Decoder) (c : ℕ) → All IsByte d.out → All IsByte (decode_char d c).out
unfolding decode_char
decode_char-IsByte d c h = elim (Option-cases (value_of c)) [
  | inl e ↦ rw (e, decode_char) h
  | inr (v, e) ↦ rw (e, decode_char) (absorb-IsByte d v h)
]

decode_loop-IsByte : (d : Decoder) (cs : Bytes) → All IsByte d.out → All IsByte (decode_loop d cs)
unfolding decode_loop
decode_loop-IsByte d [] h = h
decode_loop-IsByte d (c ∷ cs) h = elim (Bool-cases (c == b'=')) [
  | inl e ↦ rw e h
  | inr e ↦ rw e (decode_loop-IsByte (decode_char d c) cs (decode_char-IsByte d c h))
]

decode_loop-noise :
    (d : Decoder) (xs ys : Bytes) (c : ℕ)
    → c ≢ b'='
    → value_of c ≡ none
    → decode_loop d (xs ++ c ∷ ys) ≡ decode_loop d (xs ++ ys)
unfolding decode_loop decode_char
decode_loop-noise d [] ys c ne e = ground (arith, e)
decode_loop-noise d (x ∷ xs) ys c ne e =
    ground (arith, decode_loop-noise (decode_char d x) xs ys c ne e)

-- A character outside the alphabet that is no padding, such as a line break, may stand anywhere
-- in the text: the decoder's result is the same without it.
pub base64_decode_noise :
    (xs ys : Bytes) (c : ℕ)
    → c ≢ b'='
    → value_of c ≡ none
    → base64_decode (xs ++ c ∷ ys) ≡ base64_decode (xs ++ ys)
unfolding base64_decode
base64_decode_noise xs ys c ne e = decode_loop-noise start xs ys c ne e

-- Each accepted character adds six bits to those in the register and in the output.
absorb_bits :
    (d : Decoder) (v : ℕ)
    → 8 * length (absorb d v).out + (absorb d v).bits ≡ 8 * length d.out + d.bits + 6
unfolding absorb
absorb_bits d v = grind (arith, length-append)

decode_loop_bits :
    (d : Decoder) (cs : Bytes)
    → 8 * length (decode_loop d cs) ≤ 8 * length d.out + d.bits + 6 * length cs
unfolding decode_loop decode_char
decode_loop_bits d [] = omega arith
decode_loop_bits d (c ∷ cs) = elim (Option-cases (value_of c)) [
  | inl e ↦ rw (e, decode_char) (ground (arith, decode_loop_bits d cs))
  | inr (v, e) ↦
      rw (e, decode_char) (ground (arith, decode_loop_bits (absorb d v) cs, absorb_bits d v))
]

-- Whatever the text, the decoder returns bytes, at most three for each four characters.
pub base64_decode-IsByte :
    (cs : Bytes) → All IsByte (base64_decode cs) × (4 * length (base64_decode cs) ≤ 3 * length cs)
unfolding base64_decode
base64_decode-IsByte cs = (decode_loop-IsByte start cs tt, omega (arith, decode_loop_bits start cs))
