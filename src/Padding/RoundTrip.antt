-- ===== src/Padding/RoundTrip.antt =====
-- What padding adds is what stripping takes away.
use signal2sip.Base.{
  ℕ, zero, suc, ◌+◌, ◌-◌, ◌%◌, ◌≤◌, ◌<◌, ◌≡◌, refl, sym, ap, ◌∙◌, ◌⊎◌, inl, inr, [], ◌∷◌, ◌++◌,
  arith, ◌==◌, ==_iff, Bool-cases, length, get_or, set, take, replicate, length-append,
  length-replicate, take-append_left, get_or-append_right, suc-add, get_or-replicate, Bytes,
}
use native.Mathlib.Nat.{add-zero, add-suc}
use mathlib.Core.List.{append-nil}
use signal2sip.Padding.{
  padding_block_size, padded_message_length, copy, pad_message_body, strip_from,
  strip_padding_message_body,
}

-- The terminator and what follows it.
abbrev pub tail : ℕ → Bytes
tail k = 0x80 ∷ replicate k 0

padded_room :
    (n : ℕ)
    → (n + 2 ≤ padded_message_length (n + 1))
      × (padded_message_length (n + 1) ≤ n + 81)
      × (padded_message_length (n + 1) % 80 ≡ 0)
unfolding padded_message_length
padded_room n = ground arith

copy-replicate : (xs : Bytes) (k : ℕ) → copy xs (replicate (length xs + k) 0) ≡ xs ++ replicate k 0
unfolding copy
copy-replicate [] k = ap (λ n. replicate n 0) (omega arith)
copy-replicate (x ∷ xs) k = rw (suc-add (length xs) k) (ap (◌∷◌ x) (copy-replicate xs k))

set-append : (xs : Bytes) (y v : ℕ) (ys : Bytes) → set (xs ++ y ∷ ys) (length xs) v ≡ xs ++ v ∷ ys
set-append [] y v ys = refl
set-append (x ∷ xs) y v ys = ap (◌∷◌ x) (set-append xs y v ys)

-- The number of zero bytes behind the terminator.
abbrev zeros : Bytes → ℕ
zeros xs = padded_message_length (length xs + 1) - (length xs + 2)

pad_shape : (xs : Bytes) → pad_message_body xs ≡ xs ++ tail (zeros xs)
unfolding pad_message_body
pad_shape xs =
    let e : padded_message_length (length xs + 1) - 1 ≡ length xs + suc (zeros xs) =
      omega (arith, padded_room (length xs)) in
    rw (e, copy-replicate xs (suc (zeros xs)))
      (set-append xs 0 0x80 (replicate {A = ℕ} (zeros xs) 0))

strip_from_zero : (m : Bytes) (i : ℕ) → get_or m i 0 ≡ 0 → strip_from m (suc i) ≡ strip_from m i
unfolding strip_from
strip_from_zero m i e = ground arith

strip_from_terminator : (m : Bytes) (i : ℕ) → get_or m i 0 ≡ 0x80 → strip_from m (suc i) ≡ take i m
unfolding strip_from
strip_from_terminator m i e = ground arith

-- Down from the end over the zeros to the terminator.
strip_from-tail :
    (xs : Bytes) (k j : ℕ) → j ≤ k → strip_from (xs ++ tail k) (suc (length xs + j)) ≡ xs
strip_from-tail xs k zero h =
    strip_from_terminator (xs ++ tail k) (length xs + 0) (get_or-append_right xs (tail k) 0 0)
    ∙ ap (λ n. take n (xs ++ tail k)) (add-zero (length xs))
    ∙ take-append_left xs (tail k)
strip_from-tail xs k (suc j) h =
    strip_from_zero (xs ++ tail k) (length xs + suc j)
      (get_or-append_right xs (tail k) (suc j) 0 ∙ get_or-replicate k j 0)
    ∙ ap (strip_from (xs ++ tail k)) (add-suc (length xs) j)
    ∙ strip_from-tail xs k j (omega arith)

-- A terminator and zeros at the end are always taken away.
pub strip_padding-tail : (xs : Bytes) (k : ℕ) → strip_padding_message_body (xs ++ tail k) ≡ xs
unfolding strip_padding_message_body
strip_padding-tail xs k =
    let e : length (xs ++ tail k) ≡ suc (length xs + k) =
      omega (arith, length-append xs (tail k), length-replicate {A = ℕ} k 0) in
    ap (strip_from (xs ++ tail k)) e ∙ strip_from-tail xs k k (omega arith)

-- Stripping a padded message gives the message, whatever it ends in.
pub strip_padding-pad : (xs : Bytes) → strip_padding_message_body (pad_message_body xs) ≡ xs
strip_padding-pad xs =
    ap strip_padding_message_body (pad_shape xs) ∙ strip_padding-tail xs (zeros xs)

take-suc :
    (m : Bytes) (i : ℕ) (rest : Bytes)
    → i < length m
    → take (suc i) m ++ rest ≡ take i m ++ get_or m i 0 ∷ rest
take-suc [] i rest h = absurd (omega arith)
take-suc (x ∷ m) zero rest h = refl
take-suc (x ∷ m) (suc i) rest h = ap (◌∷◌ x) (take-suc m i rest (omega arith))

take-length : (m : Bytes) → take (length m) m ≡ m
take-length [] = refl
take-length (x ∷ m) = ap (◌∷◌ x) (take-length m)

abbrev Stripped : Bytes → Bytes → Type 0
Stripped m r = (r ≡ m) ⊎ ((k : ℕ) × (m ≡ r ++ tail k))

strip_from-Stripped :
    (m : Bytes) (i k : ℕ)
    → i ≤ length m
    → m ≡ take i m ++ replicate k 0
    → Stripped m (strip_from m i)
unfolding strip_from
strip_from-Stripped m zero k h e = inl refl
strip_from-Stripped m (suc i) k h e = elim (Bool-cases (get_or m i 0 == 0x80)) [
  | inl p ↦ rw p (
      inr (
        k,
        e
            ∙ take-suc m i (replicate k 0) h
            ∙ ap (λ (b : ℕ). take i m ++ b ∷ replicate k 0) ((==_iff _ _).0 p),
      ))
  | inr p ↦ rw p (elim (Bool-cases (get_or m i 0 == 0)) [
    | inl q ↦ rw q (
        strip_from-Stripped m i (suc k) (omega arith) (
          e
          ∙ take-suc m i (replicate k 0) h
          ∙ ap (λ (b : ℕ). take i m ++ b ∷ replicate k 0) ((==_iff _ _).0 q)))
    | inr q ↦ rw q (inl refl)
  ])
]

-- Of any message, stripping either takes away exactly a terminator and the zeros behind it, or
-- returns the message as it was.
pub strip_padding_lem :
    (m : Bytes)
    → (strip_padding_message_body m ≡ m) ⊎ ((k : ℕ) × (m ≡ strip_padding_message_body m ++ tail k))
unfolding strip_padding_message_body
strip_padding_lem m =
    strip_from-Stripped m (length m) 0 (omega arith)
      (sym (append-nil (take (length m) m) ∙ take-length m))

-- A padded message is one byte short of a whole number of blocks, has room for the terminator, and
-- grows by at most a block.
pub length-pad :
    (xs : Bytes)
    → ((length (pad_message_body xs) + 1) % padding_block_size ≡ 0)
      × (length xs < length (pad_message_body xs))
      × (length (pad_message_body xs) ≤ length xs + padding_block_size)
length-pad xs =
    rw (pad_shape xs, length-append xs (tail (zeros xs)), length-replicate {A = ℕ} (zeros xs) 0)
      (omega (arith, padded_room (length xs)))
