-- ===== src/Gendb/Png/Stored.antt =====
-- The stream that `zlibStoreUncompressed` makes is read back by a reader of RFC 1950 and RFC 1951.
use signal2sip.Base.{
  ℕ, zero, suc, ◌+◌, ◌-◌, ◌*◌, ◌/◌, ◌%◌, ◌^◌, ◌≤◌, ◌<◌, ◌≡◌, refl, sym, ap, ap₂, subst, ◌∙◌, Bool,
  true, false, ◌&&◌, Option, none, some, [], ◌∷◌, ◌++◌, arith, ltb, leb, ◌==◌, if◌then◌else◌,
  ==_iff, length, take, drop, length-append, length-take-le, take-append_left, drop-append_left,
  take-all, Bytes,
}
use signal2sip.Base.Bits.{bit_or-shl}
use mathlib.Core.List.{append_assoc}
use signal2sip.Base.{if-cases, if-true, leb→≤, take-append-drop, length-drop}
use Prim.Native.Nat.{bit_or}
use signal2sip.Gendb.Png.{
  put_be32, stored_block, max_chunk, stored_blocks, adler_loop, adler, zlib_store_uncompressed,
}

unfoldable pub after : Bytes → Option (Bytes × Bytes) → Option (Bytes × Bytes)
after chunk none = none
after chunk (some p) = some (chunk ++ p.0, p.1)

-- Stored blocks, up to the final one: what they hold, and what follows. A block of another type,
-- or whose two lengths disagree, or that ends too early, is refused.
unfoldable pub read_blocks : ℕ → Bytes → Option (Bytes × Bytes)
read_blocks (suc n) (h ∷ l0 ∷ l1 ∷ n0 ∷ n1 ∷ body) =
    let len = l0 + l1 * 256 in
    let rest = read_blocks n (drop len body) in
    if ltb h 2 && ((len + (n0 + n1 * 256) == 65535) && leb len (length body))
    then if h == 1 then some (take len body, drop len body) else after (take len body) rest
    else none
read_blocks _ _ = none

-- RFC 1950: one more than the sum of the bytes, and the sum of those sums, modulo 65521.
unfoldable pub running_sum : ℕ → Bytes → ℕ
running_sum a [] = a
running_sum a (c ∷ cs) = running_sum (a + c) cs

unfoldable pub sum_of_sums : ℕ → ℕ → Bytes → ℕ
sum_of_sums a b [] = b
sum_of_sums a b (c ∷ cs) = sum_of_sums (a + c) (b + (a + c)) cs

unfoldable pub be32 : Bytes → Option ℕ
be32 (x ∷ y ∷ z ∷ w ∷ []) = some (x * 2 ^ 24 + y * 2 ^ 16 + z * 2 ^ 8 + w)
be32 _ = none

unfoldable pub checked : Option (Bytes × Bytes) → Option Bytes
checked none = none
checked (some p) = elim (be32 (p.1)) [
  | none ↦ none
  | some v ↦
      if v == sum_of_sums 1 0 (p.0) % 65521 * 2 ^ 16 + running_sum 1 (p.0) % 65521
      then some (p.0)
      else none
]

-- The two header bytes say deflate, and are a multiple of 31.
unfoldable pub inflate : Bytes → Option Bytes
inflate (cmf ∷ flg ∷ s) =
    if (cmf % 16 == 8) && ((cmf * 256 + flg) % 31 == 0)
    then checked (read_blocks (length s) s)
    else none
inflate _ = none

adler_loop_lem :
    (a b : ℕ) (cs : Bytes)
    → adler_loop (a % 65521) (b % 65521) cs ≡ (running_sum a cs % 65521, sum_of_sums a b cs % 65521)
unfolding adler_loop running_sum sum_of_sums
adler_loop_lem a b [] = refl
adler_loop_lem a b (c ∷ cs) =
    let next : (a % 65521 + c) % 65521 ≡ (a + c) % 65521 = omega arith in
    let sum : (b % 65521 + (a % 65521 + c) % 65521) % 65521 ≡ (b + (a + c)) % 65521 = omega arith in
    ap₂ (λ x y. adler_loop x y cs) next sum ∙ adler_loop_lem (a + c) (b + (a + c)) cs

-- The loop's checksum is the one of the RFC.
pub adler_lem :
    (cs : Bytes) → adler cs ≡ sum_of_sums 1 0 cs % 65521 * 2 ^ 16 + running_sum 1 cs % 65521
unfolding adler
adler_lem cs =
    let sums : adler_loop 1 0 cs ≡ (running_sum 1 cs % 65521, sum_of_sums 1 0 cs % 65521) =
      adler_loop_lem 1 0 cs in
    ap (λ p. bit_or (p.1 * 2 ^ 16) (p.0)) sums
    ∙ bit_or-shl 16 (sum_of_sums 1 0 cs % 65521) (running_sum 1 cs % 65521) (omega arith)

be32-put : (v : ℕ) → v < 2 ^ 32 → be32 (put_be32 v) ≡ some v
unfolding be32 put_be32
be32-put v lt = ap some (omega arith)

-- What the reader asks of a block's header.
accepted :
    (flag l0 l1 n0 n1 : ℕ) (chunk s : Bytes)
    → flag < 2
    → l0 + l1 * 256 ≡ length chunk
    → l0 + l1 * 256 + (n0 + n1 * 256) ≡ 65535
    → (ltb flag 2
        && ((l0 + l1 * 256 + (n0 + n1 * 256) == 65535)
            && leb (l0 + l1 * 256) (length (chunk ++ s))))
      ≡ true
accepted flag l0 l1 n0 n1 chunk s f e k =
    let total : length (chunk ++ s) ≡ length chunk + length s = length-append chunk s in
    ground arith

module _ (n l0 l1 n0 n1 : ℕ) (chunk s : Bytes) (e : l0 + l1 * 256 ≡ length chunk)
    (k : l0 + l1 * 256 + (n0 + n1 * 256) ≡ 65535) where
  taken : take (l0 + l1 * 256) (chunk ++ s) ≡ chunk
  taken = ap (λ m. take m (chunk ++ s)) e ∙ take-append_left chunk s

  left : drop (l0 + l1 * 256) (chunk ++ s) ≡ s
  left = ap (λ m. drop m (chunk ++ s)) e ∙ drop-append_left chunk s

  last-read : read_blocks (suc n) (1 ∷ l0 ∷ l1 ∷ n0 ∷ n1 ∷ (chunk ++ s)) ≡ some (chunk, s)
  unfolding read_blocks
  last-read =
      if-true _ none (accepted 1 l0 l1 n0 n1 chunk s (omega arith) e k)
      ∙ ap₂ (λ x y. some (x, y)) taken left

  other-read :
      read_blocks (suc n) (0 ∷ l0 ∷ l1 ∷ n0 ∷ n1 ∷ (chunk ++ s)) ≡ after chunk (read_blocks n s)
  unfolding read_blocks
  other-read =
      if-true _ none (accepted 0 l0 l1 n0 n1 chunk s (omega arith) e k)
      ∙ ap₂ (λ x y. after x (read_blocks n y)) taken left

low_high : (v : ℕ) → v % 256 + v / 256 * 256 ≡ v
low_high v = omega arith

block-read :
    (n : ℕ) (chunk s : Bytes)
    → length chunk ≤ 65535
    → (read_blocks (suc n) (stored_block true chunk ++ s) ≡ some (chunk, s))
      × (read_blocks (suc n) (stored_block false chunk ++ s) ≡ after chunk (read_blocks n s))
unfolding stored_block
block-read n chunk s le =
    let len = length chunk % 2 ^ 16 in
    let size : len % 256 + len / 256 * 256 ≡ length chunk = omega arith in
    let all : len % 256 + len / 256 * 256 + ((65535 - len) % 256 + (65535 - len) / 256 * 256)
        ≡ 65535 =
      omega arith in
    (
      last-read n (len % 256) (len / 256) ((65535 - len) % 256) ((65535 - len) / 256) chunk s size
          all,
      other-read n (len % 256) (len / 256) ((65535 - len) % 256) ((65535 - len) / 256) chunk s size
          all,
    )

max_chunk_lem : max_chunk ≡ 65535
unfolding max_chunk
max_chunk_lem = refl

leb→> : (a b : ℕ) → leb a b ≡ false → b < a
leb→> a b h = ground arith

last-block :
    (m : ℕ) (cs s : Bytes)
    → leb (length cs) max_chunk ≡ true
    → read_blocks (suc m) (stored_block true (take max_chunk cs) ++ s) ≡ some (cs, s)
last-block m cs s fits =
    let small : length cs ≤ max_chunk = leb→≤ _ _ fits in
    let whole : take max_chunk cs ≡ cs = take-all max_chunk cs small in
    subst (λ x. read_blocks (suc m) (stored_block true x ++ s) ≡ some (cs, s)) (sym whole)
      ((block-read m cs s (omega (arith, max_chunk_lem))).0)

next-block :
    (m : ℕ) (cs others s : Bytes)
    → max_chunk < length cs
    → read_blocks m (others ++ s) ≡ some (drop max_chunk cs, s)
    → read_blocks (suc m) (stored_block false (take max_chunk cs) ++ others ++ s) ≡ some (cs, s)
unfolding after
next-block m cs others s gt rest =
    let room : length (take max_chunk cs) ≡ max_chunk = length-take-le max_chunk cs (omega arith) in
    ap (read_blocks (suc m)) (append_assoc (stored_block false (take max_chunk cs)) others s)
    ∙ (block-read m (take max_chunk cs) (others ++ s) (omega (arith, max_chunk_lem, room))).1
    ∙ ap (after (take max_chunk cs)) rest
    ∙ ap (λ x. some (x, s)) (take-append-drop max_chunk cs)

-- `n` bounds the blocks after the first, `m` the reader's.
blocks-read :
    (n m : ℕ) (cs s : Bytes)
    → length cs ≤ n * 65535 + 65535
    → n ≤ m
    → read_blocks (suc m) (stored_blocks (suc n) cs ++ s) ≡ some (cs, s)
unfolding stored_blocks
blocks-read zero m cs s le fuel =
    if-cases (λ x. read_blocks (suc m) (x ++ s) ≡ some (cs, s)) (leb (length cs) max_chunk)
      (last-block m cs s) (λ long. absurd (omega (arith, max_chunk_lem, leb→> _ _ long)))
blocks-read (suc n) zero cs s le fuel = absurd (omega arith)
blocks-read (suc n) (suc m) cs s le fuel =
    if-cases (λ x. read_blocks (suc (suc m)) (x ++ s) ≡ some (cs, s)) (leb (length cs) max_chunk)
      (last-block (suc m) cs s)
      (λ long.
        let gt : max_chunk < length cs = leb→> _ _ long in
        let rest : max_chunk + length (drop max_chunk cs) ≡ length cs =
          length-drop max_chunk cs (omega arith) in
        next-block (suc m) cs (stored_blocks (suc n) (drop max_chunk cs)) s gt (
          blocks-read n m (drop max_chunk cs) s (omega (arith, max_chunk_lem, rest)) (omega arith)))

length-stored_block : (b : Bool) (chunk : Bytes) → length (stored_block b chunk) ≡ 5 + length chunk
unfolding stored_block
length-stored_block b chunk = omega arith

last-longer :
    (cs : Bytes)
    → leb (length cs) max_chunk ≡ true
    → length cs < length (stored_block true (take max_chunk cs))
last-longer cs fits =
    let whole : length (take max_chunk cs) ≡ length cs =
      ap length (take-all max_chunk cs (leb→≤ _ _ fits)) in
    omega (arith, whole, length-stored_block true (take max_chunk cs))

blocks-longer :
    (n : ℕ) (cs : Bytes)
    → length cs ≤ n * 65535 + 65535
    → length cs < length (stored_blocks (suc n) cs)
unfolding stored_blocks
blocks-longer zero cs le =
    if-cases (λ (x : Bytes). length cs < length x) (leb (length cs) max_chunk)
      {x = stored_block true (take max_chunk cs)}
      {y = stored_block false (take max_chunk cs) ++ stored_blocks 0 (drop max_chunk cs)}
      (last-longer cs) (λ long. absurd (omega (arith, max_chunk_lem, leb→> _ _ long)))
blocks-longer (suc n) cs le =
    if-cases (λ (x : Bytes). length cs < length x) (leb (length cs) max_chunk)
      {x = stored_block true (take max_chunk cs)}
      {y = stored_block false (take max_chunk cs) ++ stored_blocks (suc n) (drop max_chunk cs)}
      (last-longer cs)
      (λ long.
        let gt : max_chunk < length cs = leb→> _ _ long in
        let room : length (take max_chunk cs) ≡ max_chunk =
          length-take-le max_chunk cs (omega arith) in
        let rest : max_chunk + length (drop max_chunk cs) ≡ length cs =
          length-drop max_chunk cs (omega arith) in
        let others : length (drop max_chunk cs)
            < length (stored_blocks (suc n) (drop max_chunk cs)) =
          blocks-longer n (drop max_chunk cs) (omega (arith, max_chunk_lem, rest)) in
        let longer : length cs
            < length (
                stored_block false (take max_chunk cs)
                ++ stored_blocks (suc n) (drop max_chunk cs)) =
          omega (
            arith,
            length-stored_block false (take max_chunk cs),
            length-append (stored_block false (take max_chunk cs))
                (stored_blocks (suc n) (drop max_chunk cs)),
          ) in
        longer)

read-enough :
    (k : ℕ) (cs s : Bytes)
    → length cs < k
    → read_blocks k (stored_blocks (suc (length cs)) cs ++ s) ≡ some (cs, s)
read-enough zero cs s lt = absurd (omega arith)
read-enough (suc m) cs s lt = blocks-read (length cs) m cs s (omega arith) (omega arith)

-- Whatever the data, empty or longer than a block can hold, a reader of zlib streams with stored
-- blocks, which checks the header, the blocks' lengths and the checksum of RFC 1950, gives it back.
pub inflate-zlib_store : (cs : Bytes) → inflate (zlib_store_uncompressed cs) ≡ some cs
unfolding inflate zlib_store_uncompressed checked
inflate-zlib_store cs =
    let trailer = put_be32 (adler cs) in
    let s = stored_blocks (suc (length cs)) cs ++ trailer in
    let enough : length cs < length s = omega (
      arith,
      blocks-longer (length cs) cs (omega arith),
      length-append (stored_blocks (suc (length cs)) cs) trailer,
    ) in
    let small : adler cs < 2 ^ 32 = omega (arith, adler_lem cs) in
    ap checked (read-enough (length s) cs trailer enough)
    ∙ ap
        (λ o. elim o [
          | none ↦ none
          | some v ↦
              if v == sum_of_sums 1 0 cs % 65521 * 2 ^ 16 + running_sum 1 cs % 65521
              then some cs
              else none
        ])
        (be32-put (adler cs) small)
    ∙ if-true (some cs) none ((==_iff _ _).1 (adler_lem cs))
