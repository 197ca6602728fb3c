-- ===== src/Gendb/Encoding/RoundTrip.antt =====
-- A percent-decoder gives back what `urlEncode` took.
use signal2sip.Base.{
  ℕ, ◌+◌, ◌-◌, ◌*◌, ◌/◌, ◌%◌, ◌≡◌, refl, ap, ◌∙◌, Bool, true, false, not, ◌&&◌, ◌||◌, Option, none,
  some, [], ◌∷◌, leb, ◌==◌, if◌then◌else◌, ==_iff, get_or, All, Bytes, IsByte,
}
use signal2sip.Base.Bits.{passes_below, passes_below→test}
use signal2sip.Base.{if-cases}
use signal2sip.Gendb.Encoding.{is_alnum, is_unreserved, hex, url_encode}

-- The value of a hexadecimal digit, in either case.
unfoldable pub digit_of : ℕ → Option ℕ
digit_of c =
    if leb 48 c && leb c 57
    then some (c - 48)
    else if leb 65 c && leb c 70
    then some (c - 55)
    else if leb 97 c && leb c 102
    then some (c - 87)
    else none

unfoldable pub octet : Option ℕ → Option ℕ → Option ℕ
octet (some h) (some l) = some (h * 16 + l)
octet none l = none
octet (some h) none = none

unfoldable pub prepend : Option ℕ → Option Bytes → Option Bytes
prepend (some c) (some cs) = some (c ∷ cs)
prepend none cs = none
prepend (some c) none = none

-- RFC 3986: `%` and two digits stand for an octet; any other octet stands for itself.
unfoldable pub url_decode : Bytes → Option Bytes
url_decode [] = some []
url_decode (c ∷ []) = if c == 37 then none else some (c ∷ [])
url_decode (c ∷ d ∷ []) = if c == 37 then none else prepend (some c) (url_decode (d ∷ []))
url_decode (c ∷ d ∷ e ∷ rest) =
    let plain = prepend (some c) (url_decode (d ∷ e ∷ rest)) in
    let escaped = prepend (octet (digit_of d) (digit_of e)) (url_decode rest) in
    if c == 37 then escaped else plain

-- One character that is not an escape.
decode-plain :
    (c : ℕ) (cs : Bytes)
    → (c == 37) ≡ false
    → url_decode (c ∷ cs) ≡ prepend (some c) (url_decode cs)
unfolding url_decode prepend
decode-plain c [] h = simp (h)
decode-plain c (d ∷ []) h = simp (h)
decode-plain c (d ∷ e ∷ rest) h = simp (h)

same : Option ℕ → ℕ → Bool
same none n = false
same (some m) n = m == n

-- For every octet: an unreserved one is no `%`, and the two digits say it.
good : ℕ → Bool
unfolding is_unreserved is_alnum octet digit_of same
good c =
    (not (is_unreserved c) || not (c == 37))
    && same (octet (digit_of (get_or hex (c / 16) 0)) (digit_of (get_or hex (c % 16) 0))) c

all_good : passes_below good 256 ≡ true
unfolding passes_below good is_unreserved is_alnum octet digit_of same
all_good = refl

same→eq : (o : Option ℕ) (n : ℕ) → same o n ≡ true → o ≡ some n
unfolding same
same→eq none n h = absurd cc
same→eq (some m) n h = ap some ((==_iff m n).0 h)

both : (a b : Bool) → (a && b) ≡ true → (a ≡ true) × (b ≡ true)
both true true h = (refl, refl)
both true false h = absurd cc
both false b h = absurd cc

unlike : (a b : Bool) → (not a || not b) ≡ true → a ≡ true → b ≡ false
unlike true true h e = absurd cc
unlike true false h e = refl
unlike false b h e = absurd cc

IsByte-good : (c : ℕ) → IsByte c → good c ≡ true
IsByte-good c lt = passes_below→test good 256 c all_good lt

escape :
    (c : ℕ) (cs : Bytes)
    → IsByte c
    → url_decode (37 ∷ get_or hex (c / 16) 0 ∷ get_or hex (c % 16) 0 ∷ cs)
      ≡ prepend (some c) (url_decode cs)
unfolding url_decode good
escape c cs lt = ap (λ o. prepend o (url_decode cs)) (same→eq _ c ((both _ _ (IsByte-good c lt)).1))

-- For any string of octets, a percent-decoder gives back the string that `urlEncode` took.
pub url_decode-encode : (s : Bytes) → All IsByte s → url_decode (url_encode s) ≡ some s
unfolding url_encode prepend good url_decode
url_decode-encode [] w = refl
url_decode-encode (c ∷ cs) w =
    let rest : url_decode (url_encode cs) ≡ some cs = url_decode-encode cs (w.1) in
    if-cases (λ x. url_decode x ≡ some (c ∷ cs)) (is_unreserved c)
      (λ keep.
        decode-plain c (url_encode cs) (unlike _ _ ((both _ _ (IsByte-good c (w.0))).0) keep)
        ∙ ap (prepend (some c)) rest)
      (λ change. escape c (url_encode cs) (w.0) ∙ ap (prepend (some c)) rest)
