-- ===== src/Config/Ini/Assign.antt =====
-- What a line `key=value` of the file does to a later `getOr`.
use signal2sip.Base.{
  ℕ, ◌≡◌, refl, ap, ◌∙◌, Bool, true, false, ◌&&◌, ◌||◌, none, some, [], ◌∷◌, ◌++◌, arith, ◌==◌,
  if◌then◌else◌, Option-cases, get_or, is_empty, Bytes, eqb,
}
use signal2sip.Base.Dict.{find, upsert, find-upsert}
use signal2sip.Config.Ini.{
  Reader, is_space, trim_start, trim_end, trim, split_eq, read_line, ini_get_or,
}

-- Without blanks at either end.
pub record IsTrimmed (s : Bytes) : Type 0 where
  pub start : is_space (get_or s 0 0) ≡ false
  pub end : trim_end s ≡ s

-- A key that no other kind of line starts with.
pub record IsKey (key : Bytes) : Type 0 where
  pub trimmed : IsTrimmed key
  pub nonempty : is_empty key ≡ false
  pub no_comment : ((get_or key 0 0 == 59) || (get_or key 0 0 == 35)) ≡ false
  pub no_section : (get_or key 0 0 == 91) ≡ false
  pub no_eq : split_eq key ≡ none

nonempty-append : (s : Bytes) (c : ℕ) (t : Bytes) → is_empty (s ++ c ∷ t) ≡ false
nonempty-append [] c t = refl
nonempty-append (d ∷ s) c t = refl

trim_end-append :
    (s t : Bytes) (c : ℕ) → is_space c ≡ false → trim_end t ≡ t → trim_end (s ++ c ∷ t) ≡ s ++ c ∷ t
unfolding trim_end
trim_end-append [] t c h e = ground (arith, e)
trim_end-append (d ∷ s) t c h e =
    let rest : trim_end (s ++ c ∷ t) ≡ s ++ c ∷ t = trim_end-append s t c h e in
    let full : is_empty (s ++ c ∷ t) ≡ false = nonempty-append s c t in rw rest (rw full refl)

trim_start_self : (s : Bytes) → is_space (get_or s 0 0) ≡ false → trim_start s ≡ s
unfolding trim_start
trim_start_self [] h = refl
trim_start_self (c ∷ s) h = ground (arith, h)

head-append : (s t : Bytes) → is_empty s ≡ false → get_or (s ++ t) 0 0 ≡ get_or s 0 0
head-append [] t n = cc
head-append (c ∷ s) t n = refl

split_eq-append : (s t : Bytes) → split_eq s ≡ none → split_eq (s ++ 61 ∷ t) ≡ some (s, t)
unfolding split_eq
split_eq-append [] t h = refl
split_eq-append (c ∷ s) t h = ground (arith, split_eq-append s t, Option-cases (split_eq s))

trim-line :
    (key value : Bytes) → IsKey key → IsTrimmed value → trim (key ++ 61 ∷ value) ≡ key ++ 61 ∷ value
unfolding trim
trim-line key value k v =
    let first : get_or (key ++ 61 ∷ value) 0 0 ≡ get_or key 0 0 =
      head-append key (61 ∷ value) k.nonempty in
    ap trim_end (trim_start_self (key ++ 61 ∷ value) (ap is_space first ∙ k.trimmed.start))
    ∙ trim_end-append key value 61 refl v.end

pub trim_self : (s : Bytes) → IsTrimmed s → trim s ≡ s
unfolding trim
trim_self s h = ap trim_end (trim_start_self s h.start) ∙ h.end

pub read_line-assign :
    (r : Reader) (key value : Bytes)
    → IsKey key
    → IsTrimmed value
    → read_line r (key ++ 61 ∷ value) ≡ record r { result = upsert r.section key value r.result }
unfolding read_line
read_line-assign r key value k v = rw (trim-line key value k v) (
    rw (split_eq-append key value k.no_eq) (
      rw (trim_self key k.trimmed) (
        rw (trim_self value v) (
          rw (head-append key (61 ∷ value) k.nonempty)
            (rw (k.no_comment) (rw (k.no_section) (rw (nonempty-append key 61 value) refl)))))))

-- After a line `key=value`, whatever the value contains, the setting reads as the value, or as the
-- fallback if the value is empty; every other setting, of any section, reads as before.
pub ini_get_or-assign :
    (r : Reader) (key value s k fallback : Bytes)
    → IsKey key
    → IsTrimmed value
    → ini_get_or (read_line r (key ++ 61 ∷ value)).result s k fallback ≡ (
        if eqb s r.section && eqb k key
        then (if is_empty value then fallback else value)
        else ini_get_or r.result s k fallback)
unfolding ini_get_or
ini_get_or-assign r key value s k fallback h v = rw (read_line-assign r key value h v) (
    rw (find-upsert r.section key s k value r.result, ini_get_or)
      (branches (eqb s r.section && eqb k key)))
  where
    branches :
        (b : Bool)
        → elim (if b then some value else find s k r.result) [
          | none ↦ fallback
          | some w ↦ if is_empty w then fallback else w
        ]
          ≡ (if b then (if is_empty value then fallback else value) else elim (find s k r.result) [
            | none ↦ fallback
            | some w ↦ if is_empty w then fallback else w
          ])
    branches true = refl
    branches false = refl
