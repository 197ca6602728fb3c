-- ===== src/Gendb/Bootstrap/Appended.antt =====
-- How the reader of the configuration sees a text that is appended to a file.
use signal2sip.Base.{
  ℕ, ◌≡◌, refl, sym, ap, ◌∙◌, ◌⊎◌, inl, inr, false, Option, none, some, List, [], ◌∷◌, ◌++◌, ◌==◌,
  Bool-cases, All, All-append, Bytes, codes,
}
use mathlib.Core.List.{append-nil, append_assoc}
use signal2sip.Base.{if-true, if-false}
use signal2sip.Config.Ini.{
  Reader, read_line, read_lines, prepend, lines_of, trim_start, trim_end, trim, split_eq, last_byte,
}
use signal2sip.Gendb.Bootstrap.{setting_line, appended}

prepend-append :
    (c : ℕ) (l : Bytes) (ls ms : List Bytes) → prepend c (l ∷ ls ++ ms) ≡ prepend c (l ∷ ls) ++ ms
unfolding prepend
prepend-append c l ls ms = refl

-- A text and a newline make a line at least.
record Lines (t : Bytes) : Type 0 where
  first : Bytes
  others : List Bytes
  all : lines_of (t ++ 10 ∷ []) ≡ first ∷ others

lines : (t : Bytes) → Lines t
unfolding lines_of prepend
lines [] = record { first = []; others = []; all = refl }
lines (c ∷ t) =
    let rest : Lines t = lines t in
    elim (Bool-cases (c == 10)) [
      | inl e ↦ record {
        first = [];
        others = rest.first ∷ rest.others;
        all = if-true _ _ e ∙ ap (◌∷◌ []) rest.all;
      }
      | inr e ↦ record {
        first = c ∷ rest.first;
        others = rest.others;
        all = if-false _ _ e ∙ ap (prepend c) rest.all;
      }
    ]

lines_of-append : (t s : Bytes) → lines_of (t ++ 10 ∷ s) ≡ lines_of (t ++ 10 ∷ []) ++ lines_of s
unfolding lines_of prepend
lines_of-append [] s = refl
lines_of-append (c ∷ t) s =
    let rest : lines_of (t ++ 10 ∷ s) ≡ lines_of (t ++ 10 ∷ []) ++ lines_of s =
      lines_of-append t s in
    let l : Lines t = lines t in
    elim (Bool-cases (c == 10)) [
      | inl e ↦ if-true _ _ e ∙ ap (◌∷◌ []) rest ∙ ap (λ x. x ++ lines_of s) (sym (if-true _ _ e))
      | inr e ↦
          if-false _ _ e
          ∙ ap (prepend c) rest
          ∙ ap (λ x. prepend c (x ++ lines_of s)) l.all
          ∙ ap (λ x. prepend c x ++ lines_of s) (sym l.all)
          ∙ ap (λ x. x ++ lines_of s) (sym (if-false _ _ e))
    ]

prepend-ends :
    (c : ℕ) (ls : List Bytes)
    → (prepend c (ls ++ [] ∷ []) ≡ prepend c ls)
      ⊎ (prepend c (ls ++ [] ∷ []) ≡ prepend c ls ++ [] ∷ [])
unfolding prepend
prepend-ends c [] = inl refl
prepend-ends c (l ∷ ls) = inr refl

-- A newline at the end adds nothing, or an empty line.
ends :
    (t : Bytes)
    → (lines_of (t ++ 10 ∷ []) ≡ lines_of t) ⊎ (lines_of (t ++ 10 ∷ []) ≡ lines_of t ++ [] ∷ [])
unfolding lines_of prepend
ends [] = inr refl
ends (c ∷ t) = elim (Bool-cases (c == 10)) [
  | inl e ↦ elim (ends t) [
    | inl h ↦ inl (if-true _ _ e ∙ ap (◌∷◌ []) h ∙ sym (if-true _ _ e))
    | inr h ↦ inr (
        if-true _ _ e
        ∙ ap (◌∷◌ []) h
        ∙ ap (λ x. x ++ [] ∷ []) (sym (if-true ([] ∷ lines_of t) _ e)))
  ]
  | inr e ↦ elim (ends t) [
    | inl h ↦ inl (if-false _ _ e ∙ ap (prepend c) h ∙ sym (if-false _ _ e))
    | inr h ↦ elim (prepend-ends c (lines_of t)) [
      | inl k ↦ inl (if-false _ _ e ∙ ap (prepend c) h ∙ k ∙ sym (if-false _ _ e))
      | inr k ↦ inr (
          if-false _ _ e
          ∙ ap (prepend c) h
          ∙ k
          ∙ ap (λ x. x ++ [] ∷ []) (sym (if-false _ (prepend c (lines_of t)) e)))
    ]
  ]
]

read_lines-append :
    (r : Reader) (a b : List Bytes) → read_lines r (a ++ b) ≡ read_lines (read_lines r a) b
unfolding read_lines
read_lines-append r [] b = refl
read_lines-append r (l ∷ a) b = read_lines-append (read_line r l) a b

empty_line : (r : Reader) → read_line r [] ≡ r
unfolding read_line trim trim_start trim_end
empty_line r = refl

section_line : (r : Reader) → read_line r (codes "[global]") ≡ record r { section = codes "global" }
unfolding read_line trim trim_start trim_end last_byte split_eq
section_line r = refl

-- A text after a newline is read after the lines of the text before.
pub read_lines-lines_of :
    (r : Reader) (t s : Bytes)
    → read_lines r (lines_of (t ++ 10 ∷ s)) ≡ read_lines (read_lines r (lines_of t)) (lines_of s)
unfolding read_lines
read_lines-lines_of r t s =
    ap (read_lines r) (lines_of-append t s)
    ∙ read_lines-append r (lines_of (t ++ 10 ∷ [])) (lines_of s)
    ∙ ap (λ x. read_lines x (lines_of s))
        (elim (ends t) [
          | inl e ↦ ap (read_lines r) e
          | inr e ↦
              ap (read_lines r) e
              ∙ read_lines-append r (lines_of t) ([] ∷ [])
              ∙ empty_line (read_lines r (lines_of t))
        ])

-- A line without a newline in it.
pub lines_of-line :
    (l s : Bytes) → All (λ c. (c == 10) ≡ false) l → lines_of (l ++ 10 ∷ s) ≡ l ∷ lines_of s
unfolding lines_of prepend
lines_of-line [] s w = refl
lines_of-line (c ∷ l) s w = if-false _ _ (w.0) ∙ ap (prepend c) (lines_of-line l s (w.1))

-- What a line of the section does.
unfoldable pub assigned : Bytes → Option Bytes → Reader → Reader
assigned key none r = r
assigned key (some value) r = read_line r (key ++ 61 ∷ value)

unfoldable pub IsLine : Option Bytes → Type 0
IsLine none = Unit
IsLine (some value) = All (λ c. (c == 10) ≡ false) value

read_lines-setting :
    (r : Reader) (key : Bytes) (o : Option Bytes) (s : Bytes)
    → All (λ c. (c == 10) ≡ false) key
    → IsLine o
    → read_lines r (lines_of (setting_line key o ++ s)) ≡ read_lines (assigned key o r) (lines_of s)
unfolding setting_line assigned read_lines IsLine
read_lines-setting r key none s h w = refl
read_lines-setting r key (some value) s h w =
    ap (λ x. read_lines r (lines_of x)) (append_assoc (key ++ (61 ∷ value)) (10 ∷ []) s)
    ∙ ap (read_lines r) (
        lines_of-line (key ++ (61 ∷ value)) s
          (All-append (λ c. (c == 10) ≡ false) key (61 ∷ value) h (refl, w)))

global-IsLine : All (λ c. (c == 10) ≡ false) (codes "[global]")
global-IsLine = (refl, (refl, (refl, (refl, (refl, (refl, (refl, (refl, tt))))))))

db_path-IsLine : All (λ c. (c == 10) ≡ false) (codes "db_path")
db_path-IsLine = (refl, (refl, (refl, (refl, (refl, (refl, (refl, tt)))))))

db_key-IsLine : All (λ c. (c == 10) ≡ false) (codes "db_key")
db_key-IsLine = (refl, (refl, (refl, (refl, (refl, (refl, tt))))))

-- The reader after the appended section.
pub read_lines-appended :
    (r : Reader) (t : Bytes) (db_path db_key : Option Bytes)
    → IsLine db_path
    → IsLine db_key
    → read_lines r (lines_of (t ++ appended db_path db_key))
      ≡ assigned (codes "db_key") db_key (
          assigned
            (codes "db_path")
            db_path
            (record (read_lines r (lines_of t)) { section = codes "global" }))
unfolding appended read_lines lines_of
read_lines-appended r t db_path db_key p k =
    let before : Reader = read_lines r (lines_of t) in
    let path_line : Bytes = setting_line (codes "db_path") db_path in
    let key_line : Bytes = setting_line (codes "db_key") db_key in
    let opened : Reader = record before { section = codes "global" } in
    let located : Reader = assigned (codes "db_path") db_path opened in
    read_lines-lines_of r t (codes "[global]" ++ (10 ∷ (path_line ++ key_line)))
    ∙ ap (read_lines before)
        (lines_of-line (codes "[global]") (path_line ++ key_line) global-IsLine)
    ∙ ap (λ x. read_lines x (lines_of (path_line ++ key_line))) (section_line before)
    ∙ read_lines-setting opened (codes "db_path") db_path key_line db_path-IsLine p
    ∙ ap (λ x. read_lines located (lines_of x)) (sym (append-nil key_line))
    ∙ read_lines-setting located (codes "db_key") db_key [] db_key-IsLine k
