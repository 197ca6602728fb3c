-- ===== src/Gendb/Bootstrap/Loads.antt =====
-- gendb/main.cpp and config/Config.cpp together: a configuration that was completed by
-- `bootstrapGlobalConfigIfNeeded` is read with the settings it completed.
use signal2sip.Base.{
  ℕ, ◌<◌, ◌≡◌, refl, sym, ap, subst, ◌∙◌, inl, inr, Bool, true, false, not, ◌&&◌, Option, none,
  some, [], ◌∷◌, ◌++◌, arith, ◌==◌, if◌then◌else◌, Bool-cases, Option-cases, is_some, get_or,
  is_empty, All, Bytes, codes, eqb, eqb_refl, Result, ok, err,
}
use signal2sip.Base.Bits.{passes_below, passes_below→test}
use signal2sip.Base.{if-both, if-true, if-false}
use signal2sip.Base64.{alphabet, char_of, base64_encode}
use signal2sip.Base.Dict.{find}
use signal2sip.Config.Accept.{default_to}
use signal2sip.Config.Ini.{
  IniMap, Reader, is_space, trim_end, split_eq, read_lines, lines_of, parse_ini, ini_get_or,
}
use signal2sip.Config.Ini.Assign.{IsTrimmed, IsKey, read_line-assign, ini_get_or-assign}
use signal2sip.Config.Load.{GlobalConfig, LoadError, load_global_config_lenient}
use signal2sip.Gendb.Encoding.{drop_end, base64_no_padding}
use signal2sip.Gendb.Bootstrap.{
  bad_config, default_db_path, appended, when_missing, contents, complete_config,
  bootstrap_global_config_if_needed,
}
use signal2sip.Gendb.Bootstrap.Appended.{assigned, IsLine, read_lines-appended}

-- Neither a blank nor a newline.
IsSolid : ℕ → Type 0
IsSolid c = is_space c ≡ false

solid_code : ℕ → Bool
solid_code v = not (is_space (get_or alphabet v 0))

all_solid : passes_below solid_code 64 ≡ true
unfolding passes_below solid_code
all_solid = refl

char_of-IsSolid : (v : ℕ) → v < 64 → IsSolid (char_of v)
unfolding IsSolid char_of solid_code
char_of-IsSolid v lt = ground (arith, passes_below→test solid_code 64 v all_solid lt)

base64_encode-IsSolid : (s : Bytes) → All IsSolid (base64_encode s)
unfolding base64_encode IsSolid
base64_encode-IsSolid [] = tt
base64_encode-IsSolid (a ∷ []) =
    (char_of-IsSolid _ (omega arith), (char_of-IsSolid _ (omega arith), (refl, (refl, tt))))
base64_encode-IsSolid (a ∷ b ∷ []) = (
  char_of-IsSolid _ (omega arith),
  (char_of-IsSolid _ (omega arith), (char_of-IsSolid _ (omega arith), (refl, tt))),
)
base64_encode-IsSolid (a ∷ b ∷ c ∷ rest) = (
  char_of-IsSolid _ (omega arith),
  (
    char_of-IsSolid _ (omega arith),
    (
      char_of-IsSolid _ (omega arith),
      (char_of-IsSolid _ (omega arith), base64_encode-IsSolid rest),
    ),
  ),
)

drop_end-IsSolid : (e : ℕ) (s : Bytes) → All IsSolid s → All IsSolid (drop_end e s)
unfolding drop_end
drop_end-IsSolid e [] w = tt
drop_end-IsSolid e (c ∷ s) w =
    if-both (All IsSolid) (is_empty (drop_end e s) && (c == e)) tt (w.0, drop_end-IsSolid e s (w.1))

solid-trim_end : (s : Bytes) → All IsSolid s → trim_end s ≡ s
unfolding trim_end IsSolid
solid-trim_end [] w = refl
solid-trim_end (c ∷ s) w = ground (arith, solid-trim_end s, w.0)

solid-first : (s : Bytes) → All IsSolid s → is_space (get_or s 0 0) ≡ false
unfolding IsSolid
solid-first [] w = refl
solid-first (c ∷ s) w = w.0

solid-IsTrimmed : (s : Bytes) → All IsSolid s → IsTrimmed s
solid-IsTrimmed s w = record { start = solid-first s w; end = solid-trim_end s w }

solid-no_newline : (s : Bytes) → All IsSolid s → All (λ c. (c == 10) ≡ false) s
unfolding IsSolid
solid-no_newline [] w = tt
solid-no_newline (c ∷ s) w = (ground (arith, w.0), solid-no_newline s (w.1))

key-IsSolid : (random : Bytes) → All IsSolid (base64_no_padding random)
unfolding base64_no_padding
key-IsSolid random = drop_end-IsSolid b'=' (base64_encode random) (base64_encode-IsSolid random)

path-IsSolid : All IsSolid default_db_path
unfolding IsSolid
path-IsSolid = ground arith

db_path-IsKey : IsKey (codes "db_path")
unfolding trim_end split_eq
db_path-IsKey = record {
  trimmed = record { start = refl; end = refl };
  nonempty = refl;
  no_comment = refl;
  no_section = refl;
  no_eq = refl;
}

passphrase-IsKey : IsKey (codes "db_key")
unfolding trim_end split_eq
passphrase-IsKey = record {
  trimmed = record { start = refl; end = refl };
  nonempty = refl;
  no_comment = refl;
  no_section = refl;
  no_eq = refl;
}

IsGiven : Option Bytes → Type 0
IsGiven none = Unit
IsGiven (some value) = All IsSolid value

given-IsLine : (o : Option Bytes) → IsGiven o → IsLine o
unfolding IsGiven IsLine
given-IsLine none w = tt
given-IsLine (some value) w = solid-no_newline value w

or_else : Option Bytes → Bytes → Bytes
or_else none s = s
or_else (some value) s = value

itself : (s : Bytes) → (if is_empty s then [] else s) ≡ s
itself [] = refl
itself (c ∷ s) = refl

abbrev global : Bytes
global = codes "global"

assigned-section :
    (key : Bytes) (o : Option Bytes) (r : Reader)
    → IsKey key
    → IsGiven o
    → (assigned key o r).section ≡ r.section
unfolding assigned IsGiven
assigned-section key none r k w = refl
assigned-section key (some value) r k w =
    ap (λ x. x.section) (read_line-assign r key value k (solid-IsTrimmed value w))

assigned-get :
    (key : Bytes) (o : Option Bytes) (r : Reader) (j : Bytes)
    → IsKey key
    → IsGiven o
    → r.section ≡ global
    → ini_get_or (assigned key o r).result global j [] ≡ (
        if eqb j key
        then or_else o (ini_get_or r.result global j [])
        else ini_get_or r.result global j [])
unfolding assigned IsGiven or_else
assigned-get key none r j k w e = elim (Bool-cases (eqb j key)) [
  | inl h ↦ sym (if-true _ _ h)
  | inr h ↦ sym (if-false _ _ h)
]
assigned-get key (some value) r j k w e =
    ini_get_or-assign r key value global j [] k (solid-IsTrimmed value w)
    ∙ ap
        (λ b.
          if b && eqb j key
          then (if is_empty value then [] else value)
          else ini_get_or r.result global j [])
        (ap (eqb global) e ∙ eqb_refl global)
    ∙ ap (λ v. if eqb j key then v else ini_get_or r.result global j []) (itself value)

start : Reader
start = record { section = []; result = [] }

settings : Bytes → IniMap
settings t = (read_lines start (lines_of t)).result

-- Both settings after the section is appended.
module _ (t : Bytes) (p k : Option Bytes) (wp : IsGiven p) (wk : IsGiven k) where
  opened : Reader
  opened = record (read_lines start (lines_of t)) { section = global }

  located : Reader
  located = assigned (codes "db_path") p opened

  completed : settings (t ++ appended p k) ≡ (assigned (codes "db_key") k located).result
  unfolding settings opened located
  completed =
      ap (λ r. r.result) (read_lines-appended start t p k (given-IsLine p wp) (given-IsLine k wk))

  located-section : located.section ≡ global
  unfolding located opened
  located-section = assigned-section (codes "db_path") p opened db_path-IsKey wp

  path-get :
      ini_get_or (settings (t ++ appended p k)) global (codes "db_path") []
      ≡ or_else p (ini_get_or (settings t) global (codes "db_path") [])
  unfolding located opened settings
  path-get =
      ap (λ m. ini_get_or m global (codes "db_path") []) completed
      ∙ assigned-get (codes "db_key") k located (codes "db_path") passphrase-IsKey wk
          located-section
      ∙ assigned-get (codes "db_path") p opened (codes "db_path") db_path-IsKey wp refl

  key-get :
      ini_get_or (settings (t ++ appended p k)) global (codes "db_key") []
      ≡ or_else k (ini_get_or (settings t) global (codes "db_key") [])
  unfolding located opened settings
  key-get =
      ap (λ m. ini_get_or m global (codes "db_key") []) completed
      ∙ assigned-get (codes "db_key") k located (codes "db_key") passphrase-IsKey wk located-section
      ∙ ap (or_else k)
          (assigned-get (codes "db_path") p opened (codes "db_key") db_path-IsKey wp refl)

missing-IsGiven : (present value : Bytes) → All IsSolid value → IsGiven (when_missing present value)
unfolding when_missing IsGiven
missing-IsGiven [] value w = w
missing-IsGiven (c ∷ s) value w = tt

missing-get :
    (present value : Bytes)
    → or_else (when_missing present value) present ≡ default_to value present
unfolding when_missing or_else default_to
missing-get [] value = refl
missing-get (c ∷ s) value = refl

-- What the lenient reader saw.
record Seen (text : Option Bytes) (old : GlobalConfig) : Type 0 where
  db_path : old.db_path ≡ ini_get_or (settings (contents text)) global (codes "db_path") []
  db_key : old.db_key ≡ ini_get_or (settings (contents text)) global (codes "db_key") []

-- What the lenient reader returns, by its two strings.
lenient : Bytes → Bytes → GlobalConfig
lenient db_path db_key = record {
  db_path = db_path;
  db_key = db_key;
  sip_reg_watchdog_sec = 60;
  resolved_contact_ttl_sec = 86400;
  storage_sync_interval_sec = 43200;
  config_poll_interval_sec = 30;
}

lenient_lem :
    (file_exists : Bytes → Bool) (read_file : Bytes → Option Bytes) (path : Bytes)
    → file_exists path ≡ is_some (read_file path)
    → load_global_config_lenient file_exists read_file path
      ≡ ok (
          lenient
            (ini_get_or (settings (contents (read_file path))) global (codes "db_path") [])
            (ini_get_or (settings (contents (read_file path))) global (codes "db_key") []))
unfolding load_global_config_lenient parse_ini lenient settings start contents read_lines lines_of
    ini_get_or find
lenient_lem file_exists read_file path h = elim (Option-cases (read_file path)) [
  | inl n ↦ rw n (if-true _ _ (ap not (h ∙ ap is_some n)))
  | inr (text, e) ↦ rw e (if-false _ _ (ap not (h ∙ ap is_some e)))
]

ok_inj : {a b : GlobalConfig} → ◌≡◌ {A = Result LoadError GlobalConfig} (ok a) (ok b) → a ≡ b
ok_inj h = cc

lenient-Seen :
    (file_exists : Bytes → Bool) (read_file : Bytes → Option Bytes) (path : Bytes)
    (old : GlobalConfig)
    → file_exists path ≡ is_some (read_file path)
    → load_global_config_lenient file_exists read_file path ≡ ok old
    → Seen (read_file path) old
unfolding lenient
lenient-Seen file_exists read_file path old h e =
    let same = ok_inj (sym e ∙ lenient_lem file_exists read_file path h) in
    record { db_path = ap (λ g. g.db_path) same; db_key = ap (λ g. g.db_key) same }

-- The text that is written.
complete-text :
    (file_exists : Bytes → Bool) (writable : Bool) (random t text : Bytes) (old : GlobalConfig)
    → complete_config file_exists writable random t old ≡ ok (some text)
    → text
      ≡ t
        ++ appended
            (when_missing old.db_path default_db_path)
            (when_missing old.db_key (base64_no_padding random))
unfolding complete_config
complete-text file_exists writable random t text old e = ground (arith, e)

-- What a completed configuration reads as.
pub record Completed (random : Bytes) (old : GlobalConfig) (text : Bytes) : Type 0 where
  pub ini : IniMap
  pub parsed : parse_ini (some text) ≡ some ini
  pub db_path :
      ini_get_or ini (codes "global") (codes "db_path") [] ≡ default_to default_db_path old.db_path
  pub db_key :
      ini_get_or ini (codes "global") (codes "db_key") []
      ≡ default_to (base64_no_padding random) old.db_key

appended-Completed :
    (random t : Bytes) (old : GlobalConfig)
    → Seen (some t) old
    → Completed random old (
        t
        ++ appended
            (when_missing old.db_path default_db_path)
            (when_missing old.db_key (base64_no_padding random)))
unfolding settings start parse_ini contents
appended-Completed random t old seen =
    let p = when_missing old.db_path default_db_path in
    let k = when_missing old.db_key (base64_no_padding random) in
    let wp : IsGiven p = missing-IsGiven old.db_path default_db_path path-IsSolid in
    let wk : IsGiven k =
      missing-IsGiven old.db_key (base64_no_padding random) (key-IsSolid random) in
    record {
      ini = settings (t ++ appended p k);
      parsed = refl;
      db_path =
          path-get t p k wp wk
          ∙ ap (or_else p) (sym seen.db_path)
          ∙ missing-get old.db_path default_db_path;
      db_key =
          key-get t p k wp wk
          ∙ ap (or_else k) (sym seen.db_key)
          ∙ missing-get old.db_key (base64_no_padding random);
    }

-- When a first run completes the configuration, the file it leaves parses, `db_path` reads as it
-- was, or as the default path if it was missing, and `db_key` reads as it was, or as the new
-- random key. The file system is assumed to say that a file exists just when it can be read.
pub bootstrap-Completed :
    (file_exists : Bytes → Bool) (read_file : Bytes → Option Bytes) (writable : Bool)
    (random path text : Bytes) (old : GlobalConfig)
    → file_exists path ≡ is_some (read_file path)
    → load_global_config_lenient file_exists read_file path ≡ ok old
    → bootstrap_global_config_if_needed file_exists read_file writable random path ≡ ok (some text)
    → Completed random old text
unfolding bootstrap_global_config_if_needed contents
bootstrap-Completed file_exists read_file writable random path text old h l e =
    let seen : Seen (read_file path) old = lenient-Seen file_exists read_file path old h l in
    let done : complete_config file_exists writable random (contents (read_file path)) old
        ≡ ok (some text) =
      ap
        (λ r. elim r [
          | err x ↦ err (bad_config x)
          | ok x ↦ complete_config file_exists writable random (contents (read_file path)) x
        ])
        (sym l)
      ∙ e in
    subst (Completed random old)
      (sym (complete-text file_exists writable random (contents (read_file path)) text old done))
      (appended-Completed random (contents (read_file path)) old
        (record { db_path = seen.db_path; db_key = seen.db_key }))
