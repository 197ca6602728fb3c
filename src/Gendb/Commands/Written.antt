-- ===== src/Gendb/Commands/Written.antt =====
-- gendb/main.cpp, `config set` and then `config get`, over storage/Storage.cpp.
use signal2sip.Base.{
  ◌≡◌, refl, sym, ap, subst, ◌∙◌, inl, inr, true, Option, none, some, arith, if◌then◌else◌,
  Option-cases, Bytes, eqb, eqb_refl, ok, ◌>>=◌, Result-cases,
}
use signal2sip.Base.{if-both, if-true}
use signal2sip.Storage.Records.{AccountRecord, Database}
use signal2sip.Storage.Accounts.{configured, save_account_config, load_account, has_account}
use signal2sip.Storage.Accounts.Columns.{load_account-save_account_config}
use signal2sip.Config.Accept.{is_srtp, is_transport}
use signal2sip.Gendb.Commands.Fields.{
  Field, server_url, sip_host, sip_extension, sip_password, sip_bridge_destination, sip_bridge_did,
  sip_srtp, sip_transport, sip_tls_ca_file, sip_tls_insecure, outgoing_call_target, signal_proxy,
  signal_censorship_circumvention, find_config_field, yes_no, is_yes, get_field, set_field,
}
use signal2sip.Gendb.Commands.Account.{
  require_account, saved_config, field_named, cmd_config_get, cmd_config_set,
}

-- How a value is printed back: the two flags as yes or no.
unfoldable pub canonical : Field → Bytes → Bytes
canonical server_url v = v
canonical sip_host v = v
canonical sip_extension v = v
canonical sip_password v = v
canonical sip_bridge_destination v = v
canonical sip_bridge_did v = v
canonical sip_srtp v = v
canonical sip_transport v = v
canonical sip_tls_ca_file v = v
canonical sip_tls_insecure v = yes_no (is_yes v)
canonical outgoing_call_target v = v
canonical signal_proxy v = v
canonical signal_censorship_circumvention v = yes_no (is_yes v)

get_field-configured :
    (f : Field) (row r : AccountRecord) → get_field f (configured row r) ≡ get_field f r
unfolding get_field configured
get_field-configured server_url row r = refl
get_field-configured sip_host row r = refl
get_field-configured sip_extension row r = refl
get_field-configured sip_password row r = refl
get_field-configured sip_bridge_destination row r = refl
get_field-configured sip_bridge_did row r = refl
get_field-configured sip_srtp row r = refl
get_field-configured sip_transport row r = refl
get_field-configured sip_tls_ca_file row r = refl
get_field-configured sip_tls_insecure row r = refl
get_field-configured outgoing_call_target row r = refl
get_field-configured signal_proxy row r = refl
get_field-configured signal_censorship_circumvention row r = refl

-- What was set is what is got.
IsWritten : Field → Bytes → Option AccountRecord → Type 0
IsWritten f v none = Unit
IsWritten f v (some b) = get_field f b ≡ canonical f v

set_field-IsWritten : (f : Field) (v : Bytes) (a : AccountRecord) → IsWritten f v (set_field f v a)
unfolding IsWritten set_field get_field canonical
set_field-IsWritten server_url v a = refl
set_field-IsWritten sip_host v a = refl
set_field-IsWritten sip_extension v a = refl
set_field-IsWritten sip_password v a = refl
set_field-IsWritten sip_bridge_destination v a = refl
set_field-IsWritten sip_bridge_did v a = refl
set_field-IsWritten sip_srtp v a = if-both (IsWritten sip_srtp v) (is_srtp v) refl tt
set_field-IsWritten sip_transport v a = if-both (IsWritten sip_transport v) (is_transport v) refl tt
set_field-IsWritten sip_tls_ca_file v a = refl
set_field-IsWritten sip_tls_insecure v a = refl
set_field-IsWritten outgoing_call_target v a = refl
set_field-IsWritten signal_proxy v a = refl
set_field-IsWritten signal_censorship_circumvention v a = refl

load-has :
    (db : Database) (name : Bytes) (row : AccountRecord)
    → load_account db name ≡ ok row
    → has_account db name ≡ true
unfolding load_account has_account
load-has db name row h = ground (arith, h)

require-loads :
    (db : Database) (name : Bytes) (row : AccountRecord)
    → load_account db name ≡ ok row
    → require_account db name ≡ ok row
unfolding require_account
require-loads db name row h = rw (load-has db name row h) (rw h refl)

loads-required :
    (db : Database) (name : Bytes) (row : AccountRecord)
    → require_account db name ≡ ok row
    → load_account db name ≡ ok row
unfolding require_account
loads-required db name row h = ground (arith, h)

-- After a save that succeeded, the row is the configured one.
saved-loads :
    (db next : Database) (name : Bytes) (row r : AccountRecord)
    → load_account db name ≡ ok row
    → saved_config db name r ≡ ok next
    → load_account next name ≡ ok (configured row r)
unfolding saved_config
saved-loads db next name row r l h =
    let saved : save_account_config db name r ≡ ok next = ground (arith, h) in
    ap (λ x. x >>= (λ n. load_account n name)) (sym saved)
    ∙ load_account-save_account_config db name name r
    ∙ ap (λ x. x >>= (λ w. if eqb name name then ok (configured w r) else load_account db name)) l
    ∙ if-true _ _ (eqb_refl name)

-- After `config set` has succeeded, `config get` of the same field prints the value that was
-- given; for the two flags, yes or no as the value was understood.
pub cmd_config_set-get :
    (db next : Database) (name field value : Bytes) (f : Field)
    → find_config_field field ≡ some f
    → cmd_config_set db name field value ≡ ok next
    → cmd_config_get next name field ≡ ok (canonical f value)
unfolding cmd_config_set cmd_config_get field_named IsWritten
cmd_config_set-get db next name field value f e h = elim (Result-cases (require_account db name)) [
  | inl (x, p) ↦ absurd (ground (arith, p, h))
  | inr (row, p) ↦ elim (Option-cases (set_field f value row)) [
    | inl n ↦ absurd (ground (arith, p, e, n, h))
    | inr (r, s) ↦
        let saved : saved_config db name r ≡ ok next = ground (arith, p, e, s, h) in
        let loaded : load_account next name ≡ ok (configured row r) =
          saved-loads db next name row r (loads-required db name row p) saved in
        let set_value : get_field f r ≡ canonical f value =
          subst (IsWritten f value) s (set_field-IsWritten f value row) in
        ground (
          arith,
          require-loads next name (configured row r) loaded,
          e,
          get_field-configured f row r,
          set_value,
        )
  ]
]
