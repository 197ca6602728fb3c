-- ===== src/Gendb/Commands/Settings.antt =====
-- gendb/main.cpp, `config set`, with storage/Storage.cpp and config/Config.cpp.
use signal2sip.Base.{
  ◌≡◌, refl, ap, subst, ◌∙◌, ◌⊎◌, true, none, some, [], ◌∷◌, arith, Bytes, codes, err,
}
use signal2sip.Base.{if-cases}
use signal2sip.Storage.Records.{AccountRecord}
use signal2sip.Config.Accept.{
  ConfigError, e164_is_empty, tls_needs_ca_file, is_srtp, is_transport, default_to, built,
  account_config_from_record,
}
use signal2sip.Gendb.Commands.Fields.{
  Field, server_url, sip_host, sip_extension, sip_password, sip_bridge_destination, sip_bridge_did,
  sip_srtp, sip_transport, sip_tls_ca_file, sip_tls_insecure, outgoing_call_target, signal_proxy,
  signal_censorship_circumvention, set_field,
}

-- The SRTP mode and the transport are ones the daemon knows, or empty.
pub record IsValid (a : AccountRecord) : Type 0 where
  pub srtp : is_srtp (default_to (codes "disabled") a.sip_srtp) ≡ true
  pub transport : is_transport (default_to (codes "udp") a.sip_transport) ≡ true

some_inj : {a b : AccountRecord} → some a ≡ some b → a ≡ b
some_inj h = cc

none-some : {a : AccountRecord} → none ≡ some a → ⊥
none-some h = cc

srtp-default : (v : Bytes) → is_srtp v ≡ true → is_srtp (default_to (codes "disabled") v) ≡ true
unfolding is_srtp default_to
srtp-default [] h = refl
srtp-default (c ∷ v) h = h

transport-default :
    (v : Bytes) → is_transport v ≡ true → is_transport (default_to (codes "udp") v) ≡ true
unfolding is_transport default_to
transport-default [] h = refl
transport-default (c ∷ v) h = h

keeps :
    (a b : AccountRecord)
    → IsValid a
    → b.sip_srtp ≡ a.sip_srtp
    → b.sip_transport ≡ a.sip_transport
    → IsValid b
keeps a b w s t = record {
  srtp = ap (λ x. is_srtp (default_to (codes "disabled") x)) s ∙ w.srtp;
  transport = ap (λ x. is_transport (default_to (codes "udp") x)) t ∙ w.transport;
}

-- One setting changed.
set_field-IsValid :
    (f : Field) (v : Bytes) (a b : AccountRecord) → IsValid a → set_field f v a ≡ some b → IsValid b
unfolding set_field
set_field-IsValid server_url v a b w h = subst IsValid (some_inj h) (keeps a _ w refl refl)
set_field-IsValid sip_host v a b w h = subst IsValid (some_inj h) (keeps a _ w refl refl)
set_field-IsValid sip_extension v a b w h = subst IsValid (some_inj h) (keeps a _ w refl refl)
set_field-IsValid sip_password v a b w h = subst IsValid (some_inj h) (keeps a _ w refl refl)
set_field-IsValid sip_bridge_destination v a b w h =
    subst IsValid (some_inj h) (keeps a _ w refl refl)
set_field-IsValid sip_bridge_did v a b w h = subst IsValid (some_inj h) (keeps a _ w refl refl)
set_field-IsValid sip_srtp v a b w h =
    if-cases (λ x. x ≡ some b → IsValid b) (is_srtp v)
      (λ known q.
        subst IsValid (some_inj q)
          (record { srtp = srtp-default v known; transport = w.transport }))
      (λ unknown q. absurd (none-some q)) h
set_field-IsValid sip_transport v a b w h =
    if-cases (λ x. x ≡ some b → IsValid b) (is_transport v)
      (λ known q.
        subst IsValid (some_inj q)
          (record { srtp = w.srtp; transport = transport-default v known }))
      (λ unknown q. absurd (none-some q)) h
set_field-IsValid sip_tls_ca_file v a b w h = subst IsValid (some_inj h) (keeps a _ w refl refl)
set_field-IsValid sip_tls_insecure v a b w h = subst IsValid (some_inj h) (keeps a _ w refl refl)
set_field-IsValid outgoing_call_target v a b w h =
    subst IsValid (some_inj h) (keeps a _ w refl refl)
set_field-IsValid signal_proxy v a b w h = subst IsValid (some_inj h) (keeps a _ w refl refl)
set_field-IsValid signal_censorship_circumvention v a b w h =
    subst IsValid (some_inj h) (keeps a _ w refl refl)

-- Any number of settings, each where the one before left the row.
pub data Edits : AccountRecord → AccountRecord → Type 0 where
  unedited : {a : AccountRecord} → Edits a a
  edit :
      {a b c : AccountRecord} (f : Field) (v : Bytes)
      → set_field f v a ≡ some b
      → Edits b c
      → Edits a c

Edits-IsValid : {a b : AccountRecord} → Edits a b → IsValid a → IsValid b
Edits-IsValid unedited w = w
Edits-IsValid {a} (edit {b = b} f v h rest) w = Edits-IsValid rest (set_field-IsValid f v a b w h)

valid-errors :
    (name : Bytes) (a : AccountRecord) (e : ConfigError)
    → IsValid a
    → account_config_from_record name a ≡ err e
    → (e ≡ e164_is_empty) ⊎ (e ≡ tls_needs_ca_file)
unfolding account_config_from_record built
valid-errors name a e w h = ground (arith, w.srtp, w.transport, h)

-- However often settings are changed, in a row that starts with a known SRTP mode and transport,
-- the only reasons for which the daemon may then refuse the account are a missing number, and tls
-- with neither a certificate nor the permission to skip verification.
pub Edits-errors :
    {a b : AccountRecord} (name : Bytes) (e : ConfigError)
    → Edits a b
    → IsValid a
    → account_config_from_record name b ≡ err e
    → (e ≡ e164_is_empty) ⊎ (e ≡ tls_needs_ca_file)
Edits-errors {b} name e es w h = valid-errors name b e (Edits-IsValid es w) h
