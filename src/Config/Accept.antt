-- ===== src/Config/Accept.antt =====
-- `accountConfigFromRecord`: the checks on one account's row.
use signal2sip.Base.{
  ℕ, ◌≡◌, refl, sym, subst, ◌⊎◌, inl, inr, Bool, true, false, not, ◌&&◌, ◌||◌, [], ◌∷◌, ◌++◌, arith,
  ◌==◌, if◌then◌else◌, Bool-cases, is_empty, is_empty→nil, Bytes, codes, eqb, eqb_iff, Result, ok,
  err,
}
use signal2sip.Storage.Records.{AccountRecord}

pub record AccountConfig : Type 0 where
  pub name : Bytes
  pub config_version : ℕ
  pub e164 : Bytes
  pub server_url : Bytes
  pub sip_host : Bytes
  pub sip_extension : Bytes
  pub sip_password : Bytes
  pub sip_bridge_destination : Bytes
  pub sip_bridge_did : Bytes
  pub sip_srtp : Bytes
  pub sip_transport : Bytes
  pub sip_tls_ca_file : Bytes
  pub sip_tls_insecure : Bool
  pub outgoing_call_target : Bytes
  pub signal_proxy : Bytes
  pub signal_censorship_circumvention : Bool

-- The four messages of the exceptions it throws.
pub data ConfigError : Type 0 where
  e164_is_empty : ConfigError
  bad_sip_srtp : Bytes → ConfigError
  bad_sip_transport : Bytes → ConfigError
  tls_needs_ca_file : ConfigError

unfoldable pub has_colon : Bytes → Bool
has_colon [] = false
has_colon (c ∷ cs) = (c == 58) || has_colon cs

unfoldable pub default_to : Bytes → Bytes → Bytes
default_to fallback s = if is_empty s then fallback else s

unfoldable pub is_srtp : Bytes → Bool
is_srtp s = eqb s (codes "disabled") || (eqb s (codes "optional") || eqb s (codes "mandatory"))

unfoldable pub is_transport : Bytes → Bool
is_transport s = eqb s (codes "udp") || eqb s (codes "tls")

-- For tls, ":5061" is appended to a host without a colon.
unfoldable pub host_for : Bytes → Bytes → Bytes
host_for transport host =
    if eqb transport (codes "tls") && (not (is_empty host) && not (has_colon host))
    then host ++ codes ":5061"
    else host

-- The account that is returned when no check throws.
unfoldable pub built : Bytes → AccountRecord → AccountConfig
built name r = record {
  name = name;
  config_version = r.config_version;
  e164 = r.e164;
  server_url = r.server_url;
  sip_host = host_for (default_to (codes "udp") r.sip_transport) r.sip_host;
  sip_extension = r.sip_extension;
  sip_password = r.sip_password;
  sip_bridge_destination = r.sip_bridge_destination;
  sip_bridge_did = r.sip_bridge_did;
  sip_srtp = default_to (codes "disabled") r.sip_srtp;
  sip_transport = default_to (codes "udp") r.sip_transport;
  sip_tls_ca_file = r.sip_tls_ca_file;
  sip_tls_insecure = r.sip_tls_insecure;
  outgoing_call_target = r.outgoing_call_target;
  signal_proxy = r.signal_proxy;
  signal_censorship_circumvention = r.signal_censorship_circumvention;
}

unfoldable pub account_config_from_record : Bytes → AccountRecord → Result ConfigError AccountConfig
account_config_from_record name r =
    let account = built name r in
    if is_empty account.e164
    then err e164_is_empty
    else if not (is_srtp account.sip_srtp)
    then err (bad_sip_srtp account.sip_srtp)
    else if not (is_transport account.sip_transport)
    then err (bad_sip_transport account.sip_transport)
    else if eqb account.sip_transport (codes "tls")
        && (is_empty account.sip_tls_ca_file && not account.sip_tls_insecure)
    then err tls_needs_ca_file
    else ok account

-- What the daemon may rely on in an account that was accepted.
pub record IsUsable (c : AccountConfig) : Type 0 where
  pub identified : is_empty c.e164 ≡ false
  pub srtp :
      (c.sip_srtp ≡ codes "disabled")
      ⊎ ((c.sip_srtp ≡ codes "optional") ⊎ (c.sip_srtp ≡ codes "mandatory"))
  pub transport :
      (c.sip_transport ≡ codes "udp")
      ⊎ ((c.sip_transport ≡ codes "tls")
          × ((is_empty c.sip_tls_ca_file ≡ false) ⊎ (c.sip_tls_insecure ≡ true))
          × ((c.sip_host ≡ []) ⊎ (has_colon c.sip_host ≡ true)))

has_colon-append : (s t : Bytes) → has_colon t ≡ true → has_colon (s ++ t) ≡ true
unfolding has_colon
has_colon-append [] t h = h
has_colon-append (c ∷ s) t h = ground (arith, has_colon-append s t h)

port : has_colon (codes ":5061") ≡ true
unfolding has_colon
port = refl

has_colon-host_for :
    (host : Bytes)
    → (host_for (codes "tls") host ≡ []) ⊎ (has_colon (host_for (codes "tls") host) ≡ true)
unfolding host_for
has_colon-host_for host = elim (Bool-cases (is_empty host)) [
  | inl e ↦ inl (rw e (is_empty→nil host e))
  | inr e ↦ elim (Bool-cases (has_colon host)) [
    | inl f ↦ inr (rw (e, f) f)
    | inr f ↦ inr (rw (e, f) (has_colon-append host (codes ":5061") port))
  ]
]

srtp-cases :
    (s : Bytes)
    → is_srtp s ≡ true
    → (s ≡ codes "disabled") ⊎ ((s ≡ codes "optional") ⊎ (s ≡ codes "mandatory"))
unfolding is_srtp
srtp-cases s h = ground (
  arith,
  eqb_iff s (codes "disabled"),
  eqb_iff s (codes "optional"),
  eqb_iff s (codes "mandatory"),
)

transport-cases : (s : Bytes) → is_transport s ≡ true → (s ≡ codes "udp") ⊎ (s ≡ codes "tls")
unfolding is_transport
transport-cases s h = ground (arith, eqb_iff s (codes "udp"), eqb_iff s (codes "tls"))

abbrev unpinned : AccountConfig → Bool
unpinned c =
    eqb c.sip_transport (codes "tls") && (is_empty c.sip_tls_ca_file && not c.sip_tls_insecure)

accepted :
    (name : Bytes) (r : AccountRecord) (c : AccountConfig)
    → account_config_from_record name r ≡ ok c
    → (c ≡ built name r)
      × (is_empty (built name r).e164 ≡ false)
      × (is_srtp (built name r).sip_srtp ≡ true)
      × (is_transport (built name r).sip_transport ≡ true)
      × (unpinned (built name r) ≡ false)
unfolding account_config_from_record
accepted name r c h = ground arith

built-host :
    (name : Bytes) (r : AccountRecord)
    → (built name r).sip_transport ≡ codes "tls"
    → ((built name r).sip_host ≡ []) ⊎ (has_colon (built name r).sip_host ≡ true)
unfolding built
built-host name r e =
    subst (λ t. (host_for t r.sip_host ≡ []) ⊎ (has_colon (host_for t r.sip_host) ≡ true)) (sym e)
      (has_colon-host_for r.sip_host)

built-IsUsable :
    (name : Bytes) (r : AccountRecord)
    → is_empty (built name r).e164 ≡ false
    → is_srtp (built name r).sip_srtp ≡ true
    → is_transport (built name r).sip_transport ≡ true
    → unpinned (built name r) ≡ false
    → IsUsable (built name r)
built-IsUsable name r e s t u =
    let b : AccountConfig = built name r in
    record {
      identified = e;
      srtp = srtp-cases b.sip_srtp s;
      transport = elim (transport-cases b.sip_transport t) [
        | inl p ↦ inl p
        | inr p ↦
            inr (p, ground (arith, eqb_iff b.sip_transport (codes "tls")), built-host name r p)
      ];
    }

-- An account that is accepted has a number, one of the three SRTP modes, and either the transport
-- udp, or tls together with a pinned certificate or an explicit wish to skip verification, and
-- then a host that names its port, if there is a host.
pub account_config_from_record-IsUsable :
    (name : Bytes) (r : AccountRecord) (c : AccountConfig)
    → account_config_from_record name r ≡ ok c
    → IsUsable c
account_config_from_record-IsUsable name r c h =
    let a = accepted name r c h in subst IsUsable (sym a.0) (built-IsUsable name r a.1 a.2 a.3 a.4)

-- The account is rejected for a missing number, for an SRTP mode or a transport that is none of
-- the allowed ones, or for tls without a certificate to pin and without leave to skip
-- verification; for nothing else.
pub account_config_from_record-error :
    (name : Bytes) (r : AccountRecord) (e : ConfigError)
    → account_config_from_record name r ≡ err e
    → (r.e164 ≡ [])
      ⊎ ((is_srtp (default_to (codes "disabled") r.sip_srtp) ≡ false)
          ⊎ ((is_transport (default_to (codes "udp") r.sip_transport) ≡ false)
              ⊎ ((default_to (codes "udp") r.sip_transport ≡ codes "tls")
                  × (r.sip_tls_ca_file ≡ [])
                  × (r.sip_tls_insecure ≡ false))))
unfolding account_config_from_record built
account_config_from_record-error name r e h = ground (
  arith,
  is_empty→nil r.e164,
  is_empty→nil r.sip_tls_ca_file,
  eqb_iff (default_to (codes "udp") r.sip_transport) (codes "tls"),
)
