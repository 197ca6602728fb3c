-- ===== src/Gendb/Commands/Fields.antt =====
-- gendb/main.cpp, `configFields`: the settings that `config get` and `config set` know.
use signal2sip.Base.{
  Bool, ◌||◌, Option, none, some, List, [], ◌∷◌, if◌then◌else◌, Bytes, codes, eqb,
}
use signal2sip.Storage.Records.{AccountRecord}
use signal2sip.Config.Accept.{is_srtp, is_transport}

pub data Field : Type 0 where
  server_url : Field
  sip_host : Field
  sip_extension : Field
  sip_password : Field
  sip_bridge_destination : Field
  sip_bridge_did : Field
  sip_srtp : Field
  sip_transport : Field
  sip_tls_ca_file : Field
  sip_tls_insecure : Field
  outgoing_call_target : Field
  signal_proxy : Field
  signal_censorship_circumvention : Field

abbrev pub config_fields : List (Bytes × Field)
config_fields =
    (codes "server_url", server_url)
    ∷ (codes "sip_host", sip_host)
    ∷ (codes "sip_extension", sip_extension)
    ∷ (codes "sip_password", sip_password)
    ∷ (codes "sip_bridge_destination", sip_bridge_destination)
    ∷ (codes "sip_bridge_did", sip_bridge_did)
    ∷ (codes "sip_srtp", sip_srtp)
    ∷ (codes "sip_transport", sip_transport)
    ∷ (codes "sip_tls_ca_file", sip_tls_ca_file)
    ∷ (codes "sip_tls_insecure", sip_tls_insecure)
    ∷ (codes "outgoing_call_target", outgoing_call_target)
    ∷ (codes "signal_proxy", signal_proxy)
    ∷ (codes "signal_censorship_circumvention", signal_censorship_circumvention)
    ∷ []

unfoldable pub search_field : Bytes → List (Bytes × Field) → Option Field
search_field name [] = none
search_field name ((n, f) ∷ rest) = if eqb n name then some f else search_field name rest

unfoldable pub find_config_field : Bytes → Option Field
find_config_field name = search_field name config_fields

unfoldable pub yes_no : Bool → Bytes
yes_no b = if b then codes "yes" else codes "no"

unfoldable pub is_yes : Bytes → Bool
is_yes v = eqb v (codes "yes") || (eqb v (codes "true") || eqb v (codes "1"))

unfoldable pub get_field : Field → AccountRecord → Bytes
get_field server_url a = a.server_url
get_field sip_host a = a.sip_host
get_field sip_extension a = a.sip_extension
get_field sip_password a = a.sip_password
get_field sip_bridge_destination a = a.sip_bridge_destination
get_field sip_bridge_did a = a.sip_bridge_did
get_field sip_srtp a = a.sip_srtp
get_field sip_transport a = a.sip_transport
get_field sip_tls_ca_file a = a.sip_tls_ca_file
get_field sip_tls_insecure a = yes_no a.sip_tls_insecure
get_field outgoing_call_target a = a.outgoing_call_target
get_field signal_proxy a = a.signal_proxy
get_field signal_censorship_circumvention a = yes_no a.signal_censorship_circumvention

-- `none` where it throws: an SRTP mode or a transport that is not one of the list.
unfoldable pub set_field : Field → Bytes → AccountRecord → Option AccountRecord
set_field server_url v a = some (record a { server_url = v })
set_field sip_host v a = some (record a { sip_host = v })
set_field sip_extension v a = some (record a { sip_extension = v })
set_field sip_password v a = some (record a { sip_password = v })
set_field sip_bridge_destination v a = some (record a { sip_bridge_destination = v })
set_field sip_bridge_did v a = some (record a { sip_bridge_did = v })
set_field sip_srtp v a = if is_srtp v then some (record a { sip_srtp = v }) else none
set_field sip_transport v a = if is_transport v then some (record a { sip_transport = v }) else none
set_field sip_tls_ca_file v a = some (record a { sip_tls_ca_file = v })
set_field sip_tls_insecure v a = some (record a { sip_tls_insecure = is_yes v })
set_field outgoing_call_target v a = some (record a { outgoing_call_target = v })
set_field signal_proxy v a = some (record a { signal_proxy = v })
set_field signal_censorship_circumvention v a =
    some (record a { signal_censorship_circumvention = is_yes v })
