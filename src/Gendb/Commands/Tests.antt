-- ===== src/Gendb/Commands/Tests.antt =====
-- The commands at concrete input.
use signal2sip.Base.{◌≡◌, refl, ◌⊎◌, true, false, some, [], Bytes, codes, ok, err}
use signal2sip.Storage.Records.{AccountRecord, Database}
use signal2sip.Storage.Sample.{sample_account, sample}
use signal2sip.Storage.Isolation.{delete_everything}
use signal2sip.Storage.Accounts.{
  find_account, has_account, load_account, save_account_config, update_config, configured,
}
use signal2sip.Socket.{
  connects, responds, send_errors, connection_invalidated, completed, request_over, do_request,
  new_socket, attempted, dropped, drop_chat, do_connect,
}
use signal2sip.Config.Accept.{
  e164_is_empty, tls_needs_ca_file, is_srtp, is_transport, default_to, built, host_for, has_colon,
  account_config_from_record,
}
use signal2sip.Gendb.Commands.Fields.{
  sip_transport, sip_tls_insecure, search_field, find_config_field, set_field, is_yes,
}
use signal2sip.Gendb.Commands.Account.{
  require_account, saved_config, field_named, connected_socket, response_of, deleted, ambiguous,
  after_deletion, cmd_delete_account, cmd_config_get, cmd_config_set,
}
use signal2sip.Gendb.Commands.Deletion.{Ended, cmd_delete_account-Ended}
use signal2sip.Gendb.Commands.Settings.{IsValid, unedited, edit, Edits-errors}
use signal2sip.Gendb.Commands.Written.{canonical, cmd_config_set-get}

abbrev main : Bytes
main = codes "main"

deleted_lem :
    cmd_delete_account sample main (connects 5) (responds 204 [])
    ≡ ok (deleted, delete_everything sample main)
unfolding cmd_delete_account require_account has_account load_account find_account connected_socket
    do_connect attempted dropped drop_chat new_socket response_of do_request request_over completed
    after_deletion
deleted_lem = refl

-- The server closes the connection instead of an answer.
closed :
    cmd_delete_account sample main (connects 5) (send_errors connection_invalidated)
    ≡ ok (ambiguous, sample)
unfolding cmd_delete_account require_account has_account load_account find_account connected_socket
    do_connect attempted dropped drop_chat new_socket response_of do_request request_over completed
    after_deletion
closed = refl

cmd_delete_account-Ended_example :
    Ended sample main (responds 204 []) deleted (delete_everything sample main)
cmd_delete_account-Ended_example =
    cmd_delete_account-Ended sample main (connects 5) (responds 204 []) deleted
      (delete_everything sample main) deleted_lem

-- A transport that the daemon then refuses, though `config set` takes it.
abbrev udp_account : AccountRecord
udp_account = record sample_account { sip_transport = codes "udp"; sip_tls_insecure = false }

abbrev tls_account : AccountRecord
tls_account = record udp_account { sip_transport = codes "tls" }

tls_edit : set_field sip_transport (codes "tls") udp_account ≡ some tls_account
unfolding set_field is_transport
tls_edit = refl

tls_refused : account_config_from_record main tls_account ≡ err tls_needs_ca_file
unfolding account_config_from_record built default_to is_srtp is_transport host_for has_colon
tls_refused = refl

udp-IsValid : IsValid udp_account
unfolding is_srtp is_transport default_to
udp-IsValid = record { srtp = refl; transport = refl }

Edits-errors_example : (tls_needs_ca_file ≡ e164_is_empty) ⊎ (tls_needs_ca_file ≡ tls_needs_ca_file)
Edits-errors_example =
    Edits-errors main tls_needs_ca_file (edit sip_transport (codes "tls") tls_edit unedited)
      udp-IsValid tls_refused

abbrev changed : AccountRecord
changed = record sample_account { sip_tls_insecure = true }

abbrev saved : Database
saved = record sample { account = update_config main changed sample.account }

set_lem : cmd_config_set sample main (codes "sip_tls_insecure") (codes "true") ≡ ok saved
unfolding cmd_config_set require_account has_account load_account find_account field_named
    find_config_field search_field set_field is_yes saved_config save_account_config update_config
    configured
set_lem = refl

named : find_config_field (codes "sip_tls_insecure") ≡ some sip_tls_insecure
unfolding find_config_field search_field
named = refl

cmd_config_set-get_example :
    cmd_config_get saved main (codes "sip_tls_insecure")
    ≡ ok (canonical sip_tls_insecure (codes "true"))
cmd_config_set-get_example =
    cmd_config_set-get sample saved main (codes "sip_tls_insecure") (codes "true") sip_tls_insecure
      named set_lem
