-- ===== src/ContactResolver/Tests.antt =====
-- The theorems on daemon/ContactResolver.cpp at concrete input.
use signal2sip.Base.{◌≡◌, refl, true, none, some, [], ◌∷◌, arith, Bytes, codes, ok}
use signal2sip.Base.Dict.{find}
use signal2sip.Storage.Sample.{sample}
use signal2sip.Storage.Accounts.{has_account, find_account}
use signal2sip.Storage.Keys.{load_resolved_contact}
use signal2sip.Storage.Contacts.{load_synced_contact, select, has_e164}
use signal2sip.ContactResolver.{
  LookupResult, Directory, service_id, ask_directory, resolve_outgoing_target,
}
use signal2sip.ContactResolver.Cache.{
  known_aci, is_fresh, needs_directory, resolve_outgoing_target-again,
}

abbrev main : Bytes
main = codes "main"

abbrev found : LookupResult
found = record { aci = []; pni = codes "p7" }

-- A directory that knows one number without an ACI, and one that cannot be reached.
abbrev online : Directory
online = record {
  request = some (200, codes "{}");
  parse_token = λ body. some (codes "user", codes "word");
  lookup = λ user word target. some (found ∷ []);
}

abbrev offline : Directory
offline = record { request = none; parse_token = λ body. none; lookup = λ user word target. none }

asked : needs_directory sample main 10 600 (codes "+7") ≡ true
unfolding needs_directory known_aci is_fresh load_synced_contact load_resolved_contact select
    has_e164 find
asked = refl

answered : ask_directory online (codes "+7") ≡ ok found
unfolding ask_directory
answered = refl

has_row : has_account sample main ≡ true
unfolding has_account find_account
has_row = refl

resolve_outgoing_target-again_example :
    let first = resolve_outgoing_target online sample main 10 11 600 (codes "+7") in
    (first.0 ≡ service_id [] (codes "p7"))
    × (resolve_outgoing_target offline first.1 main 20 21 600 (codes "+7") ≡ first)
resolve_outgoing_target-again_example =
    resolve_outgoing_target-again online offline sample main 10 11 20 21 600 (codes "+7") found
      asked answered has_row (omega arith)
