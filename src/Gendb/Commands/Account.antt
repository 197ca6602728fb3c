-- ===== src/Gendb/Commands/Account.antt =====
-- gendb/main.cpp: the `cmd…` functions that read or change an account of the database.
use signal2sip.Base.{
  ℕ, ◌/◌, Bool, true, not, none, some, List, [], ◌∷◌, ◌++◌, ◌==◌, if◌then◌else◌, Bytes, codes,
  Result, ok, err, ◌>>=◌,
}
use signal2sip.Storage.Records.{AccountRecord, AccountSummary, Database, SqlError}
use signal2sip.Storage.Accounts.{has_account, load_account, save_account_config, list_all_accounts}
use signal2sip.Storage.Isolation.{delete_everything}
use signal2sip.Socket.{Socket, Attempt, Sending, new_socket, do_connect, do_request}
use signal2sip.Gendb.Commands.Fields.{
  Field, find_config_field, get_field, set_field, yes_no, config_fields,
}

pub data CommandError : Type 0 where
  no_saved_account : CommandError
  sql_failed : SqlError → CommandError
  unknown_field : Bytes → CommandError
  bad_value : Bytes → CommandError
  connect_failed : CommandError
  request_failed : CommandError
  bad_status : ℕ → CommandError

-- `hasAccount`, then `loadAccount`.
unfoldable pub require_account : Database → Bytes → Result CommandError AccountRecord
require_account db name =
    if not (has_account db name)
    then err no_saved_account
    else elim (load_account db name) [ err e ↦ err (sql_failed e) | ok row ↦ ok row ]

unfoldable pub saved_config : Database → Bytes → AccountRecord → Result CommandError Database
saved_config db name row = elim (save_account_config db name row) [
  | err e ↦ err (sql_failed e)
  | ok next ↦ ok next
]

unfoldable pub field_named : Bytes → Result CommandError Field
field_named name = elim (find_config_field name) [ none ↦ err (unknown_field name) | some f ↦ ok f ]

-- With a field name. Without one, all fields are printed, then whether the account is enabled and,
-- left out here, the version.
unfoldable pub cmd_config_get : Database → Bytes → Bytes → Result CommandError Bytes
cmd_config_get db name field =
    require_account db name >>= (λ row. field_named field >>= (λ f. ok (get_field f row)))

unfoldable pub list_fields : AccountRecord → List (Bytes × Field) → List (Bytes × Bytes)
list_fields row [] = []
list_fields row ((n, f) ∷ rest) = (n, get_field f row) ∷ list_fields row rest

unfoldable pub cmd_config_list : Database → Bytes → Result CommandError (List (Bytes × Bytes))
cmd_config_list db name =
    require_account db name
    >>= (λ row. ok (list_fields row config_fields ++ (codes "enabled", yes_no row.enabled) ∷ []))

unfoldable pub cmd_config_set : Database → Bytes → Bytes → Bytes → Result CommandError Database
cmd_config_set db name field value = require_account db name >>= (λ row. field_named field >>= (λ f.
    elim (set_field f value row) [
      | none ↦ err (bad_value value)
      | some changed ↦ saved_config db name changed
    ]))

unfoldable pub cmd_set_enabled : Database → Bytes → Bool → Result CommandError Database
cmd_set_enabled db name enabled =
    require_account db name >>= (λ row. saved_config db name (record row { enabled = enabled }))

unfoldable pub cmd_unlink : Database → Bytes → Result CommandError Database
cmd_unlink db name = require_account db name >>= (λ row. ok (delete_everything db name))

-- `listAllAccounts` for every row, enabled or not.
unfoldable pub cmd_list_accounts : Database → List AccountSummary
cmd_list_accounts db = list_all_accounts db

-- A connect that throws ends the command.
unfoldable pub connected_socket : Attempt → Result CommandError Socket
connected_socket attempt =
    let result = do_connect attempt new_socket in
    if result.0 then ok (result.1) else err connect_failed

unfoldable pub response_of : Socket → Sending → Result CommandError (ℕ × Bytes)
response_of s sending = elim (do_request s sending) [ none ↦ err request_failed | some r ↦ ok r ]

-- `putFetchesMessages`, for `deactivate` and `reactivate`.
unfoldable pub put_fetches_messages : Attempt → Sending → Result CommandError Bool
put_fetches_messages attempt sending = connected_socket attempt >>= (λ s.
    response_of s sending >>= (λ r. if (r.0) / 100 == 2 then ok true else err (bad_status (r.0))))

unfoldable pub cmd_set_active : Database → Bytes → Attempt → Sending → Result CommandError Bool
cmd_set_active db name attempt sending =
    require_account db name >>= (λ row. put_fetches_messages attempt sending)

-- How `delete-account` ends when it does not throw.
pub data Deletion : Type 0 where
  deleted : Deletion
  ambiguous : Deletion

unfoldable pub after_deletion : Database → Bytes → ℕ → Result CommandError (Deletion × Database)
after_deletion db name status =
    if status / 100 == 2
    then ok (deleted, delete_everything db name)
    else if status == 0
    then ok (ambiguous, db)
    else err (bad_status status)

-- The request before, to clear the registration lock, is left out: whatever it does, the command
-- goes on.
unfoldable pub cmd_delete_account :
    Database → Bytes → Attempt → Sending → Result CommandError (Deletion × Database)
cmd_delete_account db name attempt sending = require_account db name >>= (λ row.
    connected_socket attempt
    >>= (λ s. response_of s sending >>= (λ r. after_deletion db name (r.0))))
