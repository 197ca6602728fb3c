-- ===== src/Gendb/Commands/Deletion.antt =====
-- gendb/main.cpp, `cmdDeleteAccount`, with signal/AuthSocket.cpp: when local data is deleted.
use signal2sip.Base.{
  ℕ, ◌/◌, ◌≡◌, sym, ap, subst, ◌∙◌, inl, inr, Option, none, some, [], arith, ◌==◌, ==_iff,
  Option-cases, Bytes, Result, ok, err, ◌>>=◌, Result-cases,
}
use signal2sip.Base.{if-cases}
use signal2sip.Storage.Records.{Database}
use signal2sip.Storage.Isolation.{delete_everything}
use signal2sip.Socket.{
  Socket, Attempt, Sending, send_fails, send_errors, responds, connection_invalidated,
  connected_elsewhere, web_socket_generic, device_deregistered, other_error, completed,
  request_over, do_request,
}
use signal2sip.Gendb.Commands.Account.{
  CommandError, request_failed, require_account, connected_socket, response_of, Deletion, deleted,
  ambiguous, after_deletion, cmd_delete_account,
}

-- The two ways to end without an exception.
pub data Ended (db : Database) (name : Bytes) (sending : Sending)
    : Deletion → Database → Type 0 where
  wiped :
      (status : ℕ) (body : Bytes)
      → sending ≡ responds status body
      → status / 100 ≡ 2
      → Ended db name sending deleted (delete_everything db name)
  kept : Ended db name sending ambiguous db

-- Status 0 is none of the 200s.
lost : (r : ℕ × Bytes) → some (0, []) ≡ some r → (r.0) / 100 ≡ 2 → ⊥
lost r h two = ground (arith, h, two)

-- A response of the 200s is a response, not a lost connection.
completed-responds :
    (sending : Sending) (r : ℕ × Bytes)
    → completed sending ≡ some r
    → (r.0) / 100 ≡ 2
    → sending ≡ responds (r.0) (r.1)
unfolding completed
completed-responds send_fails r h two = absurd cc
completed-responds (send_errors connection_invalidated) r h two = absurd (lost r h two)
completed-responds (send_errors connected_elsewhere) r h two = absurd (lost r h two)
completed-responds (send_errors web_socket_generic) r h two = absurd (lost r h two)
completed-responds (send_errors device_deregistered) r h two = absurd cc
completed-responds (send_errors other_error) r h two = absurd cc
completed-responds (responds status body) r h two = cc

request-responds :
    (chat : Option ℕ) (sending : Sending) (r : ℕ × Bytes)
    → request_over chat sending ≡ some r
    → (r.0) / 100 ≡ 2
    → sending ≡ responds (r.0) (r.1)
unfolding request_over
request-responds none sending r h two = absurd (lost r h two)
request-responds (some c) sending r h two = completed-responds sending r h two

ok_inj :
    {p q : Deletion × Database}
    → ◌≡◌ {A = Result CommandError (Deletion × Database)} (ok p) (ok q)
    → p ≡ q
ok_inj h = cc

err-ok :
    {e : CommandError} {q : Deletion × Database}
    → ◌≡◌ {A = Result CommandError (Deletion × Database)} (err e) (ok q)
    → ⊥
err-ok h = cc

module _ (db : Database) (name : Bytes) (sending : Sending) (d : Deletion) (next : Database) where
  after-Ended :
      (r : ℕ × Bytes)
      → ((r.0) / 100 ≡ 2 → sending ≡ responds (r.0) (r.1))
      → after_deletion db name (r.0) ≡ ok (d, next)
      → Ended db name sending d next
  unfolding after_deletion
  after-Ended r f h =
      if-cases (λ x. x ≡ ok (d, next) → Ended db name sending d next) ((r.0) / 100 == 2)
        (λ two q.
          let status : (r.0) / 100 ≡ 2 = (==_iff _ _).0 two in
          subst (λ p. Ended db name sending (p.0) (p.1)) (ok_inj q)
            (wiped (r.0) (r.1) (f status) status))
        (λ other.
          if-cases (λ x. x ≡ ok (d, next) → Ended db name sending d next) ((r.0) == 0)
            (λ zero q. subst (λ p. Ended db name sending (p.0) (p.1)) (ok_inj q) kept)
            (λ nonzero q. absurd (err-ok q)))
        h

  response-Ended :
      (s : Socket)
      → (response_of s sending >>= (λ r. after_deletion db name (r.0))) ≡ ok (d, next)
      → Ended db name sending d next
  unfolding response_of do_request
  response-Ended s h = elim (Option-cases (request_over s.chat sending)) [
    | inl n ↦ absurd (err-ok (sym (ap over n) ∙ h))
    | inr (r, e) ↦ after-Ended r (request-responds s.chat sending r e) (sym (ap over e) ∙ h)
  ]
    where
      over : Option (ℕ × Bytes) → Result CommandError (Deletion × Database)
      over o =
          elim o [ none ↦ err request_failed | some r ↦ ok r ]
          >>= (λ r. after_deletion db name (r.0))

-- When `delete-account` ends without an exception, either the server confirmed the deletion with
-- a response of the 200s and exactly the local data of that account are deleted, or the outcome
-- is reported as ambiguous and the database is as it was.
pub cmd_delete_account-Ended :
    (db : Database) (name : Bytes) (attempt : Attempt) (sending : Sending) (d : Deletion)
    (next : Database)
    → cmd_delete_account db name attempt sending ≡ ok (d, next)
    → Ended db name sending d next
unfolding cmd_delete_account
cmd_delete_account-Ended db name attempt sending d next h =
    elim (Result-cases (require_account db name)) [
      | inl (e, p) ↦ absurd (err-ok (sym (ap (λ x. x >>= (λ row. rest)) p) ∙ h))
      | inr (row, p) ↦ elim (Result-cases (connected_socket attempt)) [
        | inl (e, q) ↦
            absurd
              (err-ok (sym (ap (λ x. x >>= next_step) q) ∙ sym (ap (λ x. x >>= (λ y. rest)) p) ∙ h))
        | inr (s, q) ↦
            response-Ended db name sending d next s
              (sym (ap (λ x. x >>= next_step) q) ∙ sym (ap (λ x. x >>= (λ y. rest)) p) ∙ h)
      ]
    ]
  where
    next_step : Socket → Result CommandError (Deletion × Database)
    next_step s = response_of s sending >>= (λ r. after_deletion db name (r.0))

    rest : Result CommandError (Deletion × Database)
    rest = connected_socket attempt >>= next_step
