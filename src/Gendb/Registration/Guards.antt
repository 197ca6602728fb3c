-- ===== src/Gendb/Registration/Guards.antt =====
-- gendb/main.cpp: which numbers `register` may ask the service for.
use signal2sip.Base.{
  ◌≡◌, refl, ap, subst, ◌≢◌, ◌⊎◌, inl, inr, Bool, true, false, not, Option, none, some, List, [],
  ◌∷◌, ◌++◌, arith, Bool-cases, All, Bytes, codes, eqb, eqb→eq, eqb_iff, Result, ok, err,
  Result-cases,
}
use signal2sip.Base.{if-cases}
use signal2sip.Storage.Records.{Database}
use signal2sip.Storage.Accounts.{has_account}
use signal2sip.Config.Accept.{AccountConfig}
use signal2sip.Gendb.Registration.{
  RegisterError, resolve_account, require_no_existing_account, require_e164_not_used, number_for,
  is_code_transport, check_register, Pending, Session, Service, creates, requests_code, Tool,
  Outcome, asks, ask_code, with_session, after_create, after_checks, cmd_register,
}

-- No other account of the configuration has the number.
pub IsFree : Bytes → Bytes → AccountConfig → Type 0
IsFree name number a = (a.name ≡ name) ⊎ (a.e164 ≢ number)

not_used-All :
    (accounts : List AccountConfig) (name number : Bytes) (b : Bool)
    → require_e164_not_used accounts name number ≡ ok b
    → All (IsFree name number) accounts
unfolding require_e164_not_used IsFree
not_used-All [] name number b h = tt
not_used-All (a ∷ rest) name number b h = elim (Bool-cases (eqb a.name name)) [
  | inl same ↦ (inl (eqb→eq _ _ same), not_used-All rest name number b (ground (arith, same, h)))
  | inr other ↦ elim (Bool-cases (eqb a.e164 number)) [
    | inl used ↦ absurd (ground (arith, other, used, h))
    | inr free ↦ (
      inr (λ e. ground (arith, free, (eqb_iff a.e164 number).1 e)),
      not_used-All rest name number b (ground (arith, other, free, h)),
    )
  ]
]

-- What the checks ensure.
record Checked (accounts : List AccountConfig) (db : Database) (name number : Bytes) : Type 0 where
  free : All (IsFree name number) accounts
  fresh : has_account db name ≡ false

no_existing :
    (db : Database) (name : Bytes) (b : Bool)
    → require_no_existing_account db name ≡ ok b
    → has_account db name ≡ false
unfolding require_no_existing_account
no_existing db name b h = ground (arith, h)

check-Checked :
    (accounts : List AccountConfig) (db : Database) (name given transport number : Bytes)
    → check_register accounts db name given transport ≡ ok number
    → Checked accounts db name number
unfolding check_register
check-Checked accounts db name given transport number h =
    elim (Bool-cases (is_code_transport transport)) [
      | inr bad ↦ absurd (ground (arith, bad, h))
      | inl good ↦ elim (Result-cases (number_for (resolve_account accounts name) given)) [
        | inl (e, p) ↦ absurd (ground (arith, good, p, h))
        | inr (n, p) ↦ elim (Result-cases (require_e164_not_used accounts name n)) [
          | inl (e, q) ↦ absurd (ground (arith, good, p, q, h))
          | inr (b, q) ↦ elim (Result-cases (require_no_existing_account db name)) [
            | inl (e, r) ↦ absurd (ground (arith, good, p, q, r, h))
            | inr (c, r) ↦
                let same : n ≡ number = ground (arith, good, p, q, r, h) in
                subst (Checked accounts db name) same (record {
                  free = not_used-All accounts name n b q;
                  fresh = no_existing db name c r;
                })
          ]
        ]
      ]
    ]

not-false : (b : Bool) → not b ≡ false → b ≡ true
not-false true h = refl
not-false false h = absurd cc

-- What a run of `register` may leave: nothing asked, a session, or a session and a code.
pub data Asked (accounts : List AccountConfig) (db : Database) (service : Service)
    (name transport : Bytes) (t : Tool) : Tool → Type 0 where
  unasked : Asked accounts db service name transport t t
  created :
      {next : Tool} (number : Bytes)
      → All (IsFree name number) accounts
      → has_account db name ≡ false
      → next.log ≡ t.log ++ creates number ∷ []
      → Asked accounts db service name transport t next
  coded :
      {next : Tool} (number : Bytes) (s : Session) (p : Pending)
      → All (IsFree name number) accounts
      → has_account db name ≡ false
      → service.create_session number ≡ some s
      → s.allowed_to_request_code ≡ true
      → asks s.requested_information (codes "captcha") ≡ false
      → next.pending ≡ some p
      → p.session_id ≡ s.id
      → next.log ≡ t.log ++ creates number ∷ [] ++ requests_code transport ∷ []
      → Asked accounts db service name transport t next

module _ (accounts : List AccountConfig) (db : Database) (service : Service)
    (name transport : Bytes) (t : Tool) where
  IsAsked : Tool → Type 0
  IsAsked next = Asked accounts db service name transport t next

  session-Asked :
      (number password : Bytes) (s : Session)
      → Checked accounts db name number
      → service.create_session number ≡ some s
      → (q : Tool) → q.log ≡ t.log ++ creates number ∷ []
      → (p : Pending) → q.pending ≡ some p
      → p.session_id ≡ s.id
      → IsAsked ((with_session service transport s q).1)
  unfolding with_session ask_code IsAsked
  session-Asked number password s w e q l p saved id =
      let only : IsAsked q = created number w.free w.fresh l in
      if-cases (λ (x : Outcome × Tool). IsAsked (x.1))
        (asks s.requested_information (codes "captcha")) (λ captcha. only)
        (λ free.
          if-cases (λ (x : Outcome × Tool). IsAsked (x.1))
            (asks s.requested_information (codes "pushChallenge")) (λ challenge. only)
            (λ clear.
              if-cases (λ (x : Outcome × Tool). IsAsked (x.1)) (not s.allowed_to_request_code)
                (λ forbidden. only)
                (λ allowed.
                  coded number s p w.free w.fresh e (not-false s.allowed_to_request_code allowed)
                    free saved id (ap (λ x. x ++ requests_code transport ∷ []) l))))

  create-Asked :
      (number password : Bytes) (o : Option Session)
      → Checked accounts db name number
      → service.create_session number ≡ o
      → IsAsked (
          (after_create service number password transport o
            (record t { log = t.log ++ creates number ∷ [] })).1)
  unfolding after_create IsAsked
  create-Asked number password none w e = created number w.free w.fresh refl
  create-Asked number password (some s) w e = session-Asked number password s w e _ refl _ refl refl

  register-Asked :
      (password given : Bytes) (r : Result RegisterError Bytes)
      → check_register accounts db name given transport ≡ r
      → IsAsked ((after_checks service password transport r t).1)
  unfolding after_checks IsAsked
  register-Asked password given (err e) h = unasked
  register-Asked password given (ok number) h =
      create-Asked number password (service.create_session number)
        (check-Checked accounts db name given transport number h) refl

-- Whatever `register` is given and the service answers: a session is asked for at most once, and
-- only for a number that no other account of the configuration has and under a name that has no
-- account yet; a code is asked for at most once, only when the service allows it and wants no
-- captcha, and the session has been saved for the commands that follow.
pub cmd_register-Asked :
    (accounts : List AccountConfig) (db : Database) (service : Service)
    (password name given transport : Bytes) (t : Tool)
    → Asked accounts db service name transport t
        ((cmd_register accounts db service password name given transport t).1)
unfolding cmd_register IsAsked
cmd_register-Asked accounts db service password name given transport t =
    register-Asked accounts db service name transport t password given
      (check_register accounts db name given transport) refl
