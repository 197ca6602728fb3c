-- ===== src/Gendb/Registration.antt =====
-- gendb/main.cpp: the guards of an account's number, and the three commands of a registration by
-- SMS or voice. The registration service is a record of its answers, each `none` or false where the
-- client throws; `log` lists the requests made of it. What verification then saves is left out.
pub mod Guards
mod Tests
use signal2sip.Base.{
  ℕ, zero, suc, ◌+◌, ◌-◌, ◌*◌, ◌/◌, ◌%◌, ◌^◌, ◌≤◌, ◌<◌, ◌≡◌, refl, sym, ap, ap₂, subst, ◌∙◌, ◌≢◌,
  ◌↔◌, ◌⊎◌, inl, inr, Bool, true, false, not, ◌&&◌, ◌||◌, Option, none, some, List, [], ◌∷◌, ◌++◌,
  map, arith, ltb, leb, ◌==◌, if◌then◌else◌, ==_iff, Bool-cases, Option-cases, is_some, length,
  get_or, set, take, drop, replicate, is_empty, All, length-append, length-replicate, length-set,
  length-take-le, get_or-set_self, get_or-set_ne, take-append_left, drop-append_left, All-append,
  length-take, is_empty→nil, take-all, drop-all, get_or-append_right, suc-add, get_or-replicate,
  Bytes, IsByte, codes, eqb, eqb_refl, eqb→eq, eqb_iff, Result, ok, err, ◌>>=◌, ok_or, Result-cases,
}
use signal2sip.Base.Bits.{passes_below, passes_below→test, bit_or-shl}
use mathlib.Core.List.{append-nil, append_assoc}
use signal2sip.Storage.Records.{Database}
use signal2sip.Storage.Accounts.{has_account}
use signal2sip.Config.Accept.{AccountConfig}
use signal2sip.Config.Ini.{trim, last_byte}
use signal2sip.Gendb.Encoding.{drop_end}

pub data RegisterError : Type 0 where
  bad_transport : RegisterError
  number_needed : RegisterError
  number_differs : RegisterError
  number_in_use : Bytes → RegisterError
  account_exists : RegisterError

-- `cleanCaptchaToken`: 34 and 39 are the quotes, 47 is the slash.
unfoldable pub is_quoted : ℕ → Bytes → Bool
is_quoted q s = (get_or s 0 0 == q) && (last_byte s == q)

unfoldable pub unquoted : Bytes → Bytes
unquoted s =
    if leb 2 (length s) && (is_quoted 34 s || is_quoted 39 s)
    then take (length s - 2) (drop 1 s)
    else s

abbrev pub captcha_prefix : Bytes
captcha_prefix = codes "signalcaptcha://"

unfoldable pub without_prefix : Bytes → Bytes
without_prefix s =
    if eqb (take (length captcha_prefix) s) captcha_prefix
    then drop (length captcha_prefix) s
    else s

unfoldable pub clean_captcha_token : Bytes → Bytes
clean_captcha_token token = drop_end 47 (without_prefix (trim (unquoted (trim token))))

-- `resolveAccount`: the account of that name, if it is in the configuration.
unfoldable pub resolve_account : List AccountConfig → Bytes → Option AccountConfig
resolve_account [] name = none
resolve_account (a ∷ rest) name = if eqb a.name name then some a else resolve_account rest name

unfoldable pub require_no_existing_account : Database → Bytes → Result RegisterError Bool
require_no_existing_account db name = if has_account db name then err account_exists else ok true

unfoldable pub require_e164_not_used :
    List AccountConfig → Bytes → Bytes → Result RegisterError Bool
require_e164_not_used [] name e164 = ok true
require_e164_not_used (a ∷ rest) name e164 =
    let others = require_e164_not_used rest name e164 in
    if not (eqb a.name name) && eqb a.e164 e164 then err (number_in_use a.name) else others

unfoldable pub number_for : Option AccountConfig → Bytes → Result RegisterError Bytes
number_for none given = if is_empty given then err number_needed else ok given
number_for (some a) given =
    if not (is_empty given) && not (eqb given a.e164) then err number_differs else ok a.e164

unfoldable pub is_code_transport : Bytes → Bool
is_code_transport t = eqb t (codes "sms") || eqb t (codes "voice")

-- The checks of `register` before the first request: the number to register.
unfoldable pub check_register :
    List AccountConfig → Database → Bytes → Bytes → Bytes → Result RegisterError Bytes
check_register accounts db name given transport =
    if not (is_code_transport transport)
    then err bad_transport
    else number_for (resolve_account accounts name) given >>= (λ number.
      require_e164_not_used accounts name number
      >>= (λ free. require_no_existing_account db name >>= (λ fresh. ok number)))

pub record Pending : Type 0 where
  pub e164 : Bytes
  pub session_id : Bytes
  pub password : Bytes
  pub transport : Bytes

pub record Session : Type 0 where
  pub id : Bytes
  pub allowed_to_request_code : Bool
  pub requested_information : List Bytes

pub record Service : Type 0 where
  pub create_session : Bytes → Option Session
  pub resume_session : Bytes → Bytes → Bool
  pub submit_captcha : Bytes → Option Bool
  pub request_code : Bytes → Bool

pub data Request : Type 0 where
  creates : Bytes → Request
  resumes : Bytes → Bytes → Request
  submits : Bytes → Request
  requests_code : Bytes → Request

-- The pending file of the account, and the requests made.
pub record Tool : Type 0 where
  pub pending : Option Pending
  pub log : List Request

pub data Outcome : Type 0 where
  refused : RegisterError → Outcome
  no_pending : Outcome
  empty_token : Outcome
  failed : Outcome
  captcha_needed : Outcome
  not_allowed : Outcome
  code_requested : Outcome

unfoldable pub asks : List Bytes → Bytes → Bool
asks [] what = false
asks (i ∷ rest) what = eqb i what || asks rest what

unfoldable pub ask_code : Service → Bytes → Tool → Outcome × Tool
ask_code service transport t = (
  if service.request_code transport then code_requested else failed,
  record t { log = t.log ++ requests_code transport ∷ [] },
)

unfoldable pub with_session : Service → Bytes → Session → Tool → Outcome × Tool
with_session service transport s t =
    if asks s.requested_information (codes "captcha")
    then (captcha_needed, t)
    else if asks s.requested_information (codes "pushChallenge")
    then (not_allowed, t)
    else if not s.allowed_to_request_code
    then (not_allowed, t)
    else ask_code service transport t

-- The session is saved before anything else is done with it.
unfoldable pub after_create :
    Service → Bytes → Bytes → Bytes → Option Session → Tool → Outcome × Tool
after_create service number password transport none t = (failed, t)
after_create service number password transport (some s) t =
    with_session service transport s (record t {
      pending =
          some (record {
            e164 = number;
            session_id = s.id;
            password = password;
            transport = transport;
          });
    })

unfoldable pub after_checks :
    Service → Bytes → Bytes → Result RegisterError Bytes → Tool → Outcome × Tool
after_checks service password transport (err e) t = (refused e, t)
after_checks service password transport (ok number) t =
    after_create service number password transport (service.create_session number)
      (record t { log = t.log ++ creates number ∷ [] })

unfoldable pub cmd_register :
    List AccountConfig → Database → Service → Bytes → Bytes → Bytes → Bytes → Tool → Outcome × Tool
cmd_register accounts db service password name given transport t =
    after_checks service password transport (check_register accounts db name given transport) t

unfoldable pub after_captcha : Service → Bytes → Option Bool → Tool → Outcome × Tool
after_captcha service transport none t = (failed, t)
after_captcha service transport (some false) t = (not_allowed, t)
after_captcha service transport (some true) t = ask_code service transport t

unfoldable pub resume_captcha : Service → Bytes → Option Pending → Tool → Outcome × Tool
resume_captcha service token none t = (no_pending, t)
resume_captcha service token (some p) t =
    let resumed : Tool = record t { log = t.log ++ resumes p.session_id p.e164 ∷ [] } in
    if not (service.resume_session p.session_id p.e164)
    then (failed, resumed)
    else after_captcha service p.transport (service.submit_captcha token)
        (record resumed { log = resumed.log ++ submits token ∷ [] })

unfoldable pub cmd_register_captcha : Service → Bytes → Tool → Outcome × Tool
cmd_register_captcha service token t =
    let clean = clean_captcha_token token in
    if is_empty clean then (empty_token, t) else resume_captcha service clean t.pending t
