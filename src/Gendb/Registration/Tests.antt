-- ===== src/Gendb/Registration/Tests.antt =====
-- A registration at concrete input.
use signal2sip.Base.{◌≡◌, refl, true, false, none, some, List, [], ◌∷◌, codes, ok}
use signal2sip.Storage.Records.{Database}
use signal2sip.Storage.Accounts.{
  has_account, find_account, list_all_accounts, summaries, summary_of, insert_summary,
}
use signal2sip.Storage.Sample.{sample_account, sample}
use signal2sip.Config.Accept.{AccountConfig, built}
use signal2sip.Config.Ini.{trim, trim_start, trim_end, last_byte}
use signal2sip.Config.Load.{load_accounts}
use signal2sip.Gendb.Encoding.{drop_end}
use signal2sip.Gendb.Registration.{
  is_quoted, unquoted, without_prefix, clean_captcha_token, resolve_account,
  require_no_existing_account, require_e164_not_used, number_for, is_code_transport, check_register,
  Service, Tool, creates, resumes, submits, requests_code, refused, number_in_use, asks, ask_code,
  with_session, after_create, after_checks, cmd_register, after_captcha, resume_captcha,
  cmd_register_captcha,
}
use signal2sip.Gendb.Registration.Guards.{Asked, cmd_register-Asked}

cleaned : clean_captcha_token (codes " \"signalcaptcha://tok.1/\"\n") ≡ codes "tok.1"
unfolding clean_captcha_token without_prefix unquoted is_quoted drop_end trim trim_start trim_end
    last_byte
cleaned = refl

abbrev service : Service
service = record {
  create_session = λ number. some (record {
    id = codes "s";
    allowed_to_request_code = false;
    requested_information = codes "captcha" ∷ [];
  });
  resume_session = λ id number. true;
  submit_captcha = λ token. some true;
  request_code = λ transport. true;
}

abbrev idle : Tool
idle = record { pending = none; log = [] }

abbrev accounts : List AccountConfig
accounts = built (codes "main") sample_account ∷ []

-- A captcha in between: the second command goes on with the session of the first.
two_commands :
    (cmd_register_captcha service (codes "tok") (
      (cmd_register accounts sample service
        (codes "pw")
        (codes "new")
        (codes "+7")
        (codes "sms")
        idle).1)).1.log
    ≡ creates (codes "+7")
      ∷ resumes (codes "s") (codes "+7")
      ∷ submits (codes "tok")
      ∷ requests_code (codes "sms")
      ∷ []
unfolding cmd_register check_register is_code_transport number_for resolve_account
    require_e164_not_used require_no_existing_account has_account find_account after_checks
    after_create with_session asks built cmd_register_captcha clean_captcha_token without_prefix
    unquoted is_quoted drop_end trim trim_start trim_end last_byte resume_captcha after_captcha
    ask_code
two_commands = refl

-- The number of another account is refused.
in_use :
    (cmd_register accounts sample service
      (codes "pw")
      (codes "new")
      (codes "+380000000001")
      (codes "sms")
      idle).0
    ≡ refused (number_in_use (codes "main"))
unfolding cmd_register check_register is_code_transport number_for resolve_account
    require_e164_not_used require_no_existing_account has_account find_account after_checks built
in_use = refl

-- A disabled account is not in the configuration that `gendb` loads, so its number is not guarded.
abbrev disabled : Database
disabled = record sample {
  account = (codes "main", record sample_account { enabled = false }) ∷ [];
}

unguarded :
    require_e164_not_used
      (load_accounts disabled (list_all_accounts disabled))
      (codes "new")
      (codes "+380000000001")
    ≡ ok true
unfolding require_e164_not_used load_accounts list_all_accounts summaries summary_of insert_summary
unguarded = refl

cmd_register-Asked_example : Asked accounts sample service (codes "new") (codes "sms") idle (
    (cmd_register accounts sample service
      (codes "pw")
      (codes "new")
      (codes "+7")
      (codes "sms")
      idle).1)
cmd_register-Asked_example =
    cmd_register-Asked accounts sample service (codes "pw") (codes "new") (codes "+7") (codes "sms")
      idle
