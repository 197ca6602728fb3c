-- ===== src/Gendb/Args/Tests.antt =====
-- Command lines, and the theorem at concrete input.
use signal2sip.Base.{◌≡◌, refl, some, List, [], ◌∷◌, All, Bytes, codes}
use signal2sip.Gendb.Args.{push, scan, assemble, parse_args, register, dispatch}
use signal2sip.Gendb.Args.Anywhere.{IsWord}

-- An option without a value is a word.
trailing_option :
    parse_args (codes "a" ∷ codes "link" ∷ codes "--config" ∷ [])
    ≡ some (record {
      account_name = codes "a";
      command = codes "link";
      positional = codes "--config" ∷ [];
      e164 = [];
      config_path = [];
    })
unfolding parse_args scan push assemble
trailing_option = refl

default_transport :
    dispatch (record {
      account_name = codes "a";
      command = codes "register";
      positional = [];
      e164 = codes "+1";
      config_path = [];
    })
    ≡ register (codes "sms")
unfolding dispatch
default_transport = refl

abbrev before : List Bytes
before = codes "a" ∷ []

abbrev after : List Bytes
after = codes "register" ∷ codes "voice" ∷ []

before-IsWord : All IsWord before
unfolding IsWord
before-IsWord = ((refl, refl), tt)

after-IsWord : All IsWord after
unfolding IsWord
after-IsWord = ((refl, refl), ((refl, refl), tt))
