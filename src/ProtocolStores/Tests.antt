-- ===== src/ProtocolStores/Tests.antt =====
-- The theorems on signal/ProtocolStores.cpp at concrete input.
use signal2sip.Base.{
  ℕ, ◌≡◌, refl, Bool, true, some, [], ◌∷◌, ◌++◌, arith, if◌then◌else◌, codes, eqb,
}
use mathlib.Core.Option
use signal2sip.Storage.Sample.{sample}
use signal2sip.Storage.Accounts.{has_account, find_account}
use signal2sip.ProtocolStores.{Owner, save_identity_key, is_trusted_identity}
use signal2sip.ProtocolStores.Trust.{is_trusted_identity-save_identity_key}

abbrev owner : Owner
owner = record { account = codes "main"; identity = codes "aci" }

present : has_account sample (codes "main") ≡ true
unfolding has_account find_account
present = refl

is_trusted_identity-save_identity_key_example :
    Option.map {B = ℕ × Bool}
      (λ r. (r.0, is_trusted_identity r.1 owner (codes "x" ++ 46 ∷ codes "2") (6 ∷ [])))
      (save_identity_key sample owner (codes "x" ++ 46 ∷ codes "1") (5 ∷ []))
    ≡ some (
      (if is_trusted_identity sample owner (codes "x" ++ 46 ∷ codes "1") (5 ∷ []) then 0 else 1),
      (if eqb (codes "x") (codes "x")
          then eqb (5 ∷ []) (6 ∷ [])
          else is_trusted_identity sample owner (codes "x" ++ 46 ∷ codes "2") (6 ∷ [])),
    )
is_trusted_identity-save_identity_key_example =
    is_trusted_identity-save_identity_key sample owner (codes "x") (codes "1") (codes "x")
      (codes "2") (5 ∷ []) (6 ∷ []) present ((λ e. omega arith), tt) ((λ e. omega arith), tt)
