-- ===== src/ProtocolStores/Trust.antt =====
-- Trust on first use: one key for each service id, whatever the device.
use signal2sip.Base.{
  ℕ, ◌≡◌, refl, ◌≢◌, Bool, true, none, some, [], ◌∷◌, ◌++◌, arith, if◌then◌else◌, Option-cases, All,
  Bytes, eqb, eqb_refl,
}
use mathlib.Core.Option
use signal2sip.Base.Dict.{find, find-upsert}
use signal2sip.Storage.Records.{Database}
use signal2sip.Storage.Accounts.{has_account}
use signal2sip.Storage.Keys.{save_remote_identity, load_remote_identity}
use signal2sip.ProtocolStores.{
  Owner, before_last_dot, service_id_from_address_key, save_identity_key, is_trusted_identity,
}

-- The devices of one service id share its key, which is before the last dot.
before_last_dot-none : (s : Bytes) → All (λ c. c ≢ 46) s → before_last_dot s ≡ none
unfolding before_last_dot
before_last_dot-none [] h = refl
before_last_dot-none (c ∷ s) h = rw (before_last_dot-none s h.1) (ground (arith, h.0))

before_last_dot-append :
    (s device : Bytes) → All (λ c. c ≢ 46) device → before_last_dot (s ++ 46 ∷ device) ≡ some s
unfolding before_last_dot
before_last_dot-append [] device h = rw (before_last_dot-none device h) refl
before_last_dot-append (c ∷ s) device h = rw (before_last_dot-append s device h) refl

device-service_id :
    (s device : Bytes)
    → All (λ c. c ≢ 46) device
    → service_id_from_address_key (s ++ 46 ∷ device) ≡ s
unfolding service_id_from_address_key
device-service_id s device h =
    rw (before_last_dot-append s device h, service_id_from_address_key) refl

-- Once an account with a row has saved a key for one device of a peer, every device of that peer
-- is trusted with that key and no other; a peer of another service id is trusted as before. The
-- save reports a change exactly when another key had been saved, that is, when the new key was
-- not trusted.
pub is_trusted_identity-save_identity_key :
    (db : Database) (o : Owner) (peer device other device2 key candidate : Bytes)
    → has_account db o.account ≡ true
    → All (λ c. c ≢ 46) device
    → All (λ c. c ≢ 46) device2
    → Option.map {B = ℕ × Bool}
        (λ r. (r.0, is_trusted_identity r.1 o (other ++ 46 ∷ device2) candidate))
        (save_identity_key db o (peer ++ 46 ∷ device) key)
      ≡ some (
        (if is_trusted_identity db o (peer ++ 46 ∷ device) key then 0 else 1),
        (if eqb other peer
            then eqb key candidate
            else is_trusted_identity db o (other ++ 46 ∷ device2) candidate),
      )
unfolding save_identity_key is_trusted_identity save_remote_identity load_remote_identity
is_trusted_identity-save_identity_key db o peer device other device2 key candidate h d e = ground (
  arith,
  h,
  device-service_id peer device d,
  device-service_id other device2 e,
  find-upsert o.account peer o.account other key db.remote_identity,
  eqb_refl o.account,
  Option-cases (find o.account peer db.remote_identity),
)
