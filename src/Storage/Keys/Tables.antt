-- ===== src/Storage/Keys/Tables.antt =====
-- What the writers of the keyed tables leave for their readers, and when they fail.
use signal2sip.Base.{
  ℕ, ◌≡◌, Bool, true, not, ◌&&◌, ◌||◌, Option, some, List, arith, if◌then◌else◌, is_some, Bytes,
  eqb, Result, ok, err, ◌>>=◌,
}
use signal2sip.Base.Dict.{find, find-upsert}
use signal2sip.Storage.Records.{
  Database, IdentityKeypairRecord, PrekeyRecord, SqlError, check_failed, foreign_key_failed,
}
use signal2sip.Storage.Accounts.{has_account}
use signal2sip.Storage.Keys.{
  is_identity, save_identity_keypair, load_identity_keypair, save_signed_prekey, load_signed_prekey,
  save_kyber_prekey, load_kyber_prekey, save_session, load_session, save_remote_identity,
  load_remote_identity, save_resolved_contact, load_resolved_contact,
}

-- Reading `(b, j)` after a write of `(a, k)`.
abbrev pub after {ℓ} :
    {V : Type ℓ}
    → Database
    → Bool
    → Bytes
    → Bytes
    → V
    → List (Bytes × Bytes × V)
    → Bytes
    → Bytes
    → Result SqlError (Option V)
after db admitted a k v rows b j =
    if not admitted
    then err check_failed
    else if is_some (find a k rows) || has_account db a
    then ok (if eqb b a && eqb j k then some v else find b j rows)
    else err foreign_key_failed

-- Writing an account's identity key, signed prekey or Kyber prekey fails on an identity other than
-- 'aci' and 'pni', and on an account without a row; otherwise a read of the same account and
-- identity gives the written record, and a read of any other gives what it did.
pub load_keys-save_keys :
    (db : Database) (a k b j : Bytes) (keys : IdentityKeypairRecord) (prekey : PrekeyRecord)
    → ((save_identity_keypair db a k keys >>= (λ next. ok (load_identity_keypair next b j)))
        ≡ after db (is_identity k) a k keys db.identity_keypair b j)
      × ((save_signed_prekey db a k prekey >>= (λ next. ok (load_signed_prekey next b j)))
          ≡ after db (is_identity k) a k prekey db.signed_prekey b j)
      × ((save_kyber_prekey db a k prekey >>= (λ next. ok (load_kyber_prekey next b j)))
          ≡ after db (is_identity k) a k prekey db.kyber_prekey b j)
unfolding save_identity_keypair load_identity_keypair save_signed_prekey load_signed_prekey
    save_kyber_prekey load_kyber_prekey
load_keys-save_keys db a k b j keys prekey = (
  ground (arith, find-upsert a k b j keys db.identity_keypair),
  ground (arith, find-upsert a k b j prekey db.signed_prekey),
  ground (arith, find-upsert a k b j prekey db.kyber_prekey),
)

-- Writing a session, a remote identity or a resolved contact fails only when the account has no
-- row; otherwise a read of the same account and key gives the written record, and a read of any
-- other gives what it did.
pub load_peers-save_peers :
    (db : Database) (a k b j serialized aci pni : Bytes) (now : ℕ)
    → ((save_session db a k serialized >>= (λ next. ok (load_session next b j)))
        ≡ after db true a k serialized db.session b j)
      × ((save_remote_identity db a k serialized >>= (λ next. ok (load_remote_identity next b j)))
          ≡ after db true a k serialized db.remote_identity b j)
      × ((save_resolved_contact db a now k aci pni
            >>= (λ next. ok (load_resolved_contact next b j)))
          ≡ after db true a k
              (record { aci = aci; pni = pni; resolved_at = now })
              db.resolved_contact
              b
              j)
unfolding save_session load_session save_remote_identity load_remote_identity save_resolved_contact
    load_resolved_contact
load_peers-save_peers db a k b j serialized aci pni now = (
  ground (arith, find-upsert a k b j serialized db.session),
  ground (arith, find-upsert a k b j serialized db.remote_identity),
  ground (
    arith,
    find-upsert a k b j (record { aci = aci; pni = pni; resolved_at = now }) db.resolved_contact,
  ),
)
