-- ===== src/ProtocolStores/Records.antt =====
-- What libsignal stores it can load again.
use signal2sip.Base.{
  ℕ, ◌≡◌, true, Option, none, some, arith, ◌==◌, if◌then◌else◌, Bytes, eqb, eqb_refl,
}
use mathlib.Core.Option
use signal2sip.Base.Dict.{find-upsert}
use signal2sip.Storage.Records.{Database}
use signal2sip.Storage.Accounts.{has_account}
use signal2sip.Storage.Keys.{
  is_identity, save_session, load_session, save_signed_prekey, load_signed_prekey,
  save_kyber_prekey, load_kyber_prekey,
}
use signal2sip.ProtocolStores.{
  Owner, returned, load_session_callback, store_session_callback, load_signed_pre_key,
  store_signed_pre_key, load_kyber_pre_key, store_kyber_pre_key,
}

module _ {S : Type 0} (decode : Bytes → Option S) (encode : S → Bytes) where
  -- For an account with a row, and if reading inverts writing, a stored session is loaded again
  -- for its address, and for any other address whatever was loaded before.
  pub load_session_callback-store :
      (db : Database) (o : Owner) (address other : Bytes) (s : S)
      → ((s : S) → decode (encode s) ≡ some s)
      → has_account db o.account ≡ true
      → Option.map
          (λ next. load_session_callback decode next o other)
          (store_session_callback encode db o address s)
        ≡ some
            (if eqb other address then some (some s) else load_session_callback decode db o other)
  unfolding load_session_callback store_session_callback save_session load_session returned
  load_session_callback-store db o address other s inverse h = ground (
    arith,
    h,
    inverse s,
    eqb_refl o.account,
    find-upsert o.account address o.account other (encode s) db.session,
  )

  -- For an account with a row and an identity 'aci' or 'pni', and if reading inverts writing,
  -- after a signed prekey is stored it is the only one that loads: under its own id.
  pub load_signed_pre_key-store :
      (db : Database) (o : Owner) (id other : ℕ) (s : S)
      → ((s : S) → decode (encode s) ≡ some s)
      → has_account db o.account ≡ true
      → is_identity o.identity ≡ true
      → (Option.map
            (λ next. load_signed_pre_key decode next o other)
            (store_signed_pre_key encode db o id s)
          ≡ some (if id == other then some s else none))
        × (Option.map
              (λ next. load_kyber_pre_key decode next o other)
              (store_kyber_pre_key encode db o id s)
            ≡ some (if id == other then some s else none))
  unfolding load_signed_pre_key store_signed_pre_key save_signed_prekey load_signed_prekey
      load_kyber_pre_key store_kyber_pre_key save_kyber_prekey load_kyber_prekey returned
  load_signed_pre_key-store db o id other s inverse h k = (
    ground (
      arith,
      h,
      k,
      inverse s,
      eqb_refl o.account,
      eqb_refl o.identity,
      find-upsert o.account o.identity o.account o.identity
          (record { key_id = id; serialized = encode s }) db.signed_prekey,
    ),
    ground (
      arith,
      h,
      k,
      inverse s,
      eqb_refl o.account,
      eqb_refl o.identity,
      find-upsert o.account o.identity o.account o.identity
          (record { key_id = id; serialized = encode s }) db.kyber_prekey,
    ),
  )
