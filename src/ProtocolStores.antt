-- ===== src/ProtocolStores.antt =====
-- signal/ProtocolStores.cpp: the stores that libsignal calls back into.
-- Handles of libsignal are outside: an address is its key "<serviceId>.<deviceId>", a public key
-- its serialized bytes, and reading or writing any other record is a parameter. A callback that
-- throws returns -1, here `none`.
pub mod Trust
pub mod Records
mod Tests
use signal2sip.Base.{
  ℕ, zero, suc, ◌+◌, ◌-◌, ◌*◌, ◌/◌, ◌%◌, ◌^◌, ◌≤◌, ◌<◌, ◌≡◌, refl, sym, ap, ap₂, subst, ◌∙◌, ◌≢◌,
  ◌↔◌, ◌⊎◌, inl, inr, Bool, true, false, not, ◌&&◌, ◌||◌, Option, none, some, List, [], ◌∷◌, ◌++◌,
  map, arith, ltb, leb, ◌==◌, if◌then◌else◌, ==_iff, Bool-cases, Option-cases, is_some, length,
  get_or, set, take, drop, replicate, is_empty, All, length-append, length-replicate, length-set,
  length-take-le, get_or-set_self, get_or-set_ne, take-append_left, drop-append_left, All-append,
  length-take, is_empty→nil, take-all, drop-all, get_or-append_right, suc-add, get_or-replicate,
  Bytes, IsByte, codes, eqb, eqb_refl, eqb→eq, eqb_iff, Result, ok, err, ◌>>=◌, ok_or, Result-cases,
}
use signal2sip.Base.Bits.{passes_below, passes_below→test, bit_or-shl}
use mathlib.Core.List.{append-nil, append_assoc}
use signal2sip.Storage.Records.{
  AccountRecord, Database, IdentityKeypairRecord, PrekeyRecord, SqlError,
}
use signal2sip.Storage.Accounts.{load_account}
use signal2sip.Storage.Keys.{
  save_identity_keypair, load_identity_keypair, save_signed_prekey, load_signed_prekey,
  save_kyber_prekey, load_kyber_prekey, save_session, load_session, save_remote_identity,
  load_remote_identity,
}

-- The account and the identity ('aci' or 'pni') of a store.
pub record Owner : Type 0 where
  pub account : Bytes
  pub identity : Bytes

-- What is before the last dot, if there is a dot.
unfoldable pub before_last_dot : Bytes → Option Bytes
before_last_dot [] = none
before_last_dot (c ∷ cs) =
    let rest = before_last_dot cs in
    elim rest [ some p ↦ some (c ∷ p) | none ↦ if c == 46 then some [] else none ]

unfoldable pub service_id_from_address_key : Bytes → Bytes
service_id_from_address_key key = elim (before_last_dot key) [ none ↦ key | some p ↦ p ]

unfoldable pub returned {ℓ} : {A : Type ℓ} → Result SqlError A → Option A
returned (err e) = none
returned (ok a) = some a

-- `out` is null when there is no session.
unfoldable pub load_session_callback :
    {S : Type 0} → (Bytes → Option S) → Database → Owner → Bytes → Option (Option S)
load_session_callback decode db o address = elim (load_session db o.account address) [
  | none ↦ some none
  | some serialized ↦ elim (decode serialized) [ none ↦ none | some s ↦ some (some s) ]
]

unfoldable pub store_session_callback :
    {S : Type 0} → (S → Bytes) → Database → Owner → Bytes → S → Option Database
store_session_callback encode db o address s =
    returned (save_session db o.account address (encode s))

unfoldable pub get_local_identity_key_pair : Database → Owner → Option IdentityKeypairRecord
get_local_identity_key_pair db o = load_identity_keypair db o.account o.identity

-- `static_cast<uint32_t>`
unfoldable pub get_local_registration_id : Database → Owner → Option ℕ
get_local_registration_id db o = elim (load_account db o.account) [
  | err e ↦ none
  | ok row ↦ some (
      (if eqb o.identity (codes "pni") then row.pni_registration_id else row.registration_id)
      % 2 ^ 32)
]

unfoldable pub get_identity_key : Database → Owner → Bytes → Option Bytes
get_identity_key db o address =
    load_remote_identity db o.account (service_id_from_address_key address)

-- The result is 1 when another key was stored before, else 0.
unfoldable pub save_identity_key : Database → Owner → Bytes → Bytes → Option (ℕ × Database)
save_identity_key db o address public_key =
    let key = service_id_from_address_key address in
    let change : ℕ = elim (load_remote_identity db o.account key) [
      | none ↦ 0
      | some existing ↦ if eqb existing public_key then 0 else 1
    ] in
    elim (save_remote_identity db o.account key public_key) [
      | err e ↦ none
      | ok next ↦ some (change, next)
    ]

unfoldable pub is_trusted_identity : Database → Owner → Bytes → Bytes → Bool
is_trusted_identity db o address candidate =
    elim (load_remote_identity db o.account (service_id_from_address_key address)) [
      | none ↦ true
      | some existing ↦ eqb existing candidate
    ]

-- One-time prekeys are never uploaded: none is ever found, and the other two do nothing.
unfoldable pub load_pre_key : {S : Type 0} → Database → ℕ → Option S
load_pre_key db id = none

unfoldable pub store_pre_key : {S : Type 0} → Database → ℕ → S → Option Database
store_pre_key db id s = some db

unfoldable pub remove_pre_key : Database → ℕ → Option Database
remove_pre_key db id = some db

unfoldable pub load_signed_pre_key :
    {S : Type 0} → (Bytes → Option S) → Database → Owner → ℕ → Option S
load_signed_pre_key decode db o id = elim (load_signed_prekey db o.account o.identity) [
  | none ↦ none
  | some stored ↦ if not (stored.key_id == id) then none else decode stored.serialized
]

unfoldable pub store_signed_pre_key :
    {S : Type 0} → (S → Bytes) → Database → Owner → ℕ → S → Option Database
store_signed_pre_key encode db o id s =
    returned
      (save_signed_prekey db o.account o.identity (record { key_id = id; serialized = encode s }))

unfoldable pub load_kyber_pre_key :
    {S : Type 0} → (Bytes → Option S) → Database → Owner → ℕ → Option S
load_kyber_pre_key decode db o id = elim (load_kyber_prekey db o.account o.identity) [
  | none ↦ none
  | some stored ↦ if not (stored.key_id == id) then none else decode stored.serialized
]

unfoldable pub store_kyber_pre_key :
    {S : Type 0} → (S → Bytes) → Database → Owner → ℕ → S → Option Database
store_kyber_pre_key encode db o id s =
    returned
      (save_kyber_prekey db o.account o.identity (record { key_id = id; serialized = encode s }))

-- The last-resort key may be used again: nothing is changed.
unfoldable pub mark_kyber_pre_key_used : Database → ℕ → Option Database
mark_kyber_pre_key_used db id = some db
