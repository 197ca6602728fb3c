-- ===== src/Storage/Keys.antt =====
-- The methods of `Storage` on the tables that hold one record for each key of an account.
-- A row may only be added for an account that has a row itself (REFERENCES account), and the
-- tables keyed by identity take only 'aci' and 'pni' (CHECK).
pub mod Tables
mod Tests
use signal2sip.Base.{
  ℕ, zero, suc, ◌+◌, ◌-◌, ◌*◌, ◌/◌, ◌%◌, ◌^◌, ◌≤◌, ◌<◌, ◌≡◌, refl, sym, ap, ap₂, subst, ◌∙◌, ◌≢◌,
  ◌↔◌, ◌⊎◌, inl, inr, Bool, true, false, not, ◌&&◌, ◌||◌, Option, none, some, List, [], ◌∷◌, ◌++◌,
  map, arith, ltb, leb, ◌==◌, if◌then◌else◌, ==_iff, Bool-cases, Option-cases, is_some, length,
  get_or, set, take, drop, replicate, is_empty, All, length-append, length-replicate, length-set,
  length-take-le, get_or-set_self, get_or-set_ne, take-append_left, drop-append_left, All-append,
  length-take, is_empty→nil, take-all, drop-all, get_or-append_right, suc-add, get_or-replicate,
  Bytes, IsByte, codes, eqb, eqb_refl, eqb→eq, eqb_iff, Result, ok, err, ◌>>=◌, ok_or,
}
use signal2sip.Base.Bits.{passes_below, passes_below→test, bit_or-shl}
use mathlib.Core.List.{append-nil, append_assoc}
use signal2sip.Base.Dict.{find, upsert}
use signal2sip.Storage.Records.{
  Database, IdentityKeypairRecord, PrekeyRecord, ResolvedContactRecord, SqlError, check_failed,
  foreign_key_failed,
}
use signal2sip.Storage.Accounts.{has_account}

-- `INSERT … ON CONFLICT DO UPDATE` under the two constraints.
abbrev pub put {ℓ} :
    {V : Type ℓ}
    → Database
    → Bool
    → Bytes
    → Bytes
    → V
    → List (Bytes × Bytes × V)
    → Result SqlError (List (Bytes × Bytes × V))
put db admitted a k v rows =
    if not admitted
    then err check_failed
    else if is_some (find a k rows) || has_account db a
    then ok (upsert a k v rows)
    else err foreign_key_failed

abbrev pub is_identity : Bytes → Bool
is_identity k = eqb k (codes "aci") || eqb k (codes "pni")

unfoldable pub save_identity_keypair :
    Database → Bytes → Bytes → IdentityKeypairRecord → Result SqlError Database
save_identity_keypair db a identity keypair =
    put db (is_identity identity) a identity keypair db.identity_keypair
    >>= (λ rows. ok (record db { identity_keypair = rows }))

unfoldable pub load_identity_keypair : Database → Bytes → Bytes → Option IdentityKeypairRecord
load_identity_keypair db a identity = find a identity db.identity_keypair

unfoldable pub save_signed_prekey :
    Database → Bytes → Bytes → PrekeyRecord → Result SqlError Database
save_signed_prekey db a identity prekey =
    put db (is_identity identity) a identity prekey db.signed_prekey
    >>= (λ rows. ok (record db { signed_prekey = rows }))

unfoldable pub load_signed_prekey : Database → Bytes → Bytes → Option PrekeyRecord
load_signed_prekey db a identity = find a identity db.signed_prekey

unfoldable pub save_kyber_prekey :
    Database → Bytes → Bytes → PrekeyRecord → Result SqlError Database
save_kyber_prekey db a identity prekey =
    put db (is_identity identity) a identity prekey db.kyber_prekey
    >>= (λ rows. ok (record db { kyber_prekey = rows }))

unfoldable pub load_kyber_prekey : Database → Bytes → Bytes → Option PrekeyRecord
load_kyber_prekey db a identity = find a identity db.kyber_prekey

unfoldable pub save_session : Database → Bytes → Bytes → Bytes → Result SqlError Database
save_session db a address serialized =
    put db true a address serialized db.session >>= (λ rows. ok (record db { session = rows }))

unfoldable pub load_session : Database → Bytes → Bytes → Option Bytes
load_session db a address = find a address db.session

unfoldable pub save_remote_identity : Database → Bytes → Bytes → Bytes → Result SqlError Database
save_remote_identity db a address public_key =
    put db true a address public_key db.remote_identity
    >>= (λ rows. ok (record db { remote_identity = rows }))

unfoldable pub load_remote_identity : Database → Bytes → Bytes → Option Bytes
load_remote_identity db a address = find a address db.remote_identity

-- `now` is `std::time(nullptr)`.
unfoldable pub save_resolved_contact :
    Database → Bytes → ℕ → Bytes → Bytes → Bytes → Result SqlError Database
save_resolved_contact db a now e164 aci pni =
    put db true a e164 (record { aci = aci; pni = pni; resolved_at = now }) db.resolved_contact
    >>= (λ rows. ok (record db { resolved_contact = rows }))

unfoldable pub load_resolved_contact : Database → Bytes → Bytes → Option ResolvedContactRecord
load_resolved_contact db a e164 = find a e164 db.resolved_contact
