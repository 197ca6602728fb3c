-- ===== src/Storage/Isolation.antt =====
-- `Storage::deleteAccount`, and what it leaves of this account and of the others.
mod Tests
use signal2sip.Base.{
  ℕ, zero, suc, ◌+◌, ◌-◌, ◌*◌, ◌/◌, ◌%◌, ◌^◌, ◌≤◌, ◌<◌, ◌≡◌, refl, sym, ap, ap₂, subst, ◌∙◌, ◌≢◌,
  ◌↔◌, ◌⊎◌, inl, inr, Bool, true, false, not, ◌&&◌, ◌||◌, Option, none, some, List, [], ◌∷◌, ◌++◌,
  map, arith, ltb, leb, ◌==◌, if◌then◌else◌, ==_iff, Bool-cases, Option-cases, is_some, length,
  get_or, set, take, drop, replicate, is_empty, All, length-append, length-replicate, length-set,
  length-take-le, get_or-set_self, get_or-set_ne, take-append_left, drop-append_left, All-append,
  length-take, is_empty→nil, take-all, drop-all, get_or-append_right, suc-add, get_or-replicate,
  Bytes, IsByte, codes, eqb, eqb_refl, eqb→eq, eqb_iff, Result, ok, err, ◌>>=◌, ok_or,
}
use signal2sip.Base.Bits.{passes_below, passes_below→test, bit_or-shl}
use mathlib.Core.List.{append-nil, append_assoc}
use mathlib.Core.Option
use signal2sip.Base.Dict.{find, delete_account, find-delete_account}
use signal2sip.Storage.Records.{
  AccountRecord, Database, SyncedContactRecord, SyncedRow, SqlError, no_account_row,
}
use signal2sip.Storage.Accounts.{has_account, load_account, find_account, delete_row}
use signal2sip.Storage.Keys.{
  load_identity_keypair, load_signed_prekey, load_kyber_prekey, load_session, load_remote_identity,
  load_resolved_contact,
}
use signal2sip.Storage.Contacts.{
  select, has_e164, has_aci, delete_rows, load_synced_contact, load_synced_contact_by_aci,
}

-- The eight DELETE statements between BEGIN and COMMIT, in the order of `kTables`.
unfoldable pub delete_everything : Database → Bytes → Database
delete_everything db a =
    let db1 = record db { identity_keypair = delete_account a db.identity_keypair } in
    let db2 = record db1 { signed_prekey = delete_account a db1.signed_prekey } in
    let db3 = record db2 { kyber_prekey = delete_account a db2.kyber_prekey } in
    let db4 = record db3 { session = delete_account a db3.session } in
    let db5 = record db4 { remote_identity = delete_account a db4.remote_identity } in
    let db6 = record db5 { resolved_contact = delete_account a db5.resolved_contact } in
    let db7 = record db6 { synced_contact = delete_rows a db6.synced_contact } in
    record db7 { account = delete_row a db7.account }

find-delete_row :
    (a b : Bytes) (rows : List (Bytes × AccountRecord))
    → find_account b (delete_row a rows) ≡ (if eqb a b then none else find_account b rows)
unfolding find_account delete_row
find-delete_row a b [] = ground arith
find-delete_row a b ((c, row) ∷ rows) =
    ground (arith, eqb_iff a c, eqb_iff a b, eqb_iff b c, find-delete_row a b rows)

-- A test that only rows of account `b` pass.
select-delete_rows :
    (a b : Bytes) (test : SyncedRow → Bool)
    → ((y : SyncedRow) → test y ≡ true → b ≡ y.account_name)
    → (rows : List SyncedRow)
    → select test (delete_rows a rows) ≡ (if eqb a b then none else select test rows)
unfolding select delete_rows
select-delete_rows a b test f [] = ground arith
select-delete_rows a b test f (y ∷ rows) =
    ground (arith, f y, eqb_iff a b, eqb_iff a y.account_name, select-delete_rows a b test f rows)

-- After `deleteAccount` every read in the deleted account finds nothing, and every read in any
-- other account finds what it did.
pub delete_everything_lem :
    (db : Database) (a b key : Bytes)
    → let next = delete_everything db a in
      (load_account next b ≡ (if eqb a b then err no_account_row else load_account db b))
      × (load_identity_keypair next b key
          ≡ (if eqb a b then none else load_identity_keypair db b key))
      × (load_signed_prekey next b key ≡ (if eqb a b then none else load_signed_prekey db b key))
      × (load_kyber_prekey next b key ≡ (if eqb a b then none else load_kyber_prekey db b key))
      × (load_session next b key ≡ (if eqb a b then none else load_session db b key))
      × (load_remote_identity next b key
          ≡ (if eqb a b then none else load_remote_identity db b key))
      × (load_resolved_contact next b key
          ≡ (if eqb a b then none else load_resolved_contact db b key))
      × (load_synced_contact next b key ≡ (if eqb a b then none else load_synced_contact db b key))
      × (load_synced_contact_by_aci next b key
          ≡ (if eqb a b then none else load_synced_contact_by_aci db b key))
unfolding delete_everything load_account load_identity_keypair load_signed_prekey load_kyber_prekey
    load_session load_remote_identity load_resolved_contact load_synced_contact
    load_synced_contact_by_aci has_e164 has_aci
delete_everything_lem db a b key =
    let by_e164 : (y : SyncedRow) → has_e164 b key y ≡ true → b ≡ y.account_name =
      λ y h. ground (arith, eqb_iff b y.account_name) in
    let by_aci : (y : SyncedRow) → has_aci b key y ≡ true → b ≡ y.account_name =
      λ y h. ground (arith, eqb_iff b y.account_name) in
    (
      ground (arith, find-delete_row a b db.account),
      find-delete_account a b key db.identity_keypair,
      find-delete_account a b key db.signed_prekey,
      find-delete_account a b key db.kyber_prekey,
      find-delete_account a b key db.session,
      find-delete_account a b key db.remote_identity,
      find-delete_account a b key db.resolved_contact,
      ground (arith, select-delete_rows a b (has_e164 b key) by_e164 db.synced_contact),
      ground (arith, select-delete_rows a b (has_aci b key) by_aci db.synced_contact),
    )
