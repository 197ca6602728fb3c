-- ===== src/Storage/Contacts.antt =====
-- The methods of `Storage` on `synced_contact`, whose two partial unique indexes rule out two
-- rows of one account with the same nonempty e164, or the same nonempty aci.
pub mod Unique
pub mod Saving
pub mod Lookup
mod Tests
use signal2sip.Base.{
  ℕ, zero, suc, ◌+◌, ◌-◌, ◌*◌, ◌/◌, ◌%◌, ◌^◌, ◌≤◌, ◌<◌, ◌≡◌, refl, sym, ap, ap₂, subst, ◌∙◌, ◌≢◌,
  ◌↔◌, ◌⊎◌, inl, inr, Bool, true, false, not, ◌&&◌, ◌||◌, Option, none, some, List, [], ◌∷◌, ◌++◌,
  map, arith, ltb, leb, ◌==◌, if◌then◌else◌, ==_iff, Bool-cases, Option-cases, is_some, length,
  get_or, set, take, drop, replicate, is_empty, All, length-append, length-replicate, length-set,
  length-take-le, get_or-set_self, get_or-set_ne, take-append_left, drop-append_left, All-append,
  length-take, is_empty→nil, take-all, drop-all, get_or-append_right, suc-add, get_or-replicate,
  Bytes, IsByte, codes, eqb, eqb_refl, eqb→eq, eqb_iff, Result, ok, err, ◌>>=◌, ok_or,
}
use signal2sip.Base.Bits.{passes_below, passes_below→test, bit_or-shl}
use mathlib.Core.Option
use mathlib.Core.List.{append-nil, append_assoc}
use signal2sip.Storage.Records.{
  Database, SyncedContactRecord, SyncedRow, SqlError, foreign_key_failed, unique_failed,
}
use signal2sip.Storage.Accounts.{has_account}

-- `WHERE account_name = ? AND e164 = ?`, and the same for aci; the first row of the result.
unfoldable pub has_e164 : Bytes → Bytes → SyncedRow → Bool
has_e164 a e164 row = eqb a row.account_name && eqb e164 row.contact.e164

unfoldable pub has_aci : Bytes → Bytes → SyncedRow → Bool
has_aci a aci row = eqb a row.account_name && eqb aci row.contact.aci

unfoldable pub select : (SyncedRow → Bool) → List SyncedRow → Option SyncedRow
select test [] = none
select test (row ∷ rows) = if test row then some row else select test rows

-- The id of a row with the key, if the key is not empty.
unfoldable pub id_of : (Bytes → SyncedRow → Bool) → Bytes → List SyncedRow → Option ℕ
id_of test key rows =
    if is_empty key then none else Option.map (λ row. row.id) (select (test key) rows)

-- The row that the contact takes over: the one with its e164, else the one with its aci.
unfoldable pub existing_id : Bytes → Bytes → Bytes → List SyncedRow → Option ℕ
existing_id a e164 aci rows =
    let by_aci = id_of (has_aci a) aci rows in
    elim (id_of (has_e164 a) e164 rows) [ some i ↦ some i | none ↦ by_aci ]

-- The two partial unique indexes, on a pair of rows.
unfoldable pub clashes : SyncedRow → SyncedRow → Bool
clashes x y =
    (not (is_empty x.contact.e164) && has_e164 x.account_name x.contact.e164 y)
    || (not (is_empty x.contact.aci) && has_aci x.account_name x.contact.aci y)

-- Whether a written row clashes with one of another id.
unfoldable pub conflicts : SyncedRow → List SyncedRow → Bool
conflicts x [] = false
conflicts x (y ∷ rows) = (not (x.id == y.id) && clashes x y) || conflicts x rows

-- `UPDATE … WHERE id = ?`
unfoldable pub update_row : ℕ → SyncedContactRecord → List SyncedRow → List SyncedRow
update_row i contact [] = []
update_row i contact (row ∷ rows) =
    let rest = update_row i contact rows in
    (if i == row.id then record row { contact = contact } else row) ∷ rest

-- The row that a contact is written to (`now` is `std::time(nullptr)`): the existing one, or a
-- new one.
unfoldable pub written_row : Database → Bytes → ℕ → SyncedContactRecord → SyncedRow
written_row db a now given = record {
  id = elim (existing_id a given.e164 given.aci db.synced_contact) [
    | some i ↦ i
    | none ↦ db.next_id
  ];
  account_name = a;
  contact = record given { synced_at = now };
}

unfoldable pub save_synced_contact :
    Database → Bytes → ℕ → SyncedContactRecord → Result SqlError Database
save_synced_contact db a now given =
    let row = written_row db a now given in
    if conflicts row db.synced_contact
    then err unique_failed
    else if is_some (existing_id a given.e164 given.aci db.synced_contact)
    then ok (record db { synced_contact = update_row row.id row.contact db.synced_contact })
    else if not (has_account db a)
    then err foreign_key_failed
    else ok (record db { synced_contact = db.synced_contact ++ row ∷ []; next_id = db.next_id + 1 })

unfoldable pub load_synced_contact : Database → Bytes → Bytes → Option SyncedContactRecord
load_synced_contact db a e164 =
    Option.map (λ row. row.contact) (select (has_e164 a e164) db.synced_contact)

unfoldable pub load_synced_contact_by_aci : Database → Bytes → Bytes → Option SyncedContactRecord
load_synced_contact_by_aci db a aci =
    Option.map (λ row. row.contact) (select (has_aci a aci) db.synced_contact)

-- `DELETE FROM synced_contact WHERE account_name = ?`
unfoldable pub delete_rows : Bytes → List SyncedRow → List SyncedRow
delete_rows a [] = []
delete_rows a (row ∷ rows) =
    let rest = delete_rows a rows in if eqb a row.account_name then rest else row ∷ rest
