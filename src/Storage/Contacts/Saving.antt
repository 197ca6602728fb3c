-- ===== src/Storage/Contacts/Saving.antt =====
-- What `saveSyncedContact` leaves, and when it fails.
use signal2sip.Base.{
  ℕ, ◌+◌, ◌<◌, ◌≡◌, refl, sym, ap, subst, ◌∙◌, inl, inr, Bool, true, false, some, List, [], ◌∷◌,
  ◌++◌, arith, if◌then◌else◌, Option-cases, is_some, All, All-append, Bytes, eqb, eqb_iff, ok,
}
use signal2sip.Storage.Records.{Database, SyncedContactRecord, SyncedRow}
use signal2sip.Storage.Contacts.{
  has_e164, has_aci, select, id_of, existing_id, conflicts, update_row, written_row,
  save_synced_contact,
}
use signal2sip.Storage.Contacts.Unique.{
  Distinct, In, In-id, select-In, Distinct-append, fresh-Apart, update_row-Distinct, conflicts→All,
  update_row-All, All-map, All-tabulate, Owned,
}

-- The unique indexes hold, and the ids given out so far are below the next.
pub record Inv (db : Database) : Type 0 where
  pub distinct : Distinct db.synced_contact
  pub ids_below : All (λ y. y.id < db.next_id) db.synced_contact

pub record Found (a : Bytes) (i : ℕ) (rows : List SyncedRow) : Type 0 where
  pub row : SyncedRow
  pub member : In row rows
  pub ids : i ≡ row.id
  pub owner : row.account_name ≡ a

id_of-Found :
    (a : Bytes) (test : Bytes → SyncedRow → Bool) (key : Bytes) (rows : List SyncedRow) (i : ℕ)
    → ((x : SyncedRow) → test key x ≡ true → eqb a x.account_name ≡ true)
    → id_of test key rows ≡ some i
    → Found a i rows
unfolding id_of
id_of-Found a test key rows i f h = elim (Option-cases (select (test key) rows)) [
  | inl e ↦ absurd (ground (arith, e, h))
  | inr e ↦
      let hit : In e.0 rows × (test key e.0 ≡ true) = select-In (test key) rows e.0 e.1 in
      record {
        row = e.0;
        member = hit.0;
        ids = ground (arith, e.1, h);
        owner = sym ((eqb_iff a e.0.account_name).0 (f e.0 hit.1));
      }
]

pub existing_id-Found :
    (a e164 aci : Bytes) (rows : List SyncedRow) (i : ℕ)
    → existing_id a e164 aci rows ≡ some i
    → Found a i rows
unfolding existing_id has_e164 has_aci
existing_id-Found a e164 aci rows i h = elim (Option-cases (id_of (has_e164 a) e164 rows)) [
  | inl e ↦ id_of-Found a (has_aci a) aci rows i (λ x k. ground arith) (ground (arith, e, h))
  | inr e ↦ id_of-Found a (has_e164 a) e164 rows i (λ x k. ground arith) (ground (arith, e.1, h))
]

pub Found-Owned :
    (a : Bytes) (i : ℕ) (rows : List SyncedRow)
    → Distinct rows
    → Found a i rows
    → (y : SyncedRow) → In y rows
    → Owned i a y
Found-Owned a i rows d f y m e =
    ap (λ z. z.account_name) (In-id rows y f.row d m f.member (sym e ∙ f.ids)) ∙ f.owner

-- The rows after a successful save.
abbrev pub saved_rows : Database → Bytes → ℕ → SyncedContactRecord → List SyncedRow
saved_rows db a now c =
    let row = written_row db a now c in
    if is_some (existing_id a c.e164 c.aci db.synced_contact)
    then update_row row.id row.contact db.synced_contact
    else db.synced_contact ++ row ∷ []

pub save-no_conflict :
    (db next : Database) (a : Bytes) (now : ℕ) (c : SyncedContactRecord)
    → save_synced_contact db a now c ≡ ok next
    → conflicts (written_row db a now c) db.synced_contact ≡ false
unfolding save_synced_contact
save-no_conflict db next a now c h = ground arith

pub save-rows :
    (db next : Database) (a : Bytes) (now : ℕ) (c : SyncedContactRecord)
    → save_synced_contact db a now c ≡ ok next
    → (next.synced_contact ≡ saved_rows db a now c) × (next.account ≡ db.account)
unfolding save_synced_contact
save-rows db next a now c h = ground arith

save-next_id :
    (db next : Database) (a : Bytes) (now : ℕ) (c : SyncedContactRecord)
    → save_synced_contact db a now c ≡ ok next
    → next.next_id ≡ (
        if is_some (existing_id a c.e164 c.aci db.synced_contact)
        then db.next_id
        else db.next_id + 1)
unfolding save_synced_contact
save-next_id db next a now c h = ground arith

insert-Inv :
    (db : Database) (x : SyncedRow)
    → Inv db
    → x.id ≡ db.next_id
    → conflicts x db.synced_contact ≡ false
    → Distinct (db.synced_contact ++ x ∷ [])
      × All (λ y. y.id < db.next_id + 1) (db.synced_contact ++ x ∷ [])
insert-Inv db x v e h =
    let below : All (λ y. y.id < x.id) db.synced_contact =
      All-map (λ y. y.id < db.next_id) (λ y. y.id < x.id) db.synced_contact (λ y k. omega arith)
        v.ids_below in
    (
      Distinct-append db.synced_contact x v.distinct (fresh-Apart db.synced_contact x below h),
      All-append (λ y. y.id < db.next_id + 1) db.synced_contact (x ∷ [])
          (All-map (λ y. y.id < db.next_id) (λ y. y.id < db.next_id + 1) db.synced_contact
            (λ y k. omega arith) v.ids_below)
          (omega arith, tt),
    )

update-Inv :
    (db : Database) (x : SyncedRow)
    → Inv db
    → Found x.account_name x.id db.synced_contact
    → conflicts x db.synced_contact ≡ false
    → Distinct (update_row x.id x.contact db.synced_contact)
      × All (λ y. y.id < db.next_id) (update_row x.id x.contact db.synced_contact)
update-Inv db x v f h =
    let rows : List SyncedRow = db.synced_contact in
    (
      update_row-Distinct x rows v.distinct
          (All-tabulate (Owned x.id x.account_name) rows
            (Found-Owned x.account_name x.id rows v.distinct f))
          (conflicts→All x rows h),
      update_row-All (λ y. y.id < db.next_id) rows x.id x.contact v.ids_below (λ y k q. k),
    )

-- A `saveSyncedContact` that succeeds keeps the unique indexes on (account, e164) and
-- (account, aci), and the ids distinct and below the next one.
pub save_synced_contact-Inv :
    (db next : Database) (a : Bytes) (now : ℕ) (c : SyncedContactRecord)
    → Inv db
    → save_synced_contact db a now c ≡ ok next
    → Inv next
unfolding written_row
save_synced_contact-Inv db next a now c v h =
    let rows : List SyncedRow = db.synced_contact in
    let row : SyncedRow = written_row db a now c in
    let clear : conflicts row rows ≡ false = save-no_conflict db next a now c h in
    elim (Option-cases (existing_id a c.e164 c.aci rows)) [
      | inl e ↦
          let both : Distinct (rows ++ row ∷ [])
              × All (λ y. y.id < db.next_id + 1) (rows ++ row ∷ []) =
            insert-Inv db row v (rw (e, written_row) refl) clear in
          let after : next.synced_contact ≡ rows ++ row ∷ [] =
            ground (arith, e, save-rows db next a now c h) in
          let n : next.next_id ≡ db.next_id + 1 =
            ground (arith, e, save-next_id db next a now c h) in
          record {
            distinct = subst Distinct (sym after) both.0;
            ids_below =
                subst (λ k. All (λ y. y.id < k) next.synced_contact) (sym n)
                  (subst (All (λ y. y.id < db.next_id + 1)) (sym after) both.1);
          }
      | inr e ↦
          let at : row.id ≡ e.0 = rw (e.1, written_row) refl in
          let found : Found a row.id rows =
            subst (λ i. Found a i rows) (sym at) (existing_id-Found a c.e164 c.aci rows e.0 e.1) in
          let both : Distinct (update_row row.id row.contact rows)
              × All (λ y. y.id < db.next_id) (update_row row.id row.contact rows) =
            update-Inv db row v found clear in
          let after : next.synced_contact ≡ update_row row.id row.contact rows =
            ground (arith, e.1, save-rows db next a now c h) in
          let n : next.next_id ≡ db.next_id = ground (arith, e.1, save-next_id db next a now c h) in
          record {
            distinct = subst Distinct (sym after) both.0;
            ids_below =
                subst (λ k. All (λ y. y.id < k) next.synced_contact) (sym n)
                  (subst (All (λ y. y.id < db.next_id)) (sym after) both.1);
          }
    ]
