-- ===== src/Daemon/Sync.antt =====
-- daemon/main.cpp, `syncStorageContacts`. What `fetchStorageContacts` returns is a parameter, with
-- the time at which each contact is saved.
use signal2sip.Base.{
  ℕ, ◌≡◌, sym, subst, ◌∙◌, ◌⊎◌, true, false, ◌++◌, ok, refl, inl, inr, ◌&&◌, Option, none, some,
  List, [], ◌∷◌, if◌then◌else◌, Bool-cases, is_empty, Bytes, ok_or, Result-cases,
}
use signal2sip.Storage.Records.{Database, SyncedContactRecord}
use signal2sip.Storage.Contacts.{
  save_synced_contact, load_synced_contact, load_synced_contact_by_aci,
}
use signal2sip.Storage.Contacts.Lookup.{load_synced_contact-save}
use signal2sip.Storage.Contacts.Saving.{Inv, save_synced_contact-Inv}

-- One contact: skipped without a number and an ACI, and after an exception.
unfoldable pub save_or_skip : Bytes → Database → ℕ → SyncedContactRecord → Database
save_or_skip a db now c =
    if is_empty c.e164 && is_empty c.aci then db else ok_or db (save_synced_contact db a now c)

unfoldable pub sync_contacts : Bytes → Database → List (ℕ × SyncedContactRecord) → Database
sync_contacts a db [] = db
sync_contacts a db ((now, c) ∷ contacts) = sync_contacts a (save_or_skip a db now c) contacts

-- Only an account with an entropy pool is synced, and only when the fetch does not throw. The time
-- of the last sync is set in any case.
unfoldable pub sync_storage_contacts :
    Bytes → Option Bytes → ℕ → Option (List (ℕ × SyncedContactRecord)) → Database → Database × ℕ
sync_storage_contacts a pool now_ms fetched db = elim pool [
  | none ↦ (db, now_ms)
  | some key ↦ if is_empty key then (db, now_ms) else elim fetched [
    | none ↦ (db, now_ms)
    | some contacts ↦ (sync_contacts a db contacts, now_ms)
  ]
]

save_or_skip-Inv :
    (a : Bytes) (db : Database) (now : ℕ) (c : SyncedContactRecord)
    → Inv db
    → Inv (save_or_skip a db now c)
unfolding save_or_skip
save_or_skip-Inv a db now c v = elim (Bool-cases (is_empty c.e164 && is_empty c.aci)) [
  | inl e ↦ rw e v
  | inr e ↦ elim (Result-cases (save_synced_contact db a now c)) [
    | inl f ↦ rw e (rw (f.1) v)
    | inr f ↦ rw e (rw (f.1) (save_synced_contact-Inv db f.0 a now c v f.1))
  ]
]

sync_contacts-Inv :
    (a : Bytes) (db : Database) (contacts : List (ℕ × SyncedContactRecord))
    → Inv db
    → Inv (sync_contacts a db contacts)
unfolding sync_contacts
sync_contacts-Inv a db [] v = v
sync_contacts-Inv a db ((now, c) ∷ contacts) v =
    sync_contacts-Inv a (save_or_skip a db now c) contacts (save_or_skip-Inv a db now c v)

sync_contacts-snoc :
    (a : Bytes) (db : Database) (before : List (ℕ × SyncedContactRecord)) (now : ℕ)
    (c : SyncedContactRecord)
    → sync_contacts a db (before ++ (now, c) ∷ [])
      ≡ save_or_skip a (sync_contacts a db before) now c
unfolding sync_contacts
sync_contacts-snoc a db [] now c = refl
sync_contacts-snoc a db ((n, b) ∷ before) now c =
    sync_contacts-snoc a (save_or_skip a db n b) before now c

-- A contact found by its key, with the time of its save; an empty key is none.
pub Stored : Bytes → ℕ → SyncedContactRecord → Database → Type 0
Stored a now c db =
    ((is_empty c.e164 ≡ true)
      ⊎ (load_synced_contact db a c.e164 ≡ some (record c { synced_at = now })))
    × ((is_empty c.aci ≡ true)
        ⊎ (load_synced_contact_by_aci db a c.aci ≡ some (record c { synced_at = now })))

-- For an account with an entropy pool, when the unique indexes hold before: the last contact that
-- the service returns, if it has a number or an ACI and the database takes it, is found by each of
-- them after the sync, with the time of its save, whatever the contacts before it were and however
-- many of their saves failed.
pub sync_storage_contacts-Stored :
    (a key : Bytes) (now_ms now : ℕ) (before : List (ℕ × SyncedContactRecord))
    (c : SyncedContactRecord) (db next : Database)
    → Inv db
    → is_empty key ≡ false
    → (is_empty c.e164 && is_empty c.aci) ≡ false
    → save_synced_contact (sync_contacts a db before) a now c ≡ ok next
    → Stored a now c
        ((sync_storage_contacts a (some key) now_ms (some (before ++ (now, c) ∷ [])) db).0)
unfolding sync_storage_contacts save_or_skip Stored
sync_storage_contacts-Stored a key now_ms now before c db next v k n h =
    let mid : Database = sync_contacts a db before in
    let saved : save_or_skip a mid now c ≡ next = rw (n, save_or_skip) (rw h refl) in
    let after : (sync_storage_contacts a (some key) now_ms (some (before ++ (now, c) ∷ [])) db).0
        ≡ next =
      rw (k, sync_storage_contacts) (sync_contacts-snoc a db before now c ∙ saved) in
    subst (Stored a now c) (sym after)
      (load_synced_contact-save mid next a now c (sync_contacts-Inv a db before v) h)
