-- ===== src/Storage/Contacts/Lookup.antt =====
-- Reading contacts back, and the one way in which a save is refused.
use signal2sip.Base.{
  ℕ, ◌≡◌, refl, sym, ap, subst, ◌∙◌, ◌⊎◌, inl, inr, Bool, true, false, some, List, [], ◌∷◌, ◌++◌,
  arith, ==_iff, Bool-cases, Option-cases, is_empty, Bytes, eqb_refl, eqb_iff, ok,
}
use mathlib.Core.Option
use signal2sip.Storage.Records.{Database, SyncedContactRecord, SyncedRow}
use signal2sip.Storage.Contacts.{
  has_e164, has_aci, select, existing_id, clashes, update_row, written_row, save_synced_contact,
  load_synced_contact, load_synced_contact_by_aci,
}
use signal2sip.Storage.Contacts.Unique.{Apart, Distinct, In, All-In}
use signal2sip.Storage.Contacts.Saving.{
  Inv, Found, existing_id-Found, save-rows, save_synced_contact-Inv, saved_rows,
}

test-false : (b c : Bool) → (b ≡ true → c ≡ true) → c ≡ false → b ≡ false
test-false b c f h = ground arith

select-head :
    (test : SyncedRow → Bool) (y : SyncedRow) (rows : List SyncedRow)
    → test y ≡ true
    → select test (y ∷ rows) ≡ some y
unfolding select
select-head test y rows h = ground arith

select-tail :
    (test : SyncedRow → Bool) (y : SyncedRow) (rows : List SyncedRow)
    → test y ≡ false
    → select test (y ∷ rows) ≡ select test rows
unfolding select
select-tail test y rows h = ground arith

-- A test that only one row passes finds it.
select-only :
    (test : SyncedRow → Bool) (rows : List SyncedRow) (x : SyncedRow)
    → test x ≡ true
    → ((y : SyncedRow) → clashes y x ≡ false → test y ≡ false)
    → Distinct rows
    → In x rows
    → select test rows ≡ some x
unfolding Distinct In
select-only test [] x h f d m = absurd m
select-only test (y ∷ rows) x h f d (inl e) =
    select-head test y rows (ap test (sym e) ∙ h) ∙ ap some (sym e)
select-only test (y ∷ rows) x h f d (inr m) =
    select-tail test y rows (f y (All-In (Apart y) rows x d.0 m).keys)
    ∙ select-only test rows x h f d.1 m

e164-only :
    (x y : SyncedRow)
    → is_empty x.contact.e164 ≡ false
    → clashes y x ≡ false
    → has_e164 x.account_name x.contact.e164 y ≡ false
unfolding clashes has_e164 has_aci
e164-only x y n h = ground (
  arith,
  eqb_iff y.account_name x.account_name,
  eqb_iff x.account_name y.account_name,
  eqb_iff y.contact.e164 x.contact.e164,
  eqb_iff x.contact.e164 y.contact.e164,
)

aci-only :
    (x y : SyncedRow)
    → is_empty x.contact.aci ≡ false
    → clashes y x ≡ false
    → has_aci x.account_name x.contact.aci y ≡ false
unfolding clashes has_e164 has_aci
aci-only x y n h = ground (
  arith,
  eqb_iff y.account_name x.account_name,
  eqb_iff x.account_name y.account_name,
  eqb_iff y.contact.aci x.contact.aci,
  eqb_iff x.contact.aci y.contact.aci,
)

own-e164 : (x : SyncedRow) → has_e164 x.account_name x.contact.e164 x ≡ true
unfolding has_e164
own-e164 x = ground (arith, eqb_refl x.account_name, eqb_refl x.contact.e164)

own-aci : (x : SyncedRow) → has_aci x.account_name x.contact.aci x ≡ true
unfolding has_aci
own-aci x = ground (arith, eqb_refl x.account_name, eqb_refl x.contact.aci)

In-append : (rows : List SyncedRow) (x : SyncedRow) → In x (rows ++ x ∷ [])
unfolding In
In-append [] x = inl refl
In-append (y ∷ rows) x = inr (In-append rows x)

In-update_row :
    (rows : List SyncedRow) (x y : SyncedRow)
    → In y rows
    → x.id ≡ y.id
    → y.account_name ≡ x.account_name
    → In x (update_row x.id x.contact rows)
unfolding In update_row
In-update_row [] x y m e k = absurd m
In-update_row (z ∷ rows) x y (inl q) e k = inl (ground (arith, ==_iff x.id z.id))
In-update_row (z ∷ rows) x y (inr m) e k = inr (In-update_row rows x y m e k)

place_of :
    (db : Database) (a : Bytes) (now : ℕ) (c : SyncedContactRecord) (i : ℕ)
    → existing_id a c.e164 c.aci db.synced_contact ≡ some i
    → (written_row db a now c).id ≡ i
unfolding written_row
place_of db a now c i e = rw (e, written_row) refl

own :
    (db : Database) (a : Bytes) (now : ℕ) (c : SyncedContactRecord)
    → (written_row db a now c).account_name ≡ a
unfolding written_row
own db a now c = refl

-- The written row is in the table afterwards.
In-saved_rows :
    (db : Database) (a : Bytes) (now : ℕ) (c : SyncedContactRecord)
    → In (written_row db a now c) (saved_rows db a now c)
In-saved_rows db a now c =
    let rows : List SyncedRow = db.synced_contact in
    let row : SyncedRow = written_row db a now c in
    elim (Option-cases (existing_id a c.e164 c.aci rows)) [
      | inl e ↦
          let after : saved_rows db a now c ≡ rows ++ row ∷ [] = ground (arith, e) in
          subst (In row) (sym after) (In-append rows row)
      | inr e ↦
          let f : Found a e.0 rows = existing_id-Found a c.e164 c.aci rows e.0 e.1 in
          let after : saved_rows db a now c ≡ update_row row.id row.contact rows =
            ground (arith, e.1) in
          let place : row.id ≡ e.0 = place_of db a now c e.0 e.1 in
          subst (In row) (sym after)
            (In-update_row rows row f.row f.member (place ∙ f.ids) (f.owner ∙ sym (own db a now c)))
    ]

-- A contact that was saved with an e164 is found by it, and one with an aci is found by that: with
-- the data given and the time of the save.
pub load_synced_contact-save :
    (db next : Database) (a : Bytes) (now : ℕ) (c : SyncedContactRecord)
    → Inv db
    → save_synced_contact db a now c ≡ ok next
    → ((is_empty c.e164 ≡ true)
        ⊎ (load_synced_contact next a c.e164 ≡ some (record c { synced_at = now })))
      × ((is_empty c.aci ≡ true)
          ⊎ (load_synced_contact_by_aci next a c.aci ≡ some (record c { synced_at = now })))
unfolding load_synced_contact load_synced_contact_by_aci written_row
load_synced_contact-save db next a now c v h =
    let row : SyncedRow = written_row db a now c in
    let d : Distinct next.synced_contact = (save_synced_contact-Inv db next a now c v h).distinct in
    let m : In row next.synced_contact =
      subst (In row) (sym (save-rows db next a now c h).0) (In-saved_rows db a now c) in
    (
      elim (Bool-cases (is_empty c.e164)) [
        | inl e ↦ inl e
        | inr e ↦ inr (
            ap (Option.map (λ r. r.contact)) (
              select-only (has_e164 a c.e164) next.synced_contact row (own-e164 row)
                (λ y k. e164-only row y e k) d m))
      ],
      elim (Bool-cases (is_empty c.aci)) [
        | inl e ↦ inl e
        | inr e ↦ inr (
            ap (Option.map (λ r. r.contact)) (
              select-only (has_aci a c.aci) next.synced_contact row (own-aci row)
                (λ y k. aci-only row y e k) d m))
      ],
    )
