-- ===== src/Storage/Contacts/Unique.antt =====
-- The rows of `synced_contact` stay apart: no two share an id, nor a nonempty e164 or aci within
-- one account.
use signal2sip.Base.{
  ℕ, ◌<◌, ◌≡◌, refl, sym, ap, subst, ◌∙◌, ◌≢◌, ◌⊎◌, inl, inr, Bool, true, false, some, List, [],
  ◌∷◌, ◌++◌, arith, ◌==◌, ==_iff, Bool-cases, All, All-append, Bytes, eqb_iff,
}
use signal2sip.Storage.Records.{SyncedContactRecord, SyncedRow}
use signal2sip.Storage.Contacts.{has_e164, has_aci, select, clashes, conflicts, update_row}

pub record Apart (x y : SyncedRow) : Type 0 where
  pub ids : x.id ≢ y.id
  pub keys : clashes x y ≡ false

unfoldable pub Distinct : List SyncedRow → Type 0
Distinct [] = Unit
Distinct (x ∷ rows) = All (Apart x) rows × Distinct rows

unfoldable pub In : SyncedRow → List SyncedRow → Type 0
In x [] = ⊥
In x (y ∷ rows) = (x ≡ y) ⊎ In x rows

pub clashes_sym : (x y : SyncedRow) → clashes x y ≡ false → clashes y x ≡ false
unfolding clashes has_e164 has_aci
clashes_sym x y h = ground (
  arith,
  eqb_iff x.account_name y.account_name,
  eqb_iff y.account_name x.account_name,
  eqb_iff x.contact.e164 y.contact.e164,
  eqb_iff y.contact.e164 x.contact.e164,
  eqb_iff x.contact.aci y.contact.aci,
  eqb_iff y.contact.aci x.contact.aci,
)

Apart-sym : (x y : SyncedRow) → Apart x y → Apart y x
Apart-sym x y h = record { ids = λ e. h.ids (sym e); keys = clashes_sym x y h.keys }

-- Only the account and the two keys of a row matter.
clashes_cong :
    (x y z : SyncedRow)
    → x.account_name ≡ z.account_name
    → x.contact ≡ z.contact
    → clashes x y ≡ clashes z y
unfolding clashes has_e164 has_aci
clashes_cong x y z e f = cc

pub select-In :
    (test : SyncedRow → Bool) (rows : List SyncedRow) (row : SyncedRow)
    → select test rows ≡ some row
    → In row rows × (test row ≡ true)
unfolding select In
select-In test [] row h = cc
select-In test (x ∷ rows) row h = ground (arith, select-In test rows row)

pub All-In :
    (P : SyncedRow → Type 0) (rows : List SyncedRow) (row : SyncedRow)
    → All P rows
    → In row rows
    → P row
unfolding In
All-In P [] row h m = absurd m
All-In P (x ∷ rows) row h (inl e) = subst P (sym e) h.0
All-In P (x ∷ rows) row h (inr m) = All-In P rows row h.1 m

-- A row is the only one with its id.
pub In-id :
    (rows : List SyncedRow) (x y : SyncedRow)
    → Distinct rows
    → In x rows
    → In y rows
    → x.id ≡ y.id
    → x ≡ y
unfolding In Distinct
In-id [] x y d m n e = absurd m
In-id (z ∷ rows) x y d (inl p) (inl q) e = p ∙ sym q
In-id (z ∷ rows) x y d (inl p) (inr n) e =
    absurd ((All-In (Apart z) rows y d.0 n).ids (ap (λ w. w.id) (sym p) ∙ e))
In-id (z ∷ rows) x y d (inr m) (inl q) e =
    absurd ((All-In (Apart z) rows x d.0 m).ids (ap (λ w. w.id) (sym q) ∙ sym e))
In-id (z ∷ rows) x y d (inr m) (inr n) e = In-id rows x y d.1 m n e

-- Adding a row that clashes with none.
pub Distinct-append :
    (rows : List SyncedRow) (x : SyncedRow)
    → Distinct rows
    → All (λ y. Apart y x) rows
    → Distinct (rows ++ x ∷ [])
unfolding Distinct
Distinct-append [] x d h = (tt, tt)
Distinct-append (y ∷ rows) x d h =
    (All-append (Apart y) rows (x ∷ []) d.0 (h.0, tt), Distinct-append rows x d.1 h.1)

pub fresh-Apart :
    (rows : List SyncedRow) (x : SyncedRow)
    → All (λ y. y.id < x.id) rows
    → conflicts x rows ≡ false
    → All (λ y. Apart y x) rows
unfolding conflicts
fresh-Apart [] x h k = tt
fresh-Apart (y ∷ rows) x h k =
    let n : (y.id ≡ x.id) → ⊥ = λ e. omega arith in
    (
      record { ids = n; keys = clashes_sym x y (ground (arith, h.0)) },
      fresh-Apart rows x h.1 (ground arith),
    )

-- Rewriting the row of one id so that it clashes with no other.
pub update_row-All :
    (P : SyncedRow → Type 0) (rows : List SyncedRow) (i : ℕ) (c : SyncedContactRecord)
    → All P rows
    → ((y : SyncedRow) → P y → i ≡ y.id → P (record y { contact = c }))
    → All P (update_row i c rows)
unfolding update_row
update_row-All P [] i c h f = tt
update_row-All P (y ∷ rows) i c h f = elim (Bool-cases (i == y.id)) [
  | inl e ↦ rw e (f y h.0 ((==_iff i y.id).0 e), update_row-All P rows i c h.1 f)
  | inr e ↦ rw e (h.0, update_row-All P rows i c h.1 f)
]

pub All-both :
    (P Q : SyncedRow → Type 0) (rows : List SyncedRow)
    → All P rows
    → All Q rows
    → All (λ y. P y × Q y) rows
All-both P Q [] h k = tt
All-both P Q (y ∷ rows) h k = ((h.0, k.0), All-both P Q rows h.1 k.1)

pub All-map :
    (P Q : SyncedRow → Type 0) (rows : List SyncedRow)
    → ((y : SyncedRow) → P y → Q y)
    → All P rows
    → All Q rows
All-map P Q [] f h = tt
All-map P Q (y ∷ rows) f h = (f y h.0, All-map P Q rows f h.1)

-- The rows other than `x` itself do not clash with it.
pub conflicts→All :
    (x : SyncedRow) (rows : List SyncedRow)
    → conflicts x rows ≡ false
    → All (λ y. (x.id ≢ y.id) → clashes x y ≡ false) rows
unfolding conflicts
conflicts→All x [] h = tt
conflicts→All x (y ∷ rows) h =
    (λ n. ground (arith, ==_iff x.id y.id), conflicts→All x rows (ground arith))

abbrev pub Owned : ℕ → Bytes → SyncedRow → Type 0
Owned i a y = i ≡ y.id → y.account_name ≡ a

pub update_row-Distinct :
    (x : SyncedRow) (rows : List SyncedRow)
    → Distinct rows
    → All (Owned x.id x.account_name) rows
    → All (λ y. (x.id ≢ y.id) → clashes x y ≡ false) rows
    → Distinct (update_row x.id x.contact rows)
unfolding Distinct update_row
update_row-Distinct x [] d o h = tt
update_row-Distinct x (y ∷ rows) d o h = elim (Bool-cases (x.id == y.id)) [
  | inl e ↦
      let same : x.id ≡ y.id = (==_iff x.id y.id).0 e in
      let new : SyncedRow = record y { contact = x.contact } in
      let apart : All (Apart new) rows =
        All-map (λ z. Apart y z × ((x.id ≢ z.id) → clashes x z ≡ false)) (Apart new) rows
          (λ z p. record {
            ids = p.0.ids;
            keys =
                sym (clashes_cong x z new (sym (o.0 same)) refl)
                ∙ p.1 (λ q. p.0.ids (sym same ∙ q));
          })
          (All-both (Apart y) (λ z. (x.id ≢ z.id) → clashes x z ≡ false) rows d.0 h.1) in
      let tail : All (Apart new) (update_row x.id x.contact rows) =
        update_row-All (Apart new) rows x.id x.contact apart
          (λ z p q. absurd (p.ids (sym same ∙ q))) in
      rw e (tail, update_row-Distinct x rows d.1 o.1 h.1)
  | inr e ↦
      let other : (x.id ≡ y.id) → ⊥ = λ q. ground (arith, ==_iff x.id y.id) in
      let tail : All (λ z. Apart y z × Owned x.id x.account_name z)
          (update_row x.id x.contact rows) =
        update_row-All (λ z. Apart y z × Owned x.id x.account_name z) rows x.id x.contact
          (All-both (Apart y) (Owned x.id x.account_name) rows d.0 o.1)
          (λ z p q. (
            record {
              ids = p.0.ids;
              keys =
                  clashes_sym (record z { contact = x.contact }) y
                    (sym (clashes_cong x y (record z { contact = x.contact }) (sym (p.1 q)) refl)
                      ∙ h.0 other);
            },
            p.1,
          )) in
      rw e (
        All-map (λ z. Apart y z × Owned x.id x.account_name z) (Apart y)
            (update_row x.id x.contact rows) (λ z p. p.0) tail,
        update_row-Distinct x rows d.1 o.1 h.1,
      )
]

pub All-tabulate :
    (P : SyncedRow → Type 0) (rows : List SyncedRow)
    → ((y : SyncedRow) → In y rows → P y)
    → All P rows
unfolding In
All-tabulate P [] f = tt
All-tabulate P (y ∷ rows) f = (f y (inl refl), All-tabulate P rows (λ z m. f z (inr m)))
