-- ===== src/Base/Dict.antt =====
-- Tables with a unique key of two texts: the account's name, and the key within the account.
-- An entry is found by its key; writing to a key that is present replaces its entry.
use mathlib.Core.Path.{◌≡◌, refl}
use mathlib.Core.Bool.{◌&&◌}
use mathlib.Core.Option.{Option, none, some}
use mathlib.Core.List.{List, [], ◌∷◌}
use native.Mathlib.Omega.{arith}
use signal2sip.Base.Tests.{if◌then◌else◌}
use signal2sip.Base.Texts.{Bytes, eqb, eqb_iff}

module _ {ℓ} {V : Type ℓ} where
  -- `SELECT … WHERE account_name = ? AND key = ?`
  unfoldable pub find : Bytes → Bytes → List (Bytes × Bytes × V) → Option V
  find a k [] = none
  find a k ((b, j, v) ∷ rows) = if eqb a b && eqb k j then some v else find a k rows

  -- `INSERT … ON CONFLICT (account_name, key) DO UPDATE SET …`
  unfoldable pub upsert : Bytes → Bytes → V → List (Bytes × Bytes × V) → List (Bytes × Bytes × V)
  upsert a k v [] = (a, k, v) ∷ []
  upsert a k v ((b, j, w) ∷ rows) =
      if eqb a b && eqb k j then (a, k, v) ∷ rows else (b, j, w) ∷ upsert a k v rows

  -- `DELETE FROM … WHERE account_name = ?`
  unfoldable pub delete_account : Bytes → List (Bytes × Bytes × V) → List (Bytes × Bytes × V)
  delete_account a [] = []
  delete_account a ((b, j, w) ∷ rows) =
      if eqb a b then delete_account a rows else (b, j, w) ∷ delete_account a rows

  pub find-upsert :
      (a k b j : Bytes) (v : V) (rows : List (Bytes × Bytes × V))
      → find b j (upsert a k v rows) ≡ (if eqb b a && eqb j k then some v else find b j rows)
  unfolding find upsert
  find-upsert a k b j v [] = refl
  find-upsert a k b j v ((c, i, w) ∷ rows) = ground (
    arith,
    eqb_iff a c,
    eqb_iff k i,
    eqb_iff b a,
    eqb_iff j k,
    eqb_iff b c,
    eqb_iff j i,
    find-upsert a k b j v rows,
  )

  pub find-delete_account :
      (a b j : Bytes) (rows : List (Bytes × Bytes × V))
      → find b j (delete_account a rows) ≡ (if eqb a b then none else find b j rows)
  unfolding find delete_account
  find-delete_account a b j [] = ground arith
  find-delete_account a b j ((c, i, w) ∷ rows) =
      ground (arith, eqb_iff a c, eqb_iff a b, eqb_iff b c, find-delete_account a b j rows)
