-- ===== src/Storage/Accounts/Columns.antt =====
-- What the two writers of `account` change: each its own columns of its own row.
use signal2sip.Base.{
  ◌≡◌, refl, Option, none, some, List, [], ◌∷◌, arith, if◌then◌else◌, Bytes, eqb, eqb_iff, Result,
  ok, ◌>>=◌,
}
use mathlib.Core.Option
use signal2sip.Storage.Records.{AccountRecord, Database, SqlError}
use signal2sip.Storage.Accounts.{
  find_account, has_account, load_account, inserted, updated, upsert_account, save_account,
  configured, update_config, save_account_config,
}

-- The row that `saveAccount` leaves.
abbrev pub saved : Option AccountRecord → AccountRecord → AccountRecord
saved none r = inserted r
saved (some row) r = updated row r

pub find-upsert_account :
    (a b : Bytes) (r : AccountRecord) (rows : List (Bytes × AccountRecord))
    → find_account b (upsert_account a r rows)
      ≡ (if eqb b a then some (saved (find_account a rows) r) else find_account b rows)
unfolding find_account upsert_account
find-upsert_account a b r [] = refl
find-upsert_account a b r ((c, row) ∷ rows) =
    ground (arith, eqb_iff a c, eqb_iff b a, eqb_iff b c, find-upsert_account a b r rows)

pub find-update_config :
    (a b : Bytes) (r : AccountRecord) (rows : List (Bytes × AccountRecord))
    → find_account b (update_config a r rows) ≡ (
        if eqb b a
        then Option.map (λ row. configured row r) (find_account b rows)
        else find_account b rows)
unfolding find_account update_config
find-update_config a b r [] = ground arith
find-update_config a b r ((c, row) ∷ rows) =
    ground (arith, eqb_iff a c, eqb_iff b a, eqb_iff b c, find-update_config a b r rows)

-- After `saveAccount`, `loadAccount` of the account reads the saved columns, with the config
-- columns as they were before, or the schema's defaults if the account is new; `loadAccount` of
-- every other account reads what it did.
pub load_account-save_account :
    (db : Database) (a b : Bytes) (r : AccountRecord)
    → load_account (save_account db a r) b
      ≡ (if eqb b a then ok (saved (find_account a db.account) r) else load_account db b)
unfolding load_account save_account
load_account-save_account db a b r = ground (arith, find-upsert_account a b r db.account)

-- What `saveAccountConfig` then `loadAccount` give.
abbrev pub after_config : Database → Bytes → Bytes → AccountRecord → Result SqlError AccountRecord
after_config db a b r =
    load_account db a >>= (λ row. if eqb b a then ok (configured row r) else load_account db b)

-- `saveAccountConfig` fails exactly when the account has no row; when it succeeds,
-- `loadAccount` of the account reads its earlier registration columns, the given config columns
-- and a config version one higher, and `loadAccount` of every other account reads what it did.
pub load_account-save_account_config :
    (db : Database) (a b : Bytes) (r : AccountRecord)
    → (save_account_config db a r >>= (λ next. load_account next b)) ≡ after_config db a b r
unfolding load_account save_account_config has_account
load_account-save_account_config db a b r =
    ground (arith, eqb_iff b a, find-update_config a b r db.account)
