-- ===== src/ContactResolver/Cache.antt =====
-- Which answers need the network, and how long an answer from it lasts.
use signal2sip.Base.{
  ℕ, ◌+◌, ◌<◌, ◌≡◌, refl, ◌∙◌, Bool, true, false, not, ◌&&◌, none, some, arith, ltb, ◌==◌,
  Option-cases, get_or, is_empty, Bytes, eqb_refl, ok,
}
use signal2sip.Base.Dict.{upsert, find-upsert}
use signal2sip.Storage.Records.{Database}
use signal2sip.Storage.Accounts.{has_account}
use signal2sip.Storage.Keys.{save_resolved_contact, load_resolved_contact}
use signal2sip.Storage.Contacts.{load_synced_contact}
use signal2sip.ContactResolver.{
  LookupResult, Directory, service_id, ask_directory, resolve_fresh, resolve_cached,
  resolve_outgoing_target,
}

-- A contact's ACI that is known from the synced contacts.
unfoldable pub known_aci : Database → Bytes → Bytes → Bool
known_aci db a target = elim (load_synced_contact db a target) [
  | none ↦ false
  | some contact ↦ not (is_empty contact.aci)
]

unfoldable pub is_fresh : Database → Bytes → ℕ → ℕ → Bytes → Bool
is_fresh db a now ttl target = elim (load_resolved_contact db a target) [
  | none ↦ false
  | some cached ↦ ltb now (cached.resolved_at + ttl)
]

-- A number that neither the synced contacts nor a fresh row answer for.
unfoldable pub needs_directory : Database → Bytes → ℕ → ℕ → Bytes → Bool
needs_directory db a now ttl target =
    (not (is_empty target) && (get_or target 0 0 == 43))
    && (not (known_aci db a target) && not (is_fresh db a now ttl target))

-- When the directory is not needed the answer is found without the network, whatever that would say, and the database
-- is left alone.
pub resolve_outgoing_target-offline :
    (d e : Directory) (db : Database) (a : Bytes) (now later ttl : ℕ) (target : Bytes)
    → needs_directory db a now ttl target ≡ false
    → (resolve_outgoing_target d db a now later ttl target
        ≡ resolve_outgoing_target e db a now later ttl target)
      × ((resolve_outgoing_target d db a now later ttl target).1 ≡ db)
unfolding resolve_outgoing_target resolve_cached needs_directory known_aci is_fresh
resolve_outgoing_target-offline d e db a now later ttl target h = ground (
  arith,
  Option-cases (load_synced_contact db a target),
  Option-cases (load_resolved_contact db a target),
)

resolve_outgoing_target-online :
    (d : Directory) (db : Database) (a : Bytes) (now later ttl : ℕ) (target : Bytes)
    → needs_directory db a now ttl target ≡ true
    → resolve_outgoing_target d db a now later ttl target ≡ resolve_fresh d db a later target
unfolding resolve_outgoing_target resolve_cached needs_directory known_aci is_fresh
resolve_outgoing_target-online d db a now later ttl target h = ground (
  arith,
  Option-cases (load_synced_contact db a target),
  Option-cases (load_resolved_contact db a target),
)

remembered : Database → Bytes → ℕ → Bytes → LookupResult → Database
remembered db a later target result = record db {
  resolved_contact =
      upsert a target (record { aci = result.aci; pni = result.pni; resolved_at = later })
        db.resolved_contact;
}

resolve_fresh-ok :
    (d : Directory) (db : Database) (a : Bytes) (later : ℕ) (target : Bytes) (result : LookupResult)
    → ask_directory d target ≡ ok result
    → has_account db a ≡ true
    → resolve_fresh d db a later target
      ≡ (service_id result.aci result.pni, remembered db a later target result)
unfolding resolve_fresh save_resolved_contact remembered
resolve_fresh-ok d db a later target result h k = ground (arith, h, k)

remembered-synced :
    (db : Database) (a : Bytes) (later : ℕ) (target : Bytes) (result : LookupResult)
    → load_synced_contact (remembered db a later target result) a target
      ≡ load_synced_contact db a target
unfolding remembered load_synced_contact
remembered-synced db a later target result = refl

remembered-cached :
    (db : Database) (a : Bytes) (later : ℕ) (target : Bytes) (result : LookupResult)
    → load_resolved_contact (remembered db a later target result) a target
      ≡ some (record { aci = result.aci; pni = result.pni; resolved_at = later })
unfolding remembered load_resolved_contact
remembered-cached db a later target result = ground (
  arith,
  find-upsert a target a target (record { aci = result.aci; pni = result.pni; resolved_at = later })
      db.resolved_contact,
  eqb_refl a,
  eqb_refl target,
)

again :
    (d : Directory) (db next : Database) (a : Bytes) (now later ttl stamp : ℕ) (target : Bytes)
    (result : LookupResult)
    → load_synced_contact next a target ≡ load_synced_contact db a target
    → load_resolved_contact next a target
      ≡ some (record { aci = result.aci; pni = result.pni; resolved_at = stamp })
    → (not (is_empty target) && (get_or target 0 0 == 43)) ≡ true
    → known_aci db a target ≡ false
    → now < stamp + ttl
    → resolve_outgoing_target d next a now later ttl target
      ≡ (service_id result.aci result.pni, next)
unfolding resolve_outgoing_target resolve_cached known_aci
again d db next a now later ttl stamp target result s c f k h =
    ground (arith, s, c, Option-cases (load_synced_contact db a target))

needs :
    (db : Database) (a : Bytes) (now ttl : ℕ) (target : Bytes)
    → needs_directory db a now ttl target ≡ true
    → ((not (is_empty target) && (get_or target 0 0 == 43)) ≡ true)
      × (known_aci db a target ≡ false)
unfolding needs_directory
needs db a now ttl target h = ground arith

-- When the directory is asked and answers, and the account has a row, the target resolves to the
-- ACI found, else to the PNI found with its prefix, else to the error that it is not on Signal;
-- and until the time to live has passed, resolving it again gives the same answer without the
-- directory.
pub resolve_outgoing_target-again :
    (d e : Directory) (db : Database) (a : Bytes) (now later now2 later2 ttl : ℕ) (target : Bytes)
    (result : LookupResult)
    → needs_directory db a now ttl target ≡ true
    → ask_directory d target ≡ ok result
    → has_account db a ≡ true
    → now2 < later + ttl
    → let first = resolve_outgoing_target d db a now later ttl target in
      (first.0 ≡ service_id result.aci result.pni)
      × (resolve_outgoing_target e first.1 a now2 later2 ttl target ≡ first)
resolve_outgoing_target-again d e db a now later now2 later2 ttl target result n h k l =
    let next : Database = remembered db a later target result in
    let first : resolve_outgoing_target d db a now later ttl target
        ≡ (service_id result.aci result.pni, next) =
      resolve_outgoing_target-online d db a now later ttl target n
      ∙ resolve_fresh-ok d db a later target result h k in
    let parts = needs db a now ttl target n in
    rw first (
      refl,
      again e db next a now2 later2 ttl later target result
          (remembered-synced db a later target result) (remembered-cached db a later target result)
          parts.0 parts.1 l,
    )
