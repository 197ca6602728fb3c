-- ===== src/ContactResolver.antt =====
-- daemon/ContactResolver.cpp: from a telephone number to a Signal service id.
-- The network is a parameter: the authenticated socket's answer to the request for directory
-- credentials, the JSON library's reading of it, and the contact discovery lookup.
pub mod Cache
mod Tests
use signal2sip.Base.{
  ℕ, zero, suc, ◌+◌, ◌-◌, ◌*◌, ◌/◌, ◌%◌, ◌^◌, ◌≤◌, ◌<◌, ◌≡◌, refl, sym, ap, ap₂, subst, ◌∙◌, ◌≢◌,
  ◌↔◌, ◌⊎◌, inl, inr, Bool, true, false, not, ◌&&◌, ◌||◌, Option, none, some, List, [], ◌∷◌, ◌++◌,
  map, arith, ltb, leb, ◌==◌, if◌then◌else◌, ==_iff, Bool-cases, Option-cases, is_some, length,
  get_or, set, take, drop, replicate, is_empty, All, length-append, length-replicate, length-set,
  length-take-le, get_or-set_self, get_or-set_ne, take-append_left, drop-append_left, All-append,
  length-take, is_empty→nil, take-all, drop-all, get_or-append_right, suc-add, get_or-replicate,
  Bytes, IsByte, codes, eqb, eqb_refl, eqb→eq, eqb_iff, Result, ok, err, ◌>>=◌, ok_or, Result-cases,
}
use signal2sip.Base.Bits.{passes_below, passes_below→test, bit_or-shl}
use mathlib.Core.List.{append-nil, append_assoc}
use signal2sip.Storage.Records.{Database, ResolvedContactRecord, SqlError, SyncedContactRecord}
use signal2sip.Storage.Keys.{save_resolved_contact, load_resolved_contact}
use signal2sip.Storage.Contacts.{load_synced_contact}

pub data ResolveError : Type 0 where
  not_on_signal : ResolveError
  request_failed : ResolveError
  auth_status : ℕ → ResolveError
  bad_token : ResolveError
  lookup_failed : ResolveError
  no_result : ResolveError
  save_failed : SqlError → ResolveError

-- `CdsiLookupResult`
pub record LookupResult : Type 0 where
  pub aci : Bytes
  pub pni : Bytes

-- `request` is the status and body of GET /v2/directory/auth, or `none` if it throws;
-- `parse_token` reads username and password; `lookup` is `cdsiLookup`, or `none` if it throws.
pub record Directory : Type 0 where
  pub request : Option (ℕ × Bytes)
  pub parse_token : Bytes → Option (Bytes × Bytes)
  pub lookup : Bytes → Bytes → Bytes → Option (List LookupResult)

-- An ACI as it is, a PNI with the prefix that the server wants.
unfoldable pub service_id : Bytes → Bytes → Result ResolveError Bytes
service_id aci pni =
    if not (is_empty aci)
    then ok aci
    else if not (is_empty pni)
    then ok (codes "PNI:" ++ pni)
    else err not_on_signal

-- The request for credentials, and the lookup with them.
unfoldable pub ask_directory : Directory → Bytes → Result ResolveError LookupResult
ask_directory d target = elim d.request [
  | none ↦ err request_failed
  | some response ↦
      if not (response.0 == 200)
      then err (auth_status response.0)
      else elim (d.parse_token response.1) [
        | none ↦ err bad_token
        | some token ↦ elim (d.lookup token.0 token.1 target) [
          | none ↦ err lookup_failed
          | some results ↦ elim results [ [] ↦ err no_result | result ∷ rest ↦ ok result ]
        ]
      ]
]

-- The part after both tables were of no use. `later` is the time that the row is stamped with.
unfoldable pub resolve_fresh :
    Directory → Database → Bytes → ℕ → Bytes → Result ResolveError Bytes × Database
resolve_fresh d db a later target = elim (ask_directory d target) [
  | err e ↦ (err e, db)
  | ok result ↦ elim (save_resolved_contact db a later target result.aci result.pni) [
    | err e ↦ (err (save_failed e), db)
    | ok next ↦ (service_id result.aci result.pni, next)
  ]
]

-- The part after `synced_contact` was of no use. `now - resolved_at < ttl` on signed numbers.
unfoldable pub resolve_cached :
    Directory → Database → Bytes → ℕ → ℕ → ℕ → Bytes → Result ResolveError Bytes × Database
resolve_cached d db a now later ttl target = elim (load_resolved_contact db a target) [
  | none ↦ resolve_fresh d db a later target
  | some cached ↦
      if ltb now (cached.resolved_at + ttl)
      then (service_id cached.aci cached.pni, db)
      else resolve_fresh d db a later target
]

-- `a` is the account that the storage is opened for; 43 is `+`.
unfoldable pub resolve_outgoing_target :
    Directory → Database → Bytes → ℕ → ℕ → ℕ → Bytes → Result ResolveError Bytes × Database
resolve_outgoing_target d db a now later ttl target =
    if is_empty target || not (get_or target 0 0 == 43)
    then (ok target, db)
    else elim (load_synced_contact db a target) [
      | none ↦ resolve_cached d db a now later ttl target
      | some synced ↦
          if not (is_empty synced.aci)
          then (ok synced.aci, db)
          else resolve_cached d db a now later ttl target
    ]
