-- ===== src/Daemon/StorageService.antt =====
-- daemon/StorageServiceSync.cpp: the contacts that the account keeps at Signal's storage service.
-- Ciphers, parsers and the requests are outside: a record of functions, `none` where one fails or
-- throws; a response is its status and its body. Deriving an item's key is taken not to fail.
pub mod RoundTrip
mod Tests
use signal2sip.Base.{
  ℕ, zero, suc, ◌+◌, ◌-◌, ◌*◌, ◌/◌, ◌%◌, ◌^◌, ◌≤◌, ◌<◌, ◌≡◌, refl, sym, ap, ap₂, subst, ◌∙◌, ◌≢◌,
  ◌↔◌, ◌⊎◌, inl, inr, Bool, true, false, not, ◌&&◌, ◌||◌, Option, none, some, List, [], ◌∷◌, ◌++◌,
  map, arith, ltb, leb, ◌==◌, if◌then◌else◌, ==_iff, Bool-cases, Option-cases, is_some, length,
  get_or, set, take, drop, replicate, is_empty, All, length-append, length-replicate, length-set,
  length-take-le, get_or-set_self, get_or-set_ne, take-append_left, drop-append_left, All-append,
  length-take, is_empty→nil, take-all, drop-all, get_or-append_right, suc-add, get_or-replicate,
  Bytes, IsByte, codes, eqb, eqb_refl, eqb→eq, eqb_iff, Result, ok, err, ◌>>=◌, ok_or, Result-cases,
}
use signal2sip.Base.Bits.{passes_below, passes_below→test, bit_or-shl}
use mathlib.Core.List.{append-nil, append_assoc}
use signal2sip.Base64.{base64_encode}

pub record Contact : Type 0 where
  pub e164 : Bytes
  pub aci : Bytes
  pub pni : Bytes
  pub profile_key : Bytes
  pub given_name : Bytes
  pub family_name : Bytes

-- `ContactRecord`, as it is parsed.
pub record ContactRecord : Type 0 where
  pub aci_binary : Bytes
  pub pni_binary : Bytes
  pub plain : Contact

pub record Item : Type 0 where
  pub key : Bytes
  pub value : Bytes

pub record Manifest : Type 0 where
  pub version : ℕ
  pub value : Bytes

-- The identifiers, each with whether its type is CONTACT.
pub record ManifestRecord : Type 0 where
  pub identifiers : List (Bool × Bytes)
  pub record_ikm : Bytes

pub record Library : Type 0 where
  pub derive_storage_service_key : Bytes → Option Bytes
  pub hmac_sha256 : Bytes → Bytes → Bytes
  pub hkdf : Bytes → Bytes → Bytes
  pub to_string : ℕ → Bytes
  pub open_gcm : Bytes → Bytes → Bytes → Bytes → Option Bytes
  pub parse_credentials : Bytes → Option (Bytes × Bytes)
  pub parse_manifest : Bytes → Option Manifest
  pub parse_manifest_record : Bytes → Option ManifestRecord
  pub parse_items : Bytes → Option (List Item)
  pub parse_contact : Bytes → Option ContactRecord

-- The answers to the three requests; the last depends on the keys that are asked for.
pub record Server : Type 0 where
  pub auth : Option (ℕ × Bytes)
  pub manifest : Bytes × Bytes → Option (ℕ × Bytes)
  pub read : Bytes × Bytes → List Bytes → Option (ℕ × Bytes)

pub data FetchError : Type 0 where
  no_entropy_pool : FetchError
  bad_status : ℕ → FetchError
  request_failed : FetchError
  cannot_parse : FetchError
  cannot_derive : FetchError
  cannot_decrypt : FetchError

-- `aesGcmDecrypt`: 12 bytes of nonce, and 16 of tag at the end.
unfoldable pub aes_gcm_decrypt : Library → Bytes → Bytes → Option Bytes
aes_gcm_decrypt lib key blob =
    if ltb (length blob) 28
    then none
    else let len = length blob - 28 in
      lib.open_gcm key (take 12 blob) (take len (drop 12 blob)) (drop (12 + len) blob)

unfoldable pub derive_manifest_key : Library → Bytes → ℕ → Bytes
derive_manifest_key lib key version =
    lib.hmac_sha256 key (codes "Manifest_" ++ lib.to_string version)

unfoldable pub derive_item_key : Library → Bytes → Bytes → Bytes
derive_item_key lib key raw_id = lib.hmac_sha256 key (codes "Item_" ++ base64_encode raw_id)

unfoldable pub derive_item_key_from_record_ikm : Library → Bytes → Bytes → Bytes
derive_item_key_from_record_ikm lib record_ikm raw_id =
    lib.hkdf record_ikm (codes "20240801_SIGNAL_STORAGE_SERVICE_ITEM_" ++ raw_id)

unfoldable pub item_key : Library → Bytes → Bytes → Bytes → Bytes
item_key lib key record_ikm raw_id =
    if is_empty record_ikm
    then derive_item_key lib key raw_id
    else derive_item_key_from_record_ikm lib record_ikm raw_id

abbrev pub hex_digits : Bytes
hex_digits = codes "0123456789abcdef"

-- `%02x` for each byte; a dash, 45, comes before those at 4, 6, 8 and 10.
unfoldable pub hex_from : ℕ → Bytes → Bytes
hex_from i [] = []
hex_from i (b ∷ bs) =
    (if (i == 4) || ((i == 6) || ((i == 8) || (i == 10))) then 45 ∷ [] else [])
    ++ (get_or hex_digits (b / 16) 0 ∷ get_or hex_digits (b % 16) 0 ∷ hex_from (i + 1) bs)

unfoldable pub uuid_bytes_to_string_or_empty : Bytes → Bytes
uuid_bytes_to_string_or_empty bytes = if length bytes == 16 then hex_from 0 bytes else []

unfoldable pub id_of : Bytes → Bytes → Bytes
id_of binary text = if is_empty binary then text else uuid_bytes_to_string_or_empty binary

unfoldable pub contact_of : ContactRecord → Contact
contact_of c = record (c.plain) {
  aci = id_of c.aci_binary c.plain.aci;
  pni = id_of c.pni_binary c.plain.pni;
}

-- A round of the last loop: an item that cannot be read, or is no contact, is passed over.
unfoldable pub read_item : Library → Bytes → Bytes → Item → Option Contact
read_item lib key record_ikm i =
    elim (aes_gcm_decrypt lib (item_key lib key record_ikm i.key) i.value) [
      | none ↦ none
      | some plaintext ↦ elim (lib.parse_contact plaintext) [
        | none ↦ none
        | some c ↦ some (contact_of c)
      ]
    ]

unfoldable pub add_contact : Option Contact → List Contact → List Contact
add_contact none cs = cs
add_contact (some c) cs = c ∷ cs

unfoldable pub read_items : Library → Bytes → Bytes → List Item → List Contact
read_items lib key record_ikm [] = []
read_items lib key record_ikm (i ∷ rest) =
    add_contact (read_item lib key record_ikm i) (read_items lib key record_ikm rest)

unfoldable pub contact_keys : List (Bool × Bytes) → List Bytes
contact_keys [] = []
contact_keys ((is_contact, raw) ∷ rest) =
    let others = contact_keys rest in if is_contact then raw ∷ others else others

-- A body, if the status is 200 and it can be parsed.
unfoldable pub required :
    {A : Type 0} → (Bytes → Option A) → Option (ℕ × Bytes) → Result FetchError A
required parse none = err request_failed
required parse (some r) =
    let parsed = parse (r.1) in
    if r.0 == 200
    then elim parsed [ none ↦ err cannot_parse | some a ↦ ok a ]
    else err (bad_status (r.0))

unfoldable pub given : {A : Type 0} → FetchError → Option A → Result FetchError A
given e none = err e
given e (some a) = ok a

unfoldable pub fetch_items :
    Library → Server → Bytes × Bytes → Bytes → ManifestRecord → Result FetchError (List Contact)
fetch_items lib server credentials key m =
    let keys = contact_keys m.identifiers in
    if is_empty keys
    then ok []
    else required lib.parse_items (server.read credentials keys)
      >>= (λ items. ok (read_items lib key m.record_ikm items))

unfoldable pub fetch_storage_contacts : Library → Server → Bytes → Result FetchError (List Contact)
fetch_storage_contacts lib server pool =
    if is_empty pool
    then err no_entropy_pool
    else given cannot_derive (lib.derive_storage_service_key pool) >>= (λ key.
      required lib.parse_credentials server.auth >>= (λ credentials.
        required lib.parse_manifest (server.manifest credentials) >>= (λ manifest.
          given cannot_decrypt
            (aes_gcm_decrypt lib (derive_manifest_key lib key manifest.version) manifest.value)
          >>= (λ plaintext.
              given cannot_parse (lib.parse_manifest_record plaintext)
              >>= (λ m. fetch_items lib server credentials key m)))))
