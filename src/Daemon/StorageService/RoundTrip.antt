-- ===== src/Daemon/StorageService/RoundTrip.antt =====
-- daemon/StorageServiceSync.cpp: the contacts that a client has written to the storage service.
-- What it writes is described here by the sealing side of the cipher.
use signal2sip.Base.{
  ℕ, ◌+◌, ◌-◌, ◌<◌, ◌≤◌, ◌≡◌, refl, sym, ap, subst, ◌∙◌, Bool, true, false, Option, none, some,
  List, [], ◌∷◌, ◌++◌, arith, ltb, length, take, drop, length-append, take-append_left,
  drop-append_left, is_empty, Bytes, ok, codes,
}
use signal2sip.Base.{if-false}
use mathlib.Core.List.{append_assoc}
use signal2sip.Base64.{base64_encode}
use signal2sip.Daemon.StorageService.{
  Contact, ContactRecord, Item, ManifestRecord, Library, Server, aes_gcm_decrypt,
  derive_manifest_key, item_key, contact_of, read_item, add_contact, read_items, contact_keys,
  required, given, fetch_items, derive_item_key, derive_item_key_from_record_ikm,
  fetch_storage_contacts,
}

-- AES-GCM with a key, a nonce and a text: the ciphertext and the tag.
abbrev pub Seal : Type 0
Seal = Bytes → Bytes → Bytes → Bytes × Bytes

-- The tag has 16 bytes, and what is sealed under a nonce of 12 bytes is opened again.
pub record IsInverse (lib : Library) (seal : Seal) : Type 0 where
  pub tag_length : (key nonce text : Bytes) → length ((seal key nonce text).1) ≡ 16
  pub opens :
      (key nonce text : Bytes)
      → length nonce ≡ 12
      → lib.open_gcm key nonce ((seal key nonce text).0) ((seal key nonce text).1) ≡ some text

unfoldable pub blob : Seal → Bytes → Bytes → Bytes → Bytes
blob seal key nonce text = nonce ++ ((seal key nonce text).0 ++ (seal key nonce text).1)

take-prefix : (n : ℕ) (xs ys : Bytes) → length xs ≡ n → take n (xs ++ ys) ≡ xs
take-prefix n xs ys h = subst (λ k. take k (xs ++ ys) ≡ xs) h (take-append_left xs ys)

drop-prefix : (n : ℕ) (xs ys : Bytes) → length xs ≡ n → drop n (xs ++ ys) ≡ ys
drop-prefix n xs ys h = subst (λ k. drop k (xs ++ ys) ≡ ys) h (drop-append_left xs ys)

long_enough : (n : ℕ) → 28 ≤ n → ltb n 28 ≡ false
long_enough n h = ground arith

-- What was sealed is read back, from wherever its three parts begin.
aes_gcm_decrypt-blob :
    (lib : Library) (seal : Seal) (key nonce text : Bytes)
    → IsInverse lib seal
    → length nonce ≡ 12
    → aes_gcm_decrypt lib key (blob seal key nonce text) ≡ some text
unfolding aes_gcm_decrypt blob
aes_gcm_decrypt-blob lib seal key nonce text w h =
    let body : Bytes = (seal key nonce text).0 in
    let tag : Bytes = (seal key nonce text).1 in
    let all : Bytes = nonce ++ (body ++ tag) in
    let tagged : length tag ≡ 16 = w.tag_length key nonce text in
    let inner : length (body ++ tag) ≡ length body + length tag = length-append body tag in
    let outer : length all ≡ length nonce + length (body ++ tag) =
      length-append nonce (body ++ tag) in
    let long : 28 ≤ length all = omega (arith, h, tagged, inner, outer) in
    let rest : length body ≡ length all - 28 = omega (arith, h, tagged, inner, outer) in
    let front : length (nonce ++ body) ≡ length nonce + length body = length-append nonce body in
    let upto : length (nonce ++ body) ≡ 12 + (length all - 28) = omega (arith, h, front, rest) in
    let first : take 12 all ≡ nonce = take-prefix 12 nonce (body ++ tag) h in
    let behind : drop 12 all ≡ body ++ tag = drop-prefix 12 nonce (body ++ tag) h in
    let second : take (length all - 28) (drop 12 all) ≡ body =
      ap (take (length all - 28)) behind ∙ take-prefix (length all - 28) body tag rest in
    let third : drop (12 + (length all - 28)) all ≡ tag =
      ap (drop (12 + (length all - 28))) (sym (append_assoc nonce body tag))
      ∙ drop-prefix (12 + (length all - 28)) (nonce ++ body) tag upto in
    if-false none _ (long_enough (length all) long)
    ∙ ap
        (λ k.
          lib.open_gcm key k (take (length all - 28) (drop 12 all))
            (drop (12 + (length all - 28)) all))
        first
    ∙ ap (λ k. lib.open_gcm key nonce k (drop (12 + (length all - 28)) all)) second
    ∙ ap (λ k. lib.open_gcm key nonce body k) third
    ∙ w.opens key nonce text h

-- The key of an item: of the record key of the manifest, where it has one, else of the key of the
-- account.
unfoldable pub writing_key : Library → Bytes → Bytes → Bytes → Bytes
writing_key lib key [] id = lib.hmac_sha256 key (codes "Item_" ++ base64_encode id)
writing_key lib key (c ∷ cs) id =
    lib.hkdf (c ∷ cs) (codes "20240801_SIGNAL_STORAGE_SERVICE_ITEM_" ++ id)

item_key-writing :
    (lib : Library) (key record_ikm id : Bytes)
    → item_key lib key record_ikm id ≡ writing_key lib key record_ikm id
unfolding item_key derive_item_key derive_item_key_from_record_ikm writing_key
item_key-writing lib key [] id = refl
item_key-writing lib key (c ∷ cs) id = refl

-- Items as a client writes them, with the contacts in them. A damaged one is too short.
pub data Written (lib : Library) (seal : Seal) (key record_ikm : Bytes)
    : List Item → List Contact → Type 0 where
  nothing : Written lib seal key record_ikm [] []
  sealed :
      {items : List Item} {cs : List Contact} (id nonce text : Bytes) (source : ContactRecord)
      → length nonce ≡ 12
      → lib.parse_contact text ≡ some source
      → Written lib seal key record_ikm items cs
      → Written lib seal key record_ikm
          (record { key = id; value = blob seal (writing_key lib key record_ikm id) nonce text }
            ∷ items)
          (contact_of source ∷ cs)
  damaged :
      {items : List Item} {cs : List Contact} (i : Item)
      → length i.value < 28
      → Written lib seal key record_ikm items cs
      → Written lib seal key record_ikm (i ∷ items) cs

too_short : (n : ℕ) → n < 28 → ltb n 28 ≡ true
too_short n h = ground arith

read_item-sealed :
    (lib : Library) (seal : Seal) (key record_ikm id nonce text : Bytes) (source : ContactRecord)
    → IsInverse lib seal
    → length nonce ≡ 12
    → lib.parse_contact text ≡ some source
    → read_item lib key record_ikm
        (record { key = id; value = blob seal (writing_key lib key record_ikm id) nonce text })
      ≡ some (contact_of source)
unfolding read_item
read_item-sealed lib seal key record_ikm id nonce text source w h p =
    let opened : aes_gcm_decrypt lib (item_key lib key record_ikm id)
          (blob seal (writing_key lib key record_ikm id) nonce text)
        ≡ some text =
      ap (λ k. aes_gcm_decrypt lib k (blob seal (writing_key lib key record_ikm id) nonce text))
        (item_key-writing lib key record_ikm id)
      ∙ aes_gcm_decrypt-blob lib seal (writing_key lib key record_ikm id) nonce text w h in
    rw (opened, read_item) (rw p refl)

read_item-damaged :
    (lib : Library) (key record_ikm : Bytes) (i : Item)
    → length i.value < 28
    → read_item lib key record_ikm i ≡ none
unfolding read_item aes_gcm_decrypt
read_item-damaged lib key record_ikm i h =
    rw (too_short (length i.value) h, read_item, aes_gcm_decrypt) refl

read_items-Written :
    (lib : Library) (seal : Seal) (key record_ikm : Bytes) {items : List Item} {cs : List Contact}
    → IsInverse lib seal
    → Written lib seal key record_ikm items cs
    → read_items lib key record_ikm items ≡ cs
unfolding read_items add_contact
read_items-Written lib seal key record_ikm w nothing = refl
read_items-Written lib seal key record_ikm w (sealed {items} id nonce text source h p rest) =
    ap (λ o. add_contact o (read_items lib key record_ikm items))
      (read_item-sealed lib seal key record_ikm id nonce text source w h p)
    ∙ ap (◌∷◌ (contact_of source)) (read_items-Written lib seal key record_ikm w rest)
read_items-Written lib seal key record_ikm w (damaged {items} i h rest) =
    ap (λ o. add_contact o (read_items lib key record_ikm items))
      (read_item-damaged lib key record_ikm i h)
    ∙ read_items-Written lib seal key record_ikm w rest

-- The identifiers of contacts among those of a manifest.
pub data Picks : List (Bool × Bytes) → List Bytes → Type 0 where
  no_more : Picks [] []
  contact_id :
      {ids : List (Bool × Bytes)} {keys : List Bytes} (raw : Bytes)
      → Picks ids keys
      → Picks ((true, raw) ∷ ids) (raw ∷ keys)
  other_id :
      {ids : List (Bool × Bytes)} {keys : List Bytes} (raw : Bytes)
      → Picks ids keys
      → Picks ((false, raw) ∷ ids) keys

contact_keys-Picks :
    {ids : List (Bool × Bytes)} {keys : List Bytes} → Picks ids keys → contact_keys ids ≡ keys
unfolding contact_keys
contact_keys-Picks no_more = refl
contact_keys-Picks (contact_id raw p) = ap (◌∷◌ raw) (contact_keys-Picks p)
contact_keys-Picks (other_id raw p) = contact_keys-Picks p

-- A server that holds contacts of the account: the answers to the requests, and what is in them.
-- The items are those that it returns for the keys of the contacts, of which there is one at least.
pub record Holds (lib : Library) (seal : Seal) (server : Server) (pool : Bytes) (cs : List Contact)
    : Type 0 where
  pub key : Bytes
  pub credentials : Bytes × Bytes
  pub auth_body : Bytes
  pub manifest_body : Bytes
  pub version : ℕ
  pub nonce : Bytes
  pub manifest_text : Bytes
  pub manifest : ManifestRecord
  pub first : Bytes
  pub others : List Bytes
  pub items_body : Bytes
  pub items : List Item
  pub derived : lib.derive_storage_service_key pool ≡ some key
  pub auth : server.auth ≡ some (200, auth_body)
  pub login : lib.parse_credentials auth_body ≡ some credentials
  pub published : server.manifest credentials ≡ some (200, manifest_body)
  pub manifest_parses :
      lib.parse_manifest manifest_body
      ≡ some (record {
        version = version;
        value =
            blob seal
              (lib.hmac_sha256 key (codes "Manifest_" ++ lib.to_string version))
              nonce
              manifest_text;
      })
  pub nonce_length : length nonce ≡ 12
  pub record_parses : lib.parse_manifest_record manifest_text ≡ some manifest
  pub keys : Picks manifest.identifiers (first ∷ others)
  pub returned : server.read credentials (first ∷ others) ≡ some (200, items_body)
  pub items_parse : lib.parse_items items_body ≡ some items
  pub written : Written lib seal key manifest.record_ikm items cs

required-ok :
    {A : Type 0} (parse : Bytes → Option A) (answer : Option (ℕ × Bytes)) (body : Bytes) (a : A)
    → answer ≡ some (200, body)
    → parse body ≡ some a
    → required parse answer ≡ ok a
unfolding required
required-ok parse answer body a h p = rw (h, required) (rw p refl)

fetch_items-Holds :
    (lib : Library) (seal : Seal) (server : Server) (pool : Bytes) (cs : List Contact)
    → IsInverse lib seal
    → (h : Holds lib seal server pool cs)
    → fetch_items lib server h.credentials h.key h.manifest ≡ ok cs
unfolding fetch_items
fetch_items-Holds lib seal server pool cs w h =
    rw (contact_keys-Picks h.keys, fetch_items)
      (rw
        (required-ok lib.parse_items (server.read h.credentials (h.first ∷ h.others)) h.items_body
          h.items h.returned h.items_parse)
        (ap ok (read_items-Written lib seal h.key h.manifest.record_ikm w h.written)))

-- When the cipher opens what it has sealed, and the server holds contacts that a client of the
-- account has written, under the key of the manifest and the key of each item: a fetch succeeds
-- and gives exactly those contacts, in the order of the items, passing over items that are too
-- short to be a sealed value.
pub fetch_storage_contacts-Holds :
    (lib : Library) (seal : Seal) (server : Server) (pool : Bytes) (cs : List Contact)
    → IsInverse lib seal
    → is_empty pool ≡ false
    → Holds lib seal server pool cs
    → fetch_storage_contacts lib server pool ≡ ok cs
unfolding fetch_storage_contacts given derive_manifest_key
fetch_storage_contacts-Holds lib seal server pool cs w n h =
    let opened =
      aes_gcm_decrypt-blob lib seal
        (lib.hmac_sha256 h.key (codes "Manifest_" ++ lib.to_string h.version)) h.nonce
        h.manifest_text w h.nonce_length in
    let login =
      required-ok lib.parse_credentials server.auth h.auth_body h.credentials h.auth h.login in
    let manifest =
      required-ok lib.parse_manifest (server.manifest h.credentials) h.manifest_body _ h.published
        h.manifest_parses in
    rw (n, fetch_storage_contacts)
      (rw (h.derived, given)
        (rw login (
          rw manifest (
            rw opened
              (rw (h.record_parses, given) (fetch_items-Holds lib seal server pool cs w h))))))
