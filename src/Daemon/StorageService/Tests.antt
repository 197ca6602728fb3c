-- ===== src/Daemon/StorageService/Tests.antt =====
-- A fetch from the storage service at concrete input.
use signal2sip.Base.{
  ◌≡◌, refl, true, false, none, some, [], ◌∷◌, ◌==◌, if◌then◌else◌, get_or, replicate, codes, ok,
}
use signal2sip.Base.{arith, Bytes, List, ◌++◌, length-replicate, ==_iff, if-true}
use signal2sip.Daemon.StorageService.RoundTrip.{
  Seal, blob, IsInverse, Holds, writing_key, no_more, contact_id, other_id, nothing, sealed,
  damaged, fetch_storage_contacts-Holds,
}
use signal2sip.Base64.{base64_encode, char_of}
use signal2sip.Daemon.StorageService.{
  ContactRecord, ManifestRecord, Item, Library, Server, aes_gcm_decrypt, derive_manifest_key,
  derive_item_key, item_key, hex_from, uuid_bytes_to_string_or_empty, id_of, contact_of, read_item,
  add_contact, read_items, contact_keys, required, given, fetch_items, fetch_storage_contacts,
}

uuid :
    uuid_bytes_to_string_or_empty
      (0 ∷ 1 ∷ 2 ∷ 255 ∷ 4 ∷ 5 ∷ 6 ∷ 7 ∷ 8 ∷ 9 ∷ 10 ∷ 11 ∷ 12 ∷ 13 ∷ 14 ∷ 160 ∷ [])
    ≡ codes "000102ff-0405-0607-0809-0a0b0c0d0ea0"
unfolding uuid_bytes_to_string_or_empty hex_from
uuid = refl

abbrev zoe : ContactRecord
zoe = record {
  aci_binary = [];
  pni_binary = [];
  plain = record {
    e164 = codes "+7";
    aci = codes "z";
    pni = [];
    profile_key = [];
    given_name = codes "Zoe";
    family_name = [];
  };
}

-- A cipher whose tag repeats the start of the key.
abbrev sample_seal : Seal
sample_seal = λ key nonce text. (text, replicate 16 (get_or key 0 0))

abbrev manifest_record : ManifestRecord
manifest_record = record {
  identifiers = (true, codes "k") ∷ (false, codes "g") ∷ (true, codes "l") ∷ [];
  record_ikm = [];
}

abbrev nonce_bytes : Bytes
nonce_bytes = replicate 12 0

-- An item that was sealed, and one that is cut off.
abbrev answered : List Item
answered =
    record {
      key = codes "k";
      value = blob sample_seal (codes "Item_" ++ base64_encode (codes "k")) nonce_bytes [];
    }
    ∷ record { key = codes "l"; value = replicate 20 1 }
    ∷ []

abbrev lib : Library
lib = record {
  derive_storage_service_key = λ pool. some pool;
  hmac_sha256 = λ key text. text;
  hkdf = λ key text. text;
  to_string = λ n. codes "1";
  open_gcm = λ key nonce text tag. if get_or tag 0 0 == get_or key 0 0 then some text else none;
  parse_credentials = λ body. some (codes "u", codes "p");
  parse_manifest = λ body.
      some (record { version = 1; value = blob sample_seal (codes "Manifest_1") nonce_bytes [] });
  parse_manifest_record = λ text. some manifest_record;
  parse_items = λ body. some answered;
  parse_contact = λ text. some zoe;
}

abbrev server : Server
server = record {
  auth = some (200, []);
  manifest = λ credentials. some (200, []);
  read = λ credentials keys. some (200, []);
}

-- The second item does not decrypt, and is passed over.
fetched : fetch_storage_contacts lib server (codes "pool") ≡ ok (contact_of zoe ∷ [])
unfolding fetch_storage_contacts given required fetch_items contact_keys read_items add_contact
    read_item item_key derive_item_key derive_manifest_key aes_gcm_decrypt contact_of id_of
    base64_encode char_of blob
fetched = refl

lib-IsInverse : IsInverse lib sample_seal
lib-IsInverse = record {
  tag_length = λ key nonce text. length-replicate 16 (get_or key 0 0);
  opens = λ key nonce text h.
      if-true (some text) none ((==_iff (get_or key 0 0) (get_or key 0 0)).1 refl);
}

server-Holds : Holds lib sample_seal server (codes "pool") (contact_of zoe ∷ [])
unfolding writing_key
server-Holds = record {
  key = codes "pool";
  credentials = (codes "u", codes "p");
  auth_body = [];
  manifest_body = [];
  version = 1;
  nonce = nonce_bytes;
  manifest_text = [];
  manifest = manifest_record;
  first = codes "k";
  others = codes "l" ∷ [];
  items_body = [];
  items = answered;
  derived = refl;
  auth = refl;
  login = refl;
  published = refl;
  manifest_parses = refl;
  nonce_length = refl;
  record_parses = refl;
  keys = contact_id (codes "k") (other_id (codes "g") (contact_id (codes "l") no_more));
  returned = refl;
  items_parse = refl;
  written =
      sealed (codes "k") nonce_bytes [] zoe refl refl
        (damaged (record { key = codes "l"; value = replicate 20 1 }) (omega arith) nothing);
}

fetch_storage_contacts-Holds_example :
    fetch_storage_contacts lib server (codes "pool") ≡ ok (contact_of zoe ∷ [])
fetch_storage_contacts-Holds_example =
    fetch_storage_contacts-Holds lib sample_seal server (codes "pool") (contact_of zoe ∷ [])
      lib-IsInverse refl server-Holds
