-- ===== src/CallSignaling.antt =====
-- daemon/CallSignaling.cpp: which devices a call message goes to.
-- The network and the cipher are parameters; the device list cache, the requests made and the
-- retry are modelled. Times are ticks of the steady clock, in nanoseconds.
pub mod Cache
pub mod Sending
pub mod Messages
mod Tests
use signal2sip.Base.{
  ℕ, zero, suc, ◌+◌, ◌-◌, ◌*◌, ◌/◌, ◌%◌, ◌^◌, ◌≤◌, ◌<◌, ◌≡◌, refl, sym, ap, ap₂, subst, ◌∙◌, ◌≢◌,
  ◌↔◌, ◌⊎◌, inl, inr, Bool, true, false, not, ◌&&◌, ◌||◌, Option, none, some, List, [], ◌∷◌, ◌++◌,
  map, arith, ltb, leb, ◌==◌, if◌then◌else◌, ==_iff, Bool-cases, Option-cases, is_some, length,
  get_or, set, take, drop, replicate, is_empty, All, length-append, length-replicate, length-set,
  length-take-le, get_or-set_self, get_or-set_ne, take-append_left, drop-append_left, All-append,
  length-take, is_empty→nil, take-all, drop-all, get_or-append_right, suc-add, get_or-replicate,
  Bytes, IsByte, codes, eqb, eqb_refl, eqb→eq, eqb_iff, Result, ok, err, ◌>>=◌, ok_or, Result-cases,
}
use signal2sip.Base.Bits.{passes_below, passes_below→test, bit_or-shl}
use mathlib.Core.List.{append-nil, append_assoc}
use mathlib.Core.Option
use signal2sip.Base64.{base64_encode}

-- One element of the request's `messages`.
pub record Message : Type 0 where
  pub kind : ℕ
  pub destination_device_id : ℕ
  pub destination_registration_id : ℕ
  pub content : Bytes

-- `fetch` is `fetchAndEstablishSessions`; `encrypt` is `encryptForDevice`, with whether the result
-- is a prekey message; `registration_id` is read from the session of a service id's device;
-- `put` is the status and body of the n-th PUT of a send; `extra_devices` is the JSON library's
-- reading of "extraDevices". `none` is an exception.
pub record Network : Type 0 where
  pub fetch : Bytes → Option (List ℕ)
  pub encrypt : Bytes → ℕ → Bytes → Option (Bool × Bytes)
  pub registration_id : Bytes → ℕ → ℕ
  pub put : ℕ → List Message → Option (ℕ × Bytes)
  pub extra_devices : Bytes → Option (List ℕ)

-- `deviceListCache_`: the devices of a service id, and when they were fetched.
abbrev pub Cache : Type 0
Cache = List (Bytes × List ℕ × ℕ)

unfoldable pub cache_find : Bytes → Cache → Option (List ℕ × ℕ)
cache_find k [] = none
cache_find k ((j, ids, at) ∷ rest) = if eqb k j then some (ids, at) else cache_find k rest

unfoldable pub cache_erase : Bytes → Cache → Cache
cache_erase k [] = []
cache_erase k ((j, ids, at) ∷ rest) =
    let others = cache_erase k rest in if eqb k j then others else (j, ids, at) ∷ others

unfoldable pub cache_put : Bytes → List ℕ → ℕ → Cache → Cache
cache_put k ids at cache = (k, ids, at) ∷ cache_erase k cache

abbrev pub device_list_cache_ttl : ℕ
device_list_cache_ttl = 1800 * 1000000000

-- `now` is read before the request, `later` after it.
unfoldable pub resolve_device_list : Network → ℕ → ℕ → Cache → Bytes → Option (List ℕ × Cache)
resolve_device_list n now later cache peer =
    let fresh : Option (List ℕ × Cache) =
      Option.map (λ ids. (ids, cache_put peer ids later cache)) (n.fetch peer) in
    elim (cache_find peer cache) [
      | none ↦ fresh
      | some e ↦ if ltb now (e.1 + device_list_cache_ttl) then some (e.0, cache) else fresh
    ]

-- One message for each device; the envelope's type is 3 for a prekey message, else 1.
unfoldable pub encrypt_all : Network → Bytes → Bytes → List ℕ → Option (List Message)
encrypt_all n destination plaintext [] = some []
encrypt_all n destination plaintext (d ∷ ids) =
    let rest = encrypt_all n destination plaintext ids in
    elim (n.encrypt destination d plaintext) [
      | none ↦ none
      | some e ↦
          Option.map
            (λ ms.
              record {
                kind = if e.0 then 3 else 1;
                destination_device_id = d;
                destination_registration_id = n.registration_id destination d;
                content = base64_encode e.1;
              }
              ∷ ms)
            rest
    ]

unfoldable pub has : ℕ → List ℕ → Bool
has d [] = false
has d (e ∷ es) = (d == e) || has d es

-- `retryMessages`
unfoldable pub without : List ℕ → List Message → List Message
without extra [] = []
without extra (m ∷ ms) =
    let rest = without extra ms in if has m.destination_device_id extra then rest else m ∷ rest

-- The second PUT, if the first was answered with 409 and names devices to leave out: the response
-- to go on with, and the messages that were put again.
unfoldable pub retry : Network → List Message → ℕ × Bytes → (ℕ × Bytes) × List (List Message)
retry n messages response =
    if not (response.0 == 409) then (response, []) else elim (n.extra_devices response.1) [
      | none ↦ (response, [])
      | some extra ↦
          let kept = without extra messages in
          if is_empty extra || is_empty kept then (response, []) else elim (n.put 1 kept) [
            | none ↦ (response, kept ∷ [])
            | some again ↦ (again, kept ∷ [])
          ]
    ]

-- What is left of the cache after the last response.
unfoldable pub after_response : Bytes → ℕ → Cache → Cache
after_response destination status cache =
    if not (status / 100 == 2) && ((status == 409) || (status == 410))
    then cache_erase destination cache
    else cache

-- The devices (`none` if it throws), the cache, and the messages of each PUT.
pub record Sent : Type 0 where
  pub result : Option (List ℕ)
  pub cache : Cache
  pub puts : List (List Message)

unfoldable pub put_and_retry : Network → Bytes → Cache → List ℕ → List Message → Sent
put_and_retry n destination cache ids messages = elim (n.put 0 messages) [
  | none ↦ record { result = none; cache = cache; puts = messages ∷ [] }
  | some response ↦
      let last : (ℕ × Bytes) × List (List Message) = retry n messages response in
      record {
        result = some ids;
        cache = after_response destination last.0.0 cache;
        puts = messages ∷ last.1;
      }
]

unfoldable pub send_content : Network → ℕ → ℕ → Cache → Bytes → Bytes → Sent
send_content n now later cache destination plaintext =
    elim (resolve_device_list n now later cache destination) [
      | none ↦ record { result = none; cache = cache; puts = [] }
      | some resolved ↦
          if is_empty resolved.0
          then record { result = some resolved.0; cache = resolved.1; puts = [] }
          else elim (encrypt_all n destination plaintext resolved.0) [
            | none ↦ record { result = none; cache = resolved.1; puts = [] }
            | some messages ↦ put_and_retry n destination resolved.1 resolved.0 messages
          ]
    ]

-- The loop of `sendDecryptionErrorReply`: the same bytes to every device of the sender, but not
-- to this device itself. The envelope's type is 8.
unfoldable pub reply_messages : Network → Bytes → ℕ → Bytes → Bytes → List ℕ → List Message
reply_messages n local local_device sender content [] = []
reply_messages n local local_device sender content (d ∷ ids) =
    let rest = reply_messages n local local_device sender content ids in
    if eqb sender local && (d == local_device)
    then rest
    else record {
      kind = 8;
      destination_device_id = d;
      destination_registration_id = n.registration_id sender d;
      content = base64_encode content;
    }
      ∷ rest

-- `PlaintextContent`: 0xC0, the content, and 0x80.
unfoldable pub plaintext_content : Bytes → Bytes
plaintext_content content = 0xC0 ∷ (content ++ 0x80 ∷ [])

-- `rawPublicKeyBytes`: 33 bytes lose the key type in front.
unfoldable pub raw_public_key_bytes : Bytes → Bytes
raw_public_key_bytes serialized = if length serialized == 33 then drop 1 serialized else serialized

-- The whole reply: the cache afterwards, and the messages of the PUT, if it gets that far.
-- `content` is the serialized content with the error message, `none` if building it throws.
unfoldable pub send_decryption_error_reply :
    Network → ℕ → ℕ → Cache → Bytes → ℕ → Bytes → Option Bytes → Cache × Option (List Message)
send_decryption_error_reply n now later cache local local_device sender content = elim content [
  | none ↦ (cache, none)
  | some bytes ↦ elim (resolve_device_list n now later cache sender) [
    | none ↦ (cache, none)
    | some resolved ↦ (
      resolved.1,
      some (reply_messages n local local_device sender (plaintext_content bytes) resolved.0),
    )
  ]
]
