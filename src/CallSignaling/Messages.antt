-- ===== src/CallSignaling/Messages.antt =====
-- daemon/CallSignaling.cpp: the call messages that are sent, and the calls into RingRTC that
-- those received become. Serialization by protobuf is outside.
use signal2sip.Base.{
  ℕ, ◌≡◌, refl, ap, ◌∙◌, ◌⊎◌, inl, inr, Bool, Option, none, some, List, [], ◌∷◌, ◌++◌, arith, ◌==◌,
  Option-cases, length, replicate, Bytes,
}
use signal2sip.Storage.Records.{Database}
use signal2sip.Storage.Keys.{load_remote_identity, load_identity_keypair}
use signal2sip.CallSignaling.{raw_public_key_bytes}

pub record Offer : Type 0 where
  pub id : ℕ
  pub is_video : Bool
  pub opaque : Bytes

pub record Opaque : Type 0 where
  pub id : ℕ
  pub opaque : Bytes

pub record Hangup : Type 0 where
  pub id : ℕ
  pub kind : ℕ
  pub device_id : ℕ

-- `signalservice::CallMessage`, as far as it is used.
pub record CallMessage : Type 0 where
  pub offer : Option Offer
  pub answer : Option Opaque
  pub ice_update : List Opaque
  pub hangup : Option Hangup
  pub busy : Option ℕ
  pub destination_device_id : Option ℕ

-- `signal2sip_call_received_…`: the sender, the call and the sender's device, and for an offer and
-- an answer the identity keys of the sender and of the receiver.
pub data RingRtcCall : Type 0 where
  received_offer : Bytes → ℕ → ℕ → ℕ → Bytes → Bytes → Bytes → RingRtcCall
  received_answer : Bytes → ℕ → ℕ → Bytes → Bytes → Bytes → RingRtcCall
  received_ice : Bytes → ℕ → ℕ → Bytes → RingRtcCall
  received_hangup : Bytes → ℕ → ℕ → ℕ → ℕ → RingRtcCall
  received_busy : Bytes → ℕ → ℕ → RingRtcCall

-- The receiving store's account and identity, and its device.
pub record Receiver : Type 0 where
  pub account : Bytes
  pub identity : Bytes
  pub device : ℕ

-- 32 zero bytes unless a key is stored.
unfoldable pub sender_identity_key : Database → Receiver → Bytes → Bytes
sender_identity_key db r sender = elim (load_remote_identity db r.account sender) [
  | none ↦ replicate 32 0
  | some stored ↦ raw_public_key_bytes stored
]

unfoldable pub receiver_identity_key : Database → Receiver → Bytes
receiver_identity_key db r = elim (load_identity_keypair db r.account r.identity) [
  | none ↦ replicate 32 0
  | some keypair ↦ raw_public_key_bytes keypair.public_key
]

unfoldable pub on_offer : Database → Receiver → Bytes → ℕ → Option Offer → List RingRtcCall
on_offer db r sender device none = []
on_offer db r sender device (some o) =
    received_offer sender o.id device r.device o.opaque (sender_identity_key db r sender)
      (receiver_identity_key db r)
    ∷ []

unfoldable pub on_answer : Database → Receiver → Bytes → ℕ → Option Opaque → List RingRtcCall
on_answer db r sender device none = []
on_answer db r sender device (some o) =
    received_answer sender o.id device o.opaque (sender_identity_key db r sender)
      (receiver_identity_key db r)
    ∷ []

unfoldable pub on_ice : Bytes → ℕ → List Opaque → List RingRtcCall
on_ice sender device [] = []
on_ice sender device (o ∷ rest) =
    received_ice sender o.id device o.opaque ∷ on_ice sender device rest

unfoldable pub on_hangup : Bytes → ℕ → Option Hangup → List RingRtcCall
on_hangup sender device none = []
on_hangup sender device (some h) = received_hangup sender h.id device h.kind h.device_id ∷ []

unfoldable pub on_busy : Bytes → ℕ → Option ℕ → List RingRtcCall
on_busy sender device none = []
on_busy sender device (some id) = received_busy sender id device ∷ []

unfoldable pub handle_call_message :
    Database → Receiver → Bytes → ℕ → CallMessage → List RingRtcCall
handle_call_message db r sender device m =
    on_offer db r sender device m.offer
    ++ on_answer db r sender device m.answer
    ++ on_ice sender device m.ice_update
    ++ on_hangup sender device m.hangup
    ++ on_busy sender device m.busy

unfoldable pub no_message : CallMessage
no_message = record {
  offer = none;
  answer = none;
  ice_update = [];
  hangup = none;
  busy = none;
  destination_device_id = none;
}

unfoldable pub offer_message : ℕ → ℕ → Bytes → CallMessage
offer_message id media_type opaque = record no_message {
  offer = some (record { id = id; is_video = media_type == 1; opaque = opaque });
}

unfoldable pub answer_message : ℕ → Bytes → CallMessage
answer_message id opaque = record no_message { answer = some (record { id = id; opaque = opaque }) }

unfoldable pub ice_message : ℕ → Option ℕ → Bytes → CallMessage
ice_message id receiver_device opaque = record no_message {
  ice_update = record { id = id; opaque = opaque } ∷ [];
  destination_device_id = receiver_device;
}

unfoldable pub hangup_message : ℕ → ℕ → ℕ → CallMessage
hangup_message id kind device = record no_message {
  hangup = some (record { id = id; kind = kind; device_id = device });
}

raw-length :
    (key : Bytes) → (length key ≡ 32) ⊎ (length key ≡ 33) → length (raw_public_key_bytes key) ≡ 32
unfolding raw_public_key_bytes
raw-length key (inl e) = rw e e
raw-length [] (inr e) = absurd (omega arith)
raw-length (c ∷ key) (inr e) = rw e (omega arith)

-- A key of 33 bytes goes to RingRTC as its last 32, so that an offer always carries 32 bytes for
-- each side when the stored keys have 32 or 33.
pub length-sender_identity_key :
    (db : Database) (r : Receiver) (sender : Bytes)
    → ((key : Bytes)
        → load_remote_identity db r.account sender ≡ some key
        → (length key ≡ 32) ⊎ (length key ≡ 33))
    → length (sender_identity_key db r sender) ≡ 32
unfolding sender_identity_key
length-sender_identity_key db r sender h =
    elim (Option-cases (load_remote_identity db r.account sender)) [
      | inl e ↦
          let key : sender_identity_key db r sender ≡ replicate 32 0 =
            rw (e, sender_identity_key) refl in
          ap length key
      | inr e ↦
          let key : sender_identity_key db r sender ≡ raw_public_key_bytes e.0 =
            rw (e.1, sender_identity_key) refl in
          ap length key ∙ raw-length e.0 (h e.0 e.1)
    ]

-- Each of the four messages that are sent becomes, at the other end, exactly one call into
-- RingRTC, of its own kind and with its id, its payload and the sender's device; an offer and an
-- answer come with the identity keys stored there.
pub handle_call_message-sent :
    (db : Database) (r : Receiver) (sender opaque : Bytes) (device id media kind other : ℕ)
    (target : Option ℕ)
    → let keys = sender_identity_key db r sender in
      let own = receiver_identity_key db r in
      (handle_call_message db r sender device (offer_message id media opaque)
        ≡ received_offer sender id device r.device opaque keys own ∷ [])
      × (handle_call_message db r sender device (answer_message id opaque)
          ≡ received_answer sender id device opaque keys own ∷ [])
      × (handle_call_message db r sender device (ice_message id target opaque)
          ≡ received_ice sender id device opaque ∷ [])
      × (handle_call_message db r sender device (hangup_message id kind other)
          ≡ received_hangup sender id device kind other ∷ [])
unfolding handle_call_message on_offer on_answer on_ice on_hangup on_busy offer_message
    answer_message ice_message hangup_message no_message
handle_call_message-sent db r sender opaque device id media kind other target =
    (refl, refl, refl, refl)
