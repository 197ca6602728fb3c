-- ===== src/CallSignaling/Sending.antt =====
-- Whom the requests of one send address.
use signal2sip.Base.{ℕ, ◌≡◌, ◌⊎◌, some, List, [], ◌∷◌, arith, if◌then◌else◌, Bytes, eqb}
use signal2sip.CallSignaling.{Network, Message, has, reply_messages}

-- `destinationDeviceId` of each message.
unfoldable pub devices : List Message → List ℕ
devices [] = []
devices (m ∷ ms) = m.destination_device_id ∷ devices ms

-- The devices that are not among the extra ones.
unfoldable pub remaining : List ℕ → List ℕ → List ℕ
remaining extra [] = []
remaining extra (d ∷ ids) = let rest = remaining extra ids in if has d extra then rest else d ∷ rest

-- The devices of each request.
unfoldable pub addressed : List (List Message) → List (List ℕ)
addressed [] = []
addressed (ms ∷ puts) = devices ms ∷ addressed puts

-- What the server said to the first request so that a second was made.
pub record Refusal (n : Network) (extra : List ℕ) : Type 0 where
  pub first : List Message
  pub body : Bytes
  pub refused : n.put 0 first ≡ some (409, body)
  pub named : n.extra_devices body ≡ some extra

-- Whom the requests of a send to `ids` address.
unfoldable pub Addressing : Network → List ℕ → List (List ℕ) → Type 0
Addressing n ids puts =
    ((ids ≡ []) × (puts ≡ []))
    ⊎ ((puts ≡ ids ∷ [])
        ⊎ ((extra : List ℕ) × (Refusal n extra × (puts ≡ ids ∷ remaining extra ids ∷ []))))

-- Every device of the sender is answered, in order, except this device itself when the sender is
-- this account.
pub devices-reply_messages :
    (n : Network) (local : Bytes) (local_device : ℕ) (sender content : Bytes) (ids : List ℕ)
    → devices (reply_messages n local local_device sender content ids)
      ≡ (if eqb sender local then remaining (local_device ∷ []) ids else ids)
unfolding devices reply_messages remaining has
devices-reply_messages n local local_device sender content [] = ground arith
devices-reply_messages n local local_device sender content (d ∷ ids) =
    ground (arith, devices-reply_messages n local local_device sender content ids)
