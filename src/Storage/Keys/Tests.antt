-- ===== src/Storage/Keys/Tests.antt =====
-- The theorems on the keyed tables at concrete input.
use signal2sip.Base.{[], ◌∷◌, Bytes, codes}
use signal2sip.Storage.Records.{IdentityKeypairRecord, PrekeyRecord}

abbrev main : Bytes
main = codes "main"

abbrev aci : Bytes
aci = codes "aci"

abbrev keys : IdentityKeypairRecord
keys = record { private_key = 7 ∷ []; public_key = 8 ∷ [] }

abbrev prekey : PrekeyRecord
prekey = record { key_id = 3; serialized = 9 ∷ [] }
