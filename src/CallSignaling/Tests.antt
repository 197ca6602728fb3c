-- ===== src/CallSignaling/Tests.antt =====
-- The theorems on daemon/CallSignaling.cpp at concrete input.
use signal2sip.Base.{◌≡◌, refl, true, some, [], ◌∷◌, ◌==◌, if◌then◌else◌, Bytes, codes}
use signal2sip.CallSignaling.{
  Cache, Network, cache_find, resolve_device_list, retry, without, has, encrypt_all, put_and_retry,
  send_content,
}
use signal2sip.CallSignaling.Messages.{Receiver}
use signal2sip.CallSignaling.Sending.{devices, addressed}

-- A peer with three devices, one of which the server wants left out.
abbrev network : Network
network = record {
  fetch = λ peer. some (1 ∷ 2 ∷ 3 ∷ []);
  encrypt = λ peer device plaintext. some (true, []);
  registration_id = λ peer device. 0;
  put = λ attempt messages. some (if attempt == 0 then 409 else 200, []);
  extra_devices = λ body. some (2 ∷ []);
}

abbrev peer : Bytes
peer = codes "x"

-- The same plaintext goes out twice, the second time without device 2.
two_puts :
    addressed (send_content network 5 6 [] peer []).puts ≡ (1 ∷ 2 ∷ 3 ∷ []) ∷ (1 ∷ 3 ∷ []) ∷ []
unfolding addressed devices send_content resolve_device_list cache_find encrypt_all put_and_retry
    retry without has
two_puts = refl

returned : (send_content network 5 6 [] peer []).result ≡ some (1 ∷ 2 ∷ 3 ∷ [])
unfolding send_content resolve_device_list cache_find encrypt_all put_and_retry retry
returned = refl

abbrev cached : Cache
cached = (peer, 4 ∷ [], 6) ∷ []

abbrev receiver : Receiver
receiver = record { account = codes "main"; identity = codes "aci"; device = 2 }
