-- ===== src/Daemon/Push/Tests.antt =====
-- Pushes at concrete input.
use signal2sip.Base.{
  ℕ, ◌≡◌, refl, true, false, none, some, [], ◌∷◌, ◌==◌, if◌then◌else◌, get_or, codes,
}
use signal2sip.Storage.Sample.{sample_account, sample}
use signal2sip.Daemon.Push.{
  prekey_message, double_ratchet, Envelope, Sender, Content, Library, reply_to_failure,
  handle_call_message, Inbox, open_decrypted, open_identified, open_envelope, is_dtmf_char,
  all_dtmf, is_dtmf, on_data_message, push_work, on_keys, on_call_message, after_keys, on_content,
  on_opened, on_envelope, Push, is_message, on_push, on_pushes,
}
use signal2sip.Daemon.Push.Tones.{Toned, on_push-Toned}

-- A body of 1 is a text from the peer, of 2 a call message, of 3 one that cannot be decrypted.
abbrev envelope : ℕ → Envelope
envelope n = record {
  type = if n == 3 then prekey_message else double_ratchet;
  source_service_id_binary = codes "p";
  source_device_id = 2;
  content = n ∷ [];
  client_timestamp = 9;
  server_timestamp = 10;
}

abbrev content : ℕ → Content
content n = record {
  data_message = if n == 1 then some (record { body = codes "12#"; has_group = false }) else none;
  keys_entropy_pool = none;
  call_message = if n == 2 then some (codes "offer") else none;
}

abbrev lib : Library
lib = record {
  parse_envelope = λ body. some (envelope (get_or body 0 0));
  parse_content = λ plaintext. some (content (get_or plaintext 0 0));
  resolve_service_id = λ id. some id;
  decrypt_sealed_sender = λ d c t. (none, d);
  decrypt_ciphertext = λ d s k c. (if get_or c 0 0 == 3 then none else some c, d);
  can_save = λ d. true;
}

abbrev inbox : Inbox
inbox = record {
  name = codes "main";
  account = sample_account;
  storage = sample;
  remote_peer_id = codes "p";
  has_sip_call = true;
  has_incoming_sip_call = false;
  queue = [];
  tones = [];
}

abbrev message : ℕ → Push
message n = record { verb = codes "PUT"; path = codes "/api/v1/message"; body = n ∷ [] }

abbrev sender : Sender
sender = record { service_id = codes "p"; device_id = 2 }

arrivals :
    (on_pushes lib (message 3 ∷ message 1 ∷ message 2 ∷ []) inbox).queue
    ≡ reply_to_failure sender (3 ∷ []) true 9 ∷ handle_call_message sender (codes "offer") ∷ []
unfolding on_pushes on_push is_message on_envelope open_envelope open_identified open_decrypted
    after_keys on_opened push_work on_content on_data_message is_dtmf all_dtmf is_dtmf_char on_keys
    on_call_message
arrivals = refl

dialled : (on_push lib (message 1) inbox).tones ≡ codes "12#" ∷ []
unfolding on_push is_message on_envelope open_envelope open_identified open_decrypted after_keys
    on_opened push_work on_content on_data_message is_dtmf all_dtmf is_dtmf_char on_keys
    on_call_message
dialled = refl

on_push-Toned_example : Toned lib (message 1) inbox (on_push lib (message 1) inbox).tones
on_push-Toned_example = on_push-Toned lib (message 1) inbox
