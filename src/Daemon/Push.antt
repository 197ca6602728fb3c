-- ===== src/Daemon/Push.antt =====
-- daemon/main.cpp, `onPush`: what an envelope from Signal leads to. Parsing and decryption are
-- outside: a record of functions, each `none` where it fails or throws. A work item of the queue
-- says what will be called later.
pub mod Tones
mod Tests
use signal2sip.Base.{
  ℕ, zero, suc, ◌+◌, ◌-◌, ◌*◌, ◌/◌, ◌%◌, ◌^◌, ◌≤◌, ◌<◌, ◌≡◌, refl, sym, ap, ap₂, subst, ◌∙◌, ◌≢◌,
  ◌↔◌, ◌⊎◌, inl, inr, Bool, true, false, not, ◌&&◌, ◌||◌, Option, none, some, List, [], ◌∷◌, ◌++◌,
  map, arith, ltb, leb, ◌==◌, if◌then◌else◌, ==_iff, Bool-cases, Option-cases, is_some, length,
  get_or, set, take, drop, replicate, is_empty, All, length-append, length-replicate, length-set,
  length-take-le, get_or-set_self, get_or-set_ne, take-append_left, drop-append_left, All-append,
  length-take, is_empty→nil, take-all, drop-all, get_or-append_right, suc-add, get_or-replicate,
  Bytes, IsByte, codes, eqb, eqb_refl, eqb→eq, eqb_iff, Result, ok, err, ◌>>=◌, ok_or, Result-cases,
}
use signal2sip.Base.Bits.{passes_below, passes_below→test, bit_or-shl}
use mathlib.Core.List.{append-nil, append_assoc}
use signal2sip.Storage.Records.{AccountRecord, Database}
use signal2sip.Storage.Accounts.{save_account}

pub data EnvelopeType : Type 0 where
  unidentified_sender : EnvelopeType
  double_ratchet : EnvelopeType
  prekey_message : EnvelopeType
  other_type : EnvelopeType

pub record Envelope : Type 0 where
  pub type : EnvelopeType
  pub source_service_id_binary : Bytes
  pub source_device_id : ℕ
  pub content : Bytes
  pub client_timestamp : ℕ
  pub server_timestamp : ℕ

pub record Sender : Type 0 where
  pub service_id : Bytes
  pub device_id : ℕ

pub record DataMessage : Type 0 where
  pub body : Bytes
  pub has_group : Bool

-- The three parts that are looked at; a call message is handed on as it is.
pub record Content : Type 0 where
  pub data_message : Option DataMessage
  pub keys_entropy_pool : Option Bytes
  pub call_message : Option Bytes

-- The parser of protocol buffers; the two decryptions, which read and change the sessions of the
-- database, also where they fail; and whether the row of the account can be written.
pub record Library : Type 0 where
  pub parse_envelope : Bytes → Option Envelope
  pub parse_content : Bytes → Option Content
  pub resolve_service_id : Bytes → Option Bytes
  pub decrypt_sealed_sender : Database → Bytes → ℕ → Option (Bytes × Sender) × Database
  pub decrypt_ciphertext : Database → Sender → Bool → Bytes → Option Bytes × Database
  pub can_save : Database → Bool

pub data Work : Type 0 where
  reply_to_failure : Sender → Bytes → Bool → ℕ → Work
  sync_contacts : Work
  handle_call_message : Sender → Bytes → Work

-- The account's state that a push reads or changes; `tones` lists what `dialDtmf` was called with.
pub record Inbox : Type 0 where
  pub name : Bytes
  pub account : AccountRecord
  pub storage : Database
  pub remote_peer_id : Bytes
  pub has_sip_call : Bool
  pub has_incoming_sip_call : Bool
  pub queue : List Work
  pub tones : List Bytes

-- What the decryption comes to: nothing to do, a failure to answer, or a plaintext.
pub data Opened : Type 0 where
  ignored : Opened
  failed : Sender → Bool → Opened
  opened : Sender → Bytes → Opened

unfoldable pub open_sealed : Option (Bytes × Sender) → Opened
open_sealed none = ignored
open_sealed (some p) = opened (p.1) (p.0)

-- A failure is answered unless the sender's name is empty.
unfoldable pub open_decrypted : Sender → Bool → Option Bytes → Opened
open_decrypted sender is_prekey (some plaintext) = opened sender plaintext
open_decrypted sender is_prekey none =
    if is_empty sender.service_id then ignored else failed sender is_prekey

unfoldable pub open_identified :
    Library → Envelope → Bool → Option Bytes → Database → Opened × Database
open_identified lib e is_prekey none d = (ignored, d)
open_identified lib e is_prekey (some id) d =
    let sender : Sender = record { service_id = id; device_id = e.source_device_id } in
    let result = lib.decrypt_ciphertext d sender is_prekey e.content in
    (open_decrypted sender is_prekey (result.0), result.1)

-- What the envelope comes to, and the database after the decryption.
unfoldable pub open_envelope : Library → Envelope → EnvelopeType → Database → Opened × Database
open_envelope lib e unidentified_sender d =
    let result = lib.decrypt_sealed_sender d e.content e.server_timestamp in
    (open_sealed (result.0), result.1)
open_envelope lib e double_ratchet d =
    open_identified lib e false (lib.resolve_service_id e.source_service_id_binary) d
open_envelope lib e prekey_message d =
    open_identified lib e true (lib.resolve_service_id e.source_service_id_binary) d
open_envelope lib e other_type d = (ignored, d)

-- `^[0-9A-Da-d*#]{1,32}$`
unfoldable pub is_dtmf_char : ℕ → Bool
is_dtmf_char c =
    (leb 48 c && leb c 57)
    || ((leb 65 c && leb c 68) || ((leb 97 c && leb c 100) || ((c == 42) || (c == 35))))

unfoldable pub all_dtmf : Bytes → Bool
all_dtmf [] = true
all_dtmf (c ∷ cs) = is_dtmf_char c && all_dtmf cs

unfoldable pub is_dtmf : Bytes → Bool
is_dtmf body = all_dtmf body && (not (is_empty body) && leb (length body) 32)

unfoldable pub on_data_message : Sender → Option DataMessage → Inbox → Inbox
on_data_message sender none s = s
on_data_message sender (some m) s =
    if (not m.has_group && is_dtmf m.body)
      && (eqb sender.service_id s.remote_peer_id && (s.has_sip_call || s.has_incoming_sip_call))
    then record s { tones = s.tones ++ m.body ∷ [] }
    else s

unfoldable pub push_work : Work → Inbox → Inbox
push_work w s = record s { queue = s.queue ++ w ∷ [] }

-- The Boolean says whether `onPush` goes on: an exception of `saveAccount` leaves it.
unfoldable pub on_keys : Library → Option Bytes → Inbox → Bool × Inbox
on_keys lib none s = (true, s)
on_keys lib (some pool) s =
    let account : AccountRecord = record (s.account) { account_entropy_pool = some pool } in
    let noted : Inbox = record s { account = account } in
    if lib.can_save s.storage
    then (
      true,
      push_work sync_contacts (record noted { storage = save_account s.storage s.name account }),
    )
    else (false, noted)

unfoldable pub on_call_message : Sender → Option Bytes → Inbox → Inbox
on_call_message sender none s = s
on_call_message sender (some m) s = push_work (handle_call_message sender m) s

unfoldable pub after_keys : Sender → Option Bytes → Bool × Inbox → Inbox
after_keys sender m (true, s) = on_call_message sender m s
after_keys sender m (false, s) = s

unfoldable pub on_content : Library → Sender → Option Content → Inbox → Inbox
on_content lib sender none s = s
on_content lib sender (some c) s =
    after_keys sender c.call_message
      (on_keys lib c.keys_entropy_pool (on_data_message sender c.data_message s))

unfoldable pub on_opened : Library → Envelope → Opened → Inbox → Inbox
on_opened lib e ignored s = s
on_opened lib e (failed sender is_prekey) s =
    push_work (reply_to_failure sender e.content is_prekey e.client_timestamp) s
on_opened lib e (opened sender plaintext) s = on_content lib sender (lib.parse_content plaintext) s

unfoldable pub on_envelope : Library → Option Envelope → Inbox → Inbox
on_envelope lib none s = s
on_envelope lib (some e) s =
    let result = open_envelope lib e e.type s.storage in
    on_opened lib e (result.0) (record s { storage = result.1 })

pub record Push : Type 0 where
  pub verb : Bytes
  pub path : Bytes
  pub body : Bytes

unfoldable pub is_message : Push → Bool
is_message p =
    (eqb p.verb (codes "PUT") && eqb p.path (codes "/api/v1/message")) && not (is_empty p.body)

unfoldable pub on_push : Library → Push → Inbox → Inbox
on_push lib p s = if is_message p then on_envelope lib (lib.parse_envelope p.body) s else s

unfoldable pub on_pushes : Library → List Push → Inbox → Inbox
on_pushes lib [] s = s
on_pushes lib (p ∷ ps) s = on_pushes lib ps (on_push lib p s)
