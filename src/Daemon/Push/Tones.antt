-- ===== src/Daemon/Push/Tones.antt =====
-- daemon/main.cpp, `onPush`: which messages become tones in a call.
use signal2sip.Base.{
  ◌≡◌, refl, sym, subst, ◌∙◌, Bool, true, false, not, ◌&&◌, ◌||◌, Option, none, some, List, [], ◌∷◌,
  arith, ◌++◌, Bytes, eqb, eqb→eq,
}
use signal2sip.Base.{if-cases}
use signal2sip.Storage.Records.{Database}
use signal2sip.Daemon.Push.{
  Envelope, Sender, DataMessage, Content, Library, Inbox, Opened, ignored, failed, opened,
  open_envelope, is_dtmf, on_data_message, push_work, on_keys, on_call_message, after_keys,
  on_content, on_opened, on_envelope, Push, is_message, on_push,
}

-- What may be dialled on a push: the text of a message to this account alone, by whoever the
-- envelope was decrypted as from, who is the other side of the call, in the alphabet of tones.
pub record Dialled (lib : Library) (p : Push) (s : Inbox) (body : Bytes) : Type 0 where
  pub envelope : Envelope
  pub sender : Sender
  pub plaintext : Bytes
  pub message : DataMessage
  pub parsed : lib.parse_envelope p.body ≡ some envelope
  pub authentic : (open_envelope lib envelope envelope.type s.storage).0 ≡ opened sender plaintext
  pub content : Content
  pub understood : lib.parse_content plaintext ≡ some content
  pub part : content.data_message ≡ some message
  pub text : message.body ≡ body
  pub direct : message.has_group ≡ false
  pub tones : is_dtmf body ≡ true
  pub peer : sender.service_id ≡ s.remote_peer_id
  pub in_call : (s.has_sip_call || s.has_incoming_sip_call) ≡ true

-- A push dials nothing, or one text.
pub data Toned (lib : Library) (p : Push) (s : Inbox) (q : List Bytes) : Type 0 where
  quiet : q ≡ s.tones → Toned lib p s q
  dials : (body : Bytes) → q ≡ s.tones ++ body ∷ [] → Dialled lib p s body → Toned lib p s q

-- The conditions of the innermost branch.
record Meets (sender : Sender) (s : Inbox) (m : DataMessage) : Type 0 where
  direct : m.has_group ≡ false
  tones : is_dtmf m.body ≡ true
  peer : sender.service_id ≡ s.remote_peer_id
  in_call : (s.has_sip_call || s.has_incoming_sip_call) ≡ true

data Heard (o : Option DataMessage) (sender : Sender) (s : Inbox) (q : List Bytes) : Type 0 where
  nothing : q ≡ s.tones → Heard o sender s q
  heard :
      (m : DataMessage)
      → o ≡ some m
      → q ≡ s.tones ++ m.body ∷ []
      → Meets sender s m
      → Heard o sender s q

and_left : (a b : Bool) → (a && b) ≡ true → a ≡ true
and_left true b h = refl
and_left false b h = absurd cc

and_right : (a b : Bool) → (a && b) ≡ true → b ≡ true
and_right true b h = h
and_right false b h = absurd cc

not-true : (a : Bool) → not a ≡ true → a ≡ false
not-true true h = absurd cc
not-true false h = refl

message-Heard :
    (sender : Sender) (o : Option DataMessage) (s : Inbox)
    → Heard o sender s (on_data_message sender o s).tones
unfolding on_data_message
message-Heard sender none s = nothing refl
message-Heard sender (some m) s =
    if-cases (λ (x : Inbox). Heard (some m) sender s x.tones)
      ((not m.has_group && is_dtmf m.body)
        && (eqb sender.service_id s.remote_peer_id && (s.has_sip_call || s.has_incoming_sip_call)))
      (λ h.
        let left = and_left (not m.has_group && is_dtmf m.body) _ h in
        let right = and_right (not m.has_group && is_dtmf m.body) _ h in
        heard m refl refl (record {
          direct = not-true m.has_group (and_left (not m.has_group) _ left);
          tones = and_right (not m.has_group) _ left;
          peer = eqb→eq _ _ (and_left (eqb sender.service_id s.remote_peer_id) _ right);
          in_call = and_right (eqb sender.service_id s.remote_peer_id) _ right;
        }))
      (λ h. nothing refl)

keys-tones : (lib : Library) (o : Option Bytes) (s : Inbox) → ((on_keys lib o s).1).tones ≡ s.tones
unfolding on_keys push_work
keys-tones lib none s = refl
keys-tones lib (some pool) s = ground arith

after_keys-tones :
    (sender : Sender) (o : Option Bytes) (r : Bool × Inbox)
    → (after_keys sender o r).tones ≡ (r.1).tones
unfolding after_keys on_call_message push_work
after_keys-tones sender none (true, s) = refl
after_keys-tones sender (some m) (true, s) = refl
after_keys-tones sender o (false, s) = refl

-- What the message of a content does to the tones of an inbox.
data Told (lib : Library) (plaintext : Bytes) (sender : Sender) (s : Inbox) (q : List Bytes)
    : Type 0 where
  untold : q ≡ s.tones → Told lib plaintext sender s q
  told :
      (c : Content) (m : DataMessage)
      → lib.parse_content plaintext ≡ some c
      → c.data_message ≡ some m
      → q ≡ s.tones ++ m.body ∷ []
      → Meets sender s m
      → Told lib plaintext sender s q

Heard-Told :
    (lib : Library) (plaintext : Bytes) (c : Content) (sender : Sender) (s : Inbox) (q : List Bytes)
    → lib.parse_content plaintext ≡ some c
    → Heard c.data_message sender s q
    → Told lib plaintext sender s q
Heard-Told lib plaintext c sender s q e (nothing h) = untold h
Heard-Told lib plaintext c sender s q e (heard m f h w) = told c m e f h w

content-Told :
    (lib : Library) (plaintext : Bytes) (sender : Sender) (o : Option Content) (s : Inbox)
    → lib.parse_content plaintext ≡ o
    → Told lib plaintext sender s (on_content lib sender o s).tones
unfolding on_content
content-Told lib plaintext sender none s e = untold refl
content-Told lib plaintext sender (some c) s e =
    subst (Told lib plaintext sender s)
      (sym (after_keys-tones sender c.call_message _ ∙ keys-tones lib c.keys_entropy_pool _))
      (Heard-Told lib plaintext c sender s _ e (message-Heard sender c.data_message s))

toned :
    (lib : Library) (p : Push) (s : Inbox) (e : Envelope) (d : Database) (sender : Sender)
    (plaintext : Bytes) (q : List Bytes)
    → lib.parse_envelope p.body ≡ some e
    → (open_envelope lib e e.type s.storage).0 ≡ opened sender plaintext
    → Told lib plaintext sender (record s { storage = d }) q
    → Toned lib p s q
toned lib p s e d sender plaintext q parsed authentic (untold h) = quiet h
toned lib p s e d sender plaintext q parsed authentic (told c m f g h w) = dials m.body h (record {
  envelope = e;
  sender = sender;
  plaintext = plaintext;
  message = m;
  parsed = parsed;
  authentic = authentic;
  content = c;
  understood = f;
  part = g;
  text = refl;
  direct = w.direct;
  tones = w.tones;
  peer = w.peer;
  in_call = w.in_call;
})

opened-Toned :
    (lib : Library) (p : Push) (s : Inbox) (e : Envelope) (d : Database) (o : Opened)
    → lib.parse_envelope p.body ≡ some e
    → (open_envelope lib e e.type s.storage).0 ≡ o
    → Toned lib p s (on_opened lib e o (record s { storage = d })).tones
unfolding on_opened push_work
opened-Toned lib p s e d ignored h k = quiet refl
opened-Toned lib p s e d (failed sender is_prekey) h k = quiet refl
opened-Toned lib p s e d (opened sender plaintext) h k = toned lib p s e d sender plaintext _ h k (
    content-Told lib plaintext sender (lib.parse_content plaintext) (record s { storage = d }) refl)

envelope-Toned :
    (lib : Library) (p : Push) (s : Inbox) (o : Option Envelope)
    → lib.parse_envelope p.body ≡ o
    → Toned lib p s (on_envelope lib o s).tones
unfolding on_envelope
envelope-Toned lib p s none h = quiet refl
envelope-Toned lib p s (some e) h =
    let result = open_envelope lib e e.type s.storage in
    opened-Toned lib p s e (result.1) (result.0) h refl

-- Whatever comes in a push, at most one text is dialled into the bridged call: the body of the
-- very message that is parsed from the plaintext of the envelope in the push. That message is
-- outside a group, its body is of the tone alphabet and of at most 32 characters, the envelope was
-- decrypted as from the other side of the call, and there is a SIP call.
pub on_push-Toned : (lib : Library) (p : Push) (s : Inbox) → Toned lib p s (on_push lib p s).tones
unfolding on_push
on_push-Toned lib p s =
    if-cases (λ (x : Inbox). Toned lib p s x.tones) (is_message p)
      (λ h. envelope-Toned lib p s (lib.parse_envelope p.body) refl) (λ h. quiet refl)
