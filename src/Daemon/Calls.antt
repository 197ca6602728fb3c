-- ===== src/Daemon/Calls.antt =====
-- daemon/main.cpp: the calls of one account. A Signal call is bridged to one SIP call, either
-- placed to the PBX (`BridgeCall`) or received from it (`IncomingSipCall`). What the handlers ask
-- of RingRTC and PJSIP is logged, in order; a request that throws is caught and changes nothing
-- else, so the log says what was tried.
pub mod Flow
pub mod Quiet
pub mod Gone
pub mod Feedback
pub mod Answers
pub mod Accepts
pub mod Ending
mod Tests
use signal2sip.Base.{
  ℕ, zero, suc, ◌+◌, ◌-◌, ◌*◌, ◌/◌, ◌%◌, ◌^◌, ◌≤◌, ◌<◌, ◌≡◌, refl, sym, ap, ap₂, subst, ◌∙◌, ◌≢◌,
  ◌↔◌, ◌⊎◌, inl, inr, Bool, true, false, not, ◌&&◌, ◌||◌, Option, none, some, List, [], ◌∷◌, ◌++◌,
  map, arith, ltb, leb, ◌==◌, if◌then◌else◌, ==_iff, Bool-cases, Option-cases, is_some, length,
  get_or, set, take, drop, replicate, is_empty, All, length-append, length-replicate, length-set,
  length-take-le, get_or-set_self, get_or-set_ne, take-append_left, drop-append_left, All-append,
  length-take, is_empty→nil, take-all, drop-all, get_or-append_right, suc-add, get_or-replicate,
  Bytes, IsByte, codes, eqb, eqb_refl, eqb→eq, eqb_iff, Result, ok, err, ◌>>=◌, ok_or, Result-cases,
}
use signal2sip.Base.Bits.{passes_below, passes_below→test, bit_or-shl}
use mathlib.Core.List.{append-nil, append_assoc}
use signal2sip.Storage.Records.{SyncedContactRecord}
use signal2sip.Config.Accept.{AccountConfig}

-- `PJSIP_INV_STATE_…`: the two that matter, and the rest.
pub data InvState : Type 0 where
  confirmed : InvState
  disconnected : InvState
  other_inv_state : InvState

-- `BridgeCall` and `IncomingSipCall`: the atomics of the call.
pub record SipCall : Type 0 where
  pub accept_sent : Bool
  pub we_hung_up : Bool
  pub is_disconnected : Bool

pub data Effect : Type 0 where
  proceed : ℕ → Effect
  accept : ℕ → Effect
  signal_hangup : Effect
  start_outgoing : Bytes → ℕ → Effect
  make_call : Bytes → List (Bytes × Bytes) → Effect
  sip_hangup : Effect
  sip_answer : ℕ → Effect
  sip_reject : ℕ → Effect
  run_probe : Effect
  set_registration : Bool → Effect

-- What does not change while the account runs: its configuration, its device, whether it has an
-- entry in `g_sipAccounts`, and the contacts synced by ACI.
pub record Account : Type 0 where
  pub config : AccountConfig
  pub device_id : ℕ
  pub has_sip_account : Bool
  pub contact_by_aci : Bytes → Option SyncedContactRecord

-- The members of `AccountState` and `BridgeAccount` that the handlers use. `bridge` says whether
-- there is one. `forgotten` holds the calls that `sipCall` no longer points to, as another was
-- dialled: nothing hangs them up or deletes them, and PJSIP goes on to call them back.
pub record Calls : Type 0 where
  pub active_call_id : ℕ
  pub is_callee : Bool
  pub remote_peer_id : Bytes
  pub bridge : Bool
  pub sip_call : Option SipCall
  pub incoming_sip_call : Option SipCall
  pub forgotten : List SipCall
  pub registered : Bool
  pub unregistered_since_ms : ℕ
  pub log : List Effect

unfoldable pub no_calls : Calls
no_calls = record {
  active_call_id = 0;
  is_callee = false;
  remote_peer_id = [];
  bridge = false;
  sip_call = none;
  incoming_sip_call = none;
  forgotten = [];
  registered = false;
  unregistered_since_ms = 0;
  log = [];
}

unfoldable pub new_sip_call : SipCall
new_sip_call = record { accept_sent = false; we_hung_up = false; is_disconnected = false }

unfoldable pub note : Effect → Calls → Calls
note e s = record s { log = s.log ++ e ∷ [] }

-- `BridgeCall::onCallState`
unfoldable pub on_bridge_call_state : InvState → SipCall → Calls → Calls
on_bridge_call_state confirmed c s =
    if c.accept_sent
    then s
    else note (accept s.active_call_id)
        (record s { sip_call = some (record c { accept_sent = true }) })
on_bridge_call_state disconnected c s =
    let next : Calls = record s { sip_call = some (record c { is_disconnected = true }) } in
    if c.accept_sent && not c.we_hung_up then note signal_hangup next else next
on_bridge_call_state other_inv_state c s = s

unfoldable pub nth_call : ℕ → List SipCall → Option SipCall
nth_call k [] = none
nth_call zero (c ∷ cs) = some c
nth_call (suc k) (c ∷ cs) = nth_call k cs

unfoldable pub put_call : ℕ → SipCall → List SipCall → List SipCall
put_call k d [] = []
put_call zero d (c ∷ cs) = d ∷ cs
put_call (suc k) d (c ∷ cs) = c ∷ put_call k d cs

unfoldable pub remember : Option SipCall → List SipCall → List SipCall
remember none cs = cs
remember (some c) cs = c ∷ cs

-- `BridgeCall::onCallState` again, on a forgotten call.
unfoldable pub on_forgotten_call_state : ℕ → InvState → SipCall → Calls → Calls
on_forgotten_call_state k confirmed c s =
    if c.accept_sent
    then s
    else note (accept s.active_call_id)
        (record s { forgotten = put_call k (record c { accept_sent = true }) s.forgotten })
on_forgotten_call_state k disconnected c s =
    let next : Calls = record s {
      forgotten = put_call k (record c { is_disconnected = true }) s.forgotten;
    } in
    if c.accept_sent && not c.we_hung_up then note signal_hangup next else next
on_forgotten_call_state k other_inv_state c s = s

-- `IncomingSipCall::onCallState`
unfoldable pub on_incoming_call_state : InvState → SipCall → Calls → Calls
on_incoming_call_state confirmed c s = s
on_incoming_call_state disconnected c s =
    let next : Calls = record s {
      incoming_sip_call = some (record c { we_hung_up = true; is_disconnected = true });
    } in
    if c.we_hung_up then next else note signal_hangup next
on_incoming_call_state other_inv_state c s = s

-- `BridgeAccount::onRegState`
unfoldable pub on_reg_state : Bool → ℕ → Calls → Calls
on_reg_state is_active now_ms s = record s {
  registered = is_active;
  unregistered_since_ms =
      if is_active
      then 0
      else if s.unregistered_since_ms == 0
      then now_ms
      else s.unregistered_since_ms;
}

-- What PJSIP calls back with, on its own thread.
pub data SipEvent : Type 0 where
  bridge_call_state : InvState → SipEvent
  forgotten_call_state : ℕ → InvState → SipEvent
  incoming_call_state : InvState → SipEvent
  reg_state : Bool → ℕ → SipEvent

unfoldable pub deliver : SipEvent → Calls → Calls
deliver (bridge_call_state i) s = elim s.sip_call [ none ↦ s | some c ↦ on_bridge_call_state i c s ]
deliver (forgotten_call_state k i) s = elim (nth_call k s.forgotten) [
  | none ↦ s
  | some c ↦ on_forgotten_call_state k i c s
]
deliver (incoming_call_state i) s = elim s.incoming_sip_call [
  | none ↦ s
  | some c ↦ on_incoming_call_state i c s
]
deliver (reg_state is_active now_ms) s = on_reg_state is_active now_ms s

unfoldable pub deliver_all : List SipEvent → Calls → Calls
deliver_all [] s = s
deliver_all (e ∷ es) s = deliver_all es (deliver e s)

unfoldable pub bridge_target : AccountConfig → Bytes
bridge_target config =
    if is_empty config.sip_bridge_did then config.sip_bridge_destination else config.sip_bridge_did

unfoldable pub can_bridge_to_sip : Account → Calls → Bool
can_bridge_to_sip a s =
    if is_empty (bridge_target a.config) then false else a.has_sip_account && s.registered

-- The caller's name, with a space between the two parts when both are there.
unfoldable pub full_name : SyncedContactRecord → Bytes
full_name c =
    if is_empty c.family_name
    then c.given_name
    else c.given_name ++ (if is_empty c.given_name then [] else 32 ∷ []) ++ c.family_name

unfoldable pub header_unless_empty : Bytes → Bytes → List (Bytes × Bytes)
header_unless_empty name value = if is_empty value then [] else (name, value) ∷ []

unfoldable pub contact_headers : Option SyncedContactRecord → List (Bytes × Bytes)
contact_headers none = []
contact_headers (some c) =
    header_unless_empty (codes "X-Signal-Phone") c.e164
    ++ header_unless_empty (codes "X-Signal-Name") (full_name c)

unfoldable pub call_headers : Account → Bytes → List (Bytes × Bytes)
call_headers a peer =
    if is_empty peer
    then []
    else (codes "X-Signal-UUID", peer) ∷ contact_headers (a.contact_by_aci peer)

unfoldable pub dest_uri : AccountConfig → Bytes
dest_uri config =
    (if eqb config.sip_transport (codes "tls") then codes "sips" else codes "sip")
    ++ codes ":"
    ++ bridge_target config
    ++ codes "@"
    ++ config.sip_host

unfoldable pub start_sip_dial : Account → Calls → Calls
start_sip_dial a s =
    if not (a.has_sip_account && s.registered)
    then s
    else note (make_call (dest_uri a.config) (call_headers a s.remote_peer_id)) (record s {
      bridge = true;
      sip_call = some new_sip_call;
      forgotten = remember s.sip_call s.forgotten;
    })

-- `stopSipBridge`. `waiting` is what PJSIP calls back with between the hangup and the deletion of
-- the call, for five seconds at most.
unfoldable pub stop_sip_bridge : List SipEvent → Calls → Calls
stop_sip_bridge waiting s = elim s.sip_call [
  | none ↦ record s { bridge = false }
  | some c ↦
      let hung_up : Calls =
        note sip_hangup (record s { sip_call = some (record c { we_hung_up = true }) }) in
      record (deliver_all waiting hung_up) { sip_call = none; bridge = false }
]

-- `stopIncomingSipCall`
unfoldable pub stop_incoming_sip_call : List SipEvent → Calls → Calls
stop_incoming_sip_call waiting s = elim s.incoming_sip_call [
  | none ↦ record s { bridge = false }
  | some c ↦
      let hung_up : Calls =
        note sip_hangup (record s { incoming_sip_call = some (record c { we_hung_up = true }) }) in
      record (deliver_all waiting hung_up) { incoming_sip_call = none; bridge = false }
]
