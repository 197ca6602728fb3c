-- ===== src/Daemon/Calls/Flow.antt =====
-- daemon/main.cpp: what RingRTC and a new SIP call from the PBX set going, and whole runs.
use signal2sip.Base.{
  ℕ, true, false, not, ◌&&◌, ◌||◌, some, List, [], ◌∷◌, ◌==◌, if◌then◌else◌, is_some, is_empty,
  Bytes,
}
use signal2sip.Daemon.Calls.{
  proceed, start_outgoing, sip_answer, sip_reject, run_probe, Account, Calls, new_sip_call, note,
  SipEvent, deliver, can_bridge_to_sip, start_sip_dial, stop_sip_bridge, stop_incoming_sip_call,
}

-- `SIGNAL2SIP_CALL_STATE_…`, as far as a handler tells them apart.
pub data CallState : Type 0 where
  outgoing_audio : CallState
  incoming_audio : CallState
  ringing : CallState
  connected : CallState
  ended : CallState
  concluded : CallState
  other_call_state : CallState

-- Both stops, one after the other, each with what PJSIP calls back with meanwhile.
unfoldable pub stop_both : List SipEvent → List SipEvent → Calls → Calls
stop_both waiting waiting2 s =
    record (stop_incoming_sip_call waiting2 (stop_sip_bridge waiting s)) { is_callee = false }

-- The part of `onCallState` after the call and its peer have been noted.
unfoldable pub by_state : Account → CallState → List SipEvent → List SipEvent → Calls → Calls
by_state a outgoing_audio waiting waiting2 s = note (proceed s.active_call_id) s
by_state a incoming_audio waiting waiting2 s =
    if can_bridge_to_sip a s
    then note (proceed s.active_call_id) (record s { is_callee = true })
    else s
by_state a ringing waiting waiting2 s =
    if s.is_callee && can_bridge_to_sip a s then start_sip_dial a s else s
by_state a connected waiting waiting2 s =
    if not s.is_callee && is_some s.incoming_sip_call
    then note (sip_answer 200) s
    else if not s.is_callee && not (is_empty a.config.outgoing_call_target)
    then note run_probe s
    else s
by_state a ended waiting waiting2 s = stop_both waiting waiting2 s
by_state a concluded waiting waiting2 s = stop_both waiting waiting2 s
by_state a other_call_state waiting waiting2 s = s

unfoldable pub on_call_state :
    Account → Bytes → ℕ → CallState → List SipEvent → List SipEvent → Calls → Calls
on_call_state a peer id state waiting waiting2 s =
    by_state a state waiting waiting2 (record s { active_call_id = id; remote_peer_id = peer })

-- `destUser`, with one leading `+`.
unfoldable pub skip_plus : Bytes → Bytes
skip_plus [] = []
skip_plus (c ∷ cs) = if c == 43 then skip_plus cs else c ∷ cs

unfoldable pub normalized : Bytes → Bytes
normalized user = if is_empty user then [] else 43 ∷ skip_plus user

-- The rest of `onIncomingCall`, once the SIP call exists: `resolved` is what `resolveOutgoingTarget`
-- returns, empty when it throws, and `id` is what RingRTC returns for the new call.
unfoldable pub place_signal_call : Account → Bytes → ℕ → List SipEvent → Calls → Calls
place_signal_call a resolved id waiting s =
    if is_empty resolved
    then stop_incoming_sip_call waiting s
    else let started : Calls =
        note (start_outgoing resolved a.device_id) (record s { is_callee = false }) in
      if id == 0 then stop_incoming_sip_call waiting started else started

-- `onIncomingCall`, on the account that the port belongs to: 486 when a call is going on, 404
-- without a user in the request.
unfoldable pub on_incoming_call :
    Account → Bytes → (Bytes → Bytes) → ℕ → List SipEvent → Calls → Calls
on_incoming_call a user resolve id waiting s =
    let dest = normalized user in
    if is_some s.incoming_sip_call || is_some s.sip_call
    then note (sip_reject 486) s
    else if is_empty dest
    then note (sip_reject 404) s
    else place_signal_call a (resolve dest) id waiting
        (note (sip_answer 180) (record s { bridge = true; incoming_sip_call = some new_sip_call }))

-- What may happen to an account.
pub data Event : Type 0 where
  call_state : Bytes → ℕ → CallState → List SipEvent → List SipEvent → Event
  incoming_call : Bytes → (Bytes → Bytes) → ℕ → List SipEvent → Event
  sip_event : SipEvent → Event

unfoldable pub handle : Account → Event → Calls → Calls
handle a (call_state peer id state waiting waiting2) s =
    on_call_state a peer id state waiting waiting2 s
handle a (incoming_call user resolve id waiting) s = on_incoming_call a user resolve id waiting s
handle a (sip_event e) s = deliver e s

unfoldable pub run : Account → List Event → Calls → Calls
run a [] s = s
run a (e ∷ es) s = run a es (handle a e s)
