-- ===== src/Daemon/Calls/Accepts.antt =====
-- How often a Signal call is accepted, over whole runs.
use signal2sip.Base.{
  ℕ, ◌≤◌, ◌≡◌, ◌+◌, Option, none, refl, inl, inr, true, false, not, ◌&&◌, ◌||◌, some, List, [], ◌∷◌,
  arith, ◌==◌, Bool-cases, is_some, is_empty, Bytes,
}
use signal2sip.Daemon.Calls.{
  Effect, proceed, start_outgoing, make_call, sip_answer, sip_reject, run_probe, Account, Calls,
  no_calls, SipCall, remember, new_sip_call, note, SipEvent, can_bridge_to_sip, dest_uri,
  call_headers, start_sip_dial, stop_sip_bridge, stop_incoming_sip_call,
}
use signal2sip.Daemon.Calls.Flow.{
  CallState, outgoing_audio, incoming_audio, ringing, connected, ended, concluded, other_call_state,
  stop_both, by_state, on_call_state, normalized, place_signal_call, on_incoming_call, Event,
  call_state, incoming_call, sip_event, handle, run,
}
use signal2sip.Daemon.Calls.Quiet.{count, count-snoc}
use signal2sip.Daemon.Calls.Answers.{
  is_accept, is_dial, unanswered, all_unanswered, Bounded, note-Bounded, deliver-Bounded,
  same-Bounded, stop_sip_bridge-Bounded, stop_incoming_sip_call-Bounded,
}

remember-unanswered :
    (o : Option SipCall) (cs : List SipCall)
    → all_unanswered (remember o cs) ≡ unanswered o + all_unanswered cs
unfolding remember unanswered all_unanswered
remember-unanswered none cs = omega arith
remember-unanswered (some c) cs = refl

start_sip_dial-Bounded : (a : Account) (s : Calls) → Bounded s → Bounded (start_sip_dial a s)
unfolding start_sip_dial Bounded note new_sip_call unanswered is_accept is_dial
start_sip_dial-Bounded a s b =
    let call : Effect = make_call (dest_uri a.config) (call_headers a s.remote_peer_id) in
    ground (
      arith,
      remember-unanswered s.sip_call s.forgotten,
      count-snoc is_accept s.log call,
      count-snoc is_dial s.log call,
    )

stop_both-Bounded : (w w2 : List SipEvent) (s : Calls) → Bounded s → Bounded (stop_both w w2 s)
unfolding stop_both
stop_both-Bounded w w2 s b =
    let last : Calls = stop_incoming_sip_call w2 (stop_sip_bridge w s) in
    same-Bounded last (record last { is_callee = false }) refl refl refl
      (stop_incoming_sip_call-Bounded w2 (stop_sip_bridge w s) (stop_sip_bridge-Bounded w s b))

by_state-Bounded :
    (a : Account) (c : CallState) (w w2 : List SipEvent) (s : Calls)
    → Bounded s
    → Bounded (by_state a c w w2 s)
unfolding by_state is_accept stop_both
by_state-Bounded a outgoing_audio w w2 s b = note-Bounded (proceed s.active_call_id) s refl b
by_state-Bounded a incoming_audio w w2 s b = elim (Bool-cases (can_bridge_to_sip a s)) [
  | inl e ↦
      rw (e, by_state)
        (note-Bounded (proceed s.active_call_id) (record s { is_callee = true }) refl
          (same-Bounded s (record s { is_callee = true }) refl refl refl b))
  | inr e ↦ rw (e, by_state) b
]
by_state-Bounded a ringing w w2 s b = elim (Bool-cases (s.is_callee && can_bridge_to_sip a s)) [
  | inl e ↦ rw (e, by_state) (start_sip_dial-Bounded a s b)
  | inr e ↦ rw (e, by_state) b
]
by_state-Bounded a connected w w2 s b =
    elim (Bool-cases (not s.is_callee && is_some s.incoming_sip_call)) [
      | inl e ↦ rw (e, by_state) (note-Bounded (sip_answer 200) s refl b)
      | inr e ↦
          elim (Bool-cases (not s.is_callee && not (is_empty a.config.outgoing_call_target))) [
            | inl f ↦ rw (e, f, by_state) (note-Bounded run_probe s refl b)
            | inr f ↦ rw (e, f, by_state) b
          ]
    ]
by_state-Bounded a ended w w2 s b = stop_both-Bounded w w2 s b
by_state-Bounded a concluded w w2 s b = stop_both-Bounded w w2 s b
by_state-Bounded a other_call_state w w2 s b = b

place_signal_call-Bounded :
    (a : Account) (to : Bytes) (id : ℕ) (w : List SipEvent) (s : Calls)
    → Bounded s
    → Bounded (place_signal_call a to id w s)
unfolding place_signal_call is_accept
place_signal_call-Bounded a to id w s b =
    let started : Calls = note (start_outgoing to a.device_id) (record s { is_callee = false }) in
    let fine : Bounded started =
      note-Bounded (start_outgoing to a.device_id) (record s { is_callee = false }) refl
        (same-Bounded s (record s { is_callee = false }) refl refl refl b) in
    elim (Bool-cases (is_empty to)) [
      | inl e ↦ rw (e, place_signal_call) (stop_incoming_sip_call-Bounded w s b)
      | inr e ↦ elim (Bool-cases (id == 0)) [
        | inl f ↦ rw (e, f, place_signal_call) (stop_incoming_sip_call-Bounded w started fine)
        | inr f ↦ rw (e, f, place_signal_call) fine
      ]
    ]

on_incoming_call-Bounded :
    (a : Account) (user : Bytes) (resolve : Bytes → Bytes) (id : ℕ) (w : List SipEvent) (s : Calls)
    → Bounded s
    → Bounded (on_incoming_call a user resolve id w s)
unfolding on_incoming_call is_accept
on_incoming_call-Bounded a user resolve id w s b =
    let rung : Calls = record s { bridge = true; incoming_sip_call = some new_sip_call } in
    elim (Bool-cases (is_some s.incoming_sip_call || is_some s.sip_call)) [
      | inl e ↦ rw (e, on_incoming_call) (note-Bounded (sip_reject 486) s refl b)
      | inr e ↦ elim (Bool-cases (is_empty (normalized user))) [
        | inl f ↦ rw (e, f, on_incoming_call) (note-Bounded (sip_reject 404) s refl b)
        | inr f ↦
            rw (e, f, on_incoming_call)
              (place_signal_call-Bounded a (resolve (normalized user)) id w
                (note (sip_answer 180) rung)
                (note-Bounded (sip_answer 180) rung refl (same-Bounded s rung refl refl refl b)))
      ]
    ]

handle-Bounded : (a : Account) (e : Event) (s : Calls) → Bounded s → Bounded (handle a e s)
unfolding handle on_call_state
handle-Bounded a (call_state peer id c w w2) s b =
    by_state-Bounded a c w w2 (record s { active_call_id = id; remote_peer_id = peer })
      (same-Bounded s (record s { active_call_id = id; remote_peer_id = peer }) refl refl refl b)
handle-Bounded a (incoming_call user resolve id w) s b =
    on_incoming_call-Bounded a user resolve id w s b
handle-Bounded a (sip_event e) s b = deliver-Bounded e s b

run-Bounded : (a : Account) (es : List Event) (s : Calls) → Bounded s → Bounded (run a es s)
unfolding run
run-Bounded a [] s b = b
run-Bounded a (e ∷ es) s b = run-Bounded a es (handle a e s) (handle-Bounded a e s b)

no_calls-Bounded : Bounded no_calls
unfolding Bounded no_calls unanswered all_unanswered count
no_calls-Bounded = omega arith

-- In any run, whatever RingRTC and PJSIP call back with and in whatever order, the Signal calls
-- that are accepted are no more than the SIP calls that were placed to the PBX.
pub run-accepts :
    (a : Account) (es : List Event)
    → count is_accept (run a es no_calls).log ≤ count is_dial (run a es no_calls).log
unfolding Bounded
run-accepts a es =
    let b : Bounded (run a es no_calls) = run-Bounded a es no_calls no_calls-Bounded in
    omega (arith, b)
