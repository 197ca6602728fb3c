-- ===== src/Daemon/Calls/Tests.antt =====
-- A bridged call from end to end, and the theorems on calls at concrete input.
use signal2sip.Base.{◌≤◌, ◌≡◌, refl, inl, true, false, none, some, List, [], ◌∷◌, is_some, codes}
use signal2sip.Storage.Sample.{sample_account, alice}
use signal2sip.Config.Accept.{built, default_to}
use signal2sip.Daemon.Calls.{
  confirmed, disconnected, proceed, accept, signal_hangup, make_call, sip_hangup, Account, Calls,
  no_calls, new_sip_call, note, bridge_call_state, forgotten_call_state, on_forgotten_call_state,
  nth_call, put_call, remember, reg_state, deliver, deliver_all, on_bridge_call_state, on_reg_state,
  bridge_target, can_bridge_to_sip, dest_uri, call_headers, contact_headers, header_unless_empty,
  full_name, start_sip_dial, stop_sip_bridge, stop_incoming_sip_call, incoming_call_state,
}
use signal2sip.Daemon.Calls.Flow.{
  incoming_audio, ringing, ended, Event, call_state, sip_event, handle, run, on_call_state,
  by_state, stop_both,
}
use signal2sip.Daemon.Calls.Quiet.{count, hangups}
use signal2sip.Daemon.Calls.Answers.{is_accept, is_dial}
use signal2sip.Daemon.Calls.Accepts.{run-accepts}
use signal2sip.Daemon.Calls.Feedback.{stop_both-hangups}
use signal2sip.Daemon.Calls.Ending.{IsIdle, on_call_state-IsIdle}

abbrev account : Account
account = record {
  config = record (built (codes "main") sample_account) { sip_host = codes "pbx:5061" };
  device_id = 2;
  has_sip_account = true;
  contact_by_aci = λ aci. some alice;
}

-- A Signal call comes in, the PBX answers, and then hangs up.
abbrev events : List Event
events =
    sip_event (reg_state true 0)
    ∷ call_state (codes "x") 7 incoming_audio [] []
    ∷ call_state (codes "x") 7 ringing [] []
    ∷ sip_event (bridge_call_state confirmed)
    ∷ sip_event (bridge_call_state confirmed)
    ∷ sip_event (bridge_call_state disconnected)
    ∷ call_state (codes "x") 7 ended [] []
    ∷ []

whole_call :
    (run account events no_calls).log
    ≡ proceed 7
      ∷ make_call (codes "sips:200@pbx:5061") (
          (codes "X-Signal-UUID", codes "x")
          ∷ (codes "X-Signal-Phone", codes "+1")
          ∷ (codes "X-Signal-Name", codes "Alice")
          ∷ [])
      ∷ accept 7
      ∷ signal_hangup
      ∷ sip_hangup
      ∷ []
unfolding run handle on_call_state by_state no_calls note deliver on_bridge_call_state on_reg_state
    new_sip_call bridge_target can_bridge_to_sip dest_uri call_headers contact_headers
    header_unless_empty full_name start_sip_dial stop_sip_bridge deliver_all stop_incoming_sip_call
    stop_both built default_to
whole_call = refl

-- Another dial forgets the call before it, and the answers to both are passed on.
abbrev twice : List Event
twice =
    sip_event (reg_state true 0)
    ∷ call_state (codes "x") 7 incoming_audio [] []
    ∷ call_state (codes "x") 7 ringing [] []
    ∷ call_state (codes "x") 8 ringing [] []
    ∷ sip_event (bridge_call_state confirmed)
    ∷ sip_event (forgotten_call_state 0 confirmed)
    ∷ []

both_accepted : count is_accept (run account twice no_calls).log ≡ 2
unfolding run handle on_call_state by_state no_calls note deliver on_bridge_call_state on_reg_state
    new_sip_call bridge_target can_bridge_to_sip dest_uri call_headers contact_headers
    header_unless_empty full_name start_sip_dial on_forgotten_call_state nth_call put_call remember
    built default_to count is_accept
both_accepted = refl

run-accepts_example :
    count is_accept (run account twice no_calls).log
    ≤ count is_dial (run account twice no_calls).log
run-accepts_example = run-accepts account twice

-- An account in a call from the PBX.
abbrev in_call : Calls
in_call = record {
  active_call_id = 7;
  is_callee = false;
  remote_peer_id = codes "x";
  bridge = true;
  sip_call = none;
  incoming_sip_call =
      some (record { accept_sent = false; we_hung_up = false; is_disconnected = false });
  forgotten = [];
  registered = true;
  unregistered_since_ms = 0;
  log = [];
}

stop_both-hangups_example :
    hangups (stop_both [] (incoming_call_state disconnected ∷ []) in_call) ≡ hangups in_call
stop_both-hangups_example =
    stop_both-hangups [] (incoming_call_state disconnected ∷ []) in_call refl refl

-- When a call from the PBX ends, the audio bridge that it refers to is destroyed before the call.
bridge_gone_first :
    let mid = stop_sip_bridge [] in_call in
    (mid.bridge ≡ false) × (is_some mid.incoming_sip_call ≡ true)
unfolding stop_sip_bridge
bridge_gone_first = (refl, refl)

on_call_state-IsIdle_example :
    IsIdle
      (on_call_state account (codes "x") 7 ended [] (incoming_call_state disconnected ∷ []) in_call)
    × ((on_call_state account
          (codes "x")
          7
          ended
          []
          (incoming_call_state disconnected ∷ [])
          in_call).is_callee
        ≡ false)
on_call_state-IsIdle_example =
    on_call_state-IsIdle account (codes "x") 7 ended [] (incoming_call_state disconnected ∷ [])
      in_call (inl refl)
