-- ===== src/Daemon/Calls/Ending.antt =====
-- What is left of a call when it is over, and of an incoming one that could not be placed.
use signal2sip.Base.{
  ℕ, ◌≡◌, refl, sym, subst, ◌⊎◌, true, false, ◌||◌, none, some, List, [], ◌∷◌, ◌++◌, arith, ◌==◌,
  is_some, is_empty, Bytes,
}
use signal2sip.Daemon.Calls.{
  sip_answer, sip_reject, start_outgoing, Account, Calls, new_sip_call, note, SipEvent,
  stop_sip_bridge, stop_incoming_sip_call,
}
use signal2sip.Daemon.Calls.Flow.{CallState, ended, concluded, stop_both, by_state, on_call_state}
use signal2sip.Daemon.Calls.Gone.{stop_sip_bridge-absent, stop_incoming_sip_call-absent}

-- No SIP call, no audio bridge.
pub record IsIdle (s : Calls) : Type 0 where
  pub no_sip_call : s.sip_call ≡ none
  pub no_incoming : s.incoming_sip_call ≡ none
  pub no_bridge : s.bridge ≡ false

stop_incoming-IsIdle :
    (w : List SipEvent) (s : Calls) → s.sip_call ≡ none → IsIdle (stop_incoming_sip_call w s)
stop_incoming-IsIdle w s h =
    let gone = stop_incoming_sip_call-absent w s in
    record { no_sip_call = gone.2 h; no_incoming = gone.0; no_bridge = gone.1 }

stop_both-IsIdle : (w w2 : List SipEvent) (s : Calls) → IsIdle (stop_both w w2 s)
unfolding stop_both
stop_both-IsIdle w w2 s =
    let i : IsIdle (stop_incoming_sip_call w2 (stop_sip_bridge w s)) =
      stop_incoming-IsIdle w2 (stop_sip_bridge w s) (stop_sip_bridge-absent w s).0 in
    record { no_sip_call = i.no_sip_call; no_incoming = i.no_incoming; no_bridge = i.no_bridge }

stop_both-callee : (w w2 : List SipEvent) (s : Calls) → (stop_both w w2 s).is_callee ≡ false
unfolding stop_both
stop_both-callee w w2 s = refl

-- When RingRTC reports that the call has ended or concluded, the account holds no SIP call and no
-- audio bridge any more and is no callee, whatever PJSIP calls back with during the teardown.
pub on_call_state-IsIdle :
    (a : Account) (peer : Bytes) (id : ℕ) (c : CallState) (w w2 : List SipEvent) (s : Calls)
    → (c ≡ ended) ⊎ (c ≡ concluded)
    → IsIdle (on_call_state a peer id c w w2 s)
      × ((on_call_state a peer id c w w2 s).is_callee ≡ false)
unfolding on_call_state by_state
on_call_state-IsIdle a peer id c w w2 s h =
    let noted : Calls = record s { active_call_id = id; remote_peer_id = peer } in
    let same : on_call_state a peer id c w w2 s ≡ stop_both w w2 noted = ground (arith, h) in
    subst (λ k. IsIdle k × (k.is_callee ≡ false)) (sym same)
      (stop_both-IsIdle w w2 noted, stop_both-callee w w2 noted)

-- How a call from the PBX ends up.
pub record IsPlaced (a : Account) (to : Bytes) (s next : Calls) : Type 0 where
  pub call : next.incoming_sip_call ≡ some new_sip_call
  pub has_bridge : next.bridge ≡ true
  pub caller : next.is_callee ≡ false
  pub asked : next.log ≡ s.log ++ sip_answer 180 ∷ [] ++ start_outgoing to a.device_id ∷ []

-- `to` is what the number resolves to, empty if to nothing; `id` is 0 when RingRTC starts no call.
pub data Outcome (a : Account) (user to : Bytes) (id : ℕ) (s next : Calls) : Type 0 where
  busy :
      (is_some s.incoming_sip_call || is_some s.sip_call) ≡ true
      → next ≡ note (sip_reject 486) s
      → Outcome a user to id s next
  nobody : user ≡ [] → next ≡ note (sip_reject 404) s → Outcome a user to id s next
  given_up : (is_empty to || (id == 0)) ≡ true → IsIdle next → Outcome a user to id s next
  placed : (is_empty to || (id == 0)) ≡ false → IsPlaced a to s next → Outcome a user to id s next
