-- ===== src/Daemon/Calls/Feedback.antt =====
-- The end of a call is not reported back to the side that ended it.
use signal2sip.Base.{
  ◌≡◌, refl, ap, ◌∙◌, inl, inr, true, false, ◌&&◌, none, some, List, [], ◌∷◌, ◌++◌, arith,
  Option-cases, is_some,
}
use signal2sip.Daemon.Calls.{
  Effect, sip_hangup, Calls, note, SipEvent, deliver_all, stop_sip_bridge, stop_incoming_sip_call,
}
use signal2sip.Daemon.Calls.Flow.{stop_both}
use signal2sip.Daemon.Calls.Quiet.{
  count, count-snoc, is_signal_hangup, hangups, is_quiet, Quiet, deliver_all-Quiet,
  deliver_all-forgotten,
}
use signal2sip.Daemon.Calls.Gone.{stop_sip_bridge-absent}

hung_up-hangups :
    (log : List Effect)
    → count is_signal_hangup (log ++ sip_hangup ∷ []) ≡ count is_signal_hangup log
unfolding is_signal_hangup
hung_up-hangups log = omega (arith, count-snoc is_signal_hangup log sip_hangup)

no_call-hangups :
    (waiting : List SipEvent) (s : Calls)
    → s.sip_call ≡ none
    → hangups (stop_sip_bridge waiting s) ≡ hangups s
unfolding stop_sip_bridge
no_call-hangups waiting s h = ground (arith, h)

-- A stop forgets no call.
stop_sip_bridge-forgotten :
    (waiting : List SipEvent) (s : Calls)
    → s.forgotten ≡ []
    → (stop_sip_bridge waiting s).forgotten ≡ []
unfolding stop_sip_bridge note
stop_sip_bridge-forgotten waiting s g = elim (Option-cases s.sip_call) [
  | inl e ↦ ground (arith, e, g)
  | inr e ↦
      let hung_up : Calls =
        note sip_hangup (record s { sip_call = some (record e.0 { we_hung_up = true }) }) in
      let after : stop_sip_bridge waiting s
          ≡ record (deliver_all waiting hung_up) { sip_call = none; bridge = false } =
        ground (arith, e.1) in
      ap (λ k. k.forgotten) after ∙ deliver_all-forgotten waiting hung_up g
]

-- Ending the call to the PBX, when no call from the PBX is there, reports no hangup to RingRTC.
stop_sip_bridge-hangups :
    (waiting : List SipEvent) (s : Calls)
    → s.incoming_sip_call ≡ none
    → s.forgotten ≡ []
    → hangups (stop_sip_bridge waiting s) ≡ hangups s
unfolding stop_sip_bridge note Quiet is_quiet
stop_sip_bridge-hangups waiting s h g = elim (Option-cases s.sip_call) [
  | inl e ↦ ground (arith, e)
  | inr e ↦
      let hung_up : Calls =
        note sip_hangup (record s { sip_call = some (record e.0 { we_hung_up = true }) }) in
      let calm = deliver_all-Quiet waiting hung_up (refl, ap is_quiet h, g) in
      let after : stop_sip_bridge waiting s
          ≡ record (deliver_all waiting hung_up) { sip_call = none; bridge = false } =
        ground (arith, e.1) in
      ap hangups after ∙ calm.1 ∙ hung_up-hangups s.log
]

stop_incoming_sip_call-hangups :
    (waiting : List SipEvent) (s : Calls)
    → s.sip_call ≡ none
    → s.forgotten ≡ []
    → hangups (stop_incoming_sip_call waiting s) ≡ hangups s
unfolding stop_incoming_sip_call note Quiet is_quiet
stop_incoming_sip_call-hangups waiting s h g = elim (Option-cases s.incoming_sip_call) [
  | inl e ↦ ground (arith, e)
  | inr e ↦
      let hung_up : Calls =
        note sip_hangup
          (record s { incoming_sip_call = some (record e.0 { we_hung_up = true }) }) in
      let calm = deliver_all-Quiet waiting hung_up (ap is_quiet h, refl, g) in
      let after : stop_incoming_sip_call waiting s
          ≡ record (deliver_all waiting hung_up) { incoming_sip_call = none; bridge = false } =
        ground (arith, e.1) in
      ap hangups after ∙ calm.1 ∙ hung_up-hangups s.log
]

-- When the Signal call ends and at most one SIP call is there, none forgotten, ending that call tells RingRTC of
-- no hangup, whatever PJSIP calls back with while the calls are torn down.
pub stop_both-hangups :
    (waiting waiting2 : List SipEvent) (s : Calls)
    → (is_some s.sip_call && is_some s.incoming_sip_call) ≡ false
    → s.forgotten ≡ []
    → hangups (stop_both waiting waiting2 s) ≡ hangups s
unfolding stop_both
stop_both-hangups waiting waiting2 s h g =
    let mid : Calls = stop_sip_bridge waiting s in
    let gone = stop_sip_bridge-absent waiting s in
    stop_incoming_sip_call-hangups waiting2 mid gone.0 (stop_sip_bridge-forgotten waiting s g)
    ∙ elim (Option-cases s.incoming_sip_call) [
      | inl e ↦ stop_sip_bridge-hangups waiting s e g
      | inr e ↦ no_call-hangups waiting s (ground (arith, h, e.1, Option-cases s.sip_call))
    ]
