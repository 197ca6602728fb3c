-- ===== src/Daemon/Calls/Gone.antt =====
-- A call that is not there stays away, and a stop leaves none.
use signal2sip.Base.{
  ℕ, refl, ◌≡◌, ap, ◌∙◌, inl, inr, true, false, none, some, List, [], ◌∷◌, arith, Option-cases,
}
use signal2sip.Daemon.Calls.{
  sip_hangup, Calls, note, on_bridge_call_state, on_incoming_call_state, on_reg_state, InvState,
  confirmed, disconnected, other_inv_state, SipCall, nth_call, forgotten_call_state,
  on_forgotten_call_state, SipEvent, bridge_call_state, incoming_call_state, reg_state, deliver,
  deliver_all, stop_sip_bridge, stop_incoming_sip_call,
}
use signal2sip.Daemon.Calls.Quiet.{
  no_forgotten, no_bridge, no_incoming, on_bridge_call_state-incoming, on_incoming_call_state-sip,
}

on_forgotten_call_state-others :
    (k : ℕ) (i : InvState) (c : SipCall) (s : Calls)
    → ((on_forgotten_call_state k i c s).sip_call ≡ s.sip_call)
      × ((on_forgotten_call_state k i c s).incoming_sip_call ≡ s.incoming_sip_call)
unfolding on_forgotten_call_state note
on_forgotten_call_state-others k confirmed c s = ground arith
on_forgotten_call_state-others k disconnected c s = ground arith
on_forgotten_call_state-others k other_inv_state c s = (refl, refl)

deliver-absent :
    (e : SipEvent) (s : Calls)
    → (s.sip_call ≡ none → (deliver e s).sip_call ≡ none)
      × (s.incoming_sip_call ≡ none → (deliver e s).incoming_sip_call ≡ none)
unfolding deliver on_reg_state
deliver-absent (bridge_call_state i) s = (
  (λ h. ap (λ k. k.sip_call) (no_bridge i s h) ∙ h),
  (λ h. elim (Option-cases s.sip_call) [
    | inl e ↦ ap (λ k. k.incoming_sip_call) (no_bridge i s e) ∙ h
    | inr e ↦
        let same : deliver (bridge_call_state i) s ≡ on_bridge_call_state i e.0 s =
          ground (arith, e.1) in
        ap (λ k. k.incoming_sip_call) same ∙ on_bridge_call_state-incoming i e.0 s ∙ h
  ]),
)
deliver-absent (forgotten_call_state k i) s = elim (Option-cases (nth_call k s.forgotten)) [
  | inl e ↦
      let same : deliver (forgotten_call_state k i) s ≡ s = no_forgotten k i s e in
      ((λ h. ap (λ x. x.sip_call) same ∙ h), (λ h. ap (λ x. x.incoming_sip_call) same ∙ h))
  | inr e ↦
      let same : deliver (forgotten_call_state k i) s ≡ on_forgotten_call_state k i e.0 s =
        ground (arith, e.1) in
      let kept = on_forgotten_call_state-others k i e.0 s in
      (
        (λ h. ap (λ x. x.sip_call) same ∙ kept.0 ∙ h),
        (λ h. ap (λ x. x.incoming_sip_call) same ∙ kept.1 ∙ h),
      )
]
deliver-absent (incoming_call_state i) s = (
  (λ h. elim (Option-cases s.incoming_sip_call) [
    | inl e ↦ ap (λ k. k.sip_call) (no_incoming i s e) ∙ h
    | inr e ↦
        let same : deliver (incoming_call_state i) s ≡ on_incoming_call_state i e.0 s =
          ground (arith, e.1) in
        ap (λ k. k.sip_call) same ∙ on_incoming_call_state-sip i e.0 s ∙ h
  ]),
  (λ h. ap (λ k. k.incoming_sip_call) (no_incoming i s h) ∙ h),
)
deliver-absent (reg_state r n) s = ((λ h. h), (λ h. h))

pub deliver_all-absent :
    (es : List SipEvent) (s : Calls)
    → (s.sip_call ≡ none → (deliver_all es s).sip_call ≡ none)
      × (s.incoming_sip_call ≡ none → (deliver_all es s).incoming_sip_call ≡ none)
unfolding deliver_all
deliver_all-absent [] s = ((λ h. h), (λ h. h))
deliver_all-absent (e ∷ es) s =
    let one = deliver-absent e s in
    let rest = deliver_all-absent es (deliver e s) in
    ((λ h. rest.0 (one.0 h)), (λ h. rest.1 (one.1 h)))

pub stop_sip_bridge-absent :
    (waiting : List SipEvent) (s : Calls)
    → ((stop_sip_bridge waiting s).sip_call ≡ none)
      × ((stop_sip_bridge waiting s).bridge ≡ false)
      × (s.incoming_sip_call ≡ none → (stop_sip_bridge waiting s).incoming_sip_call ≡ none)
unfolding stop_sip_bridge note
stop_sip_bridge-absent waiting s = elim (Option-cases s.sip_call) [
  | inl e ↦ (ground (arith, e), ground (arith, e), (λ h. ground (arith, e, h)))
  | inr e ↦
      let hung_up : Calls =
        note sip_hangup (record s { sip_call = some (record e.0 { we_hung_up = true }) }) in
      let after : stop_sip_bridge waiting s
          ≡ record (deliver_all waiting hung_up) { sip_call = none; bridge = false } =
        ground (arith, e.1) in
      (
        ap (λ k. k.sip_call) after,
        ap (λ k. k.bridge) after,
        (λ h. ap (λ k. k.incoming_sip_call) after ∙ (deliver_all-absent waiting hung_up).1 h),
      )
]

pub stop_incoming_sip_call-absent :
    (waiting : List SipEvent) (s : Calls)
    → ((stop_incoming_sip_call waiting s).incoming_sip_call ≡ none)
      × ((stop_incoming_sip_call waiting s).bridge ≡ false)
      × (s.sip_call ≡ none → (stop_incoming_sip_call waiting s).sip_call ≡ none)
unfolding stop_incoming_sip_call note
stop_incoming_sip_call-absent waiting s = elim (Option-cases s.incoming_sip_call) [
  | inl e ↦ (ground (arith, e), ground (arith, e), (λ h. ground (arith, e, h)))
  | inr e ↦
      let hung_up : Calls =
        note sip_hangup
          (record s { incoming_sip_call = some (record e.0 { we_hung_up = true }) }) in
      let after : stop_incoming_sip_call waiting s
          ≡ record (deliver_all waiting hung_up) { incoming_sip_call = none; bridge = false } =
        ground (arith, e.1) in
      (
        ap (λ k. k.incoming_sip_call) after,
        ap (λ k. k.bridge) after,
        (λ h. ap (λ k. k.sip_call) after ∙ (deliver_all-absent waiting hung_up).0 h),
      )
]
