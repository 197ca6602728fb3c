-- ===== src/Daemon/Calls/Quiet.antt =====
-- A SIP call that this side has hung up says nothing more to RingRTC.
use signal2sip.Base.{
  ℕ, ◌+◌, ◌≡◌, refl, sym, ap, subst, ◌∙◌, inl, inr, Bool, true, false, Option, none, some, List, [],
  ◌∷◌, ◌++◌, arith, if◌then◌else◌, Option-cases,
}
use signal2sip.Daemon.Calls.{
  InvState, confirmed, disconnected, other_inv_state, SipCall, Effect, accept, signal_hangup, Calls,
  note, on_bridge_call_state, on_incoming_call_state, nth_call, forgotten_call_state, on_reg_state,
  SipEvent, bridge_call_state, incoming_call_state, reg_state, deliver, deliver_all,
}

unfoldable pub count : (Effect → Bool) → List Effect → ℕ
count test [] = 0
count test (e ∷ log) = (if test e then 1 else 0) + count test log

pub count-snoc :
    (test : Effect → Bool) (log : List Effect) (e : Effect)
    → count test (log ++ e ∷ []) ≡ count test log + (if test e then 1 else 0)
unfolding count
count-snoc test [] e = omega arith
count-snoc test (d ∷ log) e = omega (arith, count-snoc test log e)

unfoldable pub is_signal_hangup : Effect → Bool
is_signal_hangup signal_hangup = true
is_signal_hangup _ = false

abbrev pub hangups : Calls → ℕ
hangups s = count is_signal_hangup s.log

-- A call that is not there, or that this side has hung up.
unfoldable pub is_quiet : Option SipCall → Bool
is_quiet none = true
is_quiet (some c) = c.we_hung_up

on_bridge_call_state-quiet :
    (i : InvState) (c : SipCall) (s : Calls)
    → c.we_hung_up ≡ true
    → is_quiet s.sip_call ≡ true
    → is_quiet (on_bridge_call_state i c s).sip_call ≡ true
unfolding on_bridge_call_state note is_quiet
on_bridge_call_state-quiet confirmed c s h q = ground arith
on_bridge_call_state-quiet disconnected c s h q = ground arith
on_bridge_call_state-quiet other_inv_state c s h q = q

on_bridge_call_state-hangups :
    (i : InvState) (c : SipCall) (s : Calls)
    → c.we_hung_up ≡ true
    → hangups (on_bridge_call_state i c s) ≡ hangups s
unfolding on_bridge_call_state note is_signal_hangup
on_bridge_call_state-hangups confirmed c s h =
    ground (arith, count-snoc is_signal_hangup s.log (accept s.active_call_id))
on_bridge_call_state-hangups disconnected c s h = ground arith
on_bridge_call_state-hangups other_inv_state c s h = refl

pub on_bridge_call_state-incoming :
    (i : InvState) (c : SipCall) (s : Calls)
    → (on_bridge_call_state i c s).incoming_sip_call ≡ s.incoming_sip_call
unfolding on_bridge_call_state note
on_bridge_call_state-incoming confirmed c s = ground arith
on_bridge_call_state-incoming disconnected c s = ground arith
on_bridge_call_state-incoming other_inv_state c s = refl

pub on_incoming_call_state-sip :
    (i : InvState) (c : SipCall) (s : Calls) → (on_incoming_call_state i c s).sip_call ≡ s.sip_call
unfolding on_incoming_call_state note
on_incoming_call_state-sip confirmed c s = refl
on_incoming_call_state-sip disconnected c s = ground arith
on_incoming_call_state-sip other_inv_state c s = refl

on_incoming_call_state-quiet :
    (i : InvState) (c : SipCall) (s : Calls)
    → c.we_hung_up ≡ true
    → is_quiet s.incoming_sip_call ≡ true
    → ((on_incoming_call_state i c s).sip_call ≡ s.sip_call)
      × (is_quiet (on_incoming_call_state i c s).incoming_sip_call ≡ true)
      × (hangups (on_incoming_call_state i c s) ≡ hangups s)
unfolding on_incoming_call_state is_quiet
on_incoming_call_state-quiet confirmed c s h q = (refl, q, refl)
on_incoming_call_state-quiet disconnected c s h q = ground arith
on_incoming_call_state-quiet other_inv_state c s h q = (refl, q, refl)

pub no_bridge : (i : InvState) (s : Calls) → s.sip_call ≡ none → deliver (bridge_call_state i) s ≡ s
unfolding deliver
no_bridge i s h = ground (arith, h)

pub no_incoming :
    (i : InvState) (s : Calls) → s.incoming_sip_call ≡ none → deliver (incoming_call_state i) s ≡ s
unfolding deliver
no_incoming i s h = ground (arith, h)

on_bridge_call_state-forgotten :
    (i : InvState) (c : SipCall) (s : Calls) → (on_bridge_call_state i c s).forgotten ≡ s.forgotten
unfolding on_bridge_call_state note
on_bridge_call_state-forgotten confirmed c s = ground arith
on_bridge_call_state-forgotten disconnected c s = ground arith
on_bridge_call_state-forgotten other_inv_state c s = refl

on_incoming_call_state-forgotten :
    (i : InvState) (c : SipCall) (s : Calls)
    → (on_incoming_call_state i c s).forgotten ≡ s.forgotten
unfolding on_incoming_call_state note
on_incoming_call_state-forgotten confirmed c s = refl
on_incoming_call_state-forgotten disconnected c s = ground arith
on_incoming_call_state-forgotten other_inv_state c s = refl

pub no_forgotten :
    (k : ℕ) (i : InvState) (s : Calls)
    → nth_call k s.forgotten ≡ none
    → deliver (forgotten_call_state k i) s ≡ s
unfolding deliver
no_forgotten k i s h = ground (arith, h)

nth_call-empty : (k : ℕ) (cs : List SipCall) → cs ≡ [] → nth_call k cs ≡ none
unfolding nth_call
nth_call-empty k [] h = refl
nth_call-empty k (c ∷ cs) h = absurd cc

-- Neither call is there, or this side has hung it up; and none is forgotten.
unfoldable pub Quiet : Calls → Type 0
Quiet s = (is_quiet s.sip_call ≡ true) × (is_quiet s.incoming_sip_call ≡ true) × (s.forgotten ≡ [])

pub deliver-Quiet :
    (e : SipEvent) (s : Calls) → Quiet s → Quiet (deliver e s) × (hangups (deliver e s) ≡ hangups s)
unfolding deliver on_reg_state is_quiet Quiet
deliver-Quiet (bridge_call_state i) s (p, q, g) = elim (Option-cases s.sip_call) [
  | inl e ↦ subst (λ k. Quiet k × (hangups k ≡ hangups s)) (sym (no_bridge i s e)) ((p, q, g), refl)
  | inr e ↦
      let hung : e.0.we_hung_up ≡ true = ground (arith, e.1, p) in
      let same : deliver (bridge_call_state i) s ≡ on_bridge_call_state i e.0 s =
        ground (arith, e.1) in
      subst (λ k. Quiet k × (hangups k ≡ hangups s)) (sym same)
        (
          (
            on_bridge_call_state-quiet i e.0 s hung p,
            ap is_quiet (on_bridge_call_state-incoming i e.0 s) ∙ q,
            on_bridge_call_state-forgotten i e.0 s ∙ g,
          ),
          on_bridge_call_state-hangups i e.0 s hung,
        )
]
deliver-Quiet (forgotten_call_state k i) s (p, q, g) =
    subst (λ x. Quiet x × (hangups x ≡ hangups s))
      (sym (no_forgotten k i s (nth_call-empty k s.forgotten g))) ((p, q, g), refl)
deliver-Quiet (incoming_call_state i) s (p, q, g) = elim (Option-cases s.incoming_sip_call) [
  | inl e ↦
      subst (λ k. Quiet k × (hangups k ≡ hangups s)) (sym (no_incoming i s e)) ((p, q, g), refl)
  | inr e ↦
      let hung : e.0.we_hung_up ≡ true = ground (arith, e.1, q) in
      let same : deliver (incoming_call_state i) s ≡ on_incoming_call_state i e.0 s =
        ground (arith, e.1) in
      let step = on_incoming_call_state-quiet i e.0 s hung q in
      subst (λ k. Quiet k × (hangups k ≡ hangups s)) (sym same)
        ((ap is_quiet step.0 ∙ p, step.1, on_incoming_call_state-forgotten i e.0 s ∙ g), step.2)
]
deliver-Quiet (reg_state r n) s h = (h, refl)

pub deliver_all-Quiet :
    (es : List SipEvent) (s : Calls)
    → Quiet s
    → Quiet (deliver_all es s) × (hangups (deliver_all es s) ≡ hangups s)
unfolding deliver_all
deliver_all-Quiet [] s h = (h, refl)
deliver_all-Quiet (e ∷ es) s h =
    let one = deliver-Quiet e s h in
    let rest = deliver_all-Quiet es (deliver e s) one.0 in (rest.0, rest.1 ∙ one.1)

deliver-forgotten : (e : SipEvent) (s : Calls) → s.forgotten ≡ [] → (deliver e s).forgotten ≡ []
unfolding deliver on_reg_state
deliver-forgotten (bridge_call_state i) s g = elim (Option-cases s.sip_call) [
  | inl e ↦ ap (λ k. k.forgotten) (no_bridge i s e) ∙ g
  | inr e ↦
      let same : deliver (bridge_call_state i) s ≡ on_bridge_call_state i e.0 s =
        ground (arith, e.1) in
      ap (λ k. k.forgotten) same ∙ on_bridge_call_state-forgotten i e.0 s ∙ g
]
deliver-forgotten (forgotten_call_state k i) s g =
    ap (λ x. x.forgotten) (no_forgotten k i s (nth_call-empty k s.forgotten g)) ∙ g
deliver-forgotten (incoming_call_state i) s g = elim (Option-cases s.incoming_sip_call) [
  | inl e ↦ ap (λ k. k.forgotten) (no_incoming i s e) ∙ g
  | inr e ↦
      let same : deliver (incoming_call_state i) s ≡ on_incoming_call_state i e.0 s =
        ground (arith, e.1) in
      ap (λ k. k.forgotten) same ∙ on_incoming_call_state-forgotten i e.0 s ∙ g
]
deliver-forgotten (reg_state r n) s g = g

pub deliver_all-forgotten :
    (es : List SipEvent) (s : Calls) → s.forgotten ≡ [] → (deliver_all es s).forgotten ≡ []
unfolding deliver_all
deliver_all-forgotten [] s g = g
deliver_all-forgotten (e ∷ es) s g =
    deliver_all-forgotten es (deliver e s) (deliver-forgotten e s g)
