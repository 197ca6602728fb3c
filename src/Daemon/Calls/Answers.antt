-- ===== src/Daemon/Calls/Answers.antt =====
-- An answer from the PBX is passed on once for each call that was placed.
use signal2sip.Base.{
  ℕ, ◌+◌, ◌≤◌, ◌≡◌, refl, sym, ap, zero, suc, subst, inl, inr, Bool, true, false, Option, none,
  some, List, [], ◌∷◌, arith, if◌then◌else◌, Option-cases,
}
use signal2sip.Daemon.Calls.{
  InvState, confirmed, disconnected, other_inv_state, SipCall, Effect, accept, signal_hangup,
  make_call, sip_hangup, Calls, note, on_bridge_call_state, on_incoming_call_state, on_reg_state,
  nth_call, put_call, on_forgotten_call_state, forgotten_call_state, SipEvent, bridge_call_state,
  incoming_call_state, reg_state, deliver, deliver_all, stop_sip_bridge, stop_incoming_sip_call,
}
use signal2sip.Daemon.Calls.Quiet.{count, count-snoc}

unfoldable pub is_accept : Effect → Bool
is_accept (accept id) = true
is_accept _ = false

unfoldable pub is_dial : Effect → Bool
is_dial (make_call uri headers) = true
is_dial _ = false

-- A placed call whose answer has not been passed on yet.
unfoldable pub unanswered : Option SipCall → ℕ
unanswered none = 0
unanswered (some c) = if c.accept_sent then 0 else 1

unfoldable pub all_unanswered : List SipCall → ℕ
all_unanswered [] = 0
all_unanswered (c ∷ cs) = unanswered (some c) + all_unanswered cs

-- No more calls accepted than placed, an unanswered one counted already.
unfoldable pub Bounded : Calls → Type 0
Bounded s =
    count is_accept s.log + unanswered s.sip_call + all_unanswered s.forgotten ≤ count is_dial s.log

put_call-unanswered :
    (k : ℕ) (c d : SipCall) (cs : List SipCall)
    → nth_call k cs ≡ some c
    → all_unanswered (put_call k d cs) + unanswered (some c)
      ≡ all_unanswered cs + unanswered (some d)
unfolding nth_call put_call all_unanswered
put_call-unanswered k c d [] h = absurd cc
put_call-unanswered zero c d (b ∷ cs) h =
    let same : b ≡ c = cc in
    let equal : unanswered (some b) ≡ unanswered (some c) = ap (λ x. unanswered (some x)) same in
    omega (arith, equal)
put_call-unanswered (suc k) c d (b ∷ cs) h = omega (arith, put_call-unanswered k c d cs h)

pub note-Bounded : (e : Effect) (s : Calls) → is_accept e ≡ false → Bounded s → Bounded (note e s)
unfolding Bounded note
note-Bounded e s h b = ground (arith, h, count-snoc is_accept s.log e, count-snoc is_dial s.log e)

pub on_bridge_call_state-Bounded :
    (i : InvState) (c : SipCall) (s : Calls)
    → s.sip_call ≡ some c
    → Bounded s
    → Bounded (on_bridge_call_state i c s)
unfolding Bounded on_bridge_call_state note unanswered is_accept is_dial
on_bridge_call_state-Bounded confirmed c s h b = ground (
  arith,
  h,
  count-snoc is_accept s.log (accept s.active_call_id),
  count-snoc is_dial s.log (accept s.active_call_id),
)
on_bridge_call_state-Bounded disconnected c s h b =
    ground
      (arith, h, count-snoc is_accept s.log signal_hangup, count-snoc is_dial s.log signal_hangup)
on_bridge_call_state-Bounded other_inv_state c s h b = b

on_forgotten_call_state-Bounded :
    (k : ℕ) (i : InvState) (c : SipCall) (s : Calls)
    → nth_call k s.forgotten ≡ some c
    → Bounded s
    → Bounded (on_forgotten_call_state k i c s)
unfolding Bounded on_forgotten_call_state note unanswered is_accept is_dial
on_forgotten_call_state-Bounded k confirmed c s h b = ground (
  arith,
  put_call-unanswered k c (record c { accept_sent = true }) s.forgotten h,
  count-snoc is_accept s.log (accept s.active_call_id),
  count-snoc is_dial s.log (accept s.active_call_id),
)
on_forgotten_call_state-Bounded k disconnected c s h b = ground (
  arith,
  put_call-unanswered k c (record c { is_disconnected = true }) s.forgotten h,
  count-snoc is_accept s.log signal_hangup,
  count-snoc is_dial s.log signal_hangup,
)
on_forgotten_call_state-Bounded k other_inv_state c s h b = b

pub on_incoming_call_state-Bounded :
    (i : InvState) (c : SipCall) (s : Calls) → Bounded s → Bounded (on_incoming_call_state i c s)
unfolding Bounded on_incoming_call_state note unanswered is_accept is_dial
on_incoming_call_state-Bounded confirmed c s b = b
on_incoming_call_state-Bounded disconnected c s b =
    ground (arith, count-snoc is_accept s.log signal_hangup, count-snoc is_dial s.log signal_hangup)
on_incoming_call_state-Bounded other_inv_state c s b = b

pub on_reg_state-Bounded : (r : Bool) (n : ℕ) (s : Calls) → Bounded s → Bounded (on_reg_state r n s)
unfolding Bounded on_reg_state
on_reg_state-Bounded r n s b = b

pub deliver-Bounded : (e : SipEvent) (s : Calls) → Bounded s → Bounded (deliver e s)
unfolding deliver
deliver-Bounded (bridge_call_state i) s b = elim (Option-cases s.sip_call) [
  | inl e ↦
      let same : deliver (bridge_call_state i) s ≡ s = ground (arith, e) in
      subst Bounded (sym same) b
  | inr e ↦
      let same : deliver (bridge_call_state i) s ≡ on_bridge_call_state i e.0 s =
        ground (arith, e.1) in
      subst Bounded (sym same) (on_bridge_call_state-Bounded i e.0 s e.1 b)
]
deliver-Bounded (forgotten_call_state k i) s b = elim (Option-cases (nth_call k s.forgotten)) [
  | inl e ↦
      let same : deliver (forgotten_call_state k i) s ≡ s = ground (arith, e) in
      subst Bounded (sym same) b
  | inr e ↦
      let same : deliver (forgotten_call_state k i) s ≡ on_forgotten_call_state k i e.0 s =
        ground (arith, e.1) in
      subst Bounded (sym same) (on_forgotten_call_state-Bounded k i e.0 s e.1 b)
]
deliver-Bounded (incoming_call_state i) s b = elim (Option-cases s.incoming_sip_call) [
  | inl e ↦
      let same : deliver (incoming_call_state i) s ≡ s = ground (arith, e) in
      subst Bounded (sym same) b
  | inr e ↦
      let same : deliver (incoming_call_state i) s ≡ on_incoming_call_state i e.0 s =
        ground (arith, e.1) in
      subst Bounded (sym same) (on_incoming_call_state-Bounded i e.0 s b)
]
deliver-Bounded (reg_state r n) s b = on_reg_state-Bounded r n s b

pub deliver_all-Bounded : (es : List SipEvent) (s : Calls) → Bounded s → Bounded (deliver_all es s)
unfolding deliver_all
deliver_all-Bounded [] s b = b
deliver_all-Bounded (e ∷ es) s b = deliver_all-Bounded es (deliver e s) (deliver-Bounded e s b)

-- Dropping a call, and changing what the count does not read.
pub dropped-Bounded :
    (s : Calls) → Bounded s → Bounded (record s { sip_call = none; bridge = false })
unfolding Bounded unanswered
dropped-Bounded s b = omega arith

pub hung_up-Bounded :
    (c : SipCall) (s : Calls)
    → s.sip_call ≡ some c
    → Bounded s
    → Bounded (record s { sip_call = some (record c { we_hung_up = true }) })
unfolding Bounded unanswered
hung_up-Bounded c s e b = ground (arith, e)

pub same-Bounded :
    (s t : Calls)
    → s.log ≡ t.log
    → s.sip_call ≡ t.sip_call
    → s.forgotten ≡ t.forgotten
    → Bounded s
    → Bounded t
unfolding Bounded
same-Bounded s t e f g b =
    let a : count is_accept s.log ≡ count is_accept t.log = ap (count is_accept) e in
    let d : count is_dial s.log ≡ count is_dial t.log = ap (count is_dial) e in
    let u : unanswered s.sip_call ≡ unanswered t.sip_call = ap unanswered f in
    let v : all_unanswered s.forgotten ≡ all_unanswered t.forgotten = ap all_unanswered g in
    omega (arith, a, d, u, v, b)

pub hangup_noted-Bounded : (s : Calls) → Bounded s → Bounded (note sip_hangup s)
unfolding is_accept
hangup_noted-Bounded s b = note-Bounded sip_hangup s refl b

pub stop_sip_bridge-Bounded :
    (waiting : List SipEvent) (s : Calls) → Bounded s → Bounded (stop_sip_bridge waiting s)
unfolding stop_sip_bridge
stop_sip_bridge-Bounded waiting s b = elim (Option-cases s.sip_call) [
  | inl e ↦
      let after : stop_sip_bridge waiting s ≡ record s { bridge = false } = ground (arith, e) in
      subst Bounded (sym after) (same-Bounded s (record s { bridge = false }) refl refl refl b)
  | inr e ↦
      let marked : Calls = record s { sip_call = some (record e.0 { we_hung_up = true }) } in
      let hung_up : Calls = note sip_hangup marked in
      let after : stop_sip_bridge waiting s
          ≡ record (deliver_all waiting hung_up) { sip_call = none; bridge = false } =
        ground (arith, e.1) in
      subst Bounded (sym after) (
        dropped-Bounded (deliver_all waiting hung_up) (
          deliver_all-Bounded waiting hung_up
            (hangup_noted-Bounded marked (hung_up-Bounded e.0 s e.1 b))))
]

pub stop_incoming_sip_call-Bounded :
    (waiting : List SipEvent) (s : Calls) → Bounded s → Bounded (stop_incoming_sip_call waiting s)
unfolding stop_incoming_sip_call
stop_incoming_sip_call-Bounded waiting s b = elim (Option-cases s.incoming_sip_call) [
  | inl e ↦
      let after : stop_incoming_sip_call waiting s ≡ record s { bridge = false } =
        ground (arith, e) in
      subst Bounded (sym after) (same-Bounded s (record s { bridge = false }) refl refl refl b)
  | inr e ↦
      let marked : Calls = record s {
        incoming_sip_call = some (record e.0 { we_hung_up = true });
      } in
      let hung_up : Calls = note sip_hangup marked in
      let last : Calls = deliver_all waiting hung_up in
      let after : stop_incoming_sip_call waiting s
          ≡ record last { incoming_sip_call = none; bridge = false } =
        ground (arith, e.1) in
      subst Bounded (sym after) (
        same-Bounded last (record last { incoming_sip_call = none; bridge = false }) refl refl refl
          (deliver_all-Bounded waiting hung_up
            (hangup_noted-Bounded marked (same-Bounded s marked refl refl refl b))))
]
