-- ===== src/Daemon/Watchdog/Refused.antt =====
-- daemon/main.cpp, the loop of `main`: an account whose credentials Signal has rejected.
use signal2sip.Base.{
  ℕ, suc, ◌+◌, ◌*◌, ◌≤◌, ◌≡◌, refl, sym, ap, subst, ◌∙◌, inl, inr, Bool, true, false, not, ◌&&◌,
  ◌||◌, Option, none, some, List, [], ◌∷◌, arith, leb, All, if◌then◌else◌, Bool-cases,
}
use signal2sip.Base.{if-both, if-true, if-false}
use signal2sip.Config.Load.{GlobalConfig}
use signal2sip.Socket.{
  Socket, Attempt, ErrorCode, connection_invalidated, connected_elsewhere, web_socket_generic,
  device_deregistered, other_error, on_connection_interrupted,
}
use signal2sip.Daemon.Watchdog.{
  Deed, set_registration, reconnect, alert, sync_contacts, Watched, did, request_registration,
  is_refused, registration_watchdog, alert_once, when_down, notice, watch_socket, storage_sync,
  Moment, tick, interruption, registration, reload, loop_round, interrupt, happens, loop_run,
}

-- The attempts to connect, the last one first, by the clock of their ticks.
unfoldable pub attempts : List Deed → List ℕ
attempts [] = []
attempts (reconnect t ∷ ds) = t ∷ attempts ds
attempts (set_registration up ∷ ds) = attempts ds
attempts (alert ∷ ds) = attempts ds
attempts (sync_contacts t ∷ ds) = attempts ds

-- How often SIP was asked to come up.
pub ups : List Deed → ℕ
ups [] = 0
ups (set_registration true ∷ ds) = suc (ups ds)
ups (set_registration false ∷ ds) = ups ds
ups (reconnect t ∷ ds) = ups ds
ups (alert ∷ ds) = ups ds
ups (sync_contacts t ∷ ds) = ups ds

pub alerts : List Deed → ℕ
alerts [] = 0
alerts (alert ∷ ds) = suc (alerts ds)
alerts (set_registration up ∷ ds) = alerts ds
alerts (reconnect t ∷ ds) = alerts ds
alerts (sync_contacts t ∷ ds) = alerts ds

-- The socket is there, disconnected, and its credentials are refused.
pub record IsDead (o : Option Socket) : Type 0 where
  pub socket : Socket
  pub is : o ≡ some socket
  pub refused : socket.deauthorized ≡ true
  pub down : socket.connected ≡ false

-- A reload may leave the account alone; else it is another account that goes on.
unfoldable pub keeps_account : Moment → Bool
keeps_account (tick g t u a) = true
keeps_account (interruption e) = true
keeps_account (registration up t) = true
keeps_account (reload none) = true
keeps_account (reload (some fresh)) = false

-- What is kept, with the attempts, requests and alerts there were before.
record GivenUp (ts : List ℕ) (n b : ℕ) (w : Watched) : Type 0 where
  dead : IsDead w.socket
  tried : attempts w.deeds ≡ ts
  raised : ups w.deeds ≡ n
  alerted : alerts w.deeds ≡ b + (if w.deauthorized_alerted then 1 else 0)

IsDead-refused : (w : Watched) → IsDead w.socket → is_refused w.socket ≡ true
unfolding is_refused
IsDead-refused w d = ap is_refused d.is ∙ d.refused

interrupted-IsDead :
    (e : Option ErrorCode) (s : Socket)
    → s.deauthorized ≡ true
    → IsDead (some (on_connection_interrupted e s))
unfolding on_connection_interrupted
interrupted-IsDead none s r = record { socket = _; is = refl; refused = r; down = refl }
interrupted-IsDead (some connection_invalidated) s r = record {
  socket = _;
  is = refl;
  refused = refl;
  down = refl;
}
interrupted-IsDead (some connected_elsewhere) s r = record {
  socket = _;
  is = refl;
  refused = r;
  down = refl;
}
interrupted-IsDead (some web_socket_generic) s r = record {
  socket = _;
  is = refl;
  refused = r;
  down = refl;
}
interrupted-IsDead (some device_deregistered) s r = record {
  socket = _;
  is = refl;
  refused = r;
  down = refl;
}
interrupted-IsDead (some other_error) s r = record {
  socket = _;
  is = refl;
  refused = r;
  down = refl;
}

or_right : (a : Bool) {b : Bool} → b ≡ true → (a || b) ≡ true
or_right true h = refl
or_right false h = h

module _ {ts : List ℕ} {n b : ℕ} where
  first-GivenUp :
      (g : GlobalConfig) (t : ℕ) (w : Watched)
      → GivenUp ts n b w
      → GivenUp ts n b (registration_watchdog g t w)
  unfolding registration_watchdog
  first-GivenUp g t w k =
      let skipped : (not w.sip || is_refused w.socket) ≡ true =
        or_right (not w.sip) (IsDead-refused w k.dead) in
      subst (GivenUp ts n b) (sym (if-true w _ skipped)) k

  request-GivenUp : (w : Watched) → GivenUp ts n b w → GivenUp ts n b (request_registration false w)
  unfolding request_registration did attempts ups alerts
  request-GivenUp w k =
      if-both (GivenUp ts n b) w.sip
        (record { dead = k.dead; tried = k.tried; raised = k.raised; alerted = k.alerted }) k

  notice-GivenUp : (s : Socket) (w : Watched) → GivenUp ts n b w → GivenUp ts n b (notice s w)
  unfolding notice
  notice-GivenUp s w k =
      let seen : GivenUp ts n b
          (if w.socket_connected && not s.connected then request_registration false w else w) =
        if-both (GivenUp ts n b) (w.socket_connected && not s.connected) (request-GivenUp w k) k in
      record { dead = seen.dead; tried = seen.tried; raised = seen.raised; alerted = seen.alerted }

  alert-GivenUp : (w : Watched) → GivenUp ts n b w → GivenUp ts n b (alert_once w)
  unfolding alert_once did attempts ups alerts
  alert-GivenUp w k = elim (Bool-cases w.deauthorized_alerted) [
    | inl t ↦ subst (GivenUp ts n b) (sym (if-true w _ t)) k
    | inr f ↦
        let none_more : alerts w.deeds ≡ b + 0 =
          subst (λ x. alerts w.deeds ≡ b + (if x then 1 else 0)) f k.alerted in
        let last_one : suc (alerts w.deeds) ≡ b + 1 = omega arith in
        subst (GivenUp ts n b) (sym (if-false w _ f))
          (record { dead = k.dead; tried = k.tried; raised = k.raised; alerted = last_one })
  ]

  down-GivenUp :
      (a : Attempt) (t : ℕ) (s : Socket) (w : Watched)
      → s.deauthorized ≡ true
      → GivenUp ts n b w
      → GivenUp ts n b (when_down a t s w)
  unfolding when_down
  down-GivenUp a t s w r k =
      subst (GivenUp ts n b) (sym (if-true (alert_once w) _ r)) (alert-GivenUp w k)

  watch-GivenUp :
      (a : Attempt) (t : ℕ) (o : Option Socket) (w : Watched)
      → IsDead o
      → GivenUp ts n b w
      → GivenUp ts n b (watch_socket a t o w)
  unfolding watch_socket
  watch-GivenUp a t none w d k = k
  watch-GivenUp a t (some s) w d k =
      let same : s ≡ d.socket = cc in
      let refused : s.deauthorized ≡ true = ap (λ x. x.deauthorized) same ∙ d.refused in
      let down : s.connected ≡ false = ap (λ x. x.connected) same ∙ d.down in
      subst (GivenUp ts n b) (sym (if-false (notice s w) _ down))
        (down-GivenUp a t s (notice s w) refused (notice-GivenUp s w k))

  storage-GivenUp :
      (g : GlobalConfig) (t u : ℕ) (w : Watched)
      → GivenUp ts n b w
      → GivenUp ts n b (storage_sync g t u w)
  unfolding storage_sync did attempts ups alerts
  storage-GivenUp g t u w k =
      if-both (GivenUp ts n b) (leb (w.last_storage_sync_ms + g.storage_sync_interval_sec * 1000) t)
        (record { dead = k.dead; tried = k.tried; raised = k.raised; alerted = k.alerted }) k

  interrupt-GivenUp :
      (e : Option ErrorCode) (o : Option Socket) (w : Watched)
      → IsDead o
      → GivenUp ts n b w
      → GivenUp ts n b (interrupt e o w)
  unfolding interrupt
  interrupt-GivenUp e none w d k = k
  interrupt-GivenUp e (some s) w d k =
      let same : s ≡ d.socket = cc in
      let refused : s.deauthorized ≡ true = ap (λ x. x.deauthorized) same ∙ d.refused in
      record {
        dead = interrupted-IsDead e s refused;
        tried = k.tried;
        raised = k.raised;
        alerted = k.alerted;
      }

  happens-GivenUp :
      (m : Moment) (w : Watched)
      → keeps_account m ≡ true
      → GivenUp ts n b w
      → GivenUp ts n b (happens w m)
  unfolding happens loop_round keeps_account
  happens-GivenUp (tick g t u a) w h k =
      let first = registration_watchdog g t w in
      let still : GivenUp ts n b first = first-GivenUp g t w k in
      storage-GivenUp g t u (watch_socket a t first.socket first)
        (watch-GivenUp a t first.socket first still.dead still)
  happens-GivenUp (interruption e) w h k = interrupt-GivenUp e w.socket w k.dead k
  happens-GivenUp (reload none) w h k = k
  happens-GivenUp (reload (some fresh)) w h k = absurd cc
  happens-GivenUp (registration up t) w h k = record {
    dead = k.dead;
    tried = k.tried;
    raised = k.raised;
    alerted = k.alerted;
  }

  run-GivenUp :
      (ms : List Moment) (w : Watched)
      → All (λ m. keeps_account m ≡ true) ms
      → GivenUp ts n b w
      → GivenUp ts n b (loop_run ms w)
  unfolding loop_run
  run-GivenUp [] w h k = k
  run-GivenUp (m ∷ ms) w h k = run-GivenUp ms (happens w m) (h.1) (happens-GivenUp m w (h.0) k)

at_most_one : (b : ℕ) (x : Bool) → b + (if x then 1 else 0) ≤ b + 1
at_most_one b true = omega arith
at_most_one b false = omega arith

-- Once Signal has rejected an account's credentials, its connection is down and the administrator
-- has not been told yet: over any further ticks, callbacks and reloads that do not set the account
-- up anew there is no attempt to connect, SIP is not asked to come up, the administrator is told at
-- most once, and the socket stays down and refused.
pub loop_run-IsDead :
    (ms : List Moment) (w : Watched)
    → All (λ m. keeps_account m ≡ true) ms
    → IsDead w.socket
    → w.deauthorized_alerted ≡ false
    → IsDead (loop_run ms w).socket
      × (attempts (loop_run ms w).deeds ≡ attempts w.deeds)
      × (ups (loop_run ms w).deeds ≡ ups w.deeds)
      × (alerts (loop_run ms w).deeds ≤ alerts w.deeds + 1)
loop_run-IsDead ms w h d f =
    let none_yet : alerts w.deeds ≡ alerts w.deeds + 0 = omega arith in
    let before : alerts w.deeds ≡ alerts w.deeds + (if w.deauthorized_alerted then 1 else 0) =
      none_yet ∙ sym (ap (λ x. alerts w.deeds + (if x then 1 else 0)) f) in
    let k : GivenUp (attempts w.deeds) (ups w.deeds) (alerts w.deeds) (loop_run ms w) =
      run-GivenUp ms w h (record { dead = d; tried = refl; raised = refl; alerted = before }) in
    (
      k.dead,
      k.tried,
      k.raised,
      subst (λ m. m ≤ alerts w.deeds + 1) (sym k.alerted)
          (at_most_one (alerts w.deeds) (loop_run ms w).deauthorized_alerted),
    )
