-- ===== src/Daemon/Watchdog/Recovery.antt =====
-- daemon/main.cpp, the loop of `main`: the end of an outage of the connection to Signal.
use signal2sip.Base.{
  ℕ, ◌+◌, ◌*◌, ◌≤◌, ◌≡◌, refl, sym, ap, subst, ◌∙◌, Bool, true, false, not, ◌&&◌, ◌||◌, Option,
  none, some, List, [], ◌∷◌, ◌++◌, arith, leb, ◌==◌, if◌then◌else◌,
}
use signal2sip.Base.{if-both, if-true, if-false}
use signal2sip.Config.Load.{GlobalConfig}
use signal2sip.Socket.{
  Socket, Attempt, call_fails, times_out, fails, connects, connects_cut, listener_fails,
  device_deregistered, connection_invalidated, connected_elsewhere, web_socket_generic, other_error,
  attempted, dropped, drop_chat, do_connect,
}
use signal2sip.Socket.Handles.{drop_chat-connected}
use signal2sip.Daemon.Watchdog.{
  Deed, set_registration, reconnect, alert, sync_contacts, Watched, socket_reconnect_interval_ms,
  did, request_registration, is_refused, registration_watchdog, reconnected, try_reconnect,
  when_down, notice, watch_socket, storage_sync, Moment, tick, reload, loop_round, happens,
  loop_run,
}

-- The last thing asked of the SIP registration.
unfoldable pub last_request : List Deed → Option Bool
last_request [] = none
last_request (set_registration up ∷ ds) = some up
last_request (reconnect t ∷ ds) = last_request ds
last_request (alert ∷ ds) = last_request ds
last_request (sync_contacts t ∷ ds) = last_request ds

-- An attempt that fails, though not because the device is no longer registered.
unfoldable pub is_transient : Attempt → Bool
is_transient call_fails = true
is_transient times_out = true
is_transient (fails device_deregistered) = false
is_transient (fails connection_invalidated) = true
is_transient (fails connected_elsewhere) = true
is_transient (fails web_socket_generic) = true
is_transient (fails other_error) = true
is_transient (connects h) = false
is_transient (connects_cut h late e) = false
is_transient (listener_fails h) = true

-- Ticks, each at least the interval after the one before, whose attempts fail; the indices are
-- the times of the attempt before and of the last. A reload in between leaves the account alone.
pub data Outage : ℕ → List Moment → ℕ → Type 0 where
  over : (t : ℕ) → Outage t [] t
  goes_on :
      {last end : ℕ} {ms : List Moment} (g : GlobalConfig) (t u : ℕ) (a : Attempt)
      → last + socket_reconnect_interval_ms ≤ t
      → is_transient a ≡ true
      → Outage t ms end
      → Outage last (tick g t u a ∷ ms) end
  kept : {last end : ℕ} {ms : List Moment} → Outage last ms end → Outage last (reload none ∷ ms) end

pub record IsDown (o : Option Socket) : Type 0 where
  pub socket : Socket
  pub is : o ≡ some socket
  pub accepted : socket.deauthorized ≡ false
  pub down : socket.connected ≡ false

record Waiting (last : ℕ) (sip : Bool) (w : Watched) : Type 0 where
  off : IsDown w.socket
  since : w.last_socket_reconnect_attempt_ms ≡ last
  line : w.sip ≡ sip

≤→leb : (a b : ℕ) → a ≤ b → leb a b ≡ true
≤→leb a b h = ground arith

dropped-deauthorized : (o : Option ℕ) (s : Socket) → (dropped o s).deauthorized ≡ s.deauthorized
unfolding dropped
dropped-deauthorized none s = refl
dropped-deauthorized (some h) s = refl

-- A transient failure leaves the socket down and its credentials accepted.
attempted-transient :
    (a : Attempt) (s : Socket)
    → is_transient a ≡ true
    → s.deauthorized ≡ false
    → s.connected ≡ false
    → ((attempted a s).0 ≡ false) × IsDown (some ((attempted a s).1))
unfolding attempted is_transient
attempted-transient call_fails s h d c =
    (refl, record { socket = _; is = refl; accepted = d; down = c })
attempted-transient times_out s h d c =
    (refl, record { socket = _; is = refl; accepted = d; down = c })
attempted-transient (fails device_deregistered) s h d c = absurd cc
attempted-transient (fails connection_invalidated) s h d c =
    (refl, record { socket = _; is = refl; accepted = d; down = c })
attempted-transient (fails connected_elsewhere) s h d c =
    (refl, record { socket = _; is = refl; accepted = d; down = c })
attempted-transient (fails web_socket_generic) s h d c =
    (refl, record { socket = _; is = refl; accepted = d; down = c })
attempted-transient (fails other_error) s h d c =
    (refl, record { socket = _; is = refl; accepted = d; down = c })
attempted-transient (connects k) s h d c = absurd cc
attempted-transient (connects_cut k late e) s h d c = absurd cc
attempted-transient (listener_fails k) s h d c =
    (refl, record { socket = _; is = refl; accepted = d; down = c })

connect-transient :
    (a : Attempt) (s : Socket)
    → is_transient a ≡ true
    → s.deauthorized ≡ false
    → ((do_connect a s).0 ≡ false) × IsDown (some ((do_connect a s).1))
unfolding do_connect drop_chat
connect-transient a s h d =
    let cut : Socket = record s { connected = false } in
    attempted-transient a (drop_chat cut) h (dropped-deauthorized s.chat cut ∙ d)
      (drop_chat-connected cut)

module _ {last : ℕ} {sip : Bool} where
  first-Waiting :
      (g : GlobalConfig) (t : ℕ) (w : Watched)
      → Waiting last sip w
      → Waiting last sip (registration_watchdog g t w)
  unfolding registration_watchdog did
  first-Waiting g t w k = if-both (Waiting last sip) (not w.sip || is_refused w.socket) k (
      if-both (Waiting last sip)
        (not (w.unregistered_since_ms == 0)
          && leb (w.unregistered_since_ms + g.sip_reg_watchdog_sec * 1000) t)
        (record { off = k.off; since = k.since; line = k.line }) k)

  request-Waiting :
      (up : Bool) (w : Watched) → Waiting last sip w → Waiting last sip (request_registration up w)
  unfolding request_registration did
  request-Waiting up w k =
      if-both (Waiting last sip) w.sip (record { off = k.off; since = k.since; line = k.line }) k

  notice-Waiting : (s : Socket) (w : Watched) → Waiting last sip w → Waiting last sip (notice s w)
  unfolding notice
  notice-Waiting s w k =
      let seen : Waiting last sip
          (if w.socket_connected && not s.connected then request_registration false w else w) =
        if-both (Waiting last sip) (w.socket_connected && not s.connected)
          (request-Waiting false w k) k in
      record { off = seen.off; since = seen.since; line = seen.line }

  storage-Waiting :
      (g : GlobalConfig) (t u : ℕ) (w : Watched)
      → Waiting last sip w
      → Waiting last sip (storage_sync g t u w)
  unfolding storage_sync did
  storage-Waiting g t u w k =
      if-both (Waiting last sip)
        (leb (w.last_storage_sync_ms + g.storage_sync_interval_sec * 1000) t)
        (record { off = k.off; since = k.since; line = k.line }) k

  -- With the socket down and the interval over, the loop tries again.
  watch-tries :
      (a : Attempt) (t : ℕ) (o : Option Socket) (w : Watched)
      → last + socket_reconnect_interval_ms ≤ t
      → (off : IsDown o) → Waiting last sip w
      → watch_socket a t o w ≡ try_reconnect a t off.socket (notice off.socket w)
  unfolding watch_socket when_down
  watch-tries a t none w le d k = absurd cc
  watch-tries a t (some s) w le d k =
      let same : s ≡ d.socket = cc in
      let seen : Waiting last sip (notice d.socket w) = notice-Waiting d.socket w k in
      let due : leb
            ((notice d.socket w).last_socket_reconnect_attempt_ms + socket_reconnect_interval_ms) t
          ≡ true =
        ≤→leb _ _ (subst (λ x. x + socket_reconnect_interval_ms ≤ t) (sym seen.since) le) in
      ap (λ x. if x.connected then notice x w else when_down a t x (notice x w)) same
      ∙ if-false (notice d.socket w) _ d.down
      ∙ if-false _ _ d.accepted
      ∙ if-true _ _ due

reconnected-Waiting :
    {last : ℕ} {sip : Bool} (b : Bool) (w : Watched)
    → b ≡ false
    → Waiting last sip w
    → Waiting last sip (reconnected b w)
unfolding reconnected
reconnected-Waiting true w e k = absurd cc
reconnected-Waiting false w e k = k

round-transient :
    {last : ℕ} {sip : Bool} (g : GlobalConfig) (t u : ℕ) (a : Attempt) (w : Watched)
    → last + socket_reconnect_interval_ms ≤ t
    → is_transient a ≡ true
    → Waiting last sip w
    → Waiting t sip (loop_round g t u a w)
unfolding loop_round try_reconnect
round-transient {last} {sip} g t u a w le h k =
    let first : Watched = registration_watchdog g t w in
    let still : Waiting last sip first = first-Waiting g t w k in
    let s = still.off.socket in
    let seen : Waiting last sip (notice s first) = notice-Waiting s first still in
    let failed : ((do_connect a s).0 ≡ false) × IsDown (some ((do_connect a s).1)) =
      connect-transient a s h still.off.accepted in
    let tried : Waiting t sip (try_reconnect a t s (notice s first)) =
      reconnected-Waiting ((do_connect a s).0) _ (failed.0)
        (record { off = failed.1; since = refl; line = seen.line }) in
    storage-Waiting g t u _
      (subst (Waiting t sip) (sym (watch-tries a t first.socket first le still.off still)) tried)

-- The state once an attempt has succeeded.
pub record Recovered (h : ℕ) (w : Watched) : Type 0 where
  pub socket : Socket
  pub is : w.socket ≡ some socket
  pub connected : socket.connected ≡ true
  pub chat : socket.chat ≡ some h
  pub seen : w.socket_connected ≡ true
  pub raised : last_request w.deeds ≡ some true

storage-Recovered :
    (g : GlobalConfig) (t u h : ℕ) (w : Watched)
    → Recovered h w
    → Recovered h (storage_sync g t u w)
unfolding storage_sync did last_request
storage-Recovered g t u h w k =
    if-both (Recovered h) (leb (w.last_storage_sync_ms + g.storage_sync_interval_sec * 1000) t)
      (record {
        socket = k.socket;
        is = k.is;
        connected = k.connected;
        chat = k.chat;
        seen = k.seen;
        raised = k.raised;
      })
      k

reconnected-Recovered :
    (h : ℕ) (s : Socket) (w : Watched)
    → w.socket ≡ some s
    → s.connected ≡ true
    → s.chat ≡ some h
    → w.sip ≡ true
    → Recovered h (reconnected true w)
unfolding reconnected request_registration did last_request
reconnected-Recovered h s w e c o line =
    subst (Recovered h) (sym (if-true _ _ line))
      (record { socket = s; is = e; connected = c; chat = o; seen = refl; raised = refl })

round-recovers :
    {last : ℕ} (g : GlobalConfig) (t u h : ℕ) (w : Watched)
    → last + socket_reconnect_interval_ms ≤ t
    → Waiting last true w
    → Recovered h (loop_round g t u (connects h) w)
unfolding loop_round try_reconnect do_connect attempted
round-recovers {last} g t u h w le k =
    let first : Watched = registration_watchdog g t w in
    let still : Waiting last true first = first-Waiting g t w k in
    let s = still.off.socket in
    let up : Recovered h (try_reconnect (connects h) t s (notice s first)) =
      reconnected-Recovered h _ _ refl refl refl (notice-Waiting s first still).line in
    storage-Recovered g t u h _ (
      subst (Recovered h) (sym (watch-tries (connects h) t first.socket first le still.off still))
        up)

run-recovers :
    {last end : ℕ} {ms : List Moment} (g : GlobalConfig) (t u h : ℕ) (w : Watched)
    → Outage last ms end
    → end + socket_reconnect_interval_ms ≤ t
    → Waiting last true w
    → Recovered h (loop_run (ms ++ (tick g t u (connects h) ∷ [])) w)
unfolding loop_run happens
run-recovers g t u h w (over last) le k = round-recovers g t u h w le k
run-recovers g t u h w (kept rest) le k = run-recovers g t u h w rest le k
run-recovers g t u h w (goes_on i n m a due e rest) le k =
    run-recovers g t u h (loop_round i n m a w) rest le (round-transient i n m a w due e k)

-- An account with a SIP side whose connection to Signal is down, its credentials not rejected:
-- however many ticks, five seconds or more apart and with reloads that
-- leave the account alone in between, fail to connect for a transient reason, the
-- next such tick whose attempt succeeds leaves the socket connected with the new handle, the
-- loop knowing it, and SIP asked to come up as the last request.
pub loop_run-Recovered :
    {last end : ℕ} {ms : List Moment} (g : GlobalConfig) (t u h : ℕ) (w : Watched)
    → Outage last ms end
    → end + socket_reconnect_interval_ms ≤ t
    → IsDown w.socket
    → w.last_socket_reconnect_attempt_ms ≡ last
    → w.sip ≡ true
    → Recovered h (loop_run (ms ++ (tick g t u (connects h) ∷ [])) w)
loop_run-Recovered g t u h w o le d e line =
    run-recovers g t u h w o le (record { off = d; since = e; line = line })
