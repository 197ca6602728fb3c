-- ===== src/Daemon/Watchdog.antt =====
-- daemon/main.cpp, the loop of `main`: the registration watchdog, the watchdog on the connection
-- to Signal, and the periodic contact sync of an account. The loop goes over all accounts for
-- each of the three; no account reads another's state. Times are in milliseconds of the
-- steady clock; differences are written as sums.
pub mod Refused
pub mod Recovery
mod Tests
use signal2sip.Base.{
  ℕ, zero, suc, ◌+◌, ◌-◌, ◌*◌, ◌/◌, ◌%◌, ◌^◌, ◌≤◌, ◌<◌, ◌≡◌, refl, sym, ap, ap₂, subst, ◌∙◌, ◌≢◌,
  ◌↔◌, ◌⊎◌, inl, inr, Bool, true, false, not, ◌&&◌, ◌||◌, Option, none, some, List, [], ◌∷◌, ◌++◌,
  map, arith, ltb, leb, ◌==◌, if◌then◌else◌, ==_iff, Bool-cases, Option-cases, is_some, length,
  get_or, set, take, drop, replicate, is_empty, All, length-append, length-replicate, length-set,
  length-take-le, get_or-set_self, get_or-set_ne, take-append_left, drop-append_left, All-append,
  length-take, is_empty→nil, take-all, drop-all, get_or-append_right, suc-add, get_or-replicate,
  Bytes, IsByte, codes, eqb, eqb_refl, eqb→eq, eqb_iff, Result, ok, err, ◌>>=◌, ok_or, Result-cases,
}
use signal2sip.Base.Bits.{passes_below, passes_below→test, bit_or-shl}
use mathlib.Core.List.{append-nil, append_assoc}
use signal2sip.Config.Load.{GlobalConfig}
use signal2sip.Socket.{Socket, Attempt, ErrorCode, do_connect, on_connection_interrupted}

-- What the loop asks for; an attempt carries the clock that its tick has read at the start.
pub data Deed : Type 0 where
  set_registration : Bool → Deed
  reconnect : ℕ → Deed
  alert : Deed
  sync_contacts : ℕ → Deed

-- The fields of `AccountState` and `BridgeAccount` that the loop reads. `sip` says whether there
-- is a SIP account.
pub record Watched : Type 0 where
  pub socket : Option Socket
  pub socket_connected : Bool
  pub deauthorized_alerted : Bool
  pub last_socket_reconnect_attempt_ms : ℕ
  pub last_storage_sync_ms : ℕ
  pub sip : Bool
  pub unregistered_since_ms : ℕ
  pub deeds : List Deed

abbrev pub socket_reconnect_interval_ms : ℕ
socket_reconnect_interval_ms = 5000

unfoldable pub did : Deed → Watched → Watched
did d w = record w { deeds = d ∷ w.deeds }

unfoldable pub request_registration : Bool → Watched → Watched
request_registration up w = if w.sip then did (set_registration up) w else w

unfoldable pub is_refused : Option Socket → Bool
is_refused none = false
is_refused (some s) = s.deauthorized

-- The first loop of a tick.
unfoldable pub registration_watchdog : GlobalConfig → ℕ → Watched → Watched
registration_watchdog global now_ms w =
    let since = w.unregistered_since_ms in
    if not w.sip || is_refused w.socket
    then w
    else if not (since == 0) && leb (since + global.sip_reg_watchdog_sec * 1000) now_ms
    then record (did (set_registration true) w) { unregistered_since_ms = now_ms }
    else w

-- The second loop: what follows a reconnect. A failed one throws.
unfoldable pub reconnected : Bool → Watched → Watched
reconnected false w = w
reconnected true w =
    request_registration true (record w { socket_connected = true; deauthorized_alerted = false })

unfoldable pub try_reconnect : Attempt → ℕ → Socket → Watched → Watched
try_reconnect attempt now_ms s w =
    let result = do_connect attempt s in
    reconnected (result.0) (record w {
      socket = some (result.1);
      last_socket_reconnect_attempt_ms = now_ms;
      deeds = reconnect now_ms ∷ w.deeds;
    })

unfoldable pub alert_once : Watched → Watched
alert_once w =
    if w.deauthorized_alerted then w else record (did alert w) { deauthorized_alerted = true }

unfoldable pub when_down : Attempt → ℕ → Socket → Watched → Watched
when_down attempt now_ms s w =
    if s.deauthorized
    then alert_once w
    else if leb (w.last_socket_reconnect_attempt_ms + socket_reconnect_interval_ms) now_ms
    then try_reconnect attempt now_ms s w
    else w

unfoldable pub notice : Socket → Watched → Watched
notice s w =
    let seen : Watched =
      if w.socket_connected && not s.connected then request_registration false w else w in
    record seen { socket_connected = s.connected }

unfoldable pub watch_socket : Attempt → ℕ → Option Socket → Watched → Watched
watch_socket attempt now_ms none w = w
watch_socket attempt now_ms (some s) w =
    if s.connected then notice s w else when_down attempt now_ms s (notice s w)

-- The third loop; `syncStorageContacts` reads the clock again.
unfoldable pub storage_sync : GlobalConfig → ℕ → ℕ → Watched → Watched
storage_sync global now_ms sync_ms w =
    if leb (w.last_storage_sync_ms + global.storage_sync_interval_sec * 1000) now_ms
    then record (did (sync_contacts sync_ms) w) { last_storage_sync_ms = sync_ms }
    else w

-- A tick of the loop; what happens between two: a callback of the socket, or of PJSIP; and a
-- `reloadConfig`, on SIGHUP before a tick or on the poll before its three loops. It leaves the
-- account as it is, or takes it down and, it may be, sets it up again: the state then is an
-- argument, with what was asked for on the way.
pub data Moment : Type 0 where
  tick : GlobalConfig → ℕ → ℕ → Attempt → Moment
  interruption : Option ErrorCode → Moment
  registration : Bool → ℕ → Moment
  reload : Option Watched → Moment

unfoldable pub loop_round : GlobalConfig → ℕ → ℕ → Attempt → Watched → Watched
loop_round global now_ms sync_ms attempt w =
    let first = registration_watchdog global now_ms w in
    storage_sync global now_ms sync_ms (watch_socket attempt now_ms first.socket first)

unfoldable pub interrupt : Option ErrorCode → Option Socket → Watched → Watched
interrupt e none w = w
interrupt e (some s) w = record w { socket = some (on_connection_interrupted e s) }

unfoldable pub happens : Watched → Moment → Watched
happens w (tick global now_ms sync_ms attempt) = loop_round global now_ms sync_ms attempt w
happens w (interruption e) = interrupt e w.socket w
happens w (reload none) = w
happens w (reload (some fresh)) = record fresh { deeds = fresh.deeds ++ w.deeds }
happens w (registration is_active now_ms) = record w {
  unregistered_since_ms =
      if is_active
      then 0
      else if w.unregistered_since_ms == 0
      then now_ms
      else w.unregistered_since_ms;
}

unfoldable pub loop_run : List Moment → Watched → Watched
loop_run [] w = w
loop_run (m ∷ ms) w = loop_run ms (happens w m)
