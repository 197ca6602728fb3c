-- ===== src/Daemon/Watchdog/Tests.antt =====
-- Rounds of the daemon's loop, and its theorems at concrete input.
use signal2sip.Base.{
  ◌+◌, ◌≤◌, ◌≡◌, refl, true, false, none, some, List, [], ◌∷◌, ◌++◌, arith, codes,
}
use signal2sip.Config.Load.{GlobalConfig}
use signal2sip.Socket.{
  call_fails, connects, connected_elsewhere, attempted, dropped, drop_chat, remove, do_connect,
  on_connection_interrupted,
}
use signal2sip.Daemon.Watchdog.{
  set_registration, reconnect, Watched, did, request_registration, is_refused,
  registration_watchdog, reconnected, try_reconnect, when_down, notice, watch_socket, storage_sync,
  Moment, tick, interruption, registration, reload, loop_round, interrupt, happens, loop_run,
}
use signal2sip.Daemon.Watchdog.Refused.{
  attempts, keeps_account, ups, alerts, IsDead, loop_run-IsDead,
}
use signal2sip.Daemon.Watchdog.Recovery.{
  is_transient, Outage, over, goes_on, IsDown, Recovered, loop_run-Recovered,
}

abbrev global : GlobalConfig
global = record {
  db_path = codes "db";
  db_key = codes "key";
  sip_reg_watchdog_sec = 60;
  resolved_contact_ttl_sec = 600;
  storage_sync_interval_sec = 43200;
  config_poll_interval_sec = 30;
}

abbrev healthy : Watched
healthy = record {
  socket = some (record {
    connected = true;
    deauthorized = false;
    stopping = false;
    chat = some 5;
    live = 5 ∷ [];
  });
  socket_connected = true;
  deauthorized_alerted = false;
  last_socket_reconnect_attempt_ms = 0;
  last_storage_sync_ms = 0;
  sip = true;
  unregistered_since_ms = 0;
  deeds = [];
}

-- The connection drops, two attempts fail or come too early, and the third succeeds.
abbrev moments : List Moment
moments =
    interruption (some connected_elsewhere)
    ∷ tick global 100000 100000 call_fails
    ∷ tick global 100200 100200 (connects 6)
    ∷ reload none
    ∷ tick global 105000 105000 (connects 7)
    ∷ []

outage_and_back :
    (loop_run moments healthy).deeds
    ≡ set_registration true ∷ reconnect 105000 ∷ reconnect 100000 ∷ set_registration false ∷ []
unfolding loop_run happens loop_round registration_watchdog is_refused watch_socket when_down
    try_reconnect reconnected notice request_registration did storage_sync interrupt
    on_connection_interrupted do_connect attempted dropped drop_chat remove
outage_and_back = refl

-- While the connection to Signal is down, the registration watchdog brings SIP up all the same:
-- it asks only whether the credentials were rejected.
abbrev down_moments : List Moment
down_moments =
    interruption none
    ∷ tick global 100000 100000 call_fails
    ∷ registration false 100001
    ∷ tick global 160001 160001 call_fails
    ∷ []

raised_while_down :
    (loop_run down_moments healthy).deeds
    ≡ reconnect 160001 ∷ set_registration true ∷ reconnect 100000 ∷ set_registration false ∷ []
unfolding loop_run happens loop_round registration_watchdog is_refused watch_socket when_down
    try_reconnect reconnected notice request_registration did storage_sync interrupt
    on_connection_interrupted do_connect attempted dropped drop_chat remove
raised_while_down = refl

abbrev rejected : Watched
rejected = record healthy {
  socket = some (record {
    connected = false;
    deauthorized = true;
    stopping = false;
    chat = some 5;
    live = 5 ∷ [];
  });
}

rejected-IsDead : IsDead rejected.socket
rejected-IsDead = record { socket = _; is = refl; refused = refl; down = refl }

loop_run-IsDead_example :
    IsDead (loop_run moments rejected).socket
    × (attempts (loop_run moments rejected).deeds ≡ attempts rejected.deeds)
    × (ups (loop_run moments rejected).deeds ≡ ups rejected.deeds)
    × (alerts (loop_run moments rejected).deeds ≤ alerts rejected.deeds + 1)
unfolding keeps_account
loop_run-IsDead_example =
    loop_run-IsDead moments rejected (refl, (refl, (refl, (refl, (refl, tt))))) rejected-IsDead refl

abbrev lost : Watched
lost = record healthy {
  socket = some (record {
    connected = false;
    deauthorized = false;
    stopping = false;
    chat = some 5;
    live = 5 ∷ [];
  });
}

lost-IsDown : IsDown lost.socket
lost-IsDown = record { socket = _; is = refl; accepted = refl; down = refl }

one_failure : Outage 0 (tick global 100000 100000 call_fails ∷ []) 100000
unfolding is_transient
one_failure = goes_on global 100000 100000 call_fails (omega arith) refl (over 100000)

loop_run-Recovered_example : Recovered 9 (
    loop_run
      ((tick global 100000 100000 call_fails ∷ []) ++ (tick global 105000 105001 (connects 9) ∷ []))
      lost)
loop_run-Recovered_example =
    loop_run-Recovered global 105000 105001 9 lost one_failure (omega arith) lost-IsDown refl refl
