-- ===== src/Socket/Tests.antt =====
-- Runs of signal/AuthSocket.cpp, and its theorems at concrete input.
use signal2sip.Base.{◌≡◌, ◌⊎◌, refl, ◌≢◌, true, false, some, List, [], ◌∷◌}
use signal2sip.Socket.{
  connected_elsewhere, new_socket, remove, dropped, drop_chat, connects, connects_cut,
  connection_invalidated, cut, listener_fails, attempted, do_connect, on_connection_interrupted,
  send_errors, completed, request_over, do_request, SocketCall, connect_call, interrupted,
  socket_step, socket_run,
}
use signal2sip.Socket.Race.{
  with_connection, gave_up, waits, Race, begin, complete, Step, completes, notifies, wakes, took,
  times_out, Reachable, begins, steps,
}
use signal2sip.Socket.Race.Safe.{Owned, Step-IsLate, IsLate, Reachable-Owned}
use signal2sip.Socket.Handles.{IsSound, socket_run-IsSound}

-- Connected, dropped, connected again, and closed.
abbrev calls : List SocketCall
calls =
    connect_call (connects 5)
    ∷ interrupted (some connected_elsewhere)
    ∷ connect_call (connects_cut 8 true (some connection_invalidated))
    ∷ connect_call (listener_fails 6)
    ∷ connect_call (connects 7)
    ∷ []

after_calls : socket_run new_socket calls ≡ record {
  connected = true;
  deauthorized = false;
  stopping = false;
  chat = some 7;
  live = 7 ∷ [];
}
unfolding socket_run socket_step do_connect attempted dropped drop_chat remove
    on_connection_interrupted new_socket cut
after_calls = refl

-- After an interruption the null handle is not there yet, and a request is still sent.
lost_request :
    do_request (socket_run new_socket calls) (send_errors connected_elsewhere) ≡ some (0, [])
unfolding do_request request_over socket_run socket_step do_connect attempted dropped drop_chat
    remove on_connection_interrupted new_socket completed
lost_request = refl

socket_run-IsSound_example : IsSound (socket_run new_socket calls)
socket_run-IsSound_example = socket_run-IsSound calls

abbrev given_up : Race
given_up = record begin { waiter = gave_up; abandoned = true }

given_up-Reachable : Reachable given_up
unfolding begin
given_up-Reachable = steps begins (times_out refl refl)

late-Step : Step given_up (complete (with_connection 4) given_up)
unfolding begin
late-Step = completes (with_connection 4) refl

late-Reachable : Reachable (complete (with_connection 4) given_up)
late-Reachable = steps given_up-Reachable late-Step

late_completion : (complete (with_connection 4) given_up).completion ≡ some (with_connection 4)
unfolding complete begin
late_completion = refl

gave_up-late : (complete (with_connection 4) given_up).waiter ≢ waits
unfolding complete begin
gave_up-late h = cc

-- The server revokes the credentials while `doConnect` ends: the socket is taken for connected, and
-- before the flag is cleared not even the refusal is kept.
cut_early :
    socket_run new_socket (connect_call (connects_cut 5 false (some connection_invalidated)) ∷ [])
    ≡ socket_run new_socket (connect_call (connects 5) ∷ [])
unfolding socket_run socket_step do_connect attempted cut on_connection_interrupted
cut_early = refl

Step-IsLate_example : (given_up.freed ≡ 0) ⊎ IsLate given_up (complete (with_connection 4) given_up)
Step-IsLate_example = Step-IsLate given_up-Reachable late-Step

-- The callback has stored the connection and released the mutex; the waiting thread sees it and
-- deletes the block; then the callback calls `notify_all` on it.
abbrev deleted_early : Race
deleted_early = record begin {
  done = true;
  stored = some (with_connection 4);
  notifying = true;
  waiter = took (with_connection 4);
  completion = some (with_connection 4);
  freed = 1;
}

deleted_early-Reachable : Reachable deleted_early
unfolding complete begin
deleted_early-Reachable =
    steps (steps begins (completes (with_connection 4) refl))
      (wakes (with_connection 4) refl refl refl)

use_after_deletion : Step deleted_early (record deleted_early { notifying = false })
unfolding begin
use_after_deletion = notifies refl

Reachable-Owned_example :
    ((complete (with_connection 4) given_up).freed ≡ 1)
    × Owned (with_connection 4) (complete (with_connection 4) given_up)
Reachable-Owned_example =
    Reachable-Owned (with_connection 4) late-Reachable late_completion gave_up-late
