-- ===== src/Socket.antt =====
-- signal/AuthSocket.cpp: the connection to Signal. The network library is outside: what a call of
-- it ends with is an argument. A connection handle is a number; `live` lists the handles that
-- have been received and not yet destroyed.
pub mod Race
pub mod Handles
mod Tests
use signal2sip.Base.{
  ℕ, zero, suc, ◌+◌, ◌-◌, ◌*◌, ◌/◌, ◌%◌, ◌^◌, ◌≤◌, ◌<◌, ◌≡◌, refl, sym, ap, ap₂, subst, ◌∙◌, ◌≢◌,
  ◌↔◌, ◌⊎◌, inl, inr, Bool, true, false, not, ◌&&◌, ◌||◌, Option, none, some, List, [], ◌∷◌, ◌++◌,
  map, arith, ltb, leb, ◌==◌, if◌then◌else◌, ==_iff, Bool-cases, Option-cases, is_some, length,
  get_or, set, take, drop, replicate, is_empty, All, length-append, length-replicate, length-set,
  length-take-le, get_or-set_self, get_or-set_ne, take-append_left, drop-append_left, All-append,
  length-take, is_empty→nil, take-all, drop-all, get_or-append_right, suc-add, get_or-replicate,
  Bytes, IsByte, codes, eqb, eqb_refl, eqb→eq, eqb_iff, Result, ok, err, ◌>>=◌, ok_or, Result-cases,
}
use signal2sip.Base.Bits.{passes_below, passes_below→test, bit_or-shl}
use mathlib.Core.List.{append-nil, append_assoc}

-- `kErrorConnectionInvalidated`, `kErrorConnectedElsewhere`, `kErrorWebSocketGeneric` and
-- `kErrorDeviceDeregistered` tell a handler what to do; any other code is just passed on.
pub data ErrorCode : Type 0 where
  connection_invalidated : ErrorCode
  connected_elsewhere : ErrorCode
  web_socket_generic : ErrorCode
  device_deregistered : ErrorCode
  other_error : ErrorCode

-- The members of `AuthSocket::Impl`. `chat` is the handle, if it is not null.
pub record Socket : Type 0 where
  pub connected : Bool
  pub deauthorized : Bool
  pub stopping : Bool
  pub chat : Option ℕ
  pub live : List ℕ

unfoldable pub new_socket : Socket
new_socket = record {
  connected = false;
  deauthorized = false;
  stopping = false;
  chat = none;
  live = [];
}

unfoldable pub remove : ℕ → List ℕ → List ℕ
remove h [] = []
remove h (k ∷ ks) = let rest = remove h ks in if h == k then rest else k ∷ rest

-- `disconnectAndDestroyBestEffort`, which does nothing for a null handle, and the assignment of
-- null.
unfoldable pub dropped : Option ℕ → Socket → Socket
dropped none s = s
dropped (some h) s = record s { chat = none; live = remove h s.live }

unfoldable pub drop_chat : Socket → Socket
drop_chat s = dropped s.chat s

-- How an attempt to connect ends: the call itself fails, nothing comes within `kConnectTimeout`,
-- the promise is completed with an error, or with a handle on which the listener is then set, or
-- not. `connects_cut` is a connection that is interrupted before `doConnect` has set `connected`;
-- the Boolean says whether `deauthorized` has been cleared by then.
pub data Attempt : Type 0 where
  call_fails : Attempt
  times_out : Attempt
  fails : ErrorCode → Attempt
  connects : ℕ → Attempt
  connects_cut : ℕ → Bool → Option ErrorCode → Attempt
  listener_fails : ℕ → Attempt

-- `onConnectionInterrupted`, from the network library's thread.
unfoldable pub on_connection_interrupted : Option ErrorCode → Socket → Socket
on_connection_interrupted (some connection_invalidated) s = record s {
  connected = false;
  deauthorized = true;
}
on_connection_interrupted _ s = record s { connected = false }

-- The end of `doConnect`, with the callback of the network library's thread in between.
unfoldable pub cut : Bool → Option ErrorCode → Socket → Socket
cut late error s =
    record (if late
      then on_connection_interrupted error (record s { deauthorized = false })
      else record (on_connection_interrupted error s) { deauthorized = false }) { connected = true }

-- After the old connection is gone. The Boolean says whether `doConnect` returns; otherwise it
-- throws.
unfoldable pub attempted : Attempt → Socket → Bool × Socket
attempted call_fails s = (false, s)
attempted times_out s = (false, s)
attempted (fails device_deregistered) s = (false, record s { deauthorized = true })
attempted (fails _) s = (false, s)
attempted (connects h) s =
    (true, record s { chat = some h; live = h ∷ s.live; deauthorized = false; connected = true })
attempted (connects_cut h late error) s =
    (true, cut late error (record s { chat = some h; live = h ∷ s.live }))
attempted (listener_fails h) s = (false, record s { chat = some h; live = h ∷ s.live })

unfoldable pub do_connect : Attempt → Socket → Bool × Socket
do_connect attempt s = attempted attempt (drop_chat (record s { connected = false }))

-- `close`; a second call does nothing.
unfoldable pub close : Socket → Socket
close s =
    if s.stopping
    then s
    else let gone : Socket = drop_chat (record s { stopping = true }) in
      record gone { connected = false }

-- How a request over the connection ends: the call fails, the promise is completed with an error,
-- or with a response.
pub data Sending : Type 0 where
  send_fails : Sending
  send_errors : ErrorCode → Sending
  responds : ℕ → Bytes → Sending

-- `doRequest`: a lost connection is a response of status 0; other errors are thrown.
unfoldable pub completed : Sending → Option (ℕ × Bytes)
completed send_fails = none
completed (send_errors connection_invalidated) = some (0, [])
completed (send_errors connected_elsewhere) = some (0, [])
completed (send_errors web_socket_generic) = some (0, [])
completed (send_errors device_deregistered) = none
completed (send_errors other_error) = none
completed (responds status body) = some (status, body)

-- Without a connection the response is the same, before anything is sent.
unfoldable pub request_over : Option ℕ → Sending → Option (ℕ × Bytes)
request_over none sending = some (0, [])
request_over (some h) sending = completed sending

unfoldable pub do_request : Socket → Sending → Option (ℕ × Bytes)
do_request s sending = request_over s.chat sending

-- The calls of other code, and the callback between them; one that comes while `doConnect` ends is
-- part of the attempt.
pub data SocketCall : Type 0 where
  connect_call : Attempt → SocketCall
  interrupted : Option ErrorCode → SocketCall
  close_call : SocketCall

unfoldable pub socket_step : Socket → SocketCall → Socket
socket_step s (connect_call attempt) = (do_connect attempt s).1
socket_step s (interrupted error) = on_connection_interrupted error s
socket_step s close_call = close s

unfoldable pub socket_run : Socket → List SocketCall → Socket
socket_run s [] = s
socket_run s (c ∷ cs) = socket_run (socket_step s c) cs
