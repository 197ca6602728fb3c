-- ===== src/Socket/Handles.antt =====
-- The handles of `Impl`: what is live is what `chat` holds.
use signal2sip.Base.{
  ℕ, ◌≡◌, refl, sym, ap, subst, ◌∙◌, ◌⊎◌, inl, inr, Bool, true, false, Option, none, some, List, [],
  ◌∷◌, ==_iff, Bool-cases, is_some,
}
use signal2sip.Socket.{
  ErrorCode, connection_invalidated, connected_elsewhere, web_socket_generic, device_deregistered,
  other_error, Socket, new_socket, remove, dropped, drop_chat, Attempt, call_fails, times_out,
  fails, connects, connects_cut, listener_fails, cut, attempted, do_connect,
  on_connection_interrupted, close, SocketCall, connect_call, interrupted, close_call, socket_step,
  socket_run,
}
use signal2sip.Base.{if-true, if-false}

pub held : Option ℕ → List ℕ
held none = []
held (some h) = h ∷ []

-- Nothing is live but the handle in `chat`; and where the flag says connected, there is a handle.
pub record IsSound (s : Socket) : Type 0 where
  pub exact : s.live ≡ held s.chat
  pub usable : (s.connected ≡ false) ⊎ (is_some s.chat ≡ true)

remove_self : (h : ℕ) → remove h (h ∷ []) ≡ []
unfolding remove
remove_self h = if-true [] (h ∷ []) ((==_iff h h).1 refl)

dropped-live : (o : Option ℕ) (s : Socket) → s.live ≡ held o → (dropped o s).live ≡ []
unfolding dropped held
dropped-live none s e = e
dropped-live (some h) s e = ap (remove h) e ∙ remove_self h

dropped-chat : (o : Option ℕ) (s : Socket) → s.chat ≡ o → (dropped o s).chat ≡ none
unfolding dropped
dropped-chat none s e = e
dropped-chat (some h) s e = refl

dropped-connected : (o : Option ℕ) (s : Socket) → (dropped o s).connected ≡ s.connected
unfolding dropped
dropped-connected none s = refl
dropped-connected (some h) s = refl

drop_chat-live : (s : Socket) → s.live ≡ held s.chat → (drop_chat s).live ≡ []
unfolding drop_chat
drop_chat-live s e = dropped-live s.chat s e

drop_chat-chat : (s : Socket) → (drop_chat s).chat ≡ none
unfolding drop_chat
drop_chat-chat s = dropped-chat s.chat s refl

pub drop_chat-connected : (s : Socket) → (drop_chat s).connected ≡ s.connected
unfolding drop_chat
drop_chat-connected s = dropped-connected s.chat s

interrupted-handles :
    (o : Option ErrorCode) (s : Socket)
    → ((on_connection_interrupted o s).chat ≡ s.chat)
      × ((on_connection_interrupted o s).live ≡ s.live)
unfolding on_connection_interrupted
interrupted-handles none s = (refl, refl)
interrupted-handles (some connection_invalidated) s = (refl, refl)
interrupted-handles (some connected_elsewhere) s = (refl, refl)
interrupted-handles (some web_socket_generic) s = (refl, refl)
interrupted-handles (some device_deregistered) s = (refl, refl)
interrupted-handles (some other_error) s = (refl, refl)

cut-IsSound :
    (h : ℕ) (late : Bool) (o : Option ErrorCode) (s : Socket)
    → s.live ≡ []
    → IsSound (cut late o (record s { chat = some h; live = h ∷ s.live }))
unfolding cut held
cut-IsSound h true o s l =
    let got : Socket = record s { chat = some h; live = h ∷ s.live; deauthorized = false } in
    let kept = interrupted-handles o got in
    record {
      exact = kept.1 ∙ ap (◌∷◌ h) l ∙ sym (ap held (kept.0));
      usable = inr (ap is_some (kept.0));
    }
cut-IsSound h false o s l =
    let got : Socket = record s { chat = some h; live = h ∷ s.live } in
    let kept = interrupted-handles o got in
    record {
      exact = kept.1 ∙ ap (◌∷◌ h) l ∙ sym (ap held (kept.0));
      usable = inr (ap is_some (kept.0));
    }

attempted-IsSound :
    (a : Attempt) (s : Socket)
    → s.live ≡ []
    → s.chat ≡ none
    → s.connected ≡ false
    → IsSound ((attempted a s).1)
unfolding attempted held
attempted-IsSound call_fails s l n c = record { exact = simp (l, n); usable = inl c }
attempted-IsSound times_out s l n c = record { exact = simp (l, n); usable = inl c }
attempted-IsSound (fails device_deregistered) s l n c = record {
  exact = simp (l, n);
  usable = inl c;
}
attempted-IsSound (fails connection_invalidated) s l n c = record {
  exact = simp (l, n);
  usable = inl c;
}
attempted-IsSound (fails connected_elsewhere) s l n c = record {
  exact = simp (l, n);
  usable = inl c;
}
attempted-IsSound (fails web_socket_generic) s l n c = record {
  exact = simp (l, n);
  usable = inl c;
}
attempted-IsSound (fails other_error) s l n c = record { exact = simp (l, n); usable = inl c }
attempted-IsSound (connects h) s l n c = record { exact = simp (l); usable = inr refl }
attempted-IsSound (connects_cut h late e) s l n c = cut-IsSound h late e s l
attempted-IsSound (listener_fails h) s l n c = record { exact = simp (l); usable = inl c }

dropped-IsSound :
    (s : Socket) → s.live ≡ held s.chat → IsSound (record (drop_chat s) { connected = false })
unfolding held
dropped-IsSound s e = record {
  exact = simp (drop_chat-live s e, drop_chat-chat s);
  usable = inl refl;
}

interrupted-IsSound :
    (o : Option ErrorCode) (s : Socket) → IsSound s → IsSound (on_connection_interrupted o s)
unfolding on_connection_interrupted
interrupted-IsSound none s w = record { exact = w.exact; usable = inl refl }
interrupted-IsSound (some connection_invalidated) s w = record {
  exact = w.exact;
  usable = inl refl;
}
interrupted-IsSound (some connected_elsewhere) s w = record { exact = w.exact; usable = inl refl }
interrupted-IsSound (some web_socket_generic) s w = record { exact = w.exact; usable = inl refl }
interrupted-IsSound (some device_deregistered) s w = record { exact = w.exact; usable = inl refl }
interrupted-IsSound (some other_error) s w = record { exact = w.exact; usable = inl refl }

close-IsSound : (s : Socket) → IsSound s → IsSound (close s)
unfolding close
close-IsSound s w = elim (Bool-cases s.stopping) [
  | inl t ↦ subst IsSound (sym (if-true s _ t)) w
  | inr f ↦
      subst IsSound (sym (if-false s _ f)) (dropped-IsSound (record s { stopping = true }) w.exact)
]

socket_step-IsSound : (c : SocketCall) (s : Socket) → IsSound s → IsSound (socket_step s c)
unfolding socket_step do_connect
socket_step-IsSound (connect_call a) s w =
    let cut : Socket = record s { connected = false } in
    attempted-IsSound a (drop_chat cut) (drop_chat-live cut w.exact) (drop_chat-chat cut)
      (drop_chat-connected cut)
socket_step-IsSound (interrupted o) s w = interrupted-IsSound o s w
socket_step-IsSound close_call s w = close-IsSound s w

run-IsSound : (cs : List SocketCall) (s : Socket) → IsSound s → IsSound (socket_run s cs)
unfolding socket_run
run-IsSound [] s w = w
run-IsSound (c ∷ cs) s w = run-IsSound cs (socket_step s c) (socket_step-IsSound c s w)

new-IsSound : IsSound new_socket
unfolding new_socket held
new-IsSound = record { exact = refl; usable = inl refl }

-- After any sequence of connects however they end, interruptions, also in the middle of a connect,
-- and closes, the handles that were received and not destroyed are the one in `chat`, if any; and
-- where `connected` holds, there is one.
pub socket_run-IsSound : (cs : List SocketCall) → IsSound (socket_run new_socket cs)
socket_run-IsSound cs = run-IsSound cs new_socket new-IsSound

-- A connect leaves the socket marked as connected if it returns, and as disconnected if it throws.
pub do_connect-connected :
    (a : Attempt) (s : Socket) → ((do_connect a s).1).connected ≡ (do_connect a s).0
unfolding do_connect attempted cut
do_connect-connected call_fails s = drop_chat-connected (record s { connected = false })
do_connect-connected times_out s = drop_chat-connected (record s { connected = false })
do_connect-connected (fails device_deregistered) s =
    drop_chat-connected (record s { connected = false })
do_connect-connected (fails connection_invalidated) s =
    drop_chat-connected (record s { connected = false })
do_connect-connected (fails connected_elsewhere) s =
    drop_chat-connected (record s { connected = false })
do_connect-connected (fails web_socket_generic) s =
    drop_chat-connected (record s { connected = false })
do_connect-connected (fails other_error) s = drop_chat-connected (record s { connected = false })
do_connect-connected (connects h) s = refl
do_connect-connected (connects_cut h late e) s = refl
do_connect-connected (listener_fails h) s = drop_chat-connected (record s { connected = false })
