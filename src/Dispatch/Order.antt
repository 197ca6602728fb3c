-- ===== src/Dispatch/Order.antt =====
-- Every envelope is worked off once, in order, and the worker never hangs with work to do.
use signal2sip.Base.{ℕ, ◌≡◌, refl, sym, ap, ap₂, ◌∙◌, Bool, true, false, List, [], ◌∷◌, ◌++◌}
use mathlib.Core.List.{append-nil, append_assoc}
use signal2sip.Dispatch.{
  Worker, waiting, working, exited, Dispatch, start, Step, pushes, stops, takes, finishes, exits,
  Reachable, starts, steps,
}

-- The item being worked on.
unfoldable pub in_hand : Worker → List ℕ
in_hand waiting = []
in_hand (working w) = w ∷ []
in_hand exited = []

in_order :
    {q r : Dispatch}
    → Step q r
    → q.pushed ≡ q.done ++ in_hand q.worker ++ q.queue
    → r.pushed ≡ r.done ++ in_hand r.worker ++ r.queue
unfolding in_hand
in_order {q} (pushes w) h =
    ap (λ k. k ++ w ∷ []) h ∙ append_assoc (q.done ++ in_hand q.worker) q.queue (w ∷ [])
in_order {q} stops h = h
in_order {q} (takes w rest e f) h =
    h
    ∙ ap₂ (λ k l. q.done ++ in_hand k ++ l) e f
    ∙ append_assoc q.done [] (w ∷ rest)
    ∙ sym (append_assoc q.done (w ∷ []) rest)
in_order {q} (finishes w e) h =
    h
    ∙ ap (λ k. q.done ++ in_hand k ++ q.queue) e
    ∙ ap (λ k. k ++ q.queue) (sym (append-nil (q.done ++ w ∷ [])))
in_order {q} (exits e f g) h = h ∙ ap (λ k. q.done ++ in_hand k ++ q.queue) e

-- Whatever the interleaving, the envelopes pushed so far are, in the order in which they were
-- pushed, those done, then the one in hand, then those still queued.
pub Reachable-order :
    (q : Dispatch) → Reachable q → q.pushed ≡ q.done ++ in_hand q.worker ++ q.queue
unfolding start in_hand
Reachable-order q starts = refl
Reachable-order q (steps r s) = in_order s (Reachable-order _ r)

-- The steps of the worker's own thread: neither a push nor the stop.
unfoldable pub is_own : {q r : Dispatch} → Step q r → Bool
is_own (pushes w) = false
is_own stops = false
is_own (takes w rest e f) = true
is_own (finishes w e) = true
is_own (exits e f g) = true

-- A run of the worker alone.
pub data Works : Dispatch → Dispatch → Type 0 where
  rests : {q : Dispatch} → Works q q
  works : {q r last : Dispatch} (s : Step q r) → is_own s ≡ true → Works r last → Works q last

-- Where the worker gets to when it is left alone after the stop.
pub record Drained (q : Dispatch) : Type 0 where
  pub last : Dispatch
  pub alone : Works q last
  pub gone : last.worker ≡ exited
  pub same_pushed : last.pushed ≡ q.pushed
  pub all_done : last.done ≡ q.pushed
