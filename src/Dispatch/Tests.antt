-- ===== src/Dispatch/Tests.antt =====
-- The theorems on the dispatch queue at a concrete run: two envelopes, the first in hand, and the
-- stop asked for.
use signal2sip.Base.{◌≡◌, refl, Bool, true, false, [], ◌∷◌, ◌++◌}
use signal2sip.Dispatch.{
  Worker, waiting, working, exited, Dispatch, start, pushes, stops, takes, Reachable, starts, steps,
}
use signal2sip.Dispatch.Order.{in_hand, Reachable-order}

abbrev busy : Dispatch
busy = record {
  queue = 8 ∷ [];
  stopping = true;
  worker = working 7;
  pushed = 7 ∷ 8 ∷ [];
  done = [];
}

busy-Reachable : Reachable busy
unfolding start
busy-Reachable =
    let one : Reachable (record start { queue = 7 ∷ []; pushed = 7 ∷ [] }) =
      steps starts (pushes 7) in
    let two : Reachable (record start { queue = 7 ∷ 8 ∷ []; pushed = 7 ∷ 8 ∷ [] }) =
      steps one (pushes 8) in
    let three : Reachable (record busy { stopping = false }) =
      steps two (takes 7 (8 ∷ []) refl refl) in
    steps three stops

Reachable-order_example : busy.pushed ≡ busy.done ++ in_hand busy.worker ++ busy.queue
Reachable-order_example = Reachable-order busy busy-Reachable

is_working : Worker → Bool
is_working waiting = false
is_working (working w) = true
is_working exited = false
