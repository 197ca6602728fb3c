-- ===== src/Dispatch.antt =====
-- daemon/main.cpp, the class `EnvelopeDispatchQueue`: the queue of one account's envelopes and the
-- thread that works it off. A work item is a number; what it does is outside, and whether it
-- throws makes no difference to the queue. Each step is one critical section or one work item.
pub mod Order
mod Tests
use signal2sip.Base.{
  ℕ, zero, suc, ◌+◌, ◌-◌, ◌*◌, ◌/◌, ◌%◌, ◌^◌, ◌≤◌, ◌<◌, ◌≡◌, refl, sym, ap, ap₂, subst, ◌∙◌, ◌≢◌,
  ◌↔◌, ◌⊎◌, inl, inr, Bool, true, false, not, ◌&&◌, ◌||◌, Option, none, some, List, [], ◌∷◌, ◌++◌,
  map, arith, ltb, leb, ◌==◌, if◌then◌else◌, ==_iff, Bool-cases, Option-cases, is_some, length,
  get_or, set, take, drop, replicate, is_empty, All, length-append, length-replicate, length-set,
  length-take-le, get_or-set_self, get_or-set_ne, take-append_left, drop-append_left, All-append,
  length-take, is_empty→nil, take-all, drop-all, get_or-append_right, suc-add, get_or-replicate,
  Bytes, IsByte, codes, eqb, eqb_refl, eqb→eq, eqb_iff, Result, ok, err, ◌>>=◌, ok_or, Result-cases,
}
use signal2sip.Base.Bits.{passes_below, passes_below→test, bit_or-shl}
use mathlib.Core.List.{append-nil, append_assoc}

pub data Worker : Type 0 where
  waiting : Worker
  working : ℕ → Worker
  exited : Worker

-- `State` and the thread, with what has been pushed and what has been done.
pub record Dispatch : Type 0 where
  pub queue : List ℕ
  pub stopping : Bool
  pub worker : Worker
  pub pushed : List ℕ
  pub done : List ℕ

unfoldable pub start : Dispatch
start = record { queue = []; stopping = false; worker = waiting; pushed = []; done = [] }

-- `push`, the first part of `stopAndJoin`, and one round of `run` up to the next critical section.
-- The worker may also find nothing to do (the condition variable's `wait`).
pub data Step : Dispatch → Dispatch → Type 0 where
  pushes :
      {q : Dispatch} (w : ℕ)
      → Step q (record q { queue = q.queue ++ w ∷ []; pushed = q.pushed ++ w ∷ [] })
  stops : {q : Dispatch} → Step q (record q { stopping = true })
  takes :
      {q : Dispatch} (w : ℕ) (rest : List ℕ)
      → q.worker ≡ waiting
      → q.queue ≡ w ∷ rest
      → Step q (record q { queue = rest; worker = working w })
  finishes :
      {q : Dispatch} (w : ℕ)
      → q.worker ≡ working w
      → Step q (record q { worker = waiting; done = q.done ++ w ∷ [] })
  exits :
      {q : Dispatch}
      → q.worker ≡ waiting
      → q.queue ≡ []
      → q.stopping ≡ true
      → Step q (record q { worker = exited })

-- Any interleaving from the start.
pub data Reachable : Dispatch → Type 0 where
  starts : Reachable start
  steps : {q r : Dispatch} → Reachable q → Step q r → Reachable r
