-- ===== src/Socket/Race.antt =====
-- signal/AuthSocket.cpp, `ConnectState` in `doConnect`: the waiting thread and the completion of
-- the promise share a block of memory that either may have to free. A step is one critical section
-- with what the same thread does next, but for the call of `notify_all` on the block, which comes
-- after the mutex is released and is a step of its own; `freed` and `released` count.
pub mod Safe
use signal2sip.Base.{
  ℕ, zero, suc, ◌+◌, ◌-◌, ◌*◌, ◌/◌, ◌%◌, ◌^◌, ◌≤◌, ◌<◌, ◌≡◌, refl, sym, ap, ap₂, subst, ◌∙◌, ◌≢◌,
  ◌↔◌, ◌⊎◌, inl, inr, Bool, true, false, not, ◌&&◌, ◌||◌, Option, none, some, List, [], ◌∷◌, ◌++◌,
  map, arith, ltb, leb, ◌==◌, if◌then◌else◌, ==_iff, Bool-cases, Option-cases, is_some, length,
  get_or, set, take, drop, replicate, is_empty, All, length-append, length-replicate, length-set,
  length-take-le, get_or-set_self, get_or-set_ne, take-append_left, drop-append_left, All-append,
  length-take, is_empty→nil, take-all, drop-all, get_or-append_right, suc-add, get_or-replicate,
  Bytes, IsByte, codes, eqb, eqb_refl, eqb→eq, eqb_iff, Result, ok, err, ◌>>=◌, ok_or, Result-cases,
}
use signal2sip.Base.Bits.{passes_below, passes_below→test, bit_or-shl}
use mathlib.Core.List.{append-nil, append_assoc}

-- What the promise is completed with: an error or a connection, as handles.
pub data Completion : Type 0 where
  with_error : ℕ → Completion
  with_connection : ℕ → Completion

pub data Waiter : Type 0 where
  waits : Waiter
  gave_up : Waiter
  took : Completion → Waiter

-- `ConnectState`, whether the callback has yet to call `notify_all`, the waiting thread, the completion if it has come, how often the block was
-- deleted, and what the callback released itself.
pub record Race : Type 0 where
  pub done : Bool
  pub abandoned : Bool
  pub stored : Option Completion
  pub notifying : Bool
  pub waiter : Waiter
  pub completion : Option Completion
  pub freed : ℕ
  pub released : List Completion

unfoldable pub begin : Race
begin = record {
  done = false;
  abandoned = false;
  stored = none;
  notifying = false;
  waiter = waits;
  completion = none;
  freed = 0;
  released = [];
}

-- `promise.complete`, which is called once, up to `notify_all`.
unfoldable pub complete : Completion → Race → Race
complete c r =
    if r.abandoned
    then record r { completion = some c; released = c ∷ r.released; freed = r.freed + 1 }
    else record r { completion = some c; stored = some c; done = true; notifying = true }

-- `wait_for` returns when `done` is set, also at the very end of the time and, as its predicate is
-- tested under the mutex, before `notify_all` is called; else it gives up.
pub data Step : Race → Race → Type 0 where
  completes : {r : Race} (c : Completion) → r.completion ≡ none → Step r (complete c r)
  notifies : {r : Race} → r.notifying ≡ true → Step r (record r { notifying = false })
  wakes :
      {r : Race} (c : Completion)
      → r.waiter ≡ waits
      → r.done ≡ true
      → r.stored ≡ some c
      → Step r (record r { waiter = took c; freed = r.freed + 1 })
  times_out :
      {r : Race}
      → r.waiter ≡ waits
      → r.done ≡ false
      → Step r (record r { waiter = gave_up; abandoned = true })

pub data Reachable : Race → Type 0 where
  begins : Reachable begin
  steps : {r q : Race} → Reachable r → Step r q → Reachable q
