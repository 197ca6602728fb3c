-- ===== src/Socket/Race/Safe.antt =====
-- The shared block is deleted once, by whichever side comes second, and the completion's handle
-- goes to exactly one side. The one use of the block after its deletion is the late `notify_all`.
use signal2sip.Base.{
  ◌+◌, ◌≡◌, refl, sym, ap, subst, ◌∙◌, ◌≢◌, ◌⊎◌, inl, inr, Bool, true, false, none, some, [], ◌∷◌,
}
use signal2sip.Socket.Race.{
  Completion, waits, gave_up, took, Race, begin, complete, Step, completes, notifies, wakes,
  times_out, Reachable, begins, steps,
}

pub stored_race : Completion → Bool → Race
stored_race c n = record {
  done = true;
  abandoned = false;
  stored = some c;
  notifying = n;
  waiter = waits;
  completion = some c;
  freed = 0;
  released = [];
}

pub abandoned_race : Race
abandoned_race = record {
  done = false;
  abandoned = true;
  stored = none;
  notifying = false;
  waiter = gave_up;
  completion = none;
  freed = 0;
  released = [];
}

pub taken_race : Completion → Bool → Race
taken_race c n = record {
  done = true;
  abandoned = false;
  stored = some c;
  notifying = n;
  waiter = took c;
  completion = some c;
  freed = 1;
  released = [];
}

pub late_race : Completion → Race
late_race c = record {
  done = false;
  abandoned = true;
  stored = none;
  notifying = false;
  waiter = gave_up;
  completion = some c;
  freed = 1;
  released = c ∷ [];
}

-- The states there are; in two of them `notify_all` may still be to come.
pub data Phase (r : Race) : Type 0 where
  running : r ≡ begin → Phase r
  ready : (c : Completion) (n : Bool) → r ≡ stored_race c n → Phase r
  alone : r ≡ abandoned_race → Phase r
  handed_over : (c : Completion) (n : Bool) → r ≡ taken_race c n → Phase r
  cleaned_up : (c : Completion) → r ≡ late_race c → Phase r

some-none : {c : Completion} → (some c ≡ none) → ⊥
some-none h = cc

false-true : (false ≡ true) → ⊥
false-true h = cc

gave_up-waits : (gave_up ≡ waits) → ⊥
gave_up-waits h = cc

took-waits : {c : Completion} → (took c ≡ waits) → ⊥
took-waits h = cc

some_inj : {c d : Completion} → some c ≡ some d → c ≡ d
some_inj h = cc

Step-Phase : {r q : Race} → Step r q → Phase r → Phase q
unfolding begin complete stored_race abandoned_race taken_race late_race
Step-Phase (completes c e) (running p) = ready c true (ap (complete c) p)
Step-Phase (completes c e) (ready d n p) = absurd (some-none (sym (ap (λ k. k.completion) p) ∙ e))
Step-Phase (completes c e) (alone p) = cleaned_up c (ap (complete c) p)
Step-Phase (completes c e) (handed_over d n p) =
    absurd (some-none (sym (ap (λ k. k.completion) p) ∙ e))
Step-Phase (completes c e) (cleaned_up d p) =
    absurd (some-none (sym (ap (λ k. k.completion) p) ∙ e))
Step-Phase (notifies n) (running p) = absurd (false-true (sym (ap (λ k. k.notifying) p) ∙ n))
Step-Phase (notifies n) (ready d m p) =
    ready d false (ap {A = Race} (λ k. record k { notifying = false }) p)
Step-Phase (notifies n) (alone p) = absurd (false-true (sym (ap (λ k. k.notifying) p) ∙ n))
Step-Phase (notifies n) (handed_over d m p) =
    handed_over d false (ap {A = Race} (λ k. record k { notifying = false }) p)
Step-Phase (notifies n) (cleaned_up d p) = absurd (false-true (sym (ap (λ k. k.notifying) p) ∙ n))
Step-Phase (wakes c w d s) (running p) = absurd (false-true (sym (ap (λ k. k.done) p) ∙ d))
Step-Phase {r} (wakes c w d s) (ready b n p) =
    subst (λ k. Phase (record r { waiter = took k; freed = r.freed + 1 }))
      (some_inj (sym (ap (λ k. k.stored) p) ∙ s))
      (handed_over b n (ap {A = Race} (λ k. record k { waiter = took b; freed = k.freed + 1 }) p))
Step-Phase (wakes c w d s) (alone p) = absurd (gave_up-waits (sym (ap (λ k. k.waiter) p) ∙ w))
Step-Phase (wakes c w d s) (handed_over b n p) =
    absurd (took-waits (sym (ap (λ k. k.waiter) p) ∙ w))
Step-Phase (wakes c w d s) (cleaned_up b p) =
    absurd (gave_up-waits (sym (ap (λ k. k.waiter) p) ∙ w))
Step-Phase (times_out w d) (running p) =
    alone (ap {A = Race} (λ k. record k { waiter = gave_up; abandoned = true }) p)
Step-Phase (times_out w d) (ready b n p) = absurd (false-true (sym d ∙ ap (λ k. k.done) p))
Step-Phase (times_out w d) (alone p) = absurd (gave_up-waits (sym (ap (λ k. k.waiter) p) ∙ w))
Step-Phase (times_out w d) (handed_over b n p) =
    absurd (took-waits (sym (ap (λ k. k.waiter) p) ∙ w))
Step-Phase (times_out w d) (cleaned_up b p) =
    absurd (gave_up-waits (sym (ap (λ k. k.waiter) p) ∙ w))

pub Reachable-Phase : {r : Race} → Reachable r → Phase r
Reachable-Phase begins = running refl
Reachable-Phase (steps rs s) = Step-Phase s (Reachable-Phase rs)

-- `notify_all` is still to be called, and the waiting thread has already taken the completion.
pub record IsLate (r q : Race) : Type 0 where
  pub completion : Completion
  pub due : r.notifying ≡ true
  pub taken : r.waiter ≡ took completion
  pub notified : q ≡ record r { notifying = false }

touched : {r q : Race} → Step r q → Phase r → (r.freed ≡ 0) ⊎ IsLate r q
unfolding begin stored_race abandoned_race taken_race late_race
touched s (running p) = inl (ap (λ k. k.freed) p)
touched s (ready c n p) = inl (ap (λ k. k.freed) p)
touched s (alone p) = inl (ap (λ k. k.freed) p)
touched (completes c e) (handed_over d n p) =
    absurd (some-none (sym (ap (λ k. k.completion) p) ∙ e))
touched (notifies n) (handed_over d m p) =
    inr (record { completion = d; due = n; taken = ap (λ k. k.waiter) p; notified = refl })
touched (wakes c w d s) (handed_over b n p) = absurd (took-waits (sym (ap (λ k. k.waiter) p) ∙ w))
touched (times_out w d) (handed_over b n p) = absurd (took-waits (sym (ap (λ k. k.waiter) p) ∙ w))
touched (completes c e) (cleaned_up d p) = absurd (some-none (sym (ap (λ k. k.completion) p) ∙ e))
touched (notifies n) (cleaned_up d p) = absurd (false-true (sym (ap (λ k. k.notifying) p) ∙ n))
touched (wakes c w d s) (cleaned_up b p) = absurd (gave_up-waits (sym (ap (λ k. k.waiter) p) ∙ w))
touched (times_out w d) (cleaned_up b p) = absurd (gave_up-waits (sym (ap (λ k. k.waiter) p) ∙ w))

-- In any interleaving, a step finds the block not yet deleted, but for one: the callback's call
-- of `notify_all` when the waiting thread has taken the completion and deleted the block before.
-- In particular the block is not deleted twice.
pub Step-IsLate : {r q : Race} → Reachable r → Step r q → (r.freed ≡ 0) ⊎ IsLate r q
Step-IsLate {r} {q} rs s = touched s (Reachable-Phase rs)

-- Where the completion's handle has gone.
pub data Owned (c : Completion) (r : Race) : Type 0 where
  by_waiter : r.waiter ≡ took c → r.released ≡ [] → Owned c r
  by_callback : r.waiter ≡ gave_up → r.released ≡ c ∷ [] → Owned c r

settled :
    {r : Race} (c : Completion)
    → Phase r
    → r.completion ≡ some c
    → r.waiter ≢ waits
    → (r.freed ≡ 1) × Owned c r
unfolding begin stored_race abandoned_race taken_race late_race
settled c (running p) e w = absurd (w (ap (λ k. k.waiter) p))
settled c (ready d n p) e w = absurd (w (ap (λ k. k.waiter) p))
settled c (alone p) e w = absurd (some-none (sym e ∙ ap (λ k. k.completion) p))
settled c (handed_over d n p) e w =
    let same : d ≡ c = some_inj (sym (ap (λ k. k.completion) p) ∙ e) in
    (ap (λ k. k.freed) p, by_waiter (ap (λ k. k.waiter) p ∙ ap took same) (ap (λ k. k.released) p))
settled c (cleaned_up d p) e w =
    let same : d ≡ c = some_inj (sym (ap (λ k. k.completion) p) ∙ e) in
    (
      ap (λ k. k.freed) p,
      by_callback (ap (λ k. k.waiter) p) (ap (λ k. k.released) p ∙ ap (λ k. k ∷ []) same),
    )

-- Once the promise has been completed and the waiting thread has gone on, the block has been
-- deleted exactly once, and the error or the connection has either gone to the waiting thread or,
-- when that had given up, been released by the callback, once.
pub Reachable-Owned :
    {r : Race} (c : Completion)
    → Reachable r
    → r.completion ≡ some c
    → r.waiter ≢ waits
    → (r.freed ≡ 1) × Owned c r
Reachable-Owned c rs e w = settled c (Reachable-Phase rs) e w
