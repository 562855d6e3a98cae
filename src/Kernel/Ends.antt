-- ===== src/Kernel/Ends.antt =====
-- A property of the state in which a run ends, whether it returns, fails or stops at a fault.
use axidma_driver.Common.{◌≡◌}
use axidma_driver.Types.{Errno}
use axidma_driver.Kernel.{
  State, Out, ok, err, fault, Fault, M, state_of, and_then, or_cleanup, drop_error, Event, log,
  emit,
}

pub record Ends {A : Type 0} (Q : State → Type 0) (o : Out A) : Type 0 where
  pub final : Q (state_of o)

module _ {Q : State → Type 0} {A : Type 0} where
  pub bind :
      {B : Type 0} {o : Out A} {f : A → M B}
      → Ends Q o
      → ((a : A) (s : State) → Q s → Ends Q (f a s))
      → Ends Q (and_then o f)
  bind {o = ok a s} h next = next a s h.final
  bind {o = err e s} h next = record { final = h.final }
  bind {o = fault e s} h next = record { final = h.final }

  pub cleanup :
      {o : Out A} {c : M (Unit {0})}
      → Ends Q o
      → ((s : State) → Q s → Ends Q (c s))
      → Ends Q (or_cleanup o c)
  cleanup {o = ok a s} h next = h
  cleanup {o = err e s} h next = bind_err (next s h.final)
    where
      bind_err : {o : Out (Unit {0})} → Ends Q o → Ends Q (and_then {B = A} o (λ _ s. err e s))
      bind_err {o = ok a s} h = record { final = h.final }
      bind_err {o = err e s} h = record { final = h.final }
      bind_err {o = fault e s} h = record { final = h.final }
  cleanup {o = fault e s} h next = h

pub drop : {Q : State → Type 0} {o : Out (Unit {0})} → Ends Q o → Ends Q (drop_error o)
drop {o = ok a s} h = record { final = h.final }
drop {o = err e s} h = record { final = h.final }
drop {o = fault e s} h = record { final = h.final }

-- A run that returns `a` in `s` has `Q a s`; any other leaves a state with `R`.
pub data Outcome {A : Type 0} (Q : A → State → Type 0) (R : State → Type 0) : Out A → Type 0 where
  returns : {a : A} {s : State} → Q a s → Outcome Q R (ok a s)
  fails : {e : Errno} {s : State} → R s → Outcome Q R (err e s)
  stops : {f : Fault} {s : State} → R s → Outcome Q R (fault f s)

module _ {A : Type 0} {Q : A → State → Type 0} {R : State → Type 0} where
  pub continue_run :
      {B : Type 0} {o : Out A} {f : A → M B}
      → Outcome Q R o
      → ((a : A) (s : State) → Q a s → Ends R (f a s))
      → Ends R (and_then o f)
  continue_run (returns {a} {s} q) next = next a s q
  continue_run (fails r) next = record { final = r }
  continue_run (stops r) next = record { final = r }

  pub proceed :
      {B : Type 0} {Q' : B → State → Type 0} {o : Out A} {f : A → M B}
      → Outcome Q R o
      → ((a : A) (s : State) → Q a s → Outcome Q' R (f a s))
      → Outcome Q' R (and_then o f)
  proceed (returns {a} {s} q) next = next a s q
  proceed (fails r) next = fails r
  proceed (stops r) next = stops r

-- The same, where a run that does not return leaves the state as it was.
pub continue_at :
    {A B : Type 0} {Q : A → State → Type 0} {R : State → Type 0} {s : State} {o : Out A}
    {f : A → M B}
    → R s
    → Outcome Q (λ s'. s' ≡ s) o
    → ((a : A) (s' : State) → Q a s' → Ends R (f a s'))
    → Ends R (and_then o f)
continue_at r (returns {a} {s} q) next = next a s q
continue_at r (fails e) next = record { final = rw e r }
continue_at r (stops e) next = record { final = rw e r }

pub weaken :
    {A : Type 0} {Q Q' : A → State → Type 0} {R : State → Type 0} {o : Out A}
    → Outcome Q R o
    → ((a : A) (s : State) → Q a s → Q' a s)
    → Outcome Q' R o
weaken (returns q) f = returns (f _ _ q)
weaken (fails r) f = fails r
weaken (stops r) f = stops r

-- A run without faults: it returns with `Q`, or fails and leaves a state with `R`.
pub data Attempt {A : Type 0} (Q : A → State → Type 0) (R : State → Type 0) : Out A → Type 0 where
  done : {a : A} {s : State} → Q a s → Attempt Q R (ok a s)
  failed : {e : Errno} {s : State} → R s → Attempt Q R (err e s)

module _ {A : Type 0} {Q : A → State → Type 0} {R : State → Type 0} where
  pub carry_on :
      {B : Type 0} {Q' : B → State → Type 0} {o : Out A} {f : A → M B}
      → Attempt Q R o
      → ((a : A) (s : State) → Q a s → Attempt Q' R (f a s))
      → Attempt Q' R (and_then o f)
  carry_on (done q) next = next _ _ q
  carry_on (failed r) next = failed r

  -- The clean-up turns `R` into `R'`.
  pub undo :
      {R' : State → Type 0} {o : Out A} (e : Event)
      → Attempt Q R o
      → ((s : State) → R s → R' (log e s))
      → Attempt Q R' (or_cleanup o (emit e))
  undo e (done q) release = done q
  undo e (failed r) release = failed (release _ r)

  pub relax :
      {Q' : A → State → Type 0} {o : Out A}
      → Attempt Q R o
      → ((a : A) (s : State) → Q a s → Q' a s)
      → Attempt Q' R o
  relax (done q) f = done (f _ _ q)
  relax (failed r) f = failed r
