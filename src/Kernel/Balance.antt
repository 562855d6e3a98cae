-- ===== src/Kernel/Balance.antt =====
-- A run that keeps a property of the state, unless it stops at a fault.
use axidma_driver.Common.{◌≡◌}
use axidma_driver.Types.{Errno}
use axidma_driver.Kernel.{
  State, Out, ok, err, fault, Fault, M, and_then, or_cleanup, drop_error, finally_run,
}
use axidma_driver.Kernel.Ends.{Ends}

pub data Settles {A : Type 0} (Q : State → Type 0) : Out A → Type 0 where
  returns : {a : A} {s : State} → Q s → Settles Q (ok a s)
  fails : {e : Errno} {s : State} → Q s → Settles Q (err e s)
  stops : {f : Fault} {s : State} → Settles Q (fault f s)

-- The same by recursion, which `ground` proves of code that branches.
abbrev pub AtEnd : {A : Type 0} → (State → Type 0) → Out A → Type 0
AtEnd Q (ok a s) = Q s
AtEnd Q (err e s) = Q s
AtEnd Q (fault f s) = Unit

module _ {A : Type 0} {Q : State → Type 0} where
  pub settle : (o : Out A) → AtEnd Q o → Settles Q o
  settle (ok a s) h = returns h
  settle (err e s) h = fails h
  settle (fault f s) h = stops

  -- A property of every end.
  pub ended : {o : Out A} → Ends Q o → Settles Q o
  ended {o = ok a s} h = returns h.final
  ended {o = err e s} h = fails h.final
  ended {o = fault f s} h = stops

  pub bind :
      {B : Type 0} {o : Out A} {f : A → M B}
      → Settles Q o
      → ((a : A) (s : State) → Q s → Settles Q (f a s))
      → Settles Q (and_then o f)
  bind (returns q) next = next _ _ q
  bind (fails q) next = fails q
  bind stops next = stops

  -- Whatever the run returns, what follows turns the property into another.
  pub cleanup :
      {o : Out A} {c : M (Unit {0})}
      → Settles Q o
      → ((s : State) → Q s → Settles Q (c s))
      → Settles Q (or_cleanup o c)
  cleanup (returns q) next = returns q
  cleanup {c = c} (fails {e} {s} q) next = restore (next s q)
    where
      restore : {o : Out (Unit {0})} → Settles Q o → Settles Q (and_then {B = A} o (λ _ s. err e s))
      restore (returns q) = fails q
      restore (fails q) = fails q
      restore stops = stops
  cleanup stops next = stops

  pub finally :
      {Q' : State → Type 0} {o : Out A} {c : M (Unit {0})}
      → Settles Q o
      → ((s : State) → Q s → (s' : State) × (c s ≡ ok tt s') × Q' s')
      → Settles Q' (finally_run o c)
  finally (returns {a} {s} q) next = let (s', run, q') = next s q in rw run (returns q')
  finally (fails {e} {s} q) next = let (s', run, q') = next s q in rw run (fails q')
  finally stops next = stops

-- The error is dropped, and what follows turns the property into another.
pub drop_then :
    {Q Q' : State → Type 0} {o : Out (Unit {0})} {c : M (Unit {0})}
    → Settles Q o
    → ((s : State) → Q s → (s' : State) × (c s ≡ ok tt s') × Q' s')
    → Settles Q' (and_then (drop_error o) (λ _. c))
drop_then (returns {a} {s} q) next = let (s', run, q') = next s q in rw run (returns q')
drop_then (fails {e} {s} q) next = let (s', run, q') = next s q in rw run (returns q')
drop_then stops next = stops
