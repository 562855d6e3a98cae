-- ===== src/Examples/Held.antt =====
-- What a program has mapped and what the library has allocated, while a program runs.
use axidma_driver.Common.{
  ℕ, ◌+◌, ◌≡◌, inl, inr, arith, Bool, true, false, Option, List, [], ◌∷◌, Bool-cases, Option-cases,
}
use axidma_driver.Types.{VideoFrame, is_write, is_read}
use axidma_driver.Buffers.{or_null}
use axidma_driver.Libaxidma.Calls.{Call, Request}
use axidma_driver.Libaxidma.Process.{Os, Process, DmaChannel, P, and_then, ioctl, assert}
use axidma_driver.Libaxidma.Channels.{find_in, find_channel}
use axidma_driver.Libaxidma.Requests.{
  known, known_channel, request, axidma_malloc, axidma_free, axidma_twoway_transfer,
}
use axidma_driver.Libaxidma.Memory.{Fate, returns, fails, aborts, Holds, Never, here}

-- How often memory was mapped at an address, and how often it was unmapped from there.
abbrev pub maps : ℕ → List Call → ℕ
maps a [] = 0
maps a (Call.mmap size fd answer ∷ cs) = here a (or_null answer) + maps a cs
maps a (_ ∷ cs) = maps a cs

abbrev pub unmaps : ℕ → List Call → ℕ
unmaps a [] = 0
unmaps a (Call.munmap addr size done ∷ cs) = here a addr + unmaps a cs
unmaps a (_ ∷ cs) = unmaps a cs

-- How often the descriptor was closed.
abbrev pub closes : ℕ → List Call → ℕ
closes fd [] = 0
closes fd (Call.close other done ∷ cs) = here fd other + closes fd cs
closes fd (_ ∷ cs) = closes fd cs

-- Since `p1`, memory at the address was mapped `n` times more than it was unmapped.
abbrev pub Maps : (a n : ℕ) → Process → Process → Type 0
Maps a n p1 p = maps a p.calls + unmaps a p1.calls ≡ n + maps a p1.calls + unmaps a p.calls

module _ (os : Os) (ptr a : ℕ) (p0 p1 : Process) where
  -- All that the library allocated since `p0` is what its structure points to, and its descriptor is
  -- that of `p1`, which was not closed since.
  abbrev pub Open : Process → Type 0
  Open p =
      Holds ptr p0 p
      × (p.dev.fd ≡ p1.dev.fd)
      × (closes p1.dev.fd p.calls ≡ closes p1.dev.fd p1.calls)

  -- The library is open, and the address is mapped `n` times.
  abbrev pub Held : (n : ℕ) → Process → Type 0
  Held n p = Open p × Maps a n p1 p

  pub malloc-Held :
      (n size : ℕ) (p : Process)
      → Held n p
      → Fate (λ addr. Held (here a addr + n)) Never (axidma_malloc os size p)
  unfolding axidma_malloc
  malloc-Held n size p (h, m) = returns (h, omega (arith, m))

  pub free-Held :
      (n addr size : ℕ) (p : Process)
      → Held (here a addr + n) p
      → Fate (λ _. Held n) Never (axidma_free os addr size p)
  unfolding axidma_free
  free-Held n addr size p (h, m) = elim (Bool-cases (os.munmap p.calls addr size)) [
    | inl y ↦ rw y (returns (h, omega (arith, m)))
    | inr k ↦ rw k aborts
  ]

  request-Held :
      (n : ℕ) (r : Request) (p : Process) → Held n p → Fate (λ _. Held n) (Held n) (request os r p)
  unfolding request ioctl
  request-Held n r p h = elim (Option-cases (os.ioctl p.calls p.dev.fd r)) [
    | inl y ↦ rw y (returns h)
    | inr (e, y) ↦ rw y (fails h)
  ]

  known-Held :
      {A : Type 0} (n id : ℕ) (p : Process) (f : DmaChannel → P A)
      → ((d : DmaChannel) → Fate (λ _. Held n) (Held n) (f d p))
      → Fate (λ _. Held n) (Held n) (and_then (known_channel id p) f)
  unfolding known_channel known find_channel
  known-Held n id p f h = elim (Option-cases (find_in id p.dev.channels)) [
    | inl y ↦ rw (y, known) aborts
    | inr (d, y) ↦ rw (y, known) (h d)
  ]

  assert-Held :
      {A : Type 0} (n : ℕ) (b : Bool) (p : Process) (m : P A)
      → Fate (λ _. Held n) (Held n) (m p)
      → Fate (λ _. Held n) (Held n) (and_then (assert b p) (λ _. m))
  assert-Held n true p m h = h
  assert-Held n false p m h = aborts

  pub twoway-Held :
      (n tx_channel tx_buf tx_len : ℕ) (tx_frame : Option VideoFrame) (rx_channel rx_buf rx_len : ℕ)
      (rx_frame : Option VideoFrame) (wait : Bool) (p : Process)
      → Held n p
      → Fate
          (λ _. Held n)
          (Held n)
          (axidma_twoway_transfer os tx_channel tx_buf tx_len tx_frame rx_channel rx_buf rx_len
            rx_frame wait p)
  unfolding axidma_twoway_transfer
  twoway-Held n tx_channel tx_buf tx_len tx_frame rx_channel rx_buf rx_len rx_frame wait p h =
      known-Held n tx_channel p _ (λ tx. assert-Held n (is_write tx.dir) p _ (
        known-Held n rx_channel p _
          (λ rx. assert-Held n (is_read rx.dir) p _ (request-Held n _ p h))))
