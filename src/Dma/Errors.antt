-- ===== src/Dma/Errors.antt =====
-- What the two steps of a transfer return, and what they leave behind.
use axidma_driver.Common.{◌↔◌, ℕ, ◌≡◌, ◌≢◌, ◌⊎◌, inl, inr, true, Option, List, ◌∷◌, arith}
use axidma_driver.Types.{
  AxidmaChan, other_dir, other_type, AxidmaTransfer, dma_complete, Errno, ebusy, etime, mem_to_dev,
  dev_to_mem,
}
use axidma_driver.Kernel.{
  Kernel, State, Event, Out, ok, err, fault, dmaengine_terminate_all, wait_for_completion_timeout,
  dma_async_is_tx_complete, log, or_cleanup,
}
use axidma_driver.Dma.Engine.{
  prepare_and_submit, terminate, axidma_prep_transfer, await_transfer, axidma_start_transfer,
  axidma_to_dma_dir, axidma_dir_to_string, axidma_type_to_string, axidma_dma_timeout,
}

-- The newest call of the kernel stops every transaction of the channel.
abbrev pub Terminated : ℕ → State → Type 0
Terminated chan s =
    (r : Option Errno) × (before : List Event) × (s.trace ≡ Event.terminate_all chan r ∷ before)

module _ (k : Kernel) where
  or_cleanup-Terminated :
      {A : Type 0} (o : Out A) (chan : ℕ) (e : Errno) (s' : State)
      → or_cleanup o (terminate k chan) ≡ err e s'
      → Terminated chan s'
  unfolding terminate dmaengine_terminate_all
  or_cleanup-Terminated (ok a s) chan e s' h = absurd (cc)
  or_cleanup-Terminated (err x s) chan e s' h =
      (k.terminate_all s.trace chan, s.trace, ground arith)
  or_cleanup-Terminated (fault f s) chan e s' h = absurd (cc)

  prep_transfer-Terminated :
      (chan : AxidmaChan) (tfr : AxidmaTransfer) (s : State) (e : Errno) (s' : State)
      → axidma_prep_transfer k chan tfr s ≡ err e s'
      → Terminated chan.chan s'
  unfolding axidma_prep_transfer axidma_to_dma_dir axidma_dir_to_string axidma_type_to_string
  prep_transfer-Terminated chan tfr s e s' h = ground (
    arith,
    or_cleanup-Terminated (prepare_and_submit k chan.chan tfr mem_to_dev s) chan.chan e s',
    or_cleanup-Terminated (prepare_and_submit k chan.chan tfr dev_to_mem s) chan.chan e s',
  )

  start_transfer-Terminated :
      (chan : AxidmaChan) (tfr : AxidmaTransfer) (s : State) (e : Errno) (s' : State)
      → axidma_start_transfer k chan tfr s ≡ err e s'
      → Terminated chan.chan s'
  unfolding axidma_start_transfer axidma_dir_to_string axidma_type_to_string
  start_transfer-Terminated chan tfr s e s' h = ground (
    arith,
    or_cleanup-Terminated
        (await_transfer k chan.chan tfr.cookie (log (Event.issue_pending chan.chan) s)) chan.chan e
        s',
  )

  -- A preparation or a start that returns an error has stopped the channel's transactions, and did
  -- nothing after that.
  pub steps-Terminated :
      (chan : AxidmaChan) (tfr : AxidmaTransfer) (s : State) (e : Errno) (s' : State)
      → (axidma_prep_transfer k chan tfr s ≡ err e s')
        ⊎ (axidma_start_transfer k chan tfr s ≡ err e s')
      → Terminated chan.chan s'
  steps-Terminated chan tfr s e s' (inl h) = prep_transfer-Terminated chan tfr s e s' h
  steps-Terminated chan tfr s e s' (inr h) = start_transfer-Terminated chan tfr s e s' h

  -- A blocking start issues what is pending, waits, and asks for the status. It returns 0 exactly if
  -- there was time left and the engine says that the transfer is complete; otherwise it stops the
  -- channel, and returns -ETIME or -EBUSY.
  pub start_transfer_waits :
      (chan : AxidmaChan) (tfr : AxidmaTransfer) (s : State)
      → tfr.wait ≡ true
      → tfr.dir ≢ other_dir
      → tfr.type ≢ other_type
      → let issued = log (Event.issue_pending chan.chan) s in
        let timeout = k.usecs_to_jiffies axidma_dma_timeout in
        let remain = k.wait_for_completion issued.trace timeout in
        let waited = log (Event.wait_for_completion timeout remain) issued in
        let status = k.tx_status waited.trace chan.chan tfr.cookie in
        let asked = log (Event.tx_status chan.chan tfr.cookie status) waited in
        let stopped =
          log (Event.terminate_all chan.chan (k.terminate_all asked.trace chan.chan)) asked in
        let run = axidma_start_transfer k chan tfr s in
        (((run ≡ ok tt asked) ↔ ((remain ≢ 0) × (status ≡ dma_complete)))
          × ((run ≡ err etime stopped) ↔ (remain ≡ 0))
          × ((run ≡ err ebusy stopped) ↔ ((remain ≢ 0) × (status ≢ dma_complete))))
  unfolding axidma_start_transfer axidma_dir_to_string axidma_type_to_string await_transfer
      terminate dmaengine_terminate_all wait_for_completion_timeout dma_async_is_tx_complete
  start_transfer_waits chan tfr s w d t = (
    (λ h. ground arith, λ h. ground arith),
    (λ h. ground arith, λ h. ground arith),
    (λ h. ground arith, λ h. ground arith),
  )
