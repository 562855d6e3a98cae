-- ===== src/Dma/Faults.antt =====
-- When a transfer is free of faults.
use axidma_driver.Common.{
  ℕ, ◌<◌, ◌≡◌, ◌≢◌, inl, inr, refl, Bool, true, false, some, List, [], ◌∷◌, ◌==◌, length, arith,
  Bool-cases, Option-cases, lt→ltb,
}
use axidma_driver.Types.{
  Errno, is_read, is_write, AxidmaChan, AxidmaDir, other_dir, is_dma, AxidmaTransfer,
  TransferDirection, mem_to_dev, dev_to_mem, Transaction,
}
use axidma_driver.Kernel.{
  Kernel, State, Event, Out, ok, err, fault, and_then, dmaengine_prep_slave_sg, dmaengine_submit,
  dmaengine_terminate_all, wait_for_completion_timeout, dma_async_is_tx_complete, M, or_cleanup,
  log, ◌>>=◌,
}
use axidma_driver.Buffers.Regions.{Region, Holds}
use axidma_driver.Buffers.Translate.{uservirt_to_dma_returns}
use axidma_driver.Dma.Engine.{
  prep_descriptor, submit_step, submit_descriptor, prepare_and_submit, terminate,
  axidma_prep_transfer, await_transfer, axidma_start_transfer, axidma_init_sg_entry,
  axidma_get_chan, find_chan, axidma_to_dma_dir, axidma_dir_to_string, axidma_type_to_string,
  write_cb_data,
}
use axidma_driver.Dma.Transfers.{
  transfer_of, require_chan, oneway_transfer, axidma_read_transfer, axidma_write_transfer,
}

-- The run does not stop at a fault, and `Q` holds of what it returns.
pub data Runs {A : Type 0} (Q : A → Type 0) : Out A → Type 0 where
  returns : {a : A} {s : State} → Q a → Runs Q (ok a s)
  fails : {e : Errno} {s : State} → Runs Q (err e s)

-- The same by recursion, which `ground` proves of code that branches.
abbrev FreeOfFaults : {A : Type 0} → (A → Type 0) → Out A → Type 0
FreeOfFaults Q (ok a s) = Q a
FreeOfFaults Q (err e s) = Unit
FreeOfFaults Q (fault f s) = ⊥

module _ {A : Type 0} {Q : A → Type 0} where
  of_free : (o : Out A) → FreeOfFaults Q o → Runs Q o
  of_free (ok a s) h = returns h
  of_free (err e s) h = fails
  of_free (fault f s) h = elim h [ ]

  go_on :
      {B : Type 0} {Q' : B → Type 0} {o : Out A} {f : A → M B}
      → Runs Q o
      → ((a : A) (s : State) → Q a → Runs Q' (f a s))
      → Runs Q' (and_then o f)
  go_on (returns q) next = next _ _ q
  go_on fails next = fails

module _ (k : Kernel) where
  cleaned_up :
      {A : Type 0} {Q : A → Type 0} {o : Out A} (chan : ℕ)
      → Runs Q o
      → Runs Q (or_cleanup o (terminate k chan))
  unfolding terminate dmaengine_terminate_all
  cleaned_up chan (returns q) = returns q
  cleaned_up chan fails = fails

  -- The transfer that comes back differs in its cookie only.
  abbrev Prepared : AxidmaTransfer → AxidmaTransfer → Type 0
  Prepared tfr tfr' = (tfr'.dir ≡ tfr.dir) × (tfr'.type ≡ tfr.type)

  submit_descriptor-Runs :
      (tfr : AxidmaTransfer) (txn : ℕ) (s : State)
      → Runs (Prepared tfr) (submit_descriptor k tfr txn s)
  unfolding submit_descriptor dmaengine_submit
  submit_descriptor-Runs tfr txn s = of_free (submit_descriptor k tfr txn s) (ground arith)

  submit_step-Runs :
      (tfr : AxidmaTransfer) (txn : ℕ) (s : State)
      → tfr.cb_data < length s.dev.cb_data
      → Runs (Prepared tfr) (submit_step k tfr txn s)
  unfolding submit_step submit_descriptor write_cb_data
  submit_step-Runs tfr txn s inside = elim (Bool-cases (txn == 0)) [
    | inl null ↦ rw null fails
    | inr got ↦ elim (Bool-cases tfr.wait) [
      | inl w ↦ rw (got, lt→ltb _ _ inside, w) (submit_descriptor-Runs tfr txn _)
      | inr w ↦ rw (got, lt→ltb _ _ inside, w) (submit_descriptor-Runs tfr txn _)
    ]
  ]

  -- What a plain transfer needs: a channel that was requested, a direction, and a place for its callback
  -- data.
  pub record IsReady (chan : AxidmaChan) (tfr : AxidmaTransfer) (s : State) : Type 0 where
    pub requested : chan.chan ≢ 0
    pub known_dir : tfr.dir ≢ other_dir
    pub plain : is_dma tfr.type ≡ true
    pub slot : tfr.cb_data < length s.dev.cb_data

  prepare-Runs :
      (chan : ℕ) (tfr : AxidmaTransfer) (dir : TransferDirection) (s : State)
      → is_dma tfr.type ≡ true
      → tfr.cb_data < length s.dev.cb_data
      → Runs (Prepared tfr) (prepare_and_submit k chan tfr dir s)
  unfolding prepare_and_submit prep_descriptor dmaengine_prep_slave_sg
  prepare-Runs chan tfr dir s plain slot = rw plain (
      submit_step-Runs tfr _
        (log
          (Event.prep_slave_sg chan tfr.sg_list tfr.sg_len dir
            (k.prep_slave_sg s.trace chan tfr.sg_list tfr.sg_len dir))
          s)
        slot)

  prep_transfer-Runs :
      (chan : AxidmaChan) (tfr : AxidmaTransfer) (s : State)
      → IsReady chan tfr s
      → Runs (Prepared tfr) (axidma_prep_transfer k chan tfr s)
  unfolding axidma_prep_transfer axidma_to_dma_dir axidma_dir_to_string axidma_type_to_string
  prep_transfer-Runs chan tfr s r =
      let body = λ (dir : TransferDirection).
        cleaned_up chan.chan (prepare-Runs chan.chan tfr dir s r.plain r.slot) in
      ground (arith, body mem_to_dev, body dev_to_mem)

  start_transfer-Runs :
      (chan : AxidmaChan) (tfr : AxidmaTransfer) (s : State)
      → tfr.dir ≢ other_dir
      → is_dma tfr.type ≡ true
      → Runs (λ _. Unit) (axidma_start_transfer k chan tfr s)
  unfolding axidma_start_transfer axidma_dir_to_string axidma_type_to_string await_transfer
      terminate dmaengine_terminate_all wait_for_completion_timeout dma_async_is_tx_complete
  start_transfer-Runs chan tfr s d t = of_free (axidma_start_transfer k chan tfr s) (ground arith)

module _ (k : Kernel) (own es : List Region) where
  -- A channel that a one-way transfer can use: the engine has given it, it is no video channel, and
  -- its id is an index of the callback data.
  abbrev pub IsUsable : State → ℕ → Type 0
  IsUsable s id =
      (c : AxidmaChan)
      → find_chan id s.dev.channels ≡ some c
      → (c.chan ≢ 0) × (is_dma c.type ≡ true) × (id < length s.dev.cb_data)

  run_oneway-Runs :
      (chan : AxidmaChan) (trans : Transaction) (a : ℕ) (s : State)
      → (chan.chan ≢ 0) × (is_dma chan.type ≡ true) × (trans.channel_id < length s.dev.cb_data)
      → chan.dir ≢ other_dir
      → Runs
          (λ _. Unit)
          ((axidma_prep_transfer k chan (
                transfer_of k.current s.dev chan
                  (record { address = a; len = trans.buf_len } ∷ [])
                  trans.wait
                  trans.channel_id
                  (k.stack_frame 0))
              >>= axidma_start_transfer k chan)
            s)
  run_oneway-Runs chan trans a s (requested, plain, slot) known =
      go_on
        (prep_transfer-Runs k chan _ s
          (record { requested = requested; known_dir = known; plain = plain; slot = slot }))
        λ tfr s' (d, t). start_transfer-Runs k chan tfr s' (λ e. known (cc)) (cc)

  oneway_transfer-Runs :
      (accepts : AxidmaDir → Bool) (trans : Transaction) (s : State)
      → accepts other_dir ≡ false
      → Holds s own es
      → IsUsable s trans.channel_id
      → Runs (λ _. Unit) (oneway_transfer k accepts trans s)
  unfolding oneway_transfer require_chan axidma_get_chan axidma_init_sg_entry
  oneway_transfer-Runs accepts trans s other h usable =
      let (a, found) = uservirt_to_dma_returns s own es trans.buf trans.buf_len h in
      elim (Option-cases (find_chan trans.channel_id s.dev.channels)) [
        | inl missing ↦ rw missing fails
        | inr (chan, there) ↦ elim (Bool-cases (accepts chan.dir)) [
          | inl yes_dir ↦ elim (Bool-cases (a == 0)) [
            | inl null ↦ rw (there, yes_dir, found, null) fails
            | inr mapped ↦
                rw (there, yes_dir, found, mapped)
                  (run_oneway-Runs chan trans a s (usable chan there) (λ e. cc))
          ]
          | inr no_dir ↦ rw (there, no_dir) fails
        ]
      ]

  -- On a device whose buffer lists are live, a one-way transfer over a usable channel never stops at
  -- a fault: it returns 0 or a negative number, whatever the kernel answers.
  pub oneway_transfers-Runs :
      (trans : Transaction) (s : State)
      → Holds s own es
      → IsUsable s trans.channel_id
      → Runs (λ _. Unit) (axidma_read_transfer k trans s)
        × Runs (λ _. Unit) (axidma_write_transfer k trans s)
  unfolding axidma_read_transfer axidma_write_transfer
  oneway_transfers-Runs trans s h usable = (
    oneway_transfer-Runs is_read trans s refl h usable,
    oneway_transfer-Runs is_write trans s refl h usable,
  )
