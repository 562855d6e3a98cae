-- ===== src/Examples/Measuring.antt =====
-- examples/axidma_benchmark.c: the tests, and `main` after its options are parsed, over the model of the
-- library. What the mapped memory holds, and what a transfer leaves in the two buffers, are parameters.
-- The clock, and the rates that are computed from it, are left out.
use axidma_driver.Common.{
  ℕ, zero, suc, ◌-◌, ◌^◌, ◌==◌, ltb, Bool, true, false, ◌&&◌, Option, none, some, List,
  if◌then◌else◌, get_elem?,
}
use axidma_driver.Types.{word_mod, VideoFrame, Errno, enodev, einval, code}
use axidma_driver.Libaxidma.Calls.{Call}
use axidma_driver.Libaxidma.Process.{
  Os, P, Array, out_of_bounds, ok, pure, fail, die, ◌>>=◌, ◌>>◌, on_result,
}
use axidma_driver.Libaxidma.Session.{
  axidma_init, axidma_destroy, axidma_get_dma_tx, axidma_get_dma_rx, axidma_get_vdma_tx,
  axidma_get_vdma_rx,
}
use axidma_driver.Libaxidma.Requests.{axidma_malloc, axidma_free, axidma_twoway_transfer}
use axidma_driver.Examples.Benchmark.{init_data, verify_data}

-- What `parse_args` sets. A channel that is not given is -1.
pub record Options : Type 0 where
  pub tx_channel : ℕ
  pub rx_channel : ℕ
  pub tx_size : ℕ
  pub rx_size : ℕ
  pub transmit_frame : VideoFrame
  pub receive_frame : VideoFrame
  pub num_transfers : ℕ
  pub use_vdma : Bool

-- The words of mapped memory, and those that a transfer leaves in the two buffers.
pub record Memory : Type 0 where
  pub mapped : List Call → (addr : ℕ) → List ℕ
  pub transferred : List Call → (tx rx : List ℕ) → List ℕ × List ℕ

-- What a `main` returns: 0, 1, a negative number, or that number without its sign.
pub data Exit : Type 0 where
  success failure : Exit
  negative positive : Errno → Exit

abbrev pub within : {A : Type 0} → Option A → P A
within none = die out_of_bounds
within (some a) = pure a

abbrev pub get_calls : P (List Call)
get_calls p = ok p.calls p

-- What `rc` is after a call.
abbrev pub exit_of : P (Unit {0}) → P Exit
exit_of m = on_result m (λ _. pure success) (λ e. pure (negative e))

abbrev pub no_channel : ℕ
no_channel = word_mod - 1

-- The first channel of a list, if the user gave none.
abbrev pub choose_channels : (given given' : ℕ) (tx_chans rx_chans : Array) → P (ℕ × ℕ)
choose_channels given given' tx_chans rx_chans =
    if given == no_channel && given' == no_channel
    then (do
      tx ← within (get_elem? tx_chans.cells 0)
      rx ← within (get_elem? rx_chans.cells 0)
      pure (tx, rx))
    else pure (given, given')

-- How often a loop from 0 up to an `int` is run: not at all if the number is negative.
unfoldable pub int_rounds : (num : ℕ) → ℕ
int_rounds num = if ltb num (2 ^ 31) then num else 0

abbrev pub frame_if : Bool → VideoFrame → Option VideoFrame
frame_if use_vdma frame = if use_vdma then some frame else none

module _ (os : Os) (memory : Memory) where
  unfoldable pub single_transfer_test :
      (tx_channel tx_buf tx_size : ℕ) (tx_frame : Option VideoFrame) (rx_channel rx_buf rx_size : ℕ)
      (rx_frame : Option VideoFrame)
      → P (Unit {0})
  single_transfer_test tx_channel tx_buf tx_size tx_frame rx_channel rx_buf rx_size rx_frame = do
    calls ← get_calls
    (tx, rx) ←
        within (init_data (memory.mapped calls tx_buf) (memory.mapped calls rx_buf) tx_size rx_size)
    axidma_twoway_transfer os tx_channel tx_buf tx_size tx_frame rx_channel rx_buf rx_size rx_frame
        true
    calls ← get_calls
    let (tx', rx') = memory.transferred calls tx rx
    good ← within (verify_data tx' rx' tx_size rx_size)
    if good then pure tt else fail einval

  -- The loop of the transfers, which ends at the first that fails.
  unfoldable pub time_loop :
      (tx_channel tx_buf tx_size : ℕ) (tx_frame : Option VideoFrame) (rx_channel rx_buf rx_size : ℕ)
      (rx_frame : Option VideoFrame) (rounds : ℕ)
      → P (Unit {0})
  time_loop tx_channel tx_buf tx_size tx_frame rx_channel rx_buf rx_size rx_frame zero = pure tt
  time_loop tx_channel tx_buf tx_size tx_frame rx_channel rx_buf rx_size rx_frame (suc n) = do
    axidma_twoway_transfer os tx_channel tx_buf tx_size tx_frame rx_channel rx_buf rx_size rx_frame
        true
    time_loop tx_channel tx_buf tx_size tx_frame rx_channel rx_buf rx_size rx_frame n

  unfoldable pub time_dma :
      (tx_channel tx_buf tx_size : ℕ) (tx_frame : Option VideoFrame) (rx_channel rx_buf rx_size : ℕ)
      (rx_frame : Option VideoFrame) (num_transfers : ℕ)
      → P (Unit {0})
  time_dma tx_channel tx_buf tx_size tx_frame rx_channel rx_buf rx_size rx_frame num_transfers =
      time_loop tx_channel tx_buf tx_size tx_frame rx_channel rx_buf rx_size rx_frame
        (int_rounds num_transfers)

  -- The single test, and then the others if it returned 0.
  unfoldable pub measure_channels :
      (o : Options) (tx_frame rx_frame : Option VideoFrame)
      (tx_buf rx_buf tx_channel rx_channel : ℕ)
      → P (Unit {0})
  measure_channels o tx_frame rx_frame tx_buf rx_buf tx_channel rx_channel = do
    single_transfer_test tx_channel tx_buf o.tx_size tx_frame rx_channel rx_buf o.rx_size rx_frame
    time_dma tx_channel tx_buf o.tx_size tx_frame rx_channel rx_buf o.rx_size rx_frame
        o.num_transfers

  -- `main` from the lists of channels to the label `free_rx_buf`.
  unfoldable pub measure : (o : Options) (tx_buf rx_buf : ℕ) → P Exit
  measure o tx_buf rx_buf = do
    tx_chans ← if o.use_vdma then axidma_get_vdma_tx else axidma_get_dma_tx
    rx_chans ← if o.use_vdma then axidma_get_vdma_rx else axidma_get_dma_rx
    let tx_frame = frame_if o.use_vdma o.transmit_frame
    let rx_frame = frame_if o.use_vdma o.receive_frame
    if ltb tx_chans.len 1
        then pure (negative enodev)
        else if ltb rx_chans.len 1
        then pure (negative enodev)
        else (do
          (tx, rx) ← choose_channels o.tx_channel o.rx_channel tx_chans rx_chans
          exit_of (measure_channels o tx_frame rx_frame tx_buf rx_buf tx rx))

  -- To the label `free_tx_buf`: -1 is returned without the buffer.
  unfoldable pub with_rx_buf : (o : Options) (tx_buf rx_buf : ℕ) → P Exit
  with_rx_buf o tx_buf zero = pure (negative (code 1))
  with_rx_buf o tx_buf (suc n) = do
    rc ← measure o tx_buf (suc n)
    axidma_free os (suc n) o.rx_size
    pure rc

  -- To the label `destroy_axidma`.
  unfoldable pub with_tx_buf : (o : Options) (tx_buf : ℕ) → P Exit
  with_tx_buf o zero = pure (negative (code 1))
  with_tx_buf o (suc n) = do
    rx_buf ← axidma_malloc os o.rx_size
    rc ← with_rx_buf o (suc n) rx_buf
    axidma_free os (suc n) o.tx_size
    pure rc

  unfoldable pub with_device : (o : Options) → Bool → P Exit
  with_device o false = pure failure
  with_device o true = do
    tx_buf ← axidma_malloc os o.tx_size
    rc ← with_tx_buf o tx_buf
    axidma_destroy os
    pure rc

  unfoldable pub benchmark : (o : Options) → P Exit
  benchmark o = axidma_init os >>= with_device o
