-- ===== src/Examples/Releasing.antt =====
-- What the benchmark takes, it gives back.
use axidma_driver.Common.{
  ℕ, zero, suc, ◌+◌, ◌==◌, ◌&&◌, ltb, ◌≡◌, ◌≢◌, refl, inl, inr, arith, Bool, true, false, Option,
  none, some, ◌∷◌, Bool-cases, get_elem?, if◌then◌else◌, ==_refl,
}
use axidma_driver.Types.{VideoFrame, einval}
use axidma_driver.Libaxidma.Calls.{Call}
use axidma_driver.DeviceTree.{dma_tx, dma_rx, vdma_tx, vdma_rx}
use axidma_driver.Libaxidma.Process.{Os, Process, Array, Result, P, and_then, ok, pure, fail, ◌>>=◌}
use axidma_driver.Libaxidma.Session.{
  axidma_init, axidma_destroy, close, axidma_get_dma_tx, axidma_get_dma_rx, axidma_get_vdma_tx,
  axidma_get_vdma_rx,
}
use axidma_driver.Libaxidma.Memory.{Fate, returns, fails, aborts, Owns, Holds, Never, then_on, here}
use axidma_driver.Libaxidma.Closing.{branch_on, init-Holds}
use axidma_driver.Examples.Benchmark.{init_data, verify_data}
use axidma_driver.Examples.Held.{Held, Maps, closes, malloc-Held, free-Held, twoway-Held}
use axidma_driver.Examples.Measuring.{
  Options, Memory, exit_of, frame_if, within, choose_channels, no_channel, single_transfer_test,
  int_rounds, time_loop, time_dma, measure_channels, measure, with_rx_buf, with_tx_buf, with_device,
  benchmark,
}

module _ (os : Os) (memory : Memory) (ptr a : ℕ) (p0 p1 : Process) where
  abbrev pub Keeps : {A : Type 0} → (n : ℕ) → Result A → Type 0
  Keeps n o = Fate (λ _. Held os ptr a p0 p1 n) (Held os ptr a p0 p1 n) o

  within-Keeps :
      {A B : Type 0} (n : ℕ) (o : Option A) (p : Process) (f : A → P B)
      → ((x : A) → Keeps n (f x p))
      → Keeps n (and_then (within o p) f)
  within-Keeps n none p f h = aborts
  within-Keeps n (some x) p f h = h x

  verdict-Keeps :
      (n : ℕ) (good : Option Bool) (p : Process)
      → Held os ptr a p0 p1 n p
      → Keeps n (and_then (within good p) (λ good. if good then pure tt else fail einval))
  verdict-Keeps n none p h = aborts
  verdict-Keeps n (some true) p h = returns h
  verdict-Keeps n (some false) p h = fails h

  single-Keeps :
      (n tx_channel tx_buf tx_size : ℕ) (tx_frame : Option VideoFrame)
      (rx_channel rx_buf rx_size : ℕ) (rx_frame : Option VideoFrame) (p : Process)
      → Held os ptr a p0 p1 n p
      → Keeps n (
          single_transfer_test os memory tx_channel tx_buf tx_size tx_frame rx_channel rx_buf
            rx_size rx_frame p)
  unfolding single_transfer_test
  single-Keeps n tx_channel tx_buf tx_size tx_frame rx_channel rx_buf rx_size rx_frame p h =
      within-Keeps n
        (init_data (memory.mapped p.calls tx_buf) (memory.mapped p.calls rx_buf) tx_size rx_size) p
        _
        (λ filled.
          then_on
            (twoway-Held os ptr a p0 p1 n tx_channel tx_buf tx_size tx_frame rx_channel rx_buf
              rx_size rx_frame true p h)
            (λ _ p' h'.
              let left = memory.transferred p'.calls filled.0 filled.1 in
              verdict-Keeps n (verify_data left.0 left.1 tx_size rx_size) p' h'))

  time-Keeps :
      (n tx_channel tx_buf tx_size : ℕ) (tx_frame : Option VideoFrame)
      (rx_channel rx_buf rx_size : ℕ) (rx_frame : Option VideoFrame) (num_transfers : ℕ)
      (p : Process)
      → Held os ptr a p0 p1 n p
      → Keeps n (
          time_loop os memory tx_channel tx_buf tx_size tx_frame rx_channel rx_buf rx_size rx_frame
            num_transfers p)
  unfolding time_loop
  time-Keeps n tx_channel tx_buf tx_size tx_frame rx_channel rx_buf rx_size rx_frame zero p h =
      returns h
  time-Keeps n tx_channel tx_buf tx_size tx_frame rx_channel rx_buf rx_size rx_frame (suc k) p h =
      then_on
        (twoway-Held os ptr a p0 p1 n tx_channel tx_buf tx_size tx_frame rx_channel rx_buf rx_size
          rx_frame true p h)
        (λ _ p' h'.
          time-Keeps n tx_channel tx_buf tx_size tx_frame rx_channel rx_buf rx_size rx_frame k p'
            h')

  -- From here on, an error is a number that is returned.
  abbrev pub Returns : {A : Type 0} → (n : ℕ) → Result A → Type 0
  Returns n o = Fate (λ _. Held os ptr a p0 p1 n) Never o

  pick-Returns :
      {B : Type 0} (n : ℕ) (first first' : Option ℕ) (p : Process) (f : ℕ × ℕ → P B)
      → ((c : ℕ × ℕ) → Returns n (f c p))
      → Returns n (and_then ((within first >>= λ tx. within first' >>= λ rx. pure (tx, rx)) p) f)
  pick-Returns n none first' p f h = aborts
  pick-Returns n (some tx) none p f h = aborts
  pick-Returns n (some tx) (some rx) p f h = h (tx, rx)

  pub choose-Returns :
      {B : Type 0} (n given given' : ℕ) (tx_chans rx_chans : Array) (p : Process) (f : ℕ × ℕ → P B)
      → ((c : ℕ × ℕ) → Returns n (f c p))
      → Returns n (and_then (choose_channels given given' tx_chans rx_chans p) f)
  choose-Returns n given given' tx_chans rx_chans p f h =
      elim (Bool-cases (given == no_channel && given' == no_channel)) [
        | inl y ↦
            rw y (pick-Returns n (get_elem? tx_chans.cells 0) (get_elem? rx_chans.cells 0) p f h)
        | inr k ↦ rw k (h (given, given'))
      ]

  pub exit-Returns :
      (n : ℕ) (m : P (Unit {0})) (p : Process) → Keeps n (m p) → Returns n (exit_of m p)
  exit-Returns n m p h = branch_on h (λ _ p' k. returns k) (λ e p' k. returns k)

  chans-Returns :
      {B : Type 0} (n : ℕ) (vdma : Bool) (p : Process) (f : Array → P B)
      → ((c : Array) → Returns n (f c p))
      → Returns n (and_then ((if vdma then axidma_get_vdma_tx else axidma_get_dma_tx) p) f)
  unfolding axidma_get_vdma_tx axidma_get_dma_tx
  chans-Returns n true p f h = h _
  chans-Returns n false p f h = h _

  chans_rx-Returns :
      {B : Type 0} (n : ℕ) (vdma : Bool) (p : Process) (f : Array → P B)
      → ((c : Array) → Returns n (f c p))
      → Returns n (and_then ((if vdma then axidma_get_vdma_rx else axidma_get_dma_rx) p) f)
  unfolding axidma_get_vdma_rx axidma_get_dma_rx
  chans_rx-Returns n true p f h = h _
  chans_rx-Returns n false p f h = h _

  measure_channels-Keeps :
      (n : ℕ) (o : Options) (tx_frame rx_frame : Option VideoFrame)
      (tx_buf rx_buf tx_channel rx_channel : ℕ) (p : Process)
      → Held os ptr a p0 p1 n p
      → Keeps n
          (measure_channels os memory o tx_frame rx_frame tx_buf rx_buf tx_channel rx_channel p)
  unfolding measure_channels time_dma
  measure_channels-Keeps n o tx_frame rx_frame tx_buf rx_buf tx_channel rx_channel p h =
      then_on
        (single-Keeps n tx_channel tx_buf o.tx_size tx_frame rx_channel rx_buf o.rx_size rx_frame p
          h)
        (λ _ p' h'.
          time-Keeps n tx_channel tx_buf o.tx_size tx_frame rx_channel rx_buf o.rx_size rx_frame
            (int_rounds o.num_transfers) p' h')

  measure-Returns :
      (n : ℕ) (o : Options) (tx_buf rx_buf : ℕ) (p : Process)
      → Held os ptr a p0 p1 n p
      → Returns n (measure os memory o tx_buf rx_buf p)
  unfolding measure
  measure-Returns n o tx_buf rx_buf p h =
      let tx_frame = frame_if o.use_vdma o.transmit_frame in
      let rx_frame = frame_if o.use_vdma o.receive_frame in
      chans-Returns n o.use_vdma p _ (λ tx_chans. chans_rx-Returns n o.use_vdma p _ (λ rx_chans.
        elim (Bool-cases (ltb tx_chans.len 1)) [
          | inl y ↦ rw y (returns h)
          | inr k ↦ elim (Bool-cases (ltb rx_chans.len 1)) [
            | inl y' ↦ rw (k, y') (returns h)
            | inr k' ↦
                rw (k, k')
                  (choose-Returns n o.tx_channel o.rx_channel tx_chans rx_chans p _ (λ c.
                    exit-Returns n
                      (measure_channels os memory o tx_frame rx_frame tx_buf rx_buf c.0 c.1) p
                      (measure_channels-Keeps n o tx_frame rx_frame tx_buf rx_buf c.0 c.1 p h)))
          ]
        ]))

  with_rx_buf-Returns :
      (n : ℕ) (o : Options) (tx_buf rx_buf : ℕ) (p : Process)
      → a ≢ 0
      → Held os ptr a p0 p1 (here a rx_buf + n) p
      → Returns n (with_rx_buf os memory o tx_buf rx_buf p)
  unfolding with_rx_buf
  with_rx_buf-Returns n o tx_buf zero p nonzero (h, m) = returns (h, ground (arith, m, nonzero))
  with_rx_buf-Returns n o tx_buf (suc k) p nonzero h =
      then_on (measure-Returns (here a (suc k) + n) o tx_buf (suc k) p h) (λ rc p' h'.
        then_on (free-Held os ptr a p0 p1 n (suc k) o.rx_size p' h') (λ _ p'' h''. returns h''))

  with_tx_buf-Returns :
      (o : Options) (tx_buf : ℕ) (p : Process)
      → a ≢ 0
      → Held os ptr a p0 p1 (here a tx_buf + 0) p
      → Returns 0 (with_tx_buf os memory o tx_buf p)
  unfolding with_tx_buf
  with_tx_buf-Returns o zero p nonzero (h, m) = returns (h, ground (arith, m, nonzero))
  with_tx_buf-Returns o (suc k) p nonzero h =
      then_on (malloc-Held os ptr a p0 p1 (here a (suc k) + 0) o.rx_size p h) (λ rx_buf p' h'.
        then_on (with_rx_buf-Returns (here a (suc k) + 0) o (suc k) rx_buf p' nonzero h')
          (λ rc p'' h''.
            then_on (free-Held os ptr a p0 p1 0 (suc k) o.tx_size p'' h'') (λ _ q k. returns k)))

  -- The descriptor of the device was closed once since `p1`, the library is marked as not open, and
  -- nothing of what was allocated or mapped is left.
  abbrev pub Released : Process → Type 0
  Released p =
      (closes p1.dev.fd p.calls ≡ 1 + closes p1.dev.fd p1.calls)
      × (p.dev.initialized ≡ false)
      × (Owns ptr 0 p0 p × Maps a 0 p1 p)

  pub destroy-Released :
      (p : Process) → Held os ptr a p0 p1 0 p → Fate (λ _. Released) Never (axidma_destroy os p)
  unfolding axidma_destroy close
  destroy-Released p ((h, same, closed), m) =
      let calls =
        Call.free p.dev.channels_ptr
        ∷ Call.free (p.dev.arrays dma_tx).ptr
        ∷ Call.free (p.dev.arrays dma_rx).ptr
        ∷ Call.free (p.dev.arrays vdma_tx).ptr
        ∷ Call.free (p.dev.arrays vdma_rx).ptr
        ∷ p.calls in
      elim (Bool-cases (os.close calls p.dev.fd)) [
        | inl y ↦ rw y (returns (rw (same, ==_refl p1.dev.fd, closed), refl, (omega (arith, h), m)))
        | inr k ↦ rw k aborts
      ]

  with_device-Released :
      (o : Options)
      → a ≢ 0
      → Holds ptr p0 p1
      → Fate (λ _. Released) Never (with_device os memory o true p1)
  unfolding with_device
  with_device-Released o nonzero h =
      then_on (malloc-Held os ptr a p0 p1 0 o.tx_size p1 ((h, refl, refl), omega arith))
        (λ tx_buf p h.
          then_on (with_tx_buf-Returns o tx_buf p nonzero h)
            (λ rc p' h'. then_on (destroy-Released p' h') (λ _ p'' h''. returns h'')))

-- If the library was opened, then the benchmark, wherever it fails, returns with the descriptor that
-- the library opened closed once, all memory freed that the library allocated, and both buffers
-- unmapped; unless an assertion of the library fails, or a buffer is smaller than its size. `a` is any
-- address, and `ptr` any pointer.
pub benchmark-Released :
    (os : Os) (memory : Memory) (o : Options) (ptr a : ℕ) (p p1 : Process)
    → ptr ≢ 0
    → a ≢ 0
    → axidma_init os p ≡ ok true p1
    → Fate (λ _. Released os memory ptr a p p1) Never (benchmark os memory o p)
unfolding benchmark
benchmark-Released os memory o ptr a p p1 nonzero nonzero' e =
    rw e (with_device-Released os memory ptr a p p1 o nonzero' (init-Holds os ptr p p1 nonzero e))
