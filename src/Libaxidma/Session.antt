-- ===== src/Libaxidma/Session.antt =====
-- library/libaxidma.c: the library is opened and closed, and completions reach the user's callbacks.
use axidma_driver.Common.{
  ℕ, ◌+◌, ◌-◌, ◌%◌, ◌==◌, leb, not, Bool, true, false, ◌&&◌, ◌^◌, Option, none, some, if◌then◌else◌,
  get_elem?,
}
use axidma_driver.Types.{word_mod, Errno, code}
use axidma_driver.DeviceTree.{dma_tx, dma_rx, vdma_tx, vdma_rx}
use axidma_driver.Libaxidma.Calls.{Request, Call}
use axidma_driver.Libaxidma.Process.{
  Os, P, DmaChannel, Array, out_of_bounds, ok, pure, fail, die, ◌>>=◌, ◌>>◌, on_result, get_dev,
  put_dev, emit, note, free, assert, ioctl,
}
use axidma_driver.Libaxidma.Channels.{probe_channels, find_channel, store_channel}

-- `a <= b` of two `int`s.
abbrev pub int_leb : ℕ → ℕ → Bool
int_leb a b = leb ((a + 2 ^ 31) % word_mod) ((b + 2 ^ 31) % word_mod)

abbrev pub is_some : {A : Type 0} → Option A → Bool
is_some none = false
is_some (some a) = true

-- The callback of the channel that was found at the index, if the user has set one.
unfoldable pub invoke_callback : (channel_id : ℕ) → Option DmaChannel → P (Unit {0})
invoke_callback channel_id none = die out_of_bounds
invoke_callback channel_id (some chan) =
    if chan.callback == 0
    then pure tt
    else emit (Call.invoke chan.callback channel_id chan.user_data)

-- The handler of the signal; `si_int` is that of its information.
unfoldable pub axidma_callback : (si_int : ℕ) → P (Unit {0})
axidma_callback si_int = do
  dev ← get_dev
  assert (int_leb 0 si_int && int_leb si_int dev.num_channels)
  invoke_callback si_int (get_elem? dev.channels si_int)

module _ (os : Os) where
  -- `sigaction` returns 0 or -1, which is `code 1`.
  unfoldable pub sigaction : (signal : ℕ) → P (Unit {0})
  sigaction signal p =
      let a = os.sigaction p.calls signal in
      (if a then pure tt else fail (code 1)) (note (Call.sigaction signal a) p)

  unfoldable pub open_device : P (Option ℕ)
  open_device p = let a = os.open_device p.calls in ok a (note (Call.open_device a) p)

  unfoldable pub close : (fd : ℕ) → P Bool
  close fd p = let a = os.close p.calls fd in ok a (note (Call.close fd a) p)

  unfoldable pub setup_dma_callback : P (Unit {0})
  setup_dma_callback = do
    sigaction os.sig_rtmin
    dev ← get_dev
    ioctl os dev.fd (Request.set_signal os.sig_rtmin)

  -- The end of `axidma_init` if something went wrong: NULL is returned.
  unfoldable pub give_up : Errno → P Bool
  give_up e = do dev ← get_dev; closed ← close dev.fd; pure false

  unfoldable pub init_opened : Option ℕ → P Bool
  init_opened none = do dev ← get_dev; put_dev (record dev { fd = word_mod - 1 }); pure false
  init_opened (some fd) = do
    dev ← get_dev
    put_dev (record dev { fd = fd })
    on_result (probe_channels os)
        (λ _.
          on_result setup_dma_callback
            (λ _. do dev ← get_dev; put_dev (record dev { initialized = true }); pure true) give_up)
        give_up

  -- Returns whether there is a handle.
  unfoldable pub axidma_init : P Bool
  axidma_init = do dev ← get_dev; assert (not dev.initialized); fd ← open_device; init_opened fd

  unfoldable pub axidma_destroy : P (Unit {0})
  axidma_destroy = do
    dev ← get_dev
    free (dev.arrays vdma_rx).ptr
    free (dev.arrays vdma_tx).ptr
    free (dev.arrays dma_rx).ptr
    free (dev.arrays dma_tx).ptr
    free dev.channels_ptr
    closed ← close dev.fd
    assert closed
    put_dev (record dev { initialized = false })

-- The lookup by id is only tested; the write goes to the entry whose index is the id.
unfoldable pub write_callback : (channel callback user_data : ℕ) → Option DmaChannel → P (Unit {0})
write_callback channel callback user_data none = die out_of_bounds
write_callback channel callback user_data (some c) =
    store_channel channel (record c { callback = callback; user_data = user_data })

unfoldable pub axidma_set_callback : (channel callback user_data : ℕ) → P (Unit {0})
axidma_set_callback channel callback user_data = do
  found ← find_channel channel
  assert (is_some found)
  dev ← get_dev
  write_callback channel callback user_data (get_elem? dev.channels channel)

-- The four lists of ids.
unfoldable pub axidma_get_dma_tx : P Array
axidma_get_dma_tx = do dev ← get_dev; pure (dev.arrays dma_tx)

unfoldable pub axidma_get_dma_rx : P Array
axidma_get_dma_rx = do dev ← get_dev; pure (dev.arrays dma_rx)

unfoldable pub axidma_get_vdma_tx : P Array
axidma_get_vdma_tx = do dev ← get_dev; pure (dev.arrays vdma_tx)

unfoldable pub axidma_get_vdma_rx : P Array
axidma_get_vdma_rx = do dev ← get_dev; pure (dev.arrays vdma_rx)
