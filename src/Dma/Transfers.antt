-- ===== src/Dma/Transfers.antt =====
-- driver/axidma_dma.c: the one-way and the two-way transfer. Each returns `tt` for 0.
use axidma_driver.Common.{ℕ, Bool, false, none, some, List, [], ◌∷◌, if◌then◌else◌}
use axidma_driver.Types.{
  AxidmaDir, is_write, is_read, is_vdma, AxidmaDevice, AxidmaChan, AxidmaTransfer, SgEntry,
  VideoFrame, Transaction, InoutTransaction, enodev,
}
use axidma_driver.Kernel.{Kernel, M, pure, fail, ◌>>=◌, ◌>>◌, get_dev}
use axidma_driver.Dma.Engine.{
  axidma_get_chan, axidma_init_sg_entry, axidma_prep_transfer, axidma_start_transfer,
}

-- `sg_init_table(&sg_list, 1)`: a table of one entry, cleared.
abbrev pub sg_table_one : List SgEntry
sg_table_one = record { address = 0; len = 0 } ∷ []

-- The channel with the id, if there is one and the test accepts its direction.
unfoldable pub require_chan : (AxidmaDir → Bool) → ℕ → M AxidmaChan
require_chan accepts channel_id = do
  found ← axidma_get_chan channel_id
  elim found [
    | none ↦ fail enodev
    | some chan ↦ if accepts chan.dir then pure chan else fail enodev
  ]

-- The transfer over one buffer: its cookie is not set yet. A frame that the function does not write is
-- what the stack holds.
abbrev pub transfer_of :
    ℕ → AxidmaDevice → AxidmaChan → List SgEntry → Bool → ℕ → VideoFrame → AxidmaTransfer
transfer_of process dev chan sg_list wait channel_id frame = record {
  sg_len = 1;
  sg_list = sg_list;
  wait = wait;
  cookie = 0;
  dir = chan.dir;
  type = chan.type;
  channel_id = channel_id;
  notify_signal = dev.notify_signal;
  process = process;
  cb_data = channel_id;
  frame = frame;
}

module _ (k : Kernel) where
  -- What the two one-way transfers share: they differ in the direction that they accept.
  unfoldable pub oneway_transfer : (AxidmaDir → Bool) → Transaction → M (Unit {0})
  oneway_transfer accepts trans = do
    chan ← require_chan accepts trans.channel_id
    sg_list ← axidma_init_sg_entry sg_table_one 0 trans.buf trans.buf_len
    dev ← get_dev
    let tfr = transfer_of k.current dev chan sg_list trans.wait trans.channel_id (k.stack_frame 0)
    tfr' ← axidma_prep_transfer k chan tfr
    axidma_start_transfer k chan tfr'

  unfoldable pub axidma_read_transfer : Transaction → M (Unit {0})
  unfolding oneway_transfer
  axidma_read_transfer = oneway_transfer is_read

  unfoldable pub axidma_write_transfer : Transaction → M (Unit {0})
  unfolding oneway_transfer
  axidma_write_transfer = oneway_transfer is_write

  -- Prepares both transfers, then starts both.
  unfoldable pub run_both : AxidmaChan → AxidmaTransfer → AxidmaChan → AxidmaTransfer → M (Unit {0})
  run_both tx_chan tx_tfr rx_chan rx_tfr = do
    tx_tfr' ← axidma_prep_transfer k tx_chan tx_tfr
    rx_tfr' ← axidma_prep_transfer k rx_chan rx_tfr
    axidma_start_transfer k tx_chan tx_tfr'
    axidma_start_transfer k rx_chan rx_tfr'

  -- Both frames are copied if the transmit channel is a video channel.
  unfoldable pub axidma_rw_transfer : InoutTransaction → M (Unit {0})
  axidma_rw_transfer trans = do
    tx_chan ← require_chan is_write trans.tx_channel_id
    rx_chan ← require_chan is_read trans.rx_channel_id
    tx_sg_list ← axidma_init_sg_entry sg_table_one 0 trans.tx_buf trans.tx_buf_len
    rx_sg_list ← axidma_init_sg_entry sg_table_one 0 trans.rx_buf trans.rx_buf_len
    dev ← get_dev
    let tx_frame = if is_vdma tx_chan.type then trans.tx_frame else k.stack_frame 0
    let tx_tfr = transfer_of k.current dev tx_chan tx_sg_list false trans.tx_channel_id tx_frame
    let rx_frame = if is_vdma tx_chan.type then trans.rx_frame else k.stack_frame 1
    let rx_tfr =
        transfer_of k.current dev rx_chan rx_sg_list trans.wait trans.rx_channel_id rx_frame
    run_both tx_chan tx_tfr rx_chan rx_tfr
