-- ===== src/Dma/Engine.antt =====
-- driver/axidma_dma.c: the conversions, the lookup of a channel, the completion callback, and the
-- two steps of every transfer, `axidma_prep_transfer` and `axidma_start_transfer`.
use axidma_driver.Common.{
  ℕ, ◌*◌, ◌-◌, ◌%◌, Bool, true, false, ◌&&◌, Option, none, some, List, [], ◌∷◌, leb, ltb, ◌==◌,
  if◌then◌else◌, length, set,
}
use axidma_driver.Types.{
  word_mod, AxidmaDir, axidma_write, axidma_read, other_dir, AxidmaType, other_type, is_dma,
  AxidmaChan, AxidmaTransfer, CbData, SgEntry, VideoFrame, TransferDirection, mem_to_dev,
  dev_to_mem, VdmaConfig, dma_complete, efault, ebusy, etime,
}
use axidma_driver.Kernel.{
  Kernel, Event, M, null_deref, out_of_bounds, bug_on, pure, fail, stop, ◌>>=◌, ◌>>◌, on_error,
  get_dev, put_dev, emit, dmaengine_terminate_all, dmaengine_prep_slave_sg,
  xilinx_vdma_channel_set_config, dmaengine_prep_interleaved_dma, dmaengine_submit,
  wait_for_completion_timeout, dma_async_is_tx_complete,
}
use axidma_driver.Buffers.{axidma_uservirt_to_dma}

-- `AXIDMA_DMA_TIMEOUT`, which `axidma_start_transfer` takes for microseconds.
abbrev pub axidma_dma_timeout : ℕ
axidma_dma_timeout = 1000

-- `BUG_ON` in the two conversions to text. The text itself only goes into messages.
unfoldable pub axidma_dir_to_string : AxidmaDir → M (Unit {0})
axidma_dir_to_string other_dir = stop bug_on
axidma_dir_to_string _ = pure tt

unfoldable pub axidma_type_to_string : AxidmaType → M (Unit {0})
axidma_type_to_string other_type = stop bug_on
axidma_type_to_string _ = pure tt

unfoldable pub axidma_to_dma_dir : AxidmaDir → M TransferDirection
axidma_to_dma_dir axidma_write = pure mem_to_dev
axidma_to_dma_dir axidma_read = pure dev_to_mem
axidma_to_dma_dir other_dir = stop bug_on

-- Writes entry `index` of the table; a table that is too short is overrun.
unfoldable pub axidma_init_sg_entry : List SgEntry → (index buf buf_len : ℕ) → M (List SgEntry)
axidma_init_sg_entry sg_list index buf buf_len = do
  dma_addr ← axidma_uservirt_to_dma buf buf_len
  if dma_addr == 0
      then fail efault
      else if ltb index (length sg_list)
      then pure (set sg_list index (record { address = dma_addr; len = buf_len }))
      else stop out_of_bounds

-- The loop of `axidma_get_chan` over the channels that are left.
unfoldable pub find_chan : ℕ → List AxidmaChan → Option AxidmaChan
find_chan channel_id [] = none
find_chan channel_id (c ∷ cs) =
    if c.channel_id == channel_id then some c else find_chan channel_id cs

unfoldable pub axidma_get_chan : ℕ → M (Option AxidmaChan)
axidma_get_chan channel_id = do dev ← get_dev; pure (find_chan channel_id dev.channels)

module _ (k : Kernel) where
  -- `VALID_NOTIFY_SIGNAL`
  unfoldable pub valid_notify_signal : ℕ → Bool
  valid_notify_signal signal = leb k.sig_rtmin signal && leb signal k.sig_rtmax

  -- `axidma_dma_callback`, which the engine calls with the entry of `cb_data` that was submitted.
  unfoldable pub axidma_dma_callback : CbData → M (Unit {0})
  axidma_dma_callback cb =
      if cb.comp
      then emit Event.complete
      else if valid_notify_signal cb.notify_signal
      then emit (Event.send_sig_info cb.notify_signal cb.channel_id cb.process)
      else pure tt

-- `axidma_setup_vdma_config`
abbrev pub vdma_config : VdmaConfig
vdma_config = record {
  frm_dly = 0;
  gen_lock = 0;
  master = 0;
  frm_cnt_en = 1;
  park = 0;
  park_frm = 0;
  coalesc = 1;
  delay = 0;
  reset = 0;
  ext_fsync = 0;
}

-- A write through a pointer to entry `i` of `dev->cb_data`.
unfoldable pub write_cb_data : ℕ → CbData → M (Unit {0})
write_cb_data i cb = do
  dev ← get_dev
  if ltb i (length dev.cb_data)
      then put_dev (record dev { cb_data = set dev.cb_data i cb })
      else stop out_of_bounds

-- `sg_dma_address(&sg_list[0])`
unfoldable pub first_address : List SgEntry → M ℕ
first_address [] = stop out_of_bounds
first_address (e ∷ _) = pure e.address

unfoldable pub cb_data_of : AxidmaTransfer → CbData
cb_data_of tfr =
    if tfr.wait
    then record {
      channel_id = tfr.channel_id;
      notify_signal = word_mod - 1;
      process = 0;
      comp = true;
    }
    else record {
      channel_id = tfr.channel_id;
      notify_signal = tfr.notify_signal;
      process = tfr.process;
      comp = false;
    }

module _ (k : Kernel) where
  -- The descriptor of a video transfer: the channel is configured first.
  unfoldable pub prep_video : ℕ → List SgEntry → VideoFrame → TransferDirection → M ℕ
  prep_video chan sg_list f dma_dir = do
    xilinx_vdma_channel_set_config k chan vdma_config
    address ← first_address sg_list
    dmaengine_prep_interleaved_dma k chan (record {
      dst_start = address;
      src_start = address;
      dir = dma_dir;
      numf = f.height;
      frame_size = 1;
      sgl_size = f.width * f.depth % word_mod;
      sgl_icg = 0;
    })

  -- The descriptor of a transfer, by the type of the transfer; 0 if the engine gives none.
  unfoldable pub prep_descriptor : ℕ → AxidmaTransfer → TransferDirection → M ℕ
  prep_descriptor chan tfr dma_dir =
      if is_dma tfr.type
      then dmaengine_prep_slave_sg k chan tfr.sg_list tfr.sg_len dma_dir
      else prep_video chan tfr.sg_list tfr.frame dma_dir

  -- The submission, which sets the cookie.
  unfoldable pub submit_descriptor : AxidmaTransfer → ℕ → M AxidmaTransfer
  submit_descriptor tfr txn = do
    cookie ← dmaengine_submit k txn tfr.cb_data
    elim cookie [ none ↦ fail ebusy | some c ↦ pure (record tfr { cookie = c }) ]

  -- The rest of the preparation: the callback data, and the submission of the descriptor.
  unfoldable pub submit_step : AxidmaTransfer → ℕ → M AxidmaTransfer
  submit_step tfr txn = if txn == 0 then fail ebusy else do
    write_cb_data tfr.cb_data (cb_data_of tfr)
    if tfr.wait then emit Event.init_completion else pure tt
    submit_descriptor tfr txn

  -- Everything of `axidma_prep_transfer` that ends in `goto stop_dma` if it fails.
  unfoldable pub prepare_and_submit : ℕ → AxidmaTransfer → TransferDirection → M AxidmaTransfer
  prepare_and_submit chan tfr dma_dir = do
    txn ← prep_descriptor chan tfr dma_dir
    submit_step tfr txn

  unfoldable pub terminate : ℕ → M (Unit {0})
  terminate chan = dmaengine_terminate_all k chan >>= λ _. pure tt

  unfoldable pub axidma_prep_transfer : AxidmaChan → AxidmaTransfer → M AxidmaTransfer
  axidma_prep_transfer chan tfr = do
    dma_dir ← axidma_to_dma_dir tfr.dir
    if chan.chan == 0 then stop null_deref else pure tt
    axidma_dir_to_string tfr.dir
    axidma_type_to_string tfr.type
    on_error (terminate chan.chan) (prepare_and_submit chan.chan tfr dma_dir)

  -- The wait of `axidma_start_transfer`, with the tests that end in `goto stop_dma`.
  unfoldable pub await_transfer : ℕ → ℕ → M (Unit {0})
  await_transfer chan cookie = do
    time_remain ← wait_for_completion_timeout k (k.usecs_to_jiffies axidma_dma_timeout)
    status ← dma_async_is_tx_complete k chan cookie
    if time_remain == 0 then fail etime else elim status [ dma_complete ↦ pure tt | _ ↦ fail ebusy ]

  unfoldable pub axidma_start_transfer : AxidmaChan → AxidmaTransfer → M (Unit {0})
  axidma_start_transfer chan tfr = do
    axidma_dir_to_string tfr.dir
    axidma_type_to_string tfr.type
    emit (Event.issue_pending chan.chan)
    if tfr.wait
        then on_error (terminate chan.chan) (await_transfer chan.chan tfr.cookie)
        else pure tt
