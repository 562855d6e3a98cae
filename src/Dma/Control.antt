-- ===== src/Dma/Control.antt =====
-- driver/axidma_dma.c: the getters, the signal, the video transfer and the stop of a channel.
use axidma_driver.Common.{
  ℕ, zero, suc, ◌+◌, ◌*◌, ◌/◌, ◌%◌, ◌^◌, false, none, some, List, ltb, ◌==◌, if◌then◌else◌,
  replicate, get_elem?,
}
use axidma_driver.Types.{
  word_mod, AxidmaDir, axidma_vdma, AxidmaDevice, AxidmaChan, AxidmaTransfer, SgEntry, VideoFrame,
  VideoTransaction, NumChannels, einval,
}
use axidma_driver.Kernel.{
  Kernel, Event, M, null_deref, out_of_bounds, pure, fail, stop, ◌>>=◌, ◌>>◌, get_dev, put_dev,
  emit, check, kmalloc, dmaengine_terminate_all, or_zero,
}
use axidma_driver.Dma.Engine.{
  valid_notify_signal, axidma_get_chan, axidma_init_sg_entry, axidma_prep_transfer,
  axidma_start_transfer,
}

unfoldable pub axidma_get_num_channels : AxidmaDevice → NumChannels
axidma_get_num_channels dev = record {
  num_channels = dev.num_chans;
  num_dma_tx_channels = dev.num_dma_tx_chans;
  num_dma_rx_channels = dev.num_dma_rx_chans;
  num_vdma_tx_channels = dev.num_vdma_tx_chans;
  num_vdma_rx_channels = dev.num_vdma_rx_chans;
}

unfoldable pub axidma_get_channel_info : AxidmaDevice → List AxidmaChan
axidma_get_channel_info dev = dev.channels

-- The rounds of `for (i = 0; i < n; i++)` where `n` is an `int`: none if it is negative.
abbrev pub rounds : ℕ → ℕ
rounds n = if ltb n (2 ^ 31) then n else 0

-- `width * height * depth`, as an `int` that wraps.
unfoldable pub image_size : VideoFrame → ℕ
image_size f = f.width * f.height % word_mod * f.depth % word_mod

-- The loop over the frame buffers, `n` rounds from `i` on.
unfoldable pub init_frames : (n i size : ℕ) → List ℕ → List SgEntry → M (List SgEntry)
init_frames zero i size buffers sg = pure sg
init_frames (suc n) i size buffers sg = elim (get_elem? buffers i) [
  | none ↦ stop out_of_bounds
  | some buf ↦ axidma_init_sg_entry sg i buf size >>= init_frames n (i + 1) size buffers
]

module _ (k : Kernel) where
  unfoldable pub axidma_set_signal : ℕ → M (Unit {0})
  axidma_set_signal signal =
      if valid_notify_signal k signal
      then (do dev ← get_dev; put_dev (record dev { notify_signal = signal }))
      else fail einval

  -- The fields that `axidma_video_transfer` sets at first.
  abbrev pub video_transfer_of :
      AxidmaDevice → VideoTransaction → AxidmaDir → List SgEntry → AxidmaTransfer
  video_transfer_of dev trans dir sg_list = record {
    sg_len = trans.num_frame_buffers;
    sg_list = sg_list;
    wait = false;
    cookie = 0;
    dir = dir;
    type = axidma_vdma;
    channel_id = trans.channel_id;
    notify_signal = dev.notify_signal;
    process = k.current;
    cb_data = trans.channel_id;
    frame = trans.frame;
  }

  -- Everything between the allocation of the table and `free_sg_list`. The test of the channel
  -- reads through the pointer if it is NULL, and passes whatever else the channel is.
  unfoldable pub video_body : VideoTransaction → AxidmaDir → List SgEntry → M (Unit {0})
  video_body trans dir sg_list = do
    sg_list' ←
        init_frames (rounds trans.num_frame_buffers) 0 (image_size trans.frame) trans.frame_buffers
          sg_list
    found ← axidma_get_chan trans.channel_id
    elim found [
      | none ↦ stop null_deref
      | some chan ↦ (do
        dev ← get_dev
        tfr ← axidma_prep_transfer k chan (video_transfer_of dev trans dir sg_list')
        axidma_start_transfer k chan tfr)
    ]

  -- The table has as many entries as fit into the size that is asked for, which wraps. Whatever
  -- went wrong, the function returns 0.
  unfoldable pub axidma_video_transfer : VideoTransaction → AxidmaDir → M (Unit {0})
  axidma_video_transfer trans dir = do
    let size = trans.num_frame_buffers * k.sizeof_scatterlist % word_mod
    ptr ← kmalloc k size
    if ptr == 0 then pure tt else do
      or_zero (video_body trans dir (replicate (size / k.sizeof_scatterlist) k.fresh_sg_entry))
      emit (Event.kfree ptr)

  -- As in `axidma_video_transfer`, the test reads through a NULL pointer and rejects nothing.
  unfoldable pub axidma_stop_channel : ℕ → M (Unit {0})
  axidma_stop_channel channel_id = do
    found ← axidma_get_chan channel_id
    elim found [
      | none ↦ stop null_deref
      | some chan ↦ dmaengine_terminate_all k chan.chan >>= check
    ]
