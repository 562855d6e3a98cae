-- ===== src/Libaxidma/Requests.antt =====
-- library/libaxidma.c: memory, the registration of buffers, and the transfers.
use axidma_driver.Common.{ℕ, ◌-◌, Bool, Option, none, some, List}
use axidma_driver.Types.{
  word_mod, AxidmaDir, axidma_write, axidma_read, other_dir, is_write, is_read, is_vdma, VideoFrame,
  Transaction, VideoTransaction,
}
use axidma_driver.Buffers.{or_null}
use axidma_driver.Libaxidma.Calls.{Request, Call}
use axidma_driver.Libaxidma.Process.{
  Os, P, DmaChannel, assertion, ok, pure, die, ◌>>=◌, ◌>>◌, on_result, get_dev, note, assert, ioctl,
}
use axidma_driver.Libaxidma.Channels.{find_channel}

-- The channel with the id, which the code asserts to be there.
unfoldable pub known : Option DmaChannel → P DmaChannel
known none = die assertion
known (some c) = pure c

unfoldable pub known_channel : ℕ → P DmaChannel
known_channel channel = find_channel channel >>= known

-- A request of the driver, on the descriptor of the device.
unfoldable pub request : Os → Request → P (Unit {0})
request os r = do dev ← get_dev; ioctl os dev.fd r

-- The command of a one-way transfer, with its argument.
unfoldable pub dir_to_ioctl : AxidmaDir → Transaction → P Request
dir_to_ioctl axidma_read trans = pure (Request.read trans)
dir_to_ioctl axidma_write trans = pure (Request.write trans)
dir_to_ioctl other_dir trans = die assertion

-- A frame that is not given is filled with -1.
abbrev pub frame_or_none : Option VideoFrame → VideoFrame
frame_or_none none = record { height = word_mod - 1; width = word_mod - 1; depth = word_mod - 1 }
frame_or_none (some f) = f

-- The command of a video transfer: what does not read, writes.
abbrev pub video_request : AxidmaDir → VideoTransaction → Request
video_request axidma_read trans = Request.video_read trans
video_request _ trans = Request.video_write trans

-- An error ends the process.
abbrev pub or_die : P (Unit {0}) → P (Unit {0})
or_die m = on_result m pure (λ e. die assertion)

module _ (os : Os) where
  -- 0 is NULL.
  unfoldable pub axidma_malloc : (size : ℕ) → P ℕ
  axidma_malloc size p =
      let a = os.mmap p.calls size p.dev.fd in ok (or_null a) (note (Call.mmap size p.dev.fd a) p)

  unfoldable pub axidma_free : (addr size : ℕ) → P (Unit {0})
  axidma_free addr size p =
      let a = os.munmap p.calls addr size in assert a (note (Call.munmap addr size a) p)

  unfoldable pub axidma_register_buffer : (dmabuf_fd user_addr size : ℕ) → P (Unit {0})
  axidma_register_buffer dmabuf_fd user_addr size =
      request os (Request.register (record { fd = dmabuf_fd; size = size; user_addr = user_addr }))

  unfoldable pub axidma_unregister_buffer : (user_addr : ℕ) → P (Unit {0})
  axidma_unregister_buffer user_addr = or_die (request os (Request.unregister user_addr))

  unfoldable pub axidma_oneway_transfer : (channel buf len : ℕ) → (wait : Bool) → P (Unit {0})
  axidma_oneway_transfer channel buf len wait = do
    dma_chan ← known_channel channel
    r ← dir_to_ioctl dma_chan.dir (record {
      wait = wait;
      channel_id = channel;
      buf = buf;
      buf_len = len;
      frame = os.fresh_frame;
    })
    request os r

  unfoldable pub axidma_twoway_transfer :
      (tx_channel tx_buf tx_len : ℕ)
      → (tx_frame : Option VideoFrame) → (rx_channel rx_buf rx_len : ℕ)
      → (rx_frame : Option VideoFrame) → (wait : Bool) → P (Unit {0})
  axidma_twoway_transfer tx_channel tx_buf tx_len tx_frame rx_channel rx_buf rx_len rx_frame wait =
      do
        tx ← known_channel tx_channel
        assert (is_write tx.dir)
        rx ← known_channel rx_channel
        assert (is_read rx.dir)
        request os (
            Request.readwrite (record {
              wait = wait;
              tx_channel_id = tx_channel;
              tx_buf = tx_buf;
              tx_buf_len = tx_len;
              tx_frame = frame_or_none tx_frame;
              rx_channel_id = rx_channel;
              rx_buf = rx_buf;
              rx_buf_len = rx_len;
              rx_frame = frame_or_none rx_frame;
            }))

  unfoldable pub axidma_video_transfer :
      (display_channel width height depth : ℕ)
      → (frame_buffers : List ℕ) → (num_buffers : ℕ) → P (Unit {0})
  axidma_video_transfer display_channel width height depth frame_buffers num_buffers = do
    chan ← known_channel display_channel
    assert (is_vdma chan.type)
    request os (
        video_request chan.dir (record {
          channel_id = display_channel;
          num_frame_buffers = num_buffers;
          frame_buffers = frame_buffers;
          frame = record { height = height; width = width; depth = depth };
        }))

  -- The name and the channel of the structure are not set.
  unfoldable pub axidma_stop_transfer : (channel : ℕ) → P (Unit {0})
  axidma_stop_transfer channel = do
    chan ← known_channel channel
    or_die (
        request os (
          Request.stop (record {
            dir = chan.dir;
            type = chan.type;
            channel_id = channel;
            name = os.fresh_name;
            chan = os.fresh_chan;
          })))
