-- ===== src/Examples/Display.antt =====
-- examples/axidma_display_image.c, after its options are parsed. It calls the driver itself. What the
-- kernel answers on the image, what mapped memory holds, and what a read of freed memory gives, are
-- parameters. The size of the image is taken to be below 2 ^ 31.
use axidma_driver.Common.{
  ℕ, zero, suc, ◌+◌, ◌-◌, ◌*◌, ◌%◌, ◌==◌, ltb, Bool, true, false, ◌&&◌, Option, none, some, List,
  [], ◌∷◌, if◌then◌else◌, length,
}
use axidma_driver.Types.{
  word_mod, AxidmaChan, axidma_write, axidma_dma, is_write, is_dma, enodev, enomem, code,
}
use axidma_driver.Libaxidma.Calls.{Call, Request}
use axidma_driver.Libaxidma.Process.{
  Os, P, out_of_bounds, unfinished, ok, pure, fail, die, ◌>>=◌, ◌>>◌, on_result, note, malloc, free,
  ioctl,
}
use axidma_driver.Chrdev.Ioctl.{sizeof_chan}
use axidma_driver.Dma.Control.{rounds}
use axidma_driver.Libaxidma.Session.{close, open_device}
use axidma_driver.Examples.Files.{File, Transfer, done, failed}
use axidma_driver.Examples.Measuring.{Exit, success, failure, negative, get_calls, no_channel}
use axidma_driver.Examples.Transfer.{Host, open_file}

-- What `parse_args` sets.
pub record ImageOptions : Type 0 where
  pub image_width : ℕ
  pub image_height : ℕ
  pub tx_channel : ℕ

pub data Signal : Type 0 where
  sigint sigterm sigquit other_signal : Signal

-- `running` after a signal.
unfoldable pub signal_handler : Signal → (running : Bool) → Bool
signal_handler other_signal running = running
signal_handler _ running = false

-- The loop that waits. When no signal is left it would wait for ever.
unfoldable pub wait_loop : List Signal → (running : Bool) → P (Unit {0})
wait_loop signals false = pure tt
wait_loop [] true = die unfinished
wait_loop (s ∷ signals) true = wait_loop signals (signal_handler s true)

abbrev pub sizeof_int : ℕ
sizeof_int = 4

module _ {S : Type 0} (file : File S) where
  -- The loop that reads, which repeats while bytes come and are missing. It compares with -EINTR, but an
  -- error is -1, so that it ends.
  unfoldable pub after_image :
      (next : ℕ → S → P (Unit {0})) (bytes_remain : ℕ) → Transfer (List ℕ) × S → P (Unit {0})
  after_image next bytes_remain (failed e, s) = fail (code 1)
  after_image next bytes_remain (done [], s) = pure tt
  after_image next bytes_remain (done (b ∷ bytes), s) =
      let remain = bytes_remain - length (b ∷ bytes) in
      if remain == 0 then pure tt else next remain s

  unfoldable pub read_image : (fuel bytes_remain : ℕ) → S → P (Unit {0})
  read_image zero bytes_remain s = die unfinished
  read_image (suc n) bytes_remain s =
      after_image (read_image n) bytes_remain (file.read s bytes_remain)

module _ {S : Type 0} (os : Os) (host : Host S) (freed_id : List Call → (channel_id : ℕ) → ℕ) where
  -- The first channel that transmits by DMA. Its id is read after the memory was freed.
  unfoldable pub first_transmit : (n : ℕ) → List AxidmaChan → (channels : ℕ) → P ℕ
  first_transmit zero chans channels = do free channels; fail enodev
  first_transmit (suc n) [] channels = die out_of_bounds
  first_transmit (suc n) (chan ∷ chans) channels =
      if is_write chan.dir && is_dma chan.type
      then (do free channels; calls ← get_calls; pure (freed_id calls chan.channel_id))
      else first_transmit n chans channels

  unfoldable pub list_channels : (axidma_fd num_channels channels : ℕ) → P ℕ
  list_channels axidma_fd num_channels zero = fail enomem
  list_channels axidma_fd num_channels (suc k) =
      on_result (ioctl os axidma_fd (Request.get_channels (suc k)))
        (λ _. do
          calls ← get_calls
          first_transmit (rounds num_channels) (os.channel_info calls) (suc k))
        (λ e. do free (suc k); fail e)

  unfoldable pub find_dma_channel : (axidma_fd : ℕ) → P ℕ
  find_dma_channel axidma_fd = do
    ioctl os axidma_fd Request.get_num_channels
    calls ← get_calls
    let n = (os.num_channels calls).num_channels
    if n == 0
        then fail enodev
        else malloc os (n * sizeof_chan % word_mod) >>= list_channels axidma_fd n

  unfoldable pub mmap : (size axidma_fd : ℕ) → P (Option ℕ)
  mmap size axidma_fd p =
      let a = os.mmap p.calls size axidma_fd in ok a (note (Call.mmap size axidma_fd a) p)

  -- What `munmap` answers is not looked at.
  unfoldable pub munmap : (addr size : ℕ) → P (Unit {0})
  munmap addr size p = ok tt (note (Call.munmap addr size (os.munmap p.calls addr size)) p)

  -- From the read of the image to the label `free_image_buf`. The channel is stopped as one of the type
  -- AXIDMA_DMA; of the structure for it, two fields are not set.
  unfoldable pub show_image :
      (o : ImageOptions) (signals : List Signal)
      (axidma_fd tx_channel image_buf image_byte_size : ℕ)
      → P (Unit {0})
  show_image o signals axidma_fd tx_channel image_buf image_byte_size = do
    calls ← get_calls
    read_image host.file (image_byte_size + 1) image_byte_size (host.content calls)
    ioctl os axidma_fd (
        Request.video_write (record {
          channel_id = tx_channel;
          num_frame_buffers = 1;
          frame_buffers = image_buf ∷ [];
          frame = record { width = o.image_width; height = o.image_height; depth = sizeof_int };
        }))
    wait_loop signals true
    ioctl os axidma_fd (
        Request.stop (record {
          dir = axidma_write;
          type = axidma_dma;
          channel_id = tx_channel;
          name = os.fresh_name;
          chan = os.fresh_chan;
        }))

  -- The test of the size of the file comes first.
  unfoldable pub with_image_buf :
      (o : ImageOptions) (signals : List Signal)
      (axidma_fd tx_channel image_byte_size image_buf : ℕ)
      → Option ℕ
      → P Exit
  with_image_buf o signals axidma_fd tx_channel image_byte_size image_buf none = pure failure
  with_image_buf o signals axidma_fd tx_channel image_byte_size image_buf (some st_size) =
      if ltb st_size image_byte_size
      then pure failure
      else on_result (show_image o signals axidma_fd tx_channel image_buf image_byte_size)
          (λ _. pure success) (λ e. pure (negative (code 1)))

  unfoldable pub with_mapping :
      (o : ImageOptions) (signals : List Signal) (axidma_fd tx_channel image_byte_size : ℕ)
      → Option ℕ
      → P Exit
  with_mapping o signals axidma_fd tx_channel image_byte_size none = pure failure
  with_mapping o signals axidma_fd tx_channel image_byte_size (some image_buf) = do
    calls ← get_calls
    rc ← with_image_buf o signals axidma_fd tx_channel image_byte_size image_buf (host.fstat calls)
    munmap image_buf image_byte_size
    pure rc

  -- To the label `close_axidma`.
  unfoldable pub with_channel :
      (o : ImageOptions) (signals : List Signal) (axidma_fd tx_channel : ℕ) → P Exit
  with_channel o signals axidma_fd tx_channel = do
    let image_byte_size = o.image_width * o.image_height * sizeof_int % word_mod
    image_buf ← mmap image_byte_size axidma_fd
    rc ← with_mapping o signals axidma_fd tx_channel image_byte_size image_buf
    closed ← close os axidma_fd
    pure rc

  -- If no channel is found, the device is not closed.
  unfoldable pub with_axidma : (o : ImageOptions) (signals : List Signal) → Option ℕ → P Exit
  with_axidma o signals none = pure failure
  with_axidma o signals (some axidma_fd) =
      if o.tx_channel == no_channel
      then on_result (find_dma_channel axidma_fd) (with_channel o signals axidma_fd)
          (λ e. pure (negative e))
      else with_channel o signals axidma_fd o.tx_channel

  unfoldable pub with_image : (o : ImageOptions) (signals : List Signal) → Option ℕ → P Exit
  with_image o signals none = pure failure
  with_image o signals (some image_fd) = do
    axidma_fd ← open_device os
    rc ← with_axidma o signals axidma_fd
    closed ← close os image_fd
    pure rc

  unfoldable pub display_main : (o : ImageOptions) (signals : List Signal) → P Exit
  display_main o signals = open_file host false >>= with_image o signals
