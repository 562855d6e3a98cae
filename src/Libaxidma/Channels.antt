-- ===== src/Libaxidma/Channels.antt =====
-- library/libaxidma.c: the channels are queried from the driver, and sorted by kind.
use axidma_driver.Common.{
  ℕ, zero, suc, ◌+◌, ◌*◌, ◌/◌, ◌%◌, ◌==◌, ltb, Option, none, some, List, [], ◌∷◌, if◌then◌else◌,
  length, get_elem?, set, replicate,
}
use axidma_driver.Types.{
  word_mod, AxidmaDir, axidma_write, axidma_read, AxidmaType, axidma_dma, axidma_vdma, AxidmaChan,
  NumChannels, enomem, enodev,
}
use axidma_driver.DeviceTree.{Kind, dma_tx, dma_rx, vdma_tx, vdma_rx}
use axidma_driver.Dma.Control.{rounds}
use axidma_driver.Chrdev.Ioctl.{sizeof_chan}
use axidma_driver.Libaxidma.Calls.{Request}
use axidma_driver.Libaxidma.Process.{
  Os, P, DmaChannel, assertion, out_of_bounds, pure, fail, die, ◌>>=◌, ◌>>◌, followed_by, get_dev,
  put_dev, free, malloc, ioctl, set_array,
}

-- `sizeof(dma_channel_t)` and `sizeof(int)`.
abbrev pub sizeof_channel : ℕ
sizeof_channel = 20

abbrev pub sizeof_int : ℕ
sizeof_int = 4

-- The array that a channel belongs to, if there is one.
abbrev pub kind_of : AxidmaDir → AxidmaType → Option Kind
kind_of axidma_write axidma_dma = some dma_tx
kind_of axidma_read axidma_dma = some dma_rx
kind_of axidma_write axidma_vdma = some vdma_tx
kind_of axidma_read axidma_vdma = some vdma_rx
kind_of _ _ = none

abbrev pub free_all : List ℕ → P (Unit {0})
free_all [] = pure tt
free_all (ptr ∷ ptrs) = free ptr >> free_all ptrs

-- The id is stored behind those that the array has.
unfoldable pub append_id : Kind → ℕ → P (Unit {0})
append_id kind id = do
  dev ← get_dev
  let a = dev.arrays kind
  if ltb a.len (length a.cells)
      then put_dev (set_array kind (record a { len = a.len + 1; cells = set a.cells a.len id }) dev)
      else die out_of_bounds

-- The structure of channel `i` is filled in.
unfoldable pub store_channel : (i : ℕ) → DmaChannel → P (Unit {0})
store_channel i c = do
  dev ← get_dev
  if ltb i (length dev.channels)
      then put_dev (record dev { channels = set dev.channels i c })
      else die out_of_bounds

abbrev pub channel_of : AxidmaChan → DmaChannel
channel_of c = record {
  dir = c.dir;
  type = c.type;
  channel_id = c.channel_id;
  callback = 0;
  user_data = 0;
}

unfoldable pub place_kind : (i : ℕ) → AxidmaChan → Option Kind → P (Unit {0})
place_kind i chan none = die assertion
place_kind i chan (some kind) = append_id kind chan.channel_id >> store_channel i (channel_of chan)

-- One round of the loop, over the channel that was read.
unfoldable pub place_found : (i : ℕ) → Option AxidmaChan → P (Unit {0})
place_found i none = die out_of_bounds
place_found i (some chan) = place_kind i chan (kind_of chan.dir chan.type)

-- The loop, `n` rounds from `i` on.
unfoldable pub place_channels : (n i : ℕ) → List AxidmaChan → P (Unit {0})
place_channels zero i channels = pure tt
place_channels (suc n) i channels =
    place_found i (get_elem? channels i) >> place_channels n (i + 1) channels

module _ (os : Os) where
  -- The memory for the array of a kind; if there is none, what was allocated before is freed.
  unfoldable pub alloc_ids : Kind → (n : ℕ) → List ℕ → P ℕ
  alloc_ids kind n allocated = do
    let size = n * sizeof_int % word_mod
    ptr ← malloc os size
    dev ← get_dev
    put_dev (
        set_array kind
          (record (dev.arrays kind) {
            ptr = ptr;
            cells = replicate (size / sizeof_int) os.fresh_cell;
          })
          dev)
    if ptr == 0 then free_all allocated >> fail enomem else pure ptr

  unfoldable pub alloc_channels : (n : ℕ) → P ℕ
  alloc_channels n = do
    let size = n * sizeof_channel % word_mod
    ptr ← malloc os size
    dev ← get_dev
    put_dev (record dev {
      channels_ptr = ptr;
      channels = replicate (size / sizeof_channel) os.fresh_channel;
    })
    if ptr == 0 then fail enomem else pure ptr

  -- The five allocations of `categorize_channels`.
  unfoldable pub alloc_arrays : NumChannels → P (Unit {0})
  alloc_arrays num_chan = do
    channels ← alloc_channels num_chan.num_channels
    tx ← alloc_ids dma_tx num_chan.num_dma_tx_channels (channels ∷ [])
    rx ← alloc_ids dma_rx num_chan.num_dma_rx_channels (channels ∷ tx ∷ [])
    vtx ← alloc_ids vdma_tx num_chan.num_vdma_tx_channels (channels ∷ tx ∷ rx ∷ [])
    vrx ← alloc_ids vdma_rx num_chan.num_vdma_rx_channels (channels ∷ tx ∷ rx ∷ vtx ∷ [])
    pure tt

  unfoldable pub categorize_channels : List AxidmaChan → NumChannels → P (Unit {0})
  categorize_channels channels num_chan = do
    alloc_arrays num_chan
    dev ← get_dev
    put_dev (record dev { num_channels = num_chan.num_channels })
    place_channels (rounds num_chan.num_channels) 0 channels

  -- The second query, into the array at `channels`, and what follows.
  unfoldable pub query_channels : (channels : ℕ) → NumChannels → P (Unit {0})
  query_channels channels num_chan = do
    dev ← get_dev
    ioctl os dev.fd (Request.get_channels channels)
    λ p. categorize_channels (os.channel_info p.calls) num_chan p

  unfoldable pub probe_counted : NumChannels → P (Unit {0})
  probe_counted num_chan = if num_chan.num_channels == 0 then fail enodev else do
    channels ← malloc os (num_chan.num_channels * sizeof_chan % word_mod)
    if channels == 0
        then fail enomem
        else followed_by (query_channels channels num_chan) (free channels)

  unfoldable pub probe_channels : P (Unit {0})
  probe_channels = do
    dev ← get_dev
    ioctl os dev.fd Request.get_num_channels
    λ p. probe_counted (os.num_channels p.calls) p

-- The loop of `find_channel` over the channels that are left.
unfoldable pub find_in : ℕ → List DmaChannel → Option DmaChannel
find_in channel_id [] = none
find_in channel_id (c ∷ cs) = if c.channel_id == channel_id then some c else find_in channel_id cs

unfoldable pub find_channel : ℕ → P (Option DmaChannel)
find_channel channel_id = do dev ← get_dev; pure (find_in channel_id dev.channels)
