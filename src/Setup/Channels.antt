-- ===== src/Setup/Channels.antt =====
-- driver/axidma_dma.c and driver/axi_dma.c: the arrays, the channels, the probe and the removal.
use axidma_driver.Common.{
  ℕ, zero, suc, ◌+◌, ◌*◌, ◌/◌, ◌%◌, ◌==◌, if◌then◌else◌, Option, none, some, get_elem?, replicate,
}
use axidma_driver.Types.{word_mod, AxidmaChan, enodev, enomem, enosys}
use axidma_driver.Kernel.{
  Kernel, Event, M, Out, ok, err, fault, out_of_bounds, pure, fail, stop, ◌>>=◌, ◌>>◌, on_error,
  get_dev, put_dev, emit, check, log, kmalloc, dmaengine_terminate_all,
}
use axidma_driver.DeviceTree.{
  DeviceTree, write_chan, axidma_of_num_channels, axidma_of_parse_dma_nodes,
}
use axidma_driver.Chrdev.Ioctl.{sizeof_chan}
use axidma_driver.Setup.Chardev.{update_chrdev, axidma_chrdev_init, axidma_chrdev_exit}

-- `sizeof(struct axidma_cb_data)`.
abbrev pub sizeof_cb_data : ℕ
sizeof_cb_data = 16

-- The release of the channel at an entry of the array.
unfoldable pub release_found : Option AxidmaChan → M (Unit {0})
release_found none = stop out_of_bounds
release_found (some c) = emit (Event.dma_release_channel c.chan)

-- The loop at `release_channels`, `n` rounds from `i` on.
unfoldable pub release_rounds : (n i : ℕ) → M (Unit {0})
release_rounds zero i = pure tt
release_rounds (suc n) i = do
  dev ← get_dev
  release_found (get_elem? dev.channels i)
  release_rounds n (i + 1)

module _ (k : Kernel) where
  unfoldable pub dma_set_coherent_mask : M (Unit {0})
  dma_set_coherent_mask s =
      let r = k.dma_set_coherent_mask s.trace in check r (log (Event.dma_set_coherent_mask r) s)

  unfoldable pub dma_request_slave_channel : (name : ℕ) → M ℕ
  dma_request_slave_channel name s =
      let c = k.dma_request_slave_channel s.trace name in
      ok c (log (Event.dma_request_slave_channel name c) s)

  -- One round: the channel at entry `i` is requested. `i` channels are reserved so far, which are
  -- released if it is not to be had.
  unfoldable pub request_found : (i : ℕ) → Option AxidmaChan → M (Unit {0})
  request_found i none = stop out_of_bounds
  request_found i (some c) = do
    chan ← dma_request_slave_channel c.name
    write_chan i (λ c. record c { chan = chan })
    if chan == 0 then release_rounds i 0 >> fail enodev else pure tt

  unfoldable pub request_rounds : (n i : ℕ) → M (Unit {0})
  request_rounds zero i = pure tt
  request_rounds (suc n) i = do
    dev ← get_dev
    request_found i (get_elem? dev.channels i)
    request_rounds n (i + 1)

  unfoldable pub axidma_request_channels : M (Unit {0})
  axidma_request_channels = do dev ← get_dev; request_rounds dev.num_chans 0

  -- The channel array, with as many entries as fit into the size that is asked for, which wraps.
  unfoldable pub alloc_channels : (num_chans : ℕ) → M ℕ
  alloc_channels num_chans = do
    let size = num_chans * sizeof_chan % word_mod
    ptr ← kmalloc k size
    if ptr == 0 then fail enomem else do
      dev ← get_dev
      put_dev (record dev {
        channels = replicate (size / sizeof_chan) k.fresh_chan;
        channels_ptr = ptr;
      })
      pure ptr

  unfoldable pub alloc_cb_data : (num_chans : ℕ) → M ℕ
  alloc_cb_data num_chans = do
    let size = num_chans * sizeof_cb_data % word_mod
    ptr ← kmalloc k size
    if ptr == 0 then fail enomem else do
      dev ← get_dev
      put_dev (record dev {
        cb_data = replicate (size / sizeof_cb_data) k.fresh_cb_data;
        cb_data_ptr = ptr;
      })
      pure ptr

module _ (k : Kernel) (t : DeviceTree) (driver_node : ℕ) where
  -- The end of `axidma_dma_init`. A tree that cannot be parsed is returned at once, and a channel
  -- that is not to be had frees both arrays.
  unfoldable pub parse_and_request : (channels cb_data : ℕ) → M (Unit {0})
  parse_and_request channels cb_data = do
    axidma_of_parse_dma_nodes t driver_node
    on_error (emit (Event.kfree channels))
        (on_error (emit (Event.kfree cb_data)) (axidma_request_channels k))

  -- The number that the C code stores in `num_chans` when the tree gives an error is not kept.
  unfoldable pub axidma_dma_init : M (Unit {0})
  axidma_dma_init = do
    dma_set_coherent_mask k
    num_chans ← axidma_of_num_channels t driver_node
    dev ← get_dev
    put_dev (record dev { num_chans = num_chans })
    channels ← alloc_channels k num_chans
    cb_data ← on_error (emit (Event.kfree channels)) (alloc_cb_data k num_chans)
    parse_and_request channels cb_data

-- Every error becomes -ENOSYS.
abbrev as_enosys : Out (Unit {0}) → Out (Unit {0})
as_enosys (ok a s) = ok a s
as_enosys (err e s) = err enosys s
as_enosys (fault f s) = fault f s

abbrev pub or_enosys : M (Unit {0}) → M (Unit {0})
or_enosys m s = as_enosys (m s)

module _ (k : Kernel) where
  unfoldable pub exit_found : Option AxidmaChan → M (Unit {0})
  exit_found none = stop out_of_bounds
  exit_found (some c) =
      dmaengine_terminate_all k c.chan >>= λ _. emit (Event.dma_release_channel c.chan)

  unfoldable pub exit_rounds : (n i : ℕ) → M (Unit {0})
  exit_rounds zero i = pure tt
  exit_rounds (suc n) i = do
    dev ← get_dev
    exit_found (get_elem? dev.channels i)
    exit_rounds n (i + 1)

  unfoldable pub axidma_dma_exit : M (Unit {0})
  axidma_dma_exit = do
    dev ← get_dev
    exit_rounds dev.num_chans 0
    emit (Event.kfree dev.channels_ptr)
    emit (Event.kfree dev.cb_data_ptr)

  -- The structure that `kmalloc` returns is the device of the state, whatever it holds. Every error
  -- is replaced by -ENOSYS, but for a missing structure. Returns its address, the driver data.
  unfoldable pub axidma_probe : DeviceTree → (driver_node chrdev_name minor_num : ℕ) → M ℕ
  axidma_probe t driver_node chrdev_name minor_num = do
    ptr ← kmalloc k k.sizeof_axidma_device
    if ptr == 0 then fail enomem else do
      or_enosys (
          on_error (emit (Event.kfree ptr)) do
            axidma_dma_init k t driver_node
            update_chrdev (λ c. record c {
              chrdev_name = chrdev_name;
              minor_num = minor_num;
              num_devices = 1;
            })
            on_error axidma_dma_exit (axidma_chrdev_init k))
      emit (Event.dev_set_drvdata ptr)
      pure ptr

  unfoldable pub axidma_remove : (ptr : ℕ) → M (Unit {0})
  axidma_remove ptr = do axidma_chrdev_exit; axidma_dma_exit; emit (Event.kfree ptr)
