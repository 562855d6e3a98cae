-- ===== src/Chrdev/Ioctl.antt =====
-- driver/axidma_chrdev.c and include/axidma_ioctl.h: the file operations and the commands.
use axidma_driver.Common.{
  ℕ, zero, suc, ◌+◌, ◌*◌, ◌/◌, ◌%◌, ◌^◌, leb, ◌==◌, Bool, true, false, not, ◌&&◌, Option, List, [],
  ◌∷◌, if◌then◌else◌,
}
use axidma_driver.Types.{
  word_mod, AxidmaDir, axidma_write, axidma_read, efault, einval, enomem, enotty, eacces,
}
use axidma_driver.Kernel.{
  Kernel, Event, M, ok, pure, fail, ◌>>=◌, ◌>>◌, get_dev, emit, kmalloc, log, or_fail, with_cleanup,
}
use axidma_driver.Dma.Transfers.{axidma_read_transfer, axidma_write_transfer, axidma_rw_transfer}
use axidma_driver.Dma.Control.{
  axidma_get_num_channels, axidma_get_channel_info, axidma_set_signal, axidma_video_transfer,
  axidma_stop_channel,
}
use axidma_driver.Chrdev.Memory.{axidma_get_external, axidma_put_external}

-- `_IOC(dir, 'W', nr, size)`, and the fields of a command.
abbrev pub ioc : (dir nr size : ℕ) → ℕ
ioc dir nr size = dir * 2 ^ 30 + size * 2 ^ 16 + 0x57 * 2 ^ 8 + nr

abbrev pub ioc_nr : ℕ → ℕ
ioc_nr cmd = cmd % 2 ^ 8

abbrev pub ioc_type : ℕ → ℕ
ioc_type cmd = cmd / 2 ^ 8 % 2 ^ 8

abbrev pub ioc_size : ℕ → ℕ
ioc_size cmd = cmd / 2 ^ 16 % 2 ^ 14

abbrev pub ioc_dir : ℕ → ℕ
ioc_dir cmd = cmd / 2 ^ 30

abbrev pub axidma_ioctl_magic : ℕ
axidma_ioctl_magic = 0x57

abbrev pub axidma_num_ioctls : ℕ
axidma_num_ioctls = 10

-- The sizes of the structures on a 32-bit ARM: `_IOW` is direction 1, `_IOR` 2, `_IO` 0.
abbrev pub sizeof_chan : ℕ
sizeof_chan = 20

abbrev pub axidma_get_num_dma_channels : ℕ
axidma_get_num_dma_channels = ioc 1 0 20

abbrev pub axidma_get_dma_channels : ℕ
axidma_get_dma_channels = ioc 2 1 4

abbrev pub axidma_set_dma_signal : ℕ
axidma_set_dma_signal = ioc 0 2 0

abbrev pub axidma_register_buffer : ℕ
axidma_register_buffer = ioc 2 3 12

abbrev pub axidma_dma_read : ℕ
axidma_dma_read = ioc 2 4 28

abbrev pub axidma_dma_write : ℕ
axidma_dma_write = ioc 2 5 28

abbrev pub axidma_dma_readwrite : ℕ
axidma_dma_readwrite = ioc 2 6 52

abbrev pub axidma_dma_video_read : ℕ
axidma_dma_video_read = ioc 2 7 24

abbrev pub axidma_dma_video_write : ℕ
axidma_dma_video_write = ioc 2 8 24

abbrev pub axidma_stop_dma_channel : ℕ
axidma_stop_dma_channel = ioc 2 9 20

abbrev pub axidma_unregister_buffer : ℕ
axidma_unregister_buffer = ioc 0 10 0

-- What an array of `n` entries holds, by index.
unfoldable pub tabulate : (n i : ℕ) → (ℕ → ℕ) → List ℕ
tabulate zero i f = []
tabulate (suc n) i f = f i ∷ tabulate n (i + 1) f

-- `struct file`, as far as the driver uses it: whether `f_flags` has `O_EXCL`, and whether
-- `private_data` is the device or NULL. The other operations are called on an open file only, so
-- they take the device of the state.
pub record DeviceFile : Type 0 where
  pub excl : Bool
  pub private_data : Bool

unfoldable pub axidma_release : DeviceFile → M DeviceFile
axidma_release file = pure (record file { private_data = false })

module _ (k : Kernel) where
  -- The file that is opened; an error leaves it as it is.
  unfoldable pub axidma_open : DeviceFile → M DeviceFile
  axidma_open file s =
      if not (k.capable s.trace)
      then fail eacces s
      else if not file.excl
      then fail einval s
      else ok (record file { private_data = true }) s

  unfoldable pub axidma_access_ok : (arg size : ℕ) → (readonly : Bool) → Bool
  axidma_access_ok arg size readonly =
      if not readonly && not (k.access_ok true arg size)
      then false
      else if not (k.access_ok false arg size)
      then false
      else true

  -- A copy from user space of `size` bytes, by what the kernel answers.
  abbrev copy_from_user : {A : Type 0} → (Kernel → List Event → ℕ → Option A) → (arg size : ℕ) → M A
  copy_from_user answer arg size s =
      or_fail efault (answer k s.trace arg) (log (Event.copy_from_user arg size) s)

  -- A copy to user space of `size` bytes, as the event says.
  abbrev copy_to_user : (ptr size : ℕ) → Event → M (Unit {0})
  copy_to_user ptr size e s =
      (if k.copy_to_user s.trace ptr size then pure tt else fail efault) (log e s)

  -- The command and its argument are checked before anything else.
  unfoldable pub check_command : (cmd arg : ℕ) → M (Unit {0})
  check_command cmd arg =
      if not (ioc_type cmd == axidma_ioctl_magic)
      then fail enotty
      else if leb axidma_num_ioctls (ioc_nr cmd)
      then fail enotty
      else if ioc_dir cmd / 2 % 2 == 1
      then (if axidma_access_ok arg (ioc_size cmd) false then pure tt else fail efault)
      else if ioc_dir cmd % 2 == 1
      then (if axidma_access_ok arg (ioc_size cmd) true then pure tt else fail efault)
      else pure tt

  unfoldable pub ioctl_get_num_channels : ℕ → M (Unit {0})
  ioctl_get_num_channels arg = do
    dev ← get_dev
    copy_to_user arg 20 (Event.copy_num_channels arg (axidma_get_num_channels dev))

  unfoldable pub ioctl_get_channels : ℕ → M (Unit {0})
  ioctl_get_channels arg = do
    channels ← copy_from_user (λ k. k.copy_channel_info) arg 4
    dev ← get_dev
    let size = (axidma_get_num_channels dev).num_channels * sizeof_chan % word_mod
    copy_to_user channels size (Event.copy_channels channels (axidma_get_channel_info dev) size)

  unfoldable pub ioctl_register : ℕ → M (Unit {0})
  ioctl_register arg = copy_from_user (λ k. k.copy_register_buffer) arg 12 >>= axidma_get_external k

  unfoldable pub ioctl_read : ℕ → M (Unit {0})
  ioctl_read arg = copy_from_user (λ k. k.copy_transaction) arg 28 >>= axidma_read_transfer k

  unfoldable pub ioctl_write : ℕ → M (Unit {0})
  ioctl_write arg = copy_from_user (λ k. k.copy_transaction) arg 28 >>= axidma_write_transfer k

  unfoldable pub ioctl_readwrite : ℕ → M (Unit {0})
  ioctl_readwrite arg =
      copy_from_user (λ k. k.copy_inout_transaction) arg 52 >>= axidma_rw_transfer k

  -- The array of frame buffers is copied into a kernel array, whose size wraps; it is freed
  -- whatever the transfer returns.
  unfoldable pub ioctl_video : AxidmaDir → ℕ → M (Unit {0})
  ioctl_video dir arg = do
    trans ← copy_from_user (λ k. k.copy_video_transaction) arg 24
    let size = trans.num_frame_buffers * 4 % word_mod
    ptr ← kmalloc k size
    if ptr == 0
        then fail enomem
        else with_cleanup (emit (Event.kfree ptr)) do
          buffers ← copy_from_user (λ k tr arg. k.copy_frame_buffers tr arg size) arg size
          axidma_video_transfer k (record trans { frame_buffers = tabulate (size / 4) 0 buffers })
              dir

  -- A failed copy is reported, and the command goes on with what was copied.
  unfoldable pub ioctl_stop : ℕ → M (Unit {0})
  ioctl_stop arg s =
      axidma_stop_channel k (k.copy_chan s.trace arg).channel_id
        (log (Event.copy_from_user arg 20) s)

  -- The `switch` of `axidma_ioctl`.
  unfoldable pub dispatch : (cmd arg : ℕ) → M (Unit {0})
  dispatch cmd arg =
      if cmd == axidma_get_num_dma_channels
      then ioctl_get_num_channels arg
      else if cmd == axidma_get_dma_channels
      then ioctl_get_channels arg
      else if cmd == axidma_set_dma_signal
      then axidma_set_signal k arg
      else if cmd == axidma_register_buffer
      then ioctl_register arg
      else if cmd == axidma_dma_read
      then ioctl_read arg
      else if cmd == axidma_dma_write
      then ioctl_write arg
      else if cmd == axidma_dma_readwrite
      then ioctl_readwrite arg
      else if cmd == axidma_dma_video_read
      then ioctl_video axidma_read arg
      else if cmd == axidma_dma_video_write
      then ioctl_video axidma_write arg
      else if cmd == axidma_stop_dma_channel
      then ioctl_stop arg
      else if cmd == axidma_unregister_buffer
      then axidma_put_external arg
      else fail enotty

  unfoldable pub axidma_ioctl : (cmd arg : ℕ) → M (Unit {0})
  axidma_ioctl cmd arg = check_command cmd arg >> dispatch cmd arg
