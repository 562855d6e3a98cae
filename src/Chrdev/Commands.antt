-- ===== src/Chrdev/Commands.antt =====
-- Which commands `axidma_ioctl` accepts, and what each runs.
use axidma_driver.Common.{
  ℕ, ◌≤◌, ◌≡◌, ◌≢◌, ◌⊎◌, inl, inr, refl, Bool, true, false, ◌==◌, ==_ne, le→leb, Bool-cases,
}
use axidma_driver.Types.{axidma_read, axidma_write, enotty}
use axidma_driver.Kernel.{Kernel, State, M, err}
use axidma_driver.Dma.Control.{axidma_set_signal}
use axidma_driver.Chrdev.Ioctl.{
  ioc_type, ioc_nr, axidma_ioctl_magic, axidma_num_ioctls, axidma_get_num_dma_channels,
  axidma_get_dma_channels, axidma_set_dma_signal, axidma_register_buffer, axidma_dma_read,
  axidma_dma_write, axidma_dma_readwrite, axidma_dma_video_read, axidma_dma_video_write,
  axidma_stop_dma_channel, check_command, axidma_access_ok, dispatch, axidma_ioctl,
  ioctl_get_num_channels, ioctl_get_channels, ioctl_register, ioctl_read, ioctl_write,
  ioctl_readwrite, ioctl_video, ioctl_stop,
}

-- The ten commands in range.
pub data Command : Type 0 where
  get_num get_channels set_signal register read write readwrite video_read video_write stop :
      Command

abbrev pub code : Command → ℕ
code get_num = axidma_get_num_dma_channels
code get_channels = axidma_get_dma_channels
code set_signal = axidma_set_dma_signal
code register = axidma_register_buffer
code read = axidma_dma_read
code write = axidma_dma_write
code readwrite = axidma_dma_readwrite
code video_read = axidma_dma_video_read
code video_write = axidma_dma_video_write
code stop = axidma_stop_dma_channel

abbrev pub handler : Kernel → Command → ℕ → M (Unit {0})
handler k get_num = ioctl_get_num_channels k
handler k get_channels = ioctl_get_channels k
handler k set_signal = axidma_set_signal k
handler k register = ioctl_register k
handler k read = ioctl_read k
handler k write = ioctl_write k
handler k readwrite = ioctl_readwrite k
handler k video_read = ioctl_video k axidma_read
handler k video_write = ioctl_video k axidma_write
handler k stop = ioctl_stop k

-- The process may read and write its argument.
abbrev pub Accessible : Kernel → ℕ → Type 0
Accessible k arg = (w : Bool) (size : ℕ) → k.access_ok w arg size ≡ true

-- Each of the ten commands runs its own handler, if the process may read and write its argument.
pub ioctl_runs :
    (k : Kernel) (c : Command) (arg : ℕ) (s : State)
    → Accessible k arg
    → axidma_ioctl k (code c) arg s ≡ handler k c arg s
unfolding axidma_ioctl check_command axidma_access_ok dispatch
ioctl_runs k get_num arg s h = rw (h false 20)
ioctl_runs k get_channels arg s h = rw (h true 4, h false 4)
ioctl_runs k set_signal arg s h = refl
ioctl_runs k register arg s h = rw (h true 12, h false 12)
ioctl_runs k read arg s h = rw (h true 28, h false 28)
ioctl_runs k write arg s h = rw (h true 28, h false 28)
ioctl_runs k readwrite arg s h = rw (h true 52, h false 52)
ioctl_runs k video_read arg s h = rw (h true 24, h false 24)
ioctl_runs k video_write arg s h = rw (h true 24, h false 24)
ioctl_runs k stop arg s h = rw (h true 20, h false 20)

-- A command of another magic number, or whose number is 10 or more, is refused and changes nothing.
-- The command that unregisters a buffer has the number 10, so it is one of them.
pub ioctl_refuses :
    (k : Kernel) (cmd arg : ℕ) (s : State)
    → (ioc_type cmd ≢ axidma_ioctl_magic) ⊎ (axidma_num_ioctls ≤ ioc_nr cmd)
    → axidma_ioctl k cmd arg s ≡ err enotty s
unfolding axidma_ioctl check_command
ioctl_refuses k cmd arg s (inl h) = rw (==_ne (ioc_type cmd) axidma_ioctl_magic h)
ioctl_refuses k cmd arg s (inr h) = elim (Bool-cases (ioc_type cmd == axidma_ioctl_magic)) [
  | inl y ↦ rw (y, le→leb axidma_num_ioctls (ioc_nr cmd) h)
  | inr n ↦ rw n
]
