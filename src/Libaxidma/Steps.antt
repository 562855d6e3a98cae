-- ===== src/Libaxidma/Steps.antt =====
-- The operations of the library that leave its structure as it is.
use axidma_driver.Common.{
  ℕ, ◌≡◌, refl, inl, inr, Bool, true, false, ◌&&◌, Option, none, some, List, get_elem?, Bool-cases,
  Option-cases, ◌==◌,
}
use axidma_driver.Types.{
  VideoFrame, AxidmaDir, axidma_read, axidma_write, other_dir, is_read, is_write, is_vdma,
  Transaction,
}
use axidma_driver.Libaxidma.Calls.{Request}
use axidma_driver.Libaxidma.Process.{Os, Process, DmaChannel, Result, P, and_then, ioctl, assert}
use axidma_driver.Libaxidma.Channels.{find_in, find_channel}
use axidma_driver.Libaxidma.Session.{invoke_callback, axidma_callback, int_leb}
use axidma_driver.Libaxidma.Requests.{
  known, known_channel, request, dir_to_ioctl, or_die, axidma_free, axidma_oneway_transfer,
  axidma_twoway_transfer, axidma_video_transfer, axidma_stop_transfer,
}
use axidma_driver.Libaxidma.Memory.{Fate, returns, fails, aborts}
use axidma_driver.Libaxidma.Closing.{branch_on}

-- The structure of the device is as it was.
abbrev pub Leaves : {A : Type 0} → Process → Result A → Type 0
Leaves p o = Fate (λ _ p'. p'.dev ≡ p.dev) (λ p'. p'.dev ≡ p.dev) o

module _ (os : Os) where
  pub request-Leaves : (r : Request) (p : Process) → Leaves p (request os r p)
  unfolding request ioctl
  request-Leaves r p = elim (Option-cases (os.ioctl p.calls p.dev.fd r)) [
    | inl y ↦ rw y (returns refl)
    | inr (e, y) ↦ rw y (fails refl)
  ]

known-then :
    {A : Type 0} (id : ℕ) (p : Process) (f : DmaChannel → P A)
    → ((d : DmaChannel) → Leaves p (f d p))
    → Leaves p (and_then (known_channel id p) f)
unfolding known_channel known find_channel
known-then id p f h = elim (Option-cases (find_in id p.dev.channels)) [
  | inl y ↦ rw (y, known) aborts
  | inr (d, y) ↦ rw (y, known) (h d)
]

assert-then :
    {A : Type 0} (b : Bool) (p : Process) (m : P A)
    → Leaves p (m p)
    → Leaves p (and_then (assert b p) (λ _. m))
assert-then true p m h = h
assert-then false p m h = aborts

module _ (os : Os) where
  pub or_die-Leaves : (r : Request) (p : Process) → Leaves p (or_die (request os r) p)
  or_die-Leaves r p = branch_on (request-Leaves os r p) (λ _ p' h. returns h) (λ e p' h. aborts)

  pub oneway-Leaves :
      (channel buf len : ℕ) (wait : Bool) (p : Process)
      → Leaves p (axidma_oneway_transfer os channel buf len wait p)
  unfolding axidma_oneway_transfer dir_to_ioctl
  oneway-Leaves channel buf len wait p = known-then channel p _ (λ d. by_dir d.dir _)
    where
      by_dir :
          (dir : AxidmaDir) (trans : Transaction)
          → Leaves p (and_then (dir_to_ioctl dir trans p) (request os))
      by_dir axidma_read trans = request-Leaves os (Request.read trans) p
      by_dir axidma_write trans = request-Leaves os (Request.write trans) p
      by_dir other_dir trans = aborts

  pub twoway-Leaves :
      (tx_channel tx_buf tx_len : ℕ) (tx_frame : Option VideoFrame) (rx_channel rx_buf rx_len : ℕ)
      (rx_frame : Option VideoFrame) (wait : Bool) (p : Process)
      → Leaves p (
          axidma_twoway_transfer os tx_channel tx_buf tx_len tx_frame rx_channel rx_buf rx_len
            rx_frame wait p)
  unfolding axidma_twoway_transfer
  twoway-Leaves tx_channel tx_buf tx_len tx_frame rx_channel rx_buf rx_len rx_frame wait p =
      known-then tx_channel p _ (λ tx. assert-then (is_write tx.dir) p _ (
        known-then rx_channel p _ (λ rx. assert-then (is_read rx.dir) p _ (request-Leaves os _ p))))

  pub video-Leaves :
      (display_channel width height depth : ℕ) (frame_buffers : List ℕ) (num_buffers : ℕ)
      (p : Process)
      → Leaves p
          (axidma_video_transfer os display_channel width height depth frame_buffers num_buffers p)
  unfolding axidma_video_transfer
  video-Leaves display_channel width height depth frame_buffers num_buffers p =
      known-then display_channel p _ (λ d. assert-then (is_vdma d.type) p _ (request-Leaves os _ p))

  pub stop-Leaves : (channel : ℕ) (p : Process) → Leaves p (axidma_stop_transfer os channel p)
  unfolding axidma_stop_transfer
  stop-Leaves channel p = known-then channel p _ (λ d. or_die-Leaves _ p)

  pub free-Leaves : (addr size : ℕ) (p : Process) → Leaves p (axidma_free os addr size p)
  unfolding axidma_free
  free-Leaves addr size p = elim (Bool-cases (os.munmap p.calls addr size)) [
    | inl y ↦ rw y (returns refl)
    | inr n ↦ rw n aborts
  ]

invoke-Leaves : (id : ℕ) (c : Option DmaChannel) (p : Process) → Leaves p (invoke_callback id c p)
unfolding invoke_callback
invoke-Leaves id none p = aborts
invoke-Leaves id (some c) p = elim (Bool-cases (c.callback == 0)) [
  | inl y ↦ rw y (returns refl)
  | inr n ↦ rw n (returns refl)
]

pub callback-Leaves : (si_int : ℕ) (p : Process) → Leaves p (axidma_callback si_int p)
unfolding axidma_callback
callback-Leaves si_int p =
    assert-then (int_leb 0 si_int && int_leb si_int p.dev.num_channels) p
      (invoke_callback si_int (get_elem? p.dev.channels si_int))
      (invoke-Leaves si_int (get_elem? p.dev.channels si_int) p)
