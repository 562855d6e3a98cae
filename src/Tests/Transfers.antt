-- ===== src/Tests/Transfers.antt =====
-- Transfers on the concrete device.
use axidma_driver.Common.{
  ℕ, ◌≡◌, ◌≢◌, ◌<◌, length, true, inl, refl, subst, none, some, List, [], ◌∷◌, ◌++◌, arith,
}
use mathlib.Core.Option.{some-injective}
use axidma_driver.Types.{
  AxidmaChan, AxidmaTransfer, Transaction, InoutTransaction, VideoTransaction, axidma_write, is_dma,
  is_vdma, dev_to_mem, ebusy,
}
use axidma_driver.Kernel.{
  Kernel, Event, ok, err, log, dmaengine_prep_slave_sg, dmaengine_terminate_all,
}
use axidma_driver.Kernel.Ends.{Ends}
use axidma_driver.Buffers.{axidma_uservirt_to_dma}
use axidma_driver.Buffers.Regions.{Region, own_region, external_region}
use axidma_driver.Buffers.Translate.{Answers, uservirt_to_dma-Answers}
use axidma_driver.Dma.Engine.{
  find_chan, axidma_prep_transfer, axidma_to_dma_dir, axidma_dir_to_string, axidma_type_to_string,
  prepare_and_submit, prep_descriptor, submit_step, terminate,
}
use axidma_driver.Dma.Transfers.{
  axidma_read_transfer, axidma_write_transfer, axidma_rw_transfer, transfer_of,
}
use axidma_driver.Dma.Control.{axidma_video_transfer}
use axidma_driver.Dma.Safety.{Traced}
use axidma_driver.Dma.Buffers.{oneway_transfers-IsSafe, rw_transfer-IsSafe}
use axidma_driver.Dma.Frames.{framed_rw_transfer-IsSafe}
use axidma_driver.Dma.Video.{
  IsVideo, ReturnsZero, video_transfer-IsSafe, video_transfer-ReturnsZero,
}
use axidma_driver.Dma.Errors.{Terminated, steps-Terminated}
use axidma_driver.Dma.Faults.{Runs, IsUsable, oneway_transfers-Runs}
use axidma_driver.Tests.{
  sim, booted, booted-IsDevice, device, buffer, external, receive, both, video, rx_chan,
}

abbrev owned : List Region
owned = own_region buffer ∷ []

abbrev shared : List Region
shared = external_region external ∷ []

found_tx : (c : AxidmaChan) → find_chan 0 device.channels ≡ some c → is_dma c.type ≡ true
unfolding find_chan
found_tx c e = subst (λ (c : AxidmaChan). is_dma c.type ≡ true) (some-injective _ _ e) refl

found_rx : (c : AxidmaChan) → find_chan 1 device.channels ≡ some c → is_dma c.type ≡ true
unfolding find_chan
found_rx c e = subst (λ (c : AxidmaChan). is_dma c.type ≡ true) (some-injective _ _ e) refl

oneway_transfers-IsSafe_example :
    Ends (Traced (owned ++ shared)) (axidma_read_transfer sim receive booted)
    × Ends (Traced (owned ++ shared)) (axidma_write_transfer sim receive booted)
oneway_transfers-IsSafe_example =
    oneway_transfers-IsSafe sim owned shared receive booted booted-IsDevice
      (omega arith, omega arith) found_rx tt

rw_transfer-IsSafe_example : Ends (Traced (owned ++ shared)) (axidma_rw_transfer sim both booted)
rw_transfer-IsSafe_example =
    rw_transfer-IsSafe sim owned shared both booted booted-IsDevice (omega arith, omega arith)
      (omega arith, omega arith) found_tx found_rx tt

-- A two-way transfer that transmits on the video channel.
abbrev framed : InoutTransaction
framed = record both { tx_channel_id = 2; rx_frame = record { height = 2; width = 4; depth = 2 } }

found_video : (c : AxidmaChan) → find_chan 2 device.channels ≡ some c → is_vdma c.type ≡ true
unfolding find_chan
found_video c e = subst (λ (c : AxidmaChan). is_vdma c.type ≡ true) (some-injective _ _ e) refl

framed_rw_transfer-IsSafe_example :
    Ends (Traced (owned ++ shared)) (axidma_rw_transfer sim framed booted)
framed_rw_transfer-IsSafe_example =
    framed_rw_transfer-IsSafe sim owned shared framed booted booted-IsDevice
      (omega arith, omega arith) (omega arith, omega arith) found_video (omega arith) (omega arith)
      tt

video-IsVideo : IsVideo video
video-IsVideo = record {
  some_buffers = omega arith;
  int_buffers = omega arith;
  frame = (omega arith, omega arith);
  first_buffer = λ buf e. omega (arith, some-injective _ _ e);
}

video_transfer-IsSafe_example :
    Ends (Traced (owned ++ shared)) (axidma_video_transfer sim video axidma_write booted)
video_transfer-IsSafe_example =
    video_transfer-IsSafe sim owned shared video axidma_write booted booted-IsDevice video-IsVideo
      tt

uservirt_to_dma-Answers_example :
    (a : ℕ) × (axidma_uservirt_to_dma 0x10000010 64 booted ≡ ok a booted)
    × Answers 0x10000010 64 a (owned ++ shared)
uservirt_to_dma-Answers_example =
    uservirt_to_dma-Answers booted owned shared 0x10000010 64 booted-IsDevice (omega arith)
      (omega arith)

receive-IsUsable : IsUsable sim owned shared booted 1
unfolding find_chan
receive-IsUsable c e =
    subst (λ (c : AxidmaChan). (c.chan ≢ 0) × (is_dma c.type ≡ true) × (1 < length device.cb_data))
      (some-injective _ _ e) (λ z. omega arith, refl, omega arith)

oneway_transfers-Runs_example :
    Runs (λ _. Unit) (axidma_read_transfer sim receive booted)
    × Runs (λ _. Unit) (axidma_write_transfer sim receive booted)
oneway_transfers-Runs_example =
    oneway_transfers-Runs sim owned shared receive booted booted-IsDevice.holds receive-IsUsable

abbrev far : Transaction
far = record receive { channel_id = 9 }

-- A kernel that gives no descriptor.
abbrev busy : Kernel
busy = record sim { prep_slave_sg = λ _ _ _ _ _. 0 }

abbrev rx_transfer : AxidmaTransfer
rx_transfer =
    transfer_of 77 device rx_chan (record { address = 0x30000800; len = 128 } ∷ []) true 1
      (sim.stack_frame 0)

abbrev handed : Event
handed = Event.prep_slave_sg 101 rx_transfer.sg_list 1 dev_to_mem 0

refused :
    axidma_prep_transfer busy rx_chan rx_transfer booted
    ≡ err ebusy (log (Event.terminate_all 101 none) (log handed booted))
unfolding axidma_prep_transfer axidma_to_dma_dir axidma_dir_to_string axidma_type_to_string
    prepare_and_submit prep_descriptor dmaengine_prep_slave_sg submit_step terminate
    dmaengine_terminate_all
refused = refl

steps-Terminated_example : Terminated 101 (log (Event.terminate_all 101 none) (log handed booted))
steps-Terminated_example =
    steps-Terminated busy rx_chan rx_transfer booted ebusy
      (log (Event.terminate_all 101 none) (log handed booted)) (inl refused)

-- A frame buffer that is not registered.
abbrev unregistered : VideoTransaction
unregistered = record video { frame_buffers = 0x60000000 ∷ [] }

video_transfer-ReturnsZero_example :
    ReturnsZero sim unregistered 3000 (axidma_video_transfer sim unregistered axidma_write booted)
video_transfer-ReturnsZero_example = video_transfer-ReturnsZero sim unregistered axidma_write booted
