-- ===== src/Dma/Safety.antt =====
-- Every address range that the driver hands to the DMA engine lies in a registered buffer.
use axidma_driver.Common.{
  ℕ, ◌*◌, ◌%◌, ◌≡◌, inl, inr, List, [], ◌∷◌, if◌then◌else◌, All, Any, arith, Bool-cases,
}
use axidma_driver.Types.{
  word_mod, SgEntry, AxidmaChan, AxidmaTransfer, TransferDirection, mem_to_dev, dev_to_mem,
  VideoFrame, is_dma,
}
use axidma_driver.Kernel.{
  Kernel, Event, State, on_error, on_error, dmaengine_terminate_all, dmaengine_prep_slave_sg,
  xilinx_vdma_channel_set_config, dmaengine_prep_interleaved_dma, dmaengine_submit,
  wait_for_completion_timeout, dma_async_is_tx_complete,
}
use axidma_driver.Kernel.Ends
use axidma_driver.Kernel.Ends.{Ends}
use axidma_driver.Buffers.Regions.{Region, Inside}
use axidma_driver.Dma.Engine.{
  prep_video, prep_descriptor, submit_step, submit_descriptor, prepare_and_submit, terminate,
  axidma_prep_transfer, await_transfer, axidma_start_transfer, axidma_to_dma_dir,
  axidma_dir_to_string, axidma_type_to_string, write_cb_data, first_address,
}

abbrev pub InSome : List Region → SgEntry → Type 0
InSome rs e = Any (Inside e.address e.len) rs

-- The engine may touch only the ranges of the entries, or the rows of the frame.
abbrev pub IsSafe : List Region → Event → Type 0
IsSafe rs (Event.prep_slave_sg chan sg n dir txn) = All (InSome rs) sg
IsSafe rs (Event.prep_interleaved chan x txn) =
    (x.dst_start ≡ x.src_start) × Any (Inside x.src_start (x.numf * x.sgl_size)) rs
IsSafe rs _ = Unit

abbrev pub Traced : List Region → State → Type 0
Traced rs s = All (IsSafe rs) s.trace

-- The rows of the frame, from the first entry on, lie in a region.
abbrev pub SafeFrame : List Region → List SgEntry → VideoFrame → Type 0
SafeFrame rs [] f = Unit
SafeFrame rs (e ∷ es) f = Any (Inside e.address (f.height * (f.width * f.depth % word_mod))) rs

-- A plain transfer is safe to hand over if its entries are, a video transfer if its frame is.
abbrev pub SafeTransfer : List Region → AxidmaTransfer → Type 0
SafeTransfer rs tfr =
    if is_dma tfr.type then All (InSome rs) tfr.sg_list else SafeFrame rs tfr.sg_list tfr.frame

module _ (k : Kernel) (rs : List Region) where
  pub start_transfer-IsSafe :
      (chan : AxidmaChan) (tfr : AxidmaTransfer) (s : State)
      → Traced rs s
      → Ends (Traced rs) (axidma_start_transfer k chan tfr s)
  unfolding axidma_start_transfer axidma_dir_to_string axidma_type_to_string await_transfer
      terminate dmaengine_terminate_all wait_for_completion_timeout dma_async_is_tx_complete
  start_transfer-IsSafe chan tfr s h = ground arith

  prep_video-IsSafe :
      (chan : ℕ) (sg : List SgEntry) (f : VideoFrame) (dir : TransferDirection) (s : State)
      → SafeFrame rs sg f
      → Traced rs s
      → Ends (Traced rs) (prep_video k chan sg f dir s)
  unfolding prep_video dmaengine_prep_interleaved_dma xilinx_vdma_channel_set_config first_address
  prep_video-IsSafe chan [] f dir s e h = ground arith
  prep_video-IsSafe chan (x ∷ xs) f dir s e h = ground arith

  prep_descriptor-IsSafe :
      (chan : ℕ) (tfr : AxidmaTransfer) (dir : TransferDirection) (s : State)
      → SafeTransfer rs tfr
      → Traced rs s
      → Ends (Traced rs) (prep_descriptor k chan tfr dir s)
  unfolding prep_descriptor dmaengine_prep_slave_sg
  prep_descriptor-IsSafe chan tfr dir s e h = elim (Bool-cases (is_dma tfr.type)) [
    | inl plain ↦ rw plain (record { final = ((rw plain at e), h) })
    | inr video ↦ rw video (prep_video-IsSafe chan tfr.sg_list tfr.frame dir s (rw video at e) h)
  ]

  submit_step-IsSafe :
      (tfr : AxidmaTransfer) (txn : ℕ) (s : State)
      → Traced rs s
      → Ends (Traced rs) (submit_step k tfr txn s)
  unfolding submit_step submit_descriptor write_cb_data dmaengine_submit
  submit_step-IsSafe tfr txn s h = ground arith

  terminate-IsSafe : (chan : ℕ) (s : State) → Traced rs s → Ends (Traced rs) (terminate k chan s)
  unfolding terminate dmaengine_terminate_all
  terminate-IsSafe chan s h = record { final = (tt, h) }

  body-IsSafe :
      (chan : ℕ) (tfr : AxidmaTransfer) (s : State) (dir : TransferDirection)
      → SafeTransfer rs tfr
      → Traced rs s
      → Ends (Traced rs) (on_error (terminate k chan) (prepare_and_submit k chan tfr dir) s)
  unfolding prepare_and_submit
  body-IsSafe chan tfr s dir e h =
      Ends.cleanup (Ends.bind (prep_descriptor-IsSafe chan tfr dir s e h) (submit_step-IsSafe tfr))
        (terminate-IsSafe chan)

  pub prep_transfer-IsSafe :
      (chan : AxidmaChan) (tfr : AxidmaTransfer) (s : State)
      → SafeTransfer rs tfr
      → Traced rs s
      → Ends (Traced rs) (axidma_prep_transfer k chan tfr s)
  unfolding axidma_prep_transfer axidma_to_dma_dir axidma_dir_to_string axidma_type_to_string
  prep_transfer-IsSafe chan tfr s e h = ground (
    arith,
    body-IsSafe chan.chan tfr s mem_to_dev e h,
    body-IsSafe chan.chan tfr s dev_to_mem e h,
  )
