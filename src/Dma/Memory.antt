-- ===== src/Dma/Memory.antt =====
-- The table that a video transfer allocates is freed on every path.
use axidma_driver.Common.{
  ℕ, zero, suc, ◌+◌, ◌*◌, ◌%◌, ◌==◌, ◌≡◌, ◌∙◌, refl, ap, inl, inr, Option, none, some, List, [],
  ◌∷◌, arith, get_elem?, Bool-cases, Option-cases,
}
use axidma_driver.Types.{
  word_mod, SgEntry, AxidmaChan, AxidmaDir, AxidmaTransfer, TransferDirection, mem_to_dev,
  dev_to_mem, VideoFrame, VideoTransaction, is_dma,
}
use axidma_driver.Kernel.{
  Kernel, Event, State, log, ◌>>=◌, pure, on_error, kmalloc, dmaengine_terminate_all,
  dmaengine_prep_slave_sg, xilinx_vdma_channel_set_config, dmaengine_prep_interleaved_dma,
  dmaengine_submit, wait_for_completion_timeout, dma_async_is_tx_complete,
}
use axidma_driver.Kernel.Ends
use axidma_driver.Kernel.Ends.{Ends}
use axidma_driver.Kernel.Balance
use axidma_driver.Kernel.Balance.{Settles}
use axidma_driver.Kernel.Resources.{Resource, held, memory, acquire, release, release-acquire}
use axidma_driver.Buffers.{
  search_dmabufs, search_external, or_null, or_else, axidma_uservirt_to_dma,
}
use axidma_driver.Dma.Engine.{
  prep_video, prep_descriptor, submit_step, submit_descriptor, prepare_and_submit, terminate,
  axidma_prep_transfer, await_transfer, axidma_start_transfer, axidma_to_dma_dir,
  axidma_dir_to_string, axidma_type_to_string, write_cb_data, first_address, axidma_init_sg_entry,
  axidma_get_chan, find_chan,
}
use axidma_driver.Dma.Control.{
  init_frames, image_size, rounds, video_transfer_of, video_body, axidma_video_transfer,
}

-- The resources `h` are held.
abbrev pub Holding : Option (List Resource) → State → Type 0
Holding h s = held s.trace ≡ h

abbrev Unchanged : State → State → Type 0
Unchanged s s' = s' ≡ s

search_dmabufs-Unchanged :
    (u n : ℕ) (ps : List ℕ) (s : State) → Ends (Unchanged s) (search_dmabufs u n ps s)
unfolding search_dmabufs
search_dmabufs-Unchanged u n [] s = record { final = refl }
search_dmabufs-Unchanged u n (p ∷ ps) s = ground (arith, search_dmabufs-Unchanged u n ps s)

search_external-Unchanged :
    (u n : ℕ) (ps : List ℕ) (s : State) → Ends (Unchanged s) (search_external u n ps s)
unfolding search_external
search_external-Unchanged u n [] s = record { final = refl }
search_external-Unchanged u n (p ∷ ps) s = ground (arith, search_external-Unchanged u n ps s)

-- The second list is searched if the first has no answer.
second-Unchanged :
    (own : Option ℕ) (u n : ℕ) (s : State)
    → Ends (Unchanged s) (
        or_else own
          (search_external u n s.dev.external_dmabufs >>= λ other. pure (or_null other))
          s)
second-Unchanged (some a) u n s = record { final = refl }
second-Unchanged none u n s =
    Ends.bind (search_external-Unchanged u n s.dev.external_dmabufs s)
      λ other s' e. record { final = e }

-- The translation changes nothing, whatever the lists of buffers hold.
uservirt_to_dma-Unchanged :
    (u n : ℕ) (s : State) → Ends (Unchanged s) (axidma_uservirt_to_dma u n s)
unfolding axidma_uservirt_to_dma
uservirt_to_dma-Unchanged u n s =
    Ends.bind (search_dmabufs-Unchanged u n s.dev.dmabuf_list s)
      λ own s' e. rw e (second-Unchanged own u n s)

pub init_sg_entry-Unchanged :
    (sg : List SgEntry) (i u n : ℕ) (s : State)
    → Ends (Unchanged s) (axidma_init_sg_entry sg i u n s)
unfolding axidma_init_sg_entry
init_sg_entry-Unchanged sg i u n s =
    Ends.bind (uservirt_to_dma-Unchanged u n s) λ a s' e. rw e (ground arith)

init_frames-Unchanged :
    (m i size : ℕ) (buffers : List ℕ) (sg : List SgEntry) (s : State)
    → Ends (Unchanged s) (init_frames m i size buffers sg s)
unfolding init_frames
init_frames-Unchanged zero i size buffers sg s = record { final = refl }
init_frames-Unchanged (suc m) i size buffers sg s = elim (Option-cases (get_elem? buffers i)) [
  | inl e ↦ rw (e, init_frames) (record { final = refl })
  | inr (buf, e) ↦
      rw (e, init_frames)
        (Ends.bind (init_sg_entry-Unchanged sg i buf size s)
          λ sg' s' same. rw same (init_frames-Unchanged m (i + 1) size buffers sg' s))
]

module _ (k : Kernel) (h : Option (List Resource)) where
  pub start_transfer-Holding :
      (chan : AxidmaChan) (tfr : AxidmaTransfer) (s : State)
      → Holding h s
      → Ends (Holding h) (axidma_start_transfer k chan tfr s)
  unfolding axidma_start_transfer axidma_dir_to_string axidma_type_to_string await_transfer
      terminate dmaengine_terminate_all wait_for_completion_timeout dma_async_is_tx_complete
  start_transfer-Holding chan tfr s kept = ground arith

  prep_video-Holding :
      (chan : ℕ) (sg : List SgEntry) (f : VideoFrame) (dir : TransferDirection) (s : State)
      → Holding h s
      → Ends (Holding h) (prep_video k chan sg f dir s)
  unfolding prep_video dmaengine_prep_interleaved_dma xilinx_vdma_channel_set_config first_address
  prep_video-Holding chan [] f dir s kept = ground arith
  prep_video-Holding chan (x ∷ xs) f dir s kept = ground arith

  prep_descriptor-Holding :
      (chan : ℕ) (tfr : AxidmaTransfer) (dir : TransferDirection) (s : State)
      → Holding h s
      → Ends (Holding h) (prep_descriptor k chan tfr dir s)
  unfolding prep_descriptor dmaengine_prep_slave_sg
  prep_descriptor-Holding chan tfr dir s kept = elim (Bool-cases (is_dma tfr.type)) [
    | inl plain ↦ rw plain (record { final = kept })
    | inr video ↦ rw video (prep_video-Holding chan tfr.sg_list tfr.frame dir s kept)
  ]

  submit_step-Holding :
      (tfr : AxidmaTransfer) (txn : ℕ) (s : State)
      → Holding h s
      → Ends (Holding h) (submit_step k tfr txn s)
  unfolding submit_step submit_descriptor write_cb_data dmaengine_submit
  submit_step-Holding tfr txn s kept = ground arith

  body-Holding :
      (chan : ℕ) (tfr : AxidmaTransfer) (s : State) (dir : TransferDirection)
      → Holding h s
      → Ends (Holding h) (on_error (terminate k chan) (prepare_and_submit k chan tfr dir) s)
  unfolding prepare_and_submit terminate dmaengine_terminate_all
  body-Holding chan tfr s dir kept =
      Ends.cleanup
        (Ends.bind (prep_descriptor-Holding chan tfr dir s kept) (submit_step-Holding tfr))
        λ s' kept'. record { final = kept' }

  pub prep_transfer-Holding :
      (chan : AxidmaChan) (tfr : AxidmaTransfer) (s : State)
      → Holding h s
      → Ends (Holding h) (axidma_prep_transfer k chan tfr s)
  unfolding axidma_prep_transfer axidma_to_dma_dir axidma_dir_to_string axidma_type_to_string
  prep_transfer-Holding chan tfr s kept = ground (
    arith,
    body-Holding chan.chan tfr s mem_to_dev kept,
    body-Holding chan.chan tfr s dev_to_mem kept,
  )

  video_body-Holding :
      (trans : VideoTransaction) (dir : AxidmaDir) (sg : List SgEntry) (s : State)
      → Holding h s
      → Ends (Holding h) (video_body k trans dir sg s)
  unfolding video_body axidma_get_chan
  video_body-Holding trans dir sg s kept =
      let frames =
        init_frames-Unchanged (rounds trans.num_frame_buffers) 0 (image_size trans.frame)
          trans.frame_buffers sg s in
      Ends.bind
        {o = init_frames (rounds trans.num_frame_buffers) 0 (image_size trans.frame)
          trans.frame_buffers sg s}
        (record { final = ap (λ (v : State). held v.trace) frames.final ∙ kept })
        λ sg' s' kept'. elim (Option-cases (find_chan trans.channel_id s'.dev.channels)) [
          | inl e ↦ rw e (record { final = kept' })
          | inr (chan, e) ↦ rw e (
              Ends.bind
                (prep_transfer-Holding chan (video_transfer_of k s'.dev trans dir sg') s' kept')
                (start_transfer-Holding chan))
        ]

-- The release of memory that was acquired last.
pub freed :
    (h : Option (List Resource)) (ptr : ℕ) (s : State)
    → Holding (acquire (memory ptr) h) s
    → Holding h (log (Event.kfree ptr) s)
freed h ptr s kept = ap (release (memory ptr)) kept ∙ release-acquire (memory ptr) h

-- Unless it stops at a fault, a video transfer holds at its end what it held at its start: its table
-- is freed on every path, whatever step fails.
pub video_transfer-Settles :
    (k : Kernel) (trans : VideoTransaction) (dir : AxidmaDir) (s : State)
    (h : Option (List Resource))
    → Holding h s
    → Settles (Holding h) (axidma_video_transfer k trans dir s)
unfolding axidma_video_transfer kmalloc
video_transfer-Settles k trans dir s h kept =
    let size = trans.num_frame_buffers * k.sizeof_scatterlist % word_mod in
    let ptr = k.kmalloc s.trace size in
    let s1 = log (Event.kmalloc size ptr) s in
    elim (Bool-cases (ptr == 0)) [
      | inl null ↦ rw null (Balance.returns (rw null kept))
      | inr got ↦ rw got (
          Balance.drop_then
            (Balance.ended (
              video_body-Holding k (acquire (memory ptr) h) trans dir _ s1
                (rw got (ap (acquire (memory ptr)) kept))))
            λ s2 kept2. (log (Event.kfree ptr) s2, refl, freed h ptr s2 kept2))
    ]
