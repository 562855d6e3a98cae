-- ===== src/Chrdev/Leaks.antt =====
-- The video commands free the kernel's copy of the frame buffers on every path.
use axidma_driver.Common.{
  ℕ, ◌*◌, ◌/◌, ◌%◌, ◌==◌, ap, refl, inl, inr, Option, List, Bool-cases, Option-cases,
}
use axidma_driver.Types.{word_mod, AxidmaDir}
use axidma_driver.Kernel.{Kernel, Event, State, log, kmalloc}
use axidma_driver.Kernel.Balance
use axidma_driver.Kernel.Balance.{Settles}
use axidma_driver.Kernel.Resources.{Resource, memory, acquire}
use axidma_driver.Dma.Memory.{Holding, freed, video_transfer-Settles}
use axidma_driver.Chrdev.Ioctl.{ioctl_video, tabulate}

-- Unless it stops at a fault, a video command holds at its end what it held at its start: the array
-- of frame buffers and the table of the transfer are freed on every path, whatever step fails.
pub ioctl_video-Settles :
    (k : Kernel) (dir : AxidmaDir) (arg : ℕ) (s : State) (h : Option (List Resource))
    → Holding h s
    → Settles (Holding h) (ioctl_video k dir arg s)
unfolding ioctl_video kmalloc
ioctl_video-Settles k dir arg s h kept =
    elim (Option-cases (k.copy_video_transaction s.trace arg)) [
      | inl missing ↦ rw missing (Balance.fails kept)
      | inr (trans, copied) ↦
          let s1 = log (Event.copy_from_user arg 24) s in
          let size = trans.num_frame_buffers * 4 % word_mod in
          let ptr = k.kmalloc s1.trace size in
          let s2 = log (Event.kmalloc size ptr) s1 in
          elim (Bool-cases (ptr == 0)) [
            | inl null ↦ rw (copied, null) (Balance.fails (rw null kept))
            | inr got ↦
                rw (copied, got)
                  (Balance.finally
                    (elim (Option-cases (k.copy_frame_buffers s2.trace arg size)) [
                      | inl lost ↦ rw lost (Balance.fails (rw got (ap (acquire (memory ptr)) kept)))
                      | inr (buffers, there) ↦ rw there (
                          video_transfer-Settles k
                            (record trans { frame_buffers = tabulate (size / 4) 0 buffers }) dir
                            (log (Event.copy_from_user arg size) s2) (acquire (memory ptr) h)
                            (rw got (ap (acquire (memory ptr)) kept)))
                    ])
                    λ s3 kept3. (log (Event.kfree ptr) s3, refl, freed h ptr s3 kept3))
          ]
    ]
