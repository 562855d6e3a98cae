-- ===== src/Dma/Frames.antt =====
-- A two-way transfer whose transmit channel is a video channel: both frames are copied.
use axidma_driver.Common.{
  ℕ, ◌*◌, ◌%◌, ◌≤◌, ◌≡◌, ◌++◌, inl, inr, Bool, true, false, some, List, [], ◌∷◌, arith, Bool-cases,
}
use axidma_driver.Types.{
  word_mod, AxidmaChan, AxidmaDevice, InoutTransaction, VideoFrame, is_dma, is_vdma,
}
use axidma_driver.Kernel.{Kernel, State}
use axidma_driver.Kernel.Ends.{Ends}
use axidma_driver.Buffers.Regions.{Region, IsDevice, Inside}
use axidma_driver.Dma.Engine.{find_chan}
use axidma_driver.Dma.Transfers.{transfer_of, axidma_rw_transfer}
use axidma_driver.Dma.Safety.{InSome, Traced, SafeTransfer}
use axidma_driver.Dma.Buffers.{IsRequest, Any-mono, pair-IsSafe}

-- How many bytes the engine is told to move for a frame.
abbrev pub rows_of : VideoFrame → ℕ
rows_of f = f.height * (f.width * f.depth % word_mod)

module _ (k : Kernel) (own es : List Region) where
  -- A transfer with a frame that fits into its buffer is safe, on a channel of any type.
  framed-SafeTransfer :
      (dev : AxidmaDevice) (chan : AxidmaChan) (wait : Bool) (id a n : ℕ) (f : VideoFrame)
      → rows_of f ≤ n
      → InSome (own ++ es) (record { address = a; len = n })
      → SafeTransfer
          (own ++ es)
          (transfer_of k.current dev chan (record { address = a; len = n } ∷ []) wait id f)
  framed-SafeTransfer dev chan wait id a n f fits h = elim (Bool-cases (is_dma chan.type)) [
    | inl plain ↦ rw plain (h, tt)
    | inr video ↦ rw video (
        Any-mono (Inside a n) (Inside a (rows_of f)) (own ++ es)
          (λ r inside. (inside.0, omega (arith, inside.1, fits))) h)
  ]

  -- Where the lists of buffers stand for regions that do not wrap, and every range that the driver has
  -- handed to the engine lies in one of them, a two-way transfer that transmits on a video channel, and
  -- receives on a channel of any type, keeps it so, also if it fails, if its two requests are not empty
  -- and do not wrap, and the rows of each of its two frames fit into the length that is given for its
  -- buffer, which the driver does not test.
  pub framed_rw_transfer-IsSafe :
      (trans : InoutTransaction) (s : State)
      → IsDevice s own es
      → IsRequest trans.tx_buf trans.tx_buf_len
      → IsRequest trans.rx_buf trans.rx_buf_len
      → ((c : AxidmaChan)
          → find_chan trans.tx_channel_id s.dev.channels ≡ some c
          → is_vdma c.type ≡ true)
      → rows_of trans.tx_frame ≤ trans.tx_buf_len
      → rows_of trans.rx_frame ≤ trans.rx_buf_len
      → Traced (own ++ es) s
      → Ends (Traced (own ++ es)) (axidma_rw_transfer k trans s)
  framed_rw_transfer-IsSafe trans s d tx_request rx_request video tx_fits rx_fits h =
      pair-IsSafe k own es trans s d tx_request rx_request
        (λ tx rx a b tx_found rx_found tx_in rx_in. rw (video tx tx_found) (
          framed-SafeTransfer s.dev tx false trans.tx_channel_id a trans.tx_buf_len trans.tx_frame
              tx_fits tx_in,
          framed-SafeTransfer s.dev rx trans.wait trans.rx_channel_id b trans.rx_buf_len
              trans.rx_frame rx_fits rx_in,
        ))
        h
