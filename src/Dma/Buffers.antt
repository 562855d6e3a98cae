-- ===== src/Dma/Buffers.antt =====
-- Every address range that a transfer hands to the DMA engine lies in a registered buffer.
use axidma_driver.Common.{
  ℕ, suc, ◌+◌, ◌<◌, ◌≡◌, ◌++◌, inl, inr, refl, Bool, true, false, some, List, [], ◌∷◌, Any, arith,
  Bool-cases, if◌then◌else◌, Option-cases, ==_ne, lt→ltb, length,
}
use axidma_driver.Types.{
  word_mod, SgEntry, AxidmaChan, AxidmaDir, AxidmaTransfer, Transaction, InoutTransaction, is_dma,
  is_vdma, VideoFrame, is_read, is_write, AxidmaDevice,
}
use axidma_driver.Kernel.{Kernel, State, ok}
use axidma_driver.Kernel.Ends
use axidma_driver.Kernel.Ends.{Ends, Outcome, returns, fails, stops}
use axidma_driver.Buffers.{axidma_uservirt_to_dma}
use axidma_driver.Buffers.Regions.{Region, IsDevice, Inside}
use axidma_driver.Buffers.Translate.{uservirt_to_dma-Answers, Answers, Maps}
use axidma_driver.Dma.Engine.{axidma_init_sg_entry, axidma_get_chan, find_chan}
use axidma_driver.Dma.Transfers.{
  transfer_of, require_chan, oneway_transfer, axidma_read_transfer, axidma_write_transfer, run_both,
  axidma_rw_transfer,
}
use axidma_driver.Dma.Safety.{
  InSome, Traced, SafeTransfer, prep_transfer-IsSafe, start_transfer-IsSafe,
}

-- The request of a transfer is not empty and does not wrap.
abbrev pub IsRequest : (buf buf_len : ℕ) → Type 0
IsRequest buf buf_len = (0 < buf_len) × (buf + buf_len < word_mod)

pub Any-mono :
    (P Q : Region → Type 0) (rs : List Region) → ((r : Region) → P r → Q r) → Any P rs → Any Q rs
Any-mono P Q [] f h = h
Any-mono P Q (r ∷ rs) f (inl h) = inl (f r h)
Any-mono P Q (r ∷ rs) f (inr h) = inr (Any-mono P Q rs f h)

-- The table of one entry that a lookup fills in, or its failure.
abbrev pub Entry : List Region → State → (n : ℕ) → List SgEntry → List SgEntry → State → Type 0
Entry rs s n sg sg' s' =
    (s' ≡ s)
    × (a : ℕ) × (sg' ≡ record { address = a; len = n } ∷ sg)
    × InSome rs (record { address = a; len = n })

answered_lem :
    (s : State) (rs : List Region) (u n : ℕ) (e : SgEntry) (sg : List SgEntry) (a : ℕ)
    → axidma_uservirt_to_dma u n s ≡ ok a s
    → Answers u n a rs
    → Outcome (Entry rs s n sg) (λ s'. s' ≡ s) (axidma_init_sg_entry (e ∷ sg) 0 u n s)
unfolding axidma_init_sg_entry
answered_lem s rs u n e sg a found (inl (null, _)) =
    rw (found, axidma_init_sg_entry) (rw null (fails refl))
answered_lem s rs u n e sg a found (inr (set, maps)) =
    rw (found, axidma_init_sg_entry)
      (rw (==_ne a 0 (omega arith), lt→ltb 0 (suc (length sg)) (omega arith))
        (returns (refl, a, refl, Any-mono (Maps u n a) (Inside a n) rs (λ r m. m.1) maps)))

module _ (s : State) (own es : List Region) (d : IsDevice s own es) where
  -- A table entry that is filled lies in a region, and is as long as the request.
  pub init_sg_entry-Entry :
      (u n : ℕ) (e : SgEntry) (sg : List SgEntry)
      → IsRequest u n
      → Outcome (Entry (own ++ es) s n sg) (λ s'. s' ≡ s) (axidma_init_sg_entry (e ∷ sg) 0 u n s)
  init_sg_entry-Entry u n e sg (pos, small) =
      let (a, found, answer) = uservirt_to_dma-Answers s own es u n d small pos in
      answered_lem s (own ++ es) u n e sg a found answer

-- The channel that `require_chan` returns.
abbrev Found : State → (AxidmaDir → Bool) → ℕ → AxidmaChan → State → Type 0
Found s accepts id chan s' =
    (s' ≡ s) × (find_chan id s.dev.channels ≡ some chan) × (accepts chan.dir ≡ true)

require_chan-Found :
    (s : State) (accepts : AxidmaDir → Bool) (id : ℕ)
    → Outcome (Found s accepts id) (λ s'. s' ≡ s) (require_chan accepts id s)
unfolding require_chan axidma_get_chan
require_chan-Found s accepts id = elim (Option-cases (find_chan id s.dev.channels)) [
  | inl e ↦ rw (e, require_chan) (fails refl)
  | inr (c, e) ↦ elim (Bool-cases (accepts c.dir)) [
    | inl y ↦ rw (e, require_chan) (rw y (returns (refl, e, y)))
    | inr n ↦ rw (e, require_chan) (rw n (fails refl))
  ]
]

module _ (k : Kernel) (own es : List Region) where
  plain-SafeTransfer :
      (dev : AxidmaDevice) (chan : AxidmaChan) (wait : Bool) (id : ℕ) (e : SgEntry) (f : VideoFrame)
      → is_dma chan.type ≡ true
      → InSome (own ++ es) e
      → SafeTransfer (own ++ es) (transfer_of k.current dev chan (e ∷ []) wait id f)
  plain-SafeTransfer dev chan wait id e f plain h = rw plain (h, tt)

  -- The channel with the id, if there is one, is a plain DMA channel.
  abbrev pub IsPlain : State → (id : ℕ) → Type 0
  IsPlain s id = (c : AxidmaChan) → find_chan id s.dev.channels ≡ some c → is_dma c.type ≡ true

  oneway_transfer-IsSafe :
      (accepts : AxidmaDir → Bool) (trans : Transaction) (s : State)
      → IsDevice s own es
      → IsRequest trans.buf trans.buf_len
      → IsPlain s trans.channel_id
      → Traced (own ++ es) s
      → Ends (Traced (own ++ es)) (oneway_transfer k accepts trans s)
  unfolding oneway_transfer
  oneway_transfer-IsSafe accepts trans s d (pos, small) plain h =
      Ends.continue_at h (require_chan-Found s accepts trans.channel_id) λ chan s' (same, found, _).
        rw same (
          Ends.continue_at h
            (init_sg_entry-Entry s own es d trans.buf trans.buf_len _ [] (pos, small))
            λ sg s2 (same2, a, filled, inside).
              rw (same2, filled)
                (Ends.bind
                  (prep_transfer-IsSafe k (own ++ es) chan _ s
                    (plain-SafeTransfer s.dev chan trans.wait trans.channel_id _ _
                      (plain chan found) inside)
                    h)
                  (start_transfer-IsSafe k (own ++ es) chan)))

  -- Where the lists of buffers stand for regions that do not wrap, and every range that the driver
  -- has handed to the engine lies in one of them, a receive and a transmit on a plain DMA
  -- channel keep it so, for a request that is not empty and does not wrap, whatever the kernel answers
  -- and whatever the stack holds, and also if they fail.
  pub oneway_transfers-IsSafe :
      (trans : Transaction) (s : State)
      → IsDevice s own es
      → IsRequest trans.buf trans.buf_len
      → IsPlain s trans.channel_id
      → Traced (own ++ es) s
      → Ends (Traced (own ++ es)) (axidma_read_transfer k trans s)
        × Ends (Traced (own ++ es)) (axidma_write_transfer k trans s)
  unfolding axidma_read_transfer axidma_write_transfer
  oneway_transfers-IsSafe trans s d request plain h = (
    oneway_transfer-IsSafe is_read trans s d request plain h,
    oneway_transfer-IsSafe is_write trans s d request plain h,
  )

  run_both-IsSafe :
      (tx : AxidmaChan) (tx_tfr : AxidmaTransfer) (rx : AxidmaChan) (rx_tfr : AxidmaTransfer)
      (s : State)
      → SafeTransfer (own ++ es) tx_tfr
      → SafeTransfer (own ++ es) rx_tfr
      → Traced (own ++ es) s
      → Ends (Traced (own ++ es)) (run_both k tx tx_tfr rx rx_tfr s)
  unfolding run_both
  run_both-IsSafe tx tx_tfr rx rx_tfr s tx_safe rx_safe h =
      Ends.bind (prep_transfer-IsSafe k (own ++ es) tx tx_tfr s tx_safe h) λ tx_tfr' s1 h1.
        Ends.bind (prep_transfer-IsSafe k (own ++ es) rx rx_tfr s1 rx_safe h1) λ rx_tfr' s2 h2.
          Ends.bind (start_transfer-IsSafe k (own ++ es) tx tx_tfr' s2 h2)
            λ _ s3 h3. start_transfer-IsSafe k (own ++ es) rx rx_tfr' s3 h3

  -- The two transfers of a request are safe for the channels that it names, wherever their buffers are.
  abbrev pub SafePair : InoutTransaction → State → Type 0
  SafePair trans s =
      (tx rx : AxidmaChan) (a b : ℕ)
      → find_chan trans.tx_channel_id s.dev.channels ≡ some tx
      → find_chan trans.rx_channel_id s.dev.channels ≡ some rx
      → InSome (own ++ es) (record { address = a; len = trans.tx_buf_len })
      → InSome (own ++ es) (record { address = b; len = trans.rx_buf_len })
      → SafeTransfer (own ++ es) (
          transfer_of k.current s.dev tx (record { address = a; len = trans.tx_buf_len } ∷ []) false
            trans.tx_channel_id (if is_vdma tx.type then trans.tx_frame else k.stack_frame 0))
        × SafeTransfer (own ++ es) (
            transfer_of k.current s.dev rx (record { address = b; len = trans.rx_buf_len } ∷ [])
              trans.wait trans.rx_channel_id
              (if is_vdma tx.type then trans.rx_frame else k.stack_frame 1))

  pub pair-IsSafe :
      (trans : InoutTransaction) (s : State)
      → IsDevice s own es
      → IsRequest trans.tx_buf trans.tx_buf_len
      → IsRequest trans.rx_buf trans.rx_buf_len
      → SafePair trans s
      → Traced (own ++ es) s
      → Ends (Traced (own ++ es)) (axidma_rw_transfer k trans s)
  unfolding axidma_rw_transfer
  pair-IsSafe trans s d (tx_pos, tx_small) (rx_pos, rx_small) safe h =
      Ends.continue_at h (require_chan-Found s is_write trans.tx_channel_id)
        λ tx s1 (same1, tx_found, _). rw same1 (
          Ends.continue_at h (require_chan-Found s is_read trans.rx_channel_id)
            λ rx s2 (same2, rx_found, _). rw same2 (
              Ends.continue_at h
                (init_sg_entry-Entry s own es d trans.tx_buf trans.tx_buf_len _ []
                  (tx_pos, tx_small))
                λ tx_sg s3 (same3, a, tx_filled, tx_in).
                  rw (same3, tx_filled)
                    (Ends.continue_at h
                      (init_sg_entry-Entry s own es d trans.rx_buf trans.rx_buf_len _ []
                        (rx_pos, rx_small))
                      λ rx_sg s4 (same4, b, rx_filled, rx_in).
                        let (tx_safe, rx_safe) = safe tx rx a b tx_found rx_found tx_in rx_in in
                        rw (same4, rx_filled) (run_both-IsSafe tx _ rx _ s tx_safe rx_safe h))))

  -- Where the lists of buffers stand for regions that do not wrap, and every range that the driver
  -- has handed to the engine lies in one of them, a two-way transfer keeps it so, also if it fails,
  -- if its two requests are not empty and do not wrap and both its channels are plain DMA channels.
  pub rw_transfer-IsSafe :
      (trans : InoutTransaction) (s : State)
      → IsDevice s own es
      → IsRequest trans.tx_buf trans.tx_buf_len
      → IsRequest trans.rx_buf trans.rx_buf_len
      → IsPlain s trans.tx_channel_id
      → IsPlain s trans.rx_channel_id
      → Traced (own ++ es) s
      → Ends (Traced (own ++ es)) (axidma_rw_transfer k trans s)
  rw_transfer-IsSafe trans s d tx_request rx_request tx_plain rx_plain h =
      pair-IsSafe trans s d tx_request rx_request
        (λ tx rx a b tx_found rx_found tx_in rx_in. (
          plain-SafeTransfer s.dev tx false trans.tx_channel_id _ _ (tx_plain tx tx_found) tx_in,
          plain-SafeTransfer s.dev rx trans.wait trans.rx_channel_id _ _ (rx_plain rx rx_found)
              rx_in,
        ))
        h
