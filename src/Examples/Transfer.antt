-- ===== src/Examples/Transfer.antt =====
-- examples/axidma_transfer.c, after its options are parsed: a file is sent, and what comes back is
-- written to another. The two files are those of the robust copies, and what `fstat` tells, what mapped
-- memory holds, and what a transfer leaves there, are parameters. Bytes are cells.
use axidma_driver.Common.{
  ℕ, zero, suc, ◌+◌, ◌-◌, ◌==◌, ltb, Bool, true, false, Option, none, some, List, if◌then◌else◌,
}
use axidma_driver.Types.{word_mod, enodev, enomem, code}
use axidma_driver.Libaxidma.Calls.{Call}
use axidma_driver.Libaxidma.Process.{
  Os, P, unfinished, ok, pure, fail, die, ◌>>=◌, ◌>>◌, on_result, followed_by, note, assert,
}
use axidma_driver.Libaxidma.Session.{
  axidma_init, axidma_destroy, axidma_get_dma_tx, axidma_get_dma_rx, close,
}
use axidma_driver.Libaxidma.Requests.{axidma_malloc, axidma_free, axidma_twoway_transfer}
use axidma_driver.Examples.Files.{File, Transfer, done, failed, robust_read, robust_write}
use axidma_driver.Examples.Measuring.{
  Memory, Exit, success, failure, negative, positive, get_calls, choose_channels,
}

-- What `parse_args` sets. A channel or a size that is not given is -1.
pub record TransferOptions : Type 0 where
  pub input_channel : ℕ
  pub output_channel : ℕ
  pub output_size : ℕ

-- What the kernel answers on the two files; `none` is an error.
pub record Host (S : Type 0) : Type 0 where
  pub open_file : List Call → (output : Bool) → Option ℕ
  pub fstat : List Call → Option ℕ
  pub file : File S
  pub content : List Call → S

-- The number that a copy returns: a negative one is an error.
abbrev pub copied : Transfer ℕ → P (Unit {0})
copied (done m) = pure tt
copied (failed e) = fail (code e)

-- A copy with the buffer that it leaves.
abbrev pub read_bytes : {S : Type 0} → Option (Transfer ℕ × List ℕ × S) → P (List ℕ)
read_bytes none = die unfinished
read_bytes (some (rc, bytes, s)) = do copied rc; pure bytes

abbrev pub written : {S : Type 0} → Option (Transfer ℕ × S) → P (Unit {0})
written none = die unfinished
written (some (rc, s)) = copied rc

-- `rc = (rc < 0) ? -rc : 0`.
abbrev pub without_sign : P (Unit {0}) → P Exit
without_sign m = on_result m (λ _. pure success) (λ e. pure (positive e))

abbrev pub size_or : (output_size input_size : ℕ) → ℕ
size_or output_size input_size = if output_size == word_mod - 1 then input_size else output_size

unfoldable pub open_file : {S : Type 0} → Host S → (output : Bool) → P (Option ℕ)
open_file host output p =
    let a = host.open_file p.calls output in ok a (note (Call.open_file output a) p)

module _ {S : Type 0} (os : Os) (host : Host S) (memory : Memory) where
  -- The transfer, and the copy of what came back, with the bytes that were read.
  unfoldable pub exchange :
      (input_channel input_buf input_size output_channel output_buf output_size : ℕ) (sent : List ℕ)
      → P (Unit {0})
  exchange input_channel input_buf input_size output_channel output_buf output_size sent = do
    axidma_twoway_transfer os input_channel input_buf input_size none output_channel output_buf
        output_size none true
    calls ← get_calls
    let (_, received) = memory.transferred calls sent (memory.mapped calls output_buf)
    written (robust_write host.file (output_size + 1) received output_size (host.content calls))

  -- From the allocation of the buffer for the output to the label `free_output_buf`.
  unfoldable pub with_output_buf :
      (input_channel input_buf input_size output_channel output_buf output_size : ℕ) (sent : List ℕ)
      → P (Unit {0})
  with_output_buf input_channel input_buf input_size output_channel zero output_size sent =
      fail enomem
  with_output_buf input_channel input_buf input_size output_channel (suc n) output_size sent =
      followed_by
        (exchange input_channel input_buf input_size output_channel (suc n) output_size sent)
        (axidma_free os (suc n) output_size)

  -- The input is read, and the rest goes on with what was read, to the label `free_input_buf`.
  unfoldable pub with_input_buf :
      (input_channel input_buf input_size output_channel output_size : ℕ) → P (Unit {0})
  with_input_buf input_channel zero input_size output_channel output_size = fail enomem
  with_input_buf input_channel (suc n) input_size output_channel output_size =
      followed_by
        (do
          calls ← get_calls
          sent ← read_bytes (
              robust_read host.file (input_size + 1) (memory.mapped calls (suc n)) input_size
                (host.content calls))
          output_buf ← axidma_malloc os output_size
          with_output_buf input_channel (suc n) input_size output_channel output_buf output_size
              sent)
        (axidma_free os (suc n) input_size)

  unfoldable pub transfer_file :
      (input_channel input_size output_channel output_size : ℕ) → P (Unit {0})
  transfer_file input_channel input_size output_channel output_size = do
    input_buf ← axidma_malloc os input_size
    with_input_buf input_channel input_buf input_size output_channel output_size

  -- From `fstat` to the label `destroy_axidma`.
  unfoldable pub send_file : (o : TransferOptions) → Option ℕ → P Exit
  send_file o none = pure failure
  send_file o (some input_size) = do
    tx_chans ← axidma_get_dma_tx
    rx_chans ← axidma_get_dma_rx
    if ltb tx_chans.len 1
        then pure (negative enodev)
        else if ltb rx_chans.len 1
        then pure (negative enodev)
        else (do
          (tx, rx) ← choose_channels o.input_channel o.output_channel tx_chans rx_chans
          without_sign (transfer_file tx input_size rx (size_or o.output_size input_size)))

  unfoldable pub with_handle : (o : TransferOptions) → Bool → P Exit
  with_handle o false = pure failure
  with_handle o true = do
    calls ← get_calls
    rc ← send_file o (host.fstat calls)
    axidma_destroy os
    pure rc

  unfoldable pub with_output : (o : TransferOptions) → Option ℕ → P Exit
  with_output o none = pure (negative (code 1))
  with_output o (some fd) = do
    have ← axidma_init os
    rc ← with_handle o have
    closed ← close os fd
    assert closed
    pure rc

  unfoldable pub with_input : (o : TransferOptions) → Option ℕ → P Exit
  with_input o none = pure failure
  with_input o (some fd) = do
    output ← open_file host true
    rc ← with_output o output
    closed ← close os fd
    assert closed
    pure rc

  unfoldable pub transfer_main : (o : TransferOptions) → P Exit
  transfer_main o = open_file host false >>= with_input o
