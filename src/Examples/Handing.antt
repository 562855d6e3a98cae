-- ===== src/Examples/Handing.antt =====
-- What the file transfer takes, it gives back.
use axidma_driver.Common.{
  ℕ, zero, suc, ◌+◌, ltb, ◌≡◌, ◌≢◌, refl, inl, inr, arith, true, Option, none, some, List,
  Bool-cases,
}
use axidma_driver.Libaxidma.Process.{Os, Process, Result, result_then, ok, err, abort}
use axidma_driver.Libaxidma.Session.{axidma_init, axidma_get_dma_tx, axidma_get_dma_rx}
use axidma_driver.Libaxidma.Requests.{axidma_free}
use axidma_driver.DeviceTree.{dma_tx, dma_rx}
use axidma_driver.Libaxidma.Memory.{Fate, returns, fails, aborts, Never, then_on, here}
use axidma_driver.Libaxidma.Closing.{branch_on, init-Holds}
use axidma_driver.Examples.Files.{Transfer, done, failed, robust_read, robust_write}
use axidma_driver.Examples.Held.{Held, malloc-Held, free-Held, twoway-Held}
use axidma_driver.Examples.Measuring.{Memory}
use axidma_driver.Examples.Releasing.{Keeps, Returns, Released, choose-Returns, destroy-Released}
use axidma_driver.Examples.Transfer.{
  TransferOptions, Host, copied, read_bytes, written, size_or, exchange, with_output_buf,
  with_input_buf, transfer_file, send_file, with_handle,
}

module _ {S : Type 0} (os : Os) (host : Host S) (memory : Memory) (ptr a : ℕ)
    (p0 p1 : Process) where
  copied-Keeps :
      (n : ℕ) (rc : Transfer ℕ) (p : Process)
      → Held os ptr a p0 p1 n p
      → Keeps os memory ptr a p0 p1 n (copied rc p)
  copied-Keeps n (done m) p h = returns h
  copied-Keeps n (failed e) p h = fails h

  written-Keeps :
      (n : ℕ) (o : Option (Transfer ℕ × S)) (p : Process)
      → Held os ptr a p0 p1 n p
      → Keeps os memory ptr a p0 p1 n (written o p)
  written-Keeps n none p h = aborts
  written-Keeps n (some (rc, s)) p h = copied-Keeps n rc p h

  read-Keeps :
      (n : ℕ) (o : Option (Transfer ℕ × List ℕ × S)) (p : Process)
      → Held os ptr a p0 p1 n p
      → Keeps os memory ptr a p0 p1 n (read_bytes o p)
  read-Keeps n none p h = aborts
  read-Keeps n (some (rc, bytes, s)) p h = then_on (copied-Keeps n rc p h) (λ _ p' h'. returns h')

  widen :
      {A : Type 0} {Q : A → Process → Type 0} {R : Process → Type 0} {o : Result A}
      → Fate Q Never o
      → Fate Q R o
  widen (returns q) = returns q
  widen (fails r) = elim r [ ]
  widen aborts = aborts

  -- A buffer is unmapped after a return and after an error.
  freed-Keeps :
      {A : Type 0} (n addr size : ℕ) (o : Result A)
      → Keeps os memory ptr a p0 p1 (here a addr + n) o
      → Keeps os memory ptr a p0 p1 n (result_then o (axidma_free os addr size))
  freed-Keeps n addr size (ok x p) (returns h) =
      then_on (widen (free-Held os ptr a p0 p1 n addr size p h)) (λ _ p' h'. returns h')
  freed-Keeps n addr size (err e p) (fails h) =
      then_on (widen (free-Held os ptr a p0 p1 n addr size p h)) (λ _ p' h'. fails h')
  freed-Keeps n addr size (abort x p) aborts = aborts

  exchange-Keeps :
      (n input_channel input_buf input_size output_channel output_buf output_size : ℕ)
      (sent : List ℕ) (p : Process)
      → Held os ptr a p0 p1 n p
      → Keeps os memory ptr a p0 p1 n (
          exchange os host memory input_channel input_buf input_size output_channel output_buf
            output_size sent p)
  unfolding exchange
  exchange-Keeps n input_channel input_buf input_size output_channel output_buf output_size sent p
        h =
      then_on
        (twoway-Held os ptr a p0 p1 n input_channel input_buf input_size none output_channel
          output_buf output_size none true p h)
        (λ _ p' h'.
          let left = memory.transferred p'.calls sent (memory.mapped p'.calls output_buf) in
          written-Keeps n
            (robust_write host.file (output_size + 1) left.1 output_size (host.content p'.calls)) p'
            h')

  with_output_buf-Keeps :
      (n input_channel input_buf input_size output_channel output_buf output_size : ℕ)
      (sent : List ℕ) (p : Process)
      → a ≢ 0
      → Held os ptr a p0 p1 (here a output_buf + n) p
      → Keeps os memory ptr a p0 p1 n (
          with_output_buf os host memory input_channel input_buf input_size output_channel
            output_buf output_size sent p)
  unfolding with_output_buf
  with_output_buf-Keeps n input_channel input_buf input_size output_channel zero output_size sent p
        nonzero (h, m) =
      fails (h, ground (arith, m, nonzero))
  with_output_buf-Keeps n input_channel input_buf input_size output_channel (suc k) output_size sent
        p nonzero h =
      freed-Keeps n (suc k) output_size _ (
        exchange-Keeps (here a (suc k) + n) input_channel input_buf input_size output_channel
          (suc k) output_size sent p h)

  with_input_buf-Keeps :
      (n input_channel input_buf input_size output_channel output_size : ℕ) (p : Process)
      → a ≢ 0
      → Held os ptr a p0 p1 (here a input_buf + n) p
      → Keeps os memory ptr a p0 p1 n (
          with_input_buf os host memory input_channel input_buf input_size output_channel
            output_size p)
  unfolding with_input_buf
  with_input_buf-Keeps n input_channel zero input_size output_channel output_size p nonzero (h, m) =
      fails (h, ground (arith, m, nonzero))
  with_input_buf-Keeps n input_channel (suc k) input_size output_channel output_size p nonzero h =
      let m = here a (suc k) + n in
      freed-Keeps n (suc k) input_size _ (
        then_on
          (read-Keeps m
            (robust_read host.file (input_size + 1) (memory.mapped p.calls (suc k)) input_size
              (host.content p.calls))
            p h)
          (λ sent p' h'.
            then_on (widen (malloc-Held os ptr a p0 p1 m output_size p' h')) (λ addr p'' h''.
              with_output_buf-Keeps m input_channel (suc k) input_size output_channel addr
                output_size sent p'' nonzero h'')))

  transfer_file-Keeps :
      (n input_channel input_size output_channel output_size : ℕ) (p : Process)
      → a ≢ 0
      → Held os ptr a p0 p1 n p
      → Keeps os memory ptr a p0 p1 n
          (transfer_file os host memory input_channel input_size output_channel output_size p)
  unfolding transfer_file
  transfer_file-Keeps n input_channel input_size output_channel output_size p nonzero h =
      then_on (widen (malloc-Held os ptr a p0 p1 n input_size p h)) (λ addr p' h'.
        with_input_buf-Keeps n input_channel addr input_size output_channel output_size p' nonzero
          h')

  send_file-Returns :
      (n : ℕ) (o : TransferOptions) (size : Option ℕ) (p : Process)
      → a ≢ 0
      → Held os ptr a p0 p1 n p
      → Returns os memory ptr a p0 p1 n (send_file os host memory o size p)
  unfolding send_file axidma_get_dma_tx axidma_get_dma_rx
  send_file-Returns n o none p nonzero h = returns h
  send_file-Returns n o (some size) p nonzero h =
      let tx_chans = p.dev.arrays dma_tx in
      let rx_chans = p.dev.arrays dma_rx in
      elim (Bool-cases (ltb tx_chans.len 1)) [
        | inl y ↦ rw y (returns h)
        | inr k ↦ elim (Bool-cases (ltb rx_chans.len 1)) [
          | inl y' ↦ rw (k, y') (returns h)
          | inr k' ↦
              rw (k, k')
                (choose-Returns os memory ptr a p0 p1 n o.input_channel o.output_channel tx_chans
                  rx_chans p _
                  (λ c.
                    branch_on
                      (transfer_file-Keeps n c.0 size c.1 (size_or o.output_size size) p nonzero h)
                      (λ _ p' h'. returns h') (λ e p' h'. returns h')))
        ]
      ]

-- With a handle of the library, the transfer of a file, wherever it fails, comes to its end with the
-- descriptor that the library opened closed once, all memory freed that the library allocated, and both buffers unmapped; unless an
-- assertion of the library fails, or a copy does not end. `a` is any address, and `ptr` any pointer.
pub with_handle-Released :
    {S : Type 0} (os : Os) (host : Host S) (memory : Memory) (o : TransferOptions) (ptr a : ℕ)
    (p p1 : Process)
    → ptr ≢ 0
    → a ≢ 0
    → axidma_init os p ≡ ok true p1
    → Fate (λ _. Released os memory ptr a p p1) Never (with_handle os host memory o true p1)
unfolding with_handle
with_handle-Released os host memory o ptr a p p1 nonzero nonzero' e =
    then_on
      (send_file-Returns os host memory ptr a p p1 0 o (host.fstat p1.calls) p1 nonzero'
        ((init-Holds os ptr p p1 nonzero e, refl, refl), omega arith))
      (λ rc p' h'. then_on (destroy-Released os memory ptr a p p1 p' h') (λ _ p'' h''. returns h''))
