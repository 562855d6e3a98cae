-- ===== src/Libaxidma/Allocation.antt =====
-- What the library allocates it frees, on every error of the query.
use axidma_driver.Common.{
  ℕ, ◌+◌, ◌*◌, ◌%◌, ◌==◌, ◌≡◌, ◌≢◌, refl, sym, inl, inr, List, [], ◌∷◌, arith, ==_ne, ==_iff,
  Option-cases, Bool-cases, Option-cases,
}
use axidma_driver.Types.{AxidmaChan, NumChannels, Errno, enomem, word_mod}
use axidma_driver.DeviceTree.{Kind, dma_tx, dma_rx, vdma_tx, vdma_rx}
use axidma_driver.Dma.Control.{rounds}
use axidma_driver.Chrdev.Ioctl.{sizeof_chan}
use axidma_driver.Libaxidma.Calls.{Call, Request}
use axidma_driver.Libaxidma.Process.{
  Os, fail, Process, Result, P, and_then, note, ◌>>◌, malloc, ioctl,
}
use axidma_driver.Libaxidma.Channels.{
  free_all, alloc_ids, alloc_channels, alloc_arrays, categorize_channels, query_channels,
  probe_counted, probe_channels,
}
use axidma_driver.Libaxidma.Discovery.{after_ids, after_channels}
use axidma_driver.Libaxidma.Memory.{
  Fate, returns, fails, aborts, then_on, followed, here, Owns, Holds, Keeps, Never, Keeps-Holds,
  place_channels-Keeps,
}

-- How often the pointer is one of these.
abbrev among : ℕ → List ℕ → ℕ
among ptr [] = 0
among ptr (p ∷ ps) = here ptr p + among ptr ps

free_all-then :
    {A : Type 0} (ptrs : List ℕ) (e : Errno) (ptr n : ℕ) (p0 p : Process)
    → Owns ptr (among ptr ptrs + n) p0 p
    → Fate {A = A} (λ _. Never) (Owns ptr n p0) ((free_all ptrs >> fail e) p)
free_all-then [] e ptr n p0 p h = fails (omega (arith, h))
free_all-then (q ∷ ptrs) e ptr n p0 p h =
    free_all-then ptrs e ptr n p0 (note (Call.free q) p) (omega (arith, h))

here_zero : (ptr : ℕ) → ptr ≢ 0 → here ptr 0 ≡ 0
here_zero ptr h = rw (==_ne 0 ptr (λ e. h (sym e)))

weaken :
    (ptr : ℕ) (p0 p : Process) {o : Result (Unit {0})}
    → Holds ptr p0 p
    → Fate (λ _. Keeps p) Never o
    → Fate (λ _. Holds ptr p0) (Owns ptr 0 p0) o
weaken ptr p0 p h (returns {p = p'} k) = returns (Keeps-Holds ptr p0 p p' k h)
weaken ptr p0 p h (fails n) = absurd n
weaken ptr p0 p h aborts = aborts

-- A continuation of an allocation: after an error nothing that was allocated is left.
module _ (os : Os) (ptr : ℕ) (nonzero : ptr ≢ 0) {B : Type 0} {Q : B → Process → Type 0} where
  alloc_ids-then :
      (kind : Kind) (n : ℕ) (ptrs : List ℕ) (f : ℕ → P B) (p0 p : Process)
      → Owns ptr (among ptr ptrs) p0 p
      → (Owns ptr
            (here ptr (os.malloc p.calls (n * 4 % word_mod)) + among ptr ptrs)
            p0
            (after_ids os kind n p)
          → Fate Q
              (Owns ptr 0 p0)
              (f (os.malloc p.calls (n * 4 % word_mod)) (after_ids os kind n p)))
      → Fate Q (Owns ptr 0 p0) (and_then (alloc_ids os kind n ptrs p) f)
  unfolding alloc_ids malloc
  alloc_ids-then kind n ptrs f p0 p h next =
      let a = os.malloc p.calls (n * 4 % word_mod) in
      elim (Bool-cases (a == 0)) [
        | inl y ↦
            let e : a ≡ 0 = (==_iff a 0).0 y in
            let z = here_zero ptr nonzero in
            rw (y, e)
              (then_on (free_all-then ptrs enomem ptr 0 p0 _ (omega (arith, h, z))) (λ _ _. absurd))
        | inr k ↦ rw k (next (omega (arith, h)))
      ]

  alloc_channels-then :
      (n : ℕ) (f : ℕ → P B) (p0 p : Process)
      → Owns ptr 0 p0 p
      → (Owns ptr (here ptr (os.malloc p.calls (n * 20 % word_mod))) p0 (after_channels os n p)
          → Fate Q
              (Owns ptr 0 p0)
              (f (os.malloc p.calls (n * 20 % word_mod)) (after_channels os n p)))
      → Fate Q (Owns ptr 0 p0) (and_then (alloc_channels os n p) f)
  unfolding alloc_channels malloc
  alloc_channels-then n f p0 p h next =
      let a = os.malloc p.calls (n * 20 % word_mod) in
      let z = here_zero ptr nonzero in
      elim (Bool-cases (a == 0)) [
        | inl y ↦ let e : a ≡ 0 = (==_iff a 0).0 y in rw (y, e) (fails (omega (arith, h, z)))
        | inr k ↦ rw k (next (omega (arith, h)))
      ]

module _ (os : Os) (ptr : ℕ) (nonzero : ptr ≢ 0) where
  alloc_arrays-Fate :
      (n : NumChannels) (p0 p : Process)
      → Owns ptr 0 p0 p
      → Fate (λ _. Holds ptr p0) (Owns ptr 0 p0) (alloc_arrays os n p)
  unfolding alloc_arrays
  alloc_arrays-Fate n p0 p h =
      let c = n.num_channels in
      alloc_channels-then os ptr nonzero c _ p0 p h λ h1.
        alloc_ids-then os ptr nonzero dma_tx _ _ _ p0 _ (omega (arith, h1)) λ h2.
          alloc_ids-then os ptr nonzero dma_rx _ _ _ p0 _ (omega (arith, h2)) λ h3.
            alloc_ids-then os ptr nonzero vdma_tx _ _ _ p0 _ (omega (arith, h3)) λ h4.
              alloc_ids-then os ptr nonzero vdma_rx _ _ _ p0 _ (omega (arith, h4))
                λ h5. returns (omega (arith, h5))

  categorize_channels-Fate :
      (channels : List AxidmaChan) (n : NumChannels) (p0 p : Process)
      → Owns ptr 0 p0 p
      → Fate (λ _. Holds ptr p0) (Owns ptr 0 p0) (categorize_channels os channels n p)
  unfolding categorize_channels
  categorize_channels-Fate channels n p0 p h = then_on (alloc_arrays-Fate n p0 p h) (λ _ p1 h1.
      weaken ptr p0 p1 h1
        (place_channels-Keeps (rounds n.num_channels) 0 channels p1 _ (refl, refl, λ kind. refl)))

  query_channels-Fate :
      (at : ℕ) (n : NumChannels) (p0 p : Process)
      → Owns ptr 0 p0 p
      → Fate (λ _. Holds ptr p0) (Owns ptr 0 p0) (query_channels os at n p)
  unfolding query_channels ioctl
  query_channels-Fate at n p0 p h =
      elim (Option-cases (os.ioctl p.calls p.dev.fd (Request.get_channels at))) [
        | inl y ↦ rw y (categorize_channels-Fate _ n p0 _ (omega (arith, h)))
        | inr (e, y) ↦ rw y (fails (omega (arith, h)))
      ]

  probe_counted-Fate :
      (n : NumChannels) (p0 p : Process)
      → Owns ptr 0 p0 p
      → Fate (λ _. Holds ptr p0) (Owns ptr 0 p0) (probe_counted os n p)
  unfolding probe_counted malloc
  probe_counted-Fate n p0 p h =
      let a = os.malloc p.calls (n.num_channels * sizeof_chan % word_mod) in
      let p1 = note (Call.malloc (n.num_channels * sizeof_chan % word_mod) a) p in
      let z = here_zero ptr nonzero in
      elim (Bool-cases (n.num_channels == 0)) [
        | inl y ↦ rw y (fails h)
        | inr k ↦ elim (Bool-cases (a == 0)) [
          | inl y ↦ let e : a ≡ 0 = (==_iff a 0).0 y in rw (k, y, e) (fails (omega (arith, h, z)))
          | inr y ↦
              rw (k, y)
                (followed (Call.free a) (query_channels-Fate a n p1 p1 (omega arith))
                  (λ _ p2 h2. omega (arith, h, h2)) (λ p2 h2. omega (arith, h, h2)))
        ]
      ]

  -- Whatever the allocations and the requests answer: an error frees what was allocated.
  pub probe_channels-Fate :
      (p : Process) → Fate (λ _. Holds ptr p) (Owns ptr 0 p) (probe_channels os p)
  unfolding probe_channels ioctl
  probe_channels-Fate p = elim (Option-cases (os.ioctl p.calls p.dev.fd Request.get_num_channels)) [
    | inl y ↦ rw y (probe_counted-Fate _ p _ (omega arith))
    | inr (e, y) ↦ rw y (fails (omega arith))
  ]
