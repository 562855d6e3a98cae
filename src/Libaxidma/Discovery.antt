-- ===== src/Libaxidma/Discovery.antt =====
-- What the driver found in the device tree is what the library knows after its set-up.
use axidma_driver.Common.{
  ℕ, ◌*◌, ◌/◌, ◌%◌, ◌^◌, ◌≤◌, ◌<◌, ◌≡◌, ◌≢◌, ◌∙◌, refl, sym, ap, inl, inr, List, [], ◌∷◌, arith,
  length, All, length-replicate, ==_ne, lt→ltb, take-length, Bool-cases, map, replicate,
}
use axidma_driver.Types.{AxidmaDevice, AxidmaChan, NumChannels, word_mod}
use axidma_driver.DeviceTree.{Kind, dma_tx, dma_rx, vdma_tx, vdma_rx}
use axidma_driver.DeviceTree.Counters.{is_kind, counter, count}
use axidma_driver.DeviceTree.Counts.{IsParsed}
use axidma_driver.Dma.Control.{axidma_get_num_channels, axidma_get_channel_info, rounds}
use axidma_driver.Libaxidma.Process.{Os, Process, set_array, AxidmaDev, ok, malloc}
use axidma_driver.Libaxidma.Calls.{Call}
use axidma_driver.Libaxidma.Channels.{
  channel_of, alloc_ids, alloc_channels, alloc_arrays, categorize_channels,
}
use axidma_driver.Libaxidma.Sorting.{ids, HasKind, IsSorted, Placed, place_channels-Placed}

pub length-ids : (kind : Kind) (cs : List AxidmaChan) → length (ids kind cs) ≡ count kind cs
length-ids kind [] = refl
length-ids kind (c ∷ cs) = elim (Bool-cases (is_kind kind c)) [
  | inl y ↦ rw y (omega (arith, length-ids kind cs))
  | inr n ↦ rw n (omega (arith, length-ids kind cs))
]

pub count-le-length : (kind : Kind) (cs : List AxidmaChan) → count kind cs ≤ length cs
count-le-length kind [] = omega arith
count-le-length kind (c ∷ cs) = elim (Bool-cases (is_kind kind c)) [
  | inl y ↦ rw y (omega (arith, count-le-length kind cs))
  | inr n ↦ rw n (omega (arith, count-le-length kind cs))
]

-- The number of a kind in the driver's answer.
abbrev pub number : Kind → NumChannels → ℕ
number dma_tx n = n.num_dma_tx_channels
number dma_rx n = n.num_dma_rx_channels
number vdma_tx n = n.num_vdma_tx_channels
number vdma_rx n = n.num_vdma_rx_channels

-- Every kind has as many cells as the driver says, and no length has changed.
pub record Allocated (n : NumChannels) (d0 d : AxidmaDev) : Type 0 where
  pub room : (kind : Kind) → length (d.arrays kind).cells ≡ number kind n
  pub lens : (kind : Kind) → (d.arrays kind).len ≡ (d0.arrays kind).len
  pub whole : length d.channels ≡ n.num_channels

cells_lem : (n : ℕ) → n * 4 < word_mod → n * 4 % word_mod / 4 ≡ n
cells_lem n h = omega arith

entries_lem : (n : ℕ) → n * 20 < word_mod → n * 20 % word_mod / 20 ≡ n
entries_lem n h = omega arith

pub number-counter :
    (kind : Kind) (device : AxidmaDevice)
    → number kind (axidma_get_num_channels device) ≡ counter kind device
unfolding axidma_get_num_channels
number-counter dma_tx device = refl
number-counter dma_rx device = refl
number-counter vdma_tx device = refl
number-counter vdma_rx device = refl

pub rounds_lem : (n : ℕ) → n < 2 ^ 31 → rounds n ≡ n
rounds_lem n h = rw (lt→ltb n (2 ^ 31) h)

-- Before the first round nothing has been placed.
start-Placed :
    (channels : List AxidmaChan) (d : AxidmaDev)
    → ((kind : Kind) → (d.arrays kind).len ≡ 0)
    → Placed channels 0 d d
start-Placed channels d empty = record {
  arrays = λ kind. record { len = empty kind; stored = rw (empty kind); room = refl; ptr = refl };
  mirrored = refl;
  whole = refl;
  fd = refl;
  initialized = refl;
  channels_ptr = refl;
  num_channels = refl;
}

Placed-IsSorted :
    (channels : List AxidmaChan) (d0 d : AxidmaDev)
    → length channels ≡ length d0.channels
    → Placed channels (length channels) d0 d
    → IsSorted channels d
Placed-IsSorted channels d0 d whole h =
    let all = take-length channels (length channels) refl in
    record {
      lens = λ kind. (h.arrays kind).len ∙ ap (λ cs. length (ids kind cs)) all;
      stored = λ kind. (h.arrays kind).stored ∙ ap (ids kind) all;
      mirrored =
          sym (take-length d.channels (length channels) (h.whole ∙ sym whole))
          ∙ h.mirrored
          ∙ ap (map channel_of) all;
    }

module _ (os : Os) where
  -- The process after the memory for a kind has been allocated.
  abbrev pub after_ids : Kind → (n : ℕ) → Process → Process
  after_ids kind n p =
      let size = n * 4 % word_mod in
      let ptr = os.malloc p.calls size in
      record p {
        calls = Call.malloc size ptr ∷ p.calls;
        dev =
            set_array kind
              (record (p.dev.arrays kind) { ptr = ptr; cells = replicate (size / 4) os.fresh_cell })
              p.dev;
      }

  abbrev pub after_channels : (n : ℕ) → Process → Process
  after_channels n p =
      let size = n * 20 % word_mod in
      let ptr = os.malloc p.calls size in
      record p {
        calls = Call.malloc size ptr ∷ p.calls;
        dev = record p.dev {
          channels_ptr = ptr;
          channels = replicate (size / 20) os.fresh_channel;
        };
      }

  abbrev pub after_arrays : NumChannels → Process → Process
  after_arrays n p = after_ids vdma_rx n.num_vdma_rx_channels (
      after_ids vdma_tx n.num_vdma_tx_channels (
        after_ids dma_rx n.num_dma_rx_channels
          (after_ids dma_tx n.num_dma_tx_channels (after_channels n.num_channels p))))

  pub after_arrays-Allocated :
      (n : NumChannels) (p : Process)
      → n.num_channels * 20 < word_mod
      → ((kind : Kind) → number kind n ≤ n.num_channels)
      → Allocated n p.dev (after_arrays n p).dev
  after_arrays-Allocated n p small below = record {
    room = cells;
    lens = lens;
    whole = length-replicate _ os.fresh_channel ∙ entries_lem n.num_channels small;
  }
    where
      cells : (kind : Kind) → length ((after_arrays n p).dev.arrays kind).cells ≡ number kind n
      cells dma_tx = length-replicate _ os.fresh_cell ∙ cells_lem _ (omega (arith, below dma_tx))
      cells dma_rx = length-replicate _ os.fresh_cell ∙ cells_lem _ (omega (arith, below dma_rx))
      cells vdma_tx = length-replicate _ os.fresh_cell ∙ cells_lem _ (omega (arith, below vdma_tx))
      cells vdma_rx = length-replicate _ os.fresh_cell ∙ cells_lem _ (omega (arith, below vdma_rx))

      lens : (kind : Kind) → ((after_arrays n p).dev.arrays kind).len ≡ (p.dev.arrays kind).len
      lens dma_tx = refl
      lens dma_rx = refl
      lens vdma_tx = refl
      lens vdma_rx = refl

module _ (os : Os) (memory : (calls : List Call) (size : ℕ) → os.malloc calls size ≢ 0) where
  alloc_ids_runs :
      (kind : Kind) (n : ℕ) (allocated : List ℕ) (p : Process)
      → alloc_ids os kind n allocated p
        ≡ ok (os.malloc p.calls (n * 4 % word_mod)) (after_ids os kind n p)
  unfolding alloc_ids malloc
  alloc_ids_runs kind n allocated p =
      rw (==_ne (os.malloc p.calls (n * 4 % word_mod)) 0 (memory p.calls (n * 4 % word_mod)))

  alloc_channels_runs :
      (n : ℕ) (p : Process)
      → alloc_channels os n p ≡ ok (os.malloc p.calls (n * 20 % word_mod)) (after_channels os n p)
  unfolding alloc_channels malloc
  alloc_channels_runs n p =
      rw (==_ne (os.malloc p.calls (n * 20 % word_mod)) 0 (memory p.calls (n * 20 % word_mod)))

  pub alloc_arrays_runs :
      (n : NumChannels) (p : Process) → alloc_arrays os n p ≡ ok tt (after_arrays os n p)
  unfolding alloc_arrays
  alloc_arrays_runs n p =
      rw (alloc_channels_runs, alloc_ids_runs, alloc_ids_runs, alloc_ids_runs, alloc_ids_runs)

  -- What the driver found, the library sorts without a fault, if it has memory and starts with empty
  -- arrays, every channel has one of the four kinds, and the structures fit into 32 bits.
  pub categorize_channels_lem :
      (device : AxidmaDevice) (p : Process)
      → IsParsed device
      → length device.channels ≡ device.num_chans
      → All HasKind device.channels
      → device.num_chans * 20 < word_mod
      → ((kind : Kind) → (p.dev.arrays kind).len ≡ 0)
      → (p' : Process) × (categorize_channels os
            (axidma_get_channel_info device)
            (axidma_get_num_channels device)
            p
          ≡ ok tt p')
        × IsSorted device.channels p'.dev
        × (p'.dev.num_channels ≡ device.num_chans)
        × (p'.dev.fd ≡ p.dev.fd)
  unfolding categorize_channels axidma_get_channel_info axidma_get_num_channels
  categorize_channels_lem device p parsed whole kinds small empty =
      let n = axidma_get_num_channels device in
      let p1 = after_arrays os n p in
      let d1 = record p1.dev { num_channels = device.num_chans } in
      let of_kind = λ (kind : Kind). number-counter kind device ∙ parsed.counted kind in
      let below : (kind : Kind) → number kind n ≤ device.num_chans =
        λ kind. omega (arith, of_kind kind, count-le-length kind device.channels, whole) in
      let a = after_arrays-Allocated os n p small below in
      let fits : (kind : Kind) → length (ids kind device.channels) ≤ length (d1.arrays kind).cells =
        λ kind. omega (arith, a.room kind, of_kind kind, length-ids kind device.channels) in
      let (d, run, placed) =
        place_channels-Placed device.channels d1 device.num_chans 0 (record p1 { dev = d1 })
          (omega (arith, whole)) (whole ∙ sym a.whole) kinds fits
          (start-Placed device.channels d1 (λ kind. a.lens kind ∙ empty kind)) in
      (
        record p1 { dev = d },
        rw (alloc_arrays_runs, rounds_lem device.num_chans (omega arith), run),
        Placed-IsSorted device.channels d1 d (whole ∙ sym a.whole) placed,
        placed.num_channels,
        placed.fd,
      )
