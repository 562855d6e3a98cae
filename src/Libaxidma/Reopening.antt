-- ===== src/Libaxidma/Reopening.antt =====
-- The library cannot be opened a second time: the lengths of its arrays are never reset.
use axidma_driver.Common.{
  ℕ, suc, ◌-◌, ◌*◌, ◌≤◌, ◌<◌, ◌≡◌, ◌≢◌, ◌∙◌, ap, true, false, some, List, ◌∷◌, arith, length,
  le→ltb,
}
use axidma_driver.Types.{AxidmaDevice, AxidmaChan, word_mod}
use axidma_driver.DeviceTree.{Kind, dma_tx, dma_rx, vdma_tx, vdma_rx}
use axidma_driver.DeviceTree.Counts.{IsParsed}
use axidma_driver.Dma.Control.{axidma_get_num_channels, axidma_get_channel_info}
use axidma_driver.Libaxidma.Calls.{Call}
use axidma_driver.Libaxidma.Process.{Os, Process, abort, out_of_bounds, ◌>>◌}
use axidma_driver.Libaxidma.Channels.{
  kind_of, categorize_channels, place_channels, place_found, place_kind, append_id,
}
use axidma_driver.Libaxidma.Session.{axidma_destroy, close}
use axidma_driver.Libaxidma.Sorting.{HasKind, IsSorted}
use axidma_driver.Libaxidma.Discovery.{
  number, after_arrays, after_arrays-Allocated, alloc_arrays_runs, number-counter, length-ids,
  rounds_lem, count-le-length,
}

-- The first channel does not fit behind the ids that are there.
place_channels_overruns :
    (n : ℕ) (c : AxidmaChan) (cs : List AxidmaChan) (k : Kind) (p : Process)
    → kind_of c.dir c.type ≡ some k
    → length (p.dev.arrays k).cells ≤ (p.dev.arrays k).len
    → place_channels (suc n) 0 (c ∷ cs) p ≡ abort out_of_bounds p
unfolding place_channels place_found place_kind append_id
place_channels_overruns n c cs k p known full =
    rw (known, le→ltb (p.dev.arrays k).len (length (p.dev.arrays k).cells) full)

module _ (os : Os) (memory : (calls : List Call) (size : ℕ) → os.malloc calls size ≢ 0) where
  categorize_channels_overruns :
      (device : AxidmaDevice) (c : AxidmaChan) (cs : List AxidmaChan) (p : Process)
      → IsParsed device
      → length device.channels ≡ device.num_chans
      → device.channels ≡ c ∷ cs
      → HasKind c
      → device.num_chans * 20 < word_mod
      → IsSorted device.channels p.dev
      → (p' : Process) × (categorize_channels os
            (axidma_get_channel_info device)
            (axidma_get_num_channels device)
            p
          ≡ abort out_of_bounds p')
  unfolding categorize_channels axidma_get_channel_info axidma_get_num_channels
  categorize_channels_overruns device c cs p parsed whole list (k, known) small sorted =
      let n = axidma_get_num_channels device in
      let p1 = after_arrays os n p in
      let d1 = record p1.dev { num_channels = device.num_chans } in
      let p2 = record p1 { dev = d1 } in
      let of_kind = λ (kind : Kind). number-counter kind device ∙ parsed.counted kind in
      let below : (kind : Kind) → number kind n ≤ device.num_chans =
        λ kind. omega (arith, of_kind kind, count-le-length kind device.channels, whole) in
      let a = after_arrays-Allocated os n p small below in
      let full : length (d1.arrays k).cells ≤ (d1.arrays k).len =
        omega (arith, a.room k, a.lens k, sorted.lens k, of_kind k, length-ids k device.channels) in
      let some_left : device.num_chans ≡ suc (device.num_chans - 1) =
        omega (arith, whole, ap length list) in
      let full_run : place_channels device.num_chans 0 device.channels p2 ≡ abort out_of_bounds p2 =
        ap (λ m. place_channels m 0 device.channels p2) some_left
        ∙ ap (λ xs. place_channels (suc (device.num_chans - 1)) 0 xs p2) list
        ∙ place_channels_overruns (device.num_chans - 1) c cs k p2 known full in
      (
        p2,
        rw (alloc_arrays_runs os memory n p, rounds_lem device.num_chans (omega arith), full_run),
      )

  -- After the library has been closed, its next set-up over the same driver writes beyond the end of
  -- an array, if the driver has a channel: the first id is stored behind those of the last time, in
  -- an array that is as long as before.
  pub reopening_overruns :
      (device : AxidmaDevice) (c : AxidmaChan) (cs : List AxidmaChan) (p : Process)
      → IsParsed device
      → length device.channels ≡ device.num_chans
      → device.channels ≡ c ∷ cs
      → HasKind c
      → device.num_chans * 20 < word_mod
      → IsSorted device.channels p.dev
      → ((calls : List Call) (fd : ℕ) → os.close calls fd ≡ true)
      → (p' : Process) × ((axidma_destroy os
              >> categorize_channels os
                  (axidma_get_channel_info device)
                  (axidma_get_num_channels device))
            p
          ≡ abort out_of_bounds p')
  unfolding axidma_destroy close
  reopening_overruns device c cs p parsed whole list kind small sorted closes =
      let freed =
        Call.free p.dev.channels_ptr
        ∷ Call.free (p.dev.arrays dma_tx).ptr
        ∷ Call.free (p.dev.arrays dma_rx).ptr
        ∷ Call.free (p.dev.arrays vdma_tx).ptr
        ∷ Call.free (p.dev.arrays vdma_rx).ptr
        ∷ p.calls in
      let closed : Process = record {
        calls = Call.close p.dev.fd true ∷ freed;
        dev = record p.dev { initialized = false };
      } in
      let (p', run) =
        categorize_channels_overruns device c cs closed parsed whole list kind small
          (record { lens = sorted.lens; stored = sorted.stored; mirrored = sorted.mirrored }) in
      (p', rw (closes freed p.dev.fd) run)
