-- ===== src/Setup/Release.antt =====
-- The tear-down of the engine gives every channel back.
use native.Mathlib.Nat.{add-zero}
use axidma_driver.Common.{
  get_elem?-lt, ℕ, zero, suc, ◌+◌, ◌≤◌, ◌≡◌, ◌∙◌, refl, sym, ap, arith, length, take, take-length,
}
use axidma_driver.Kernel.{Kernel, Event, State, ok, log, dmaengine_terminate_all}
use axidma_driver.Setup.Channels.{exit_found, exit_rounds, axidma_dma_exit}
use axidma_driver.Setup.Reserve.{here, released, uses, uses-take, GaveBack, IsReserved, Returned}

exit_rounds-GaveBack :
    (k : Kernel) (chan n i : ℕ) (s : State)
    → i + n ≤ length s.dev.channels
    → (s' : State) × (exit_rounds k n i s ≡ ok tt s')
      × (s'.dev ≡ s.dev)
      × GaveBack chan i (i + n) s s'
unfolding exit_rounds exit_found dmaengine_terminate_all
exit_rounds-GaveBack k chan zero i s h =
    (s, refl, refl, record { same = refl; back = rw add-zero refl })
exit_rounds-GaveBack k chan (suc n) i s h =
    let (c, there) = get_elem?-lt s.dev.channels i (omega arith) in
    let stopped = log (Event.terminate_all c.chan (k.terminate_all s.trace c.chan)) s in
    let s1 = log (Event.dma_release_channel c.chan) stopped in
    let (s', run, kept, g) = exit_rounds-GaveBack k chan n (i + 1) s1 (omega arith) in
    let e : i + 1 ≡ suc i = omega arith in
    let e' : i + suc n ≡ i + 1 + n = omega arith in
    let given : released chan s'.trace + uses chan (take (suc i) s.dev.channels)
        ≡ here chan c.chan + released chan s.trace + uses chan (take (i + 1 + n) s.dev.channels) =
      rw (sym e) g.back in
    (
      s',
      rw there run,
      kept,
      record {
        same = g.same;
        back = rw e' (omega (arith, given, uses-take chan s.dev.channels i c there));
      },
    )

-- After a reservation of all channels, the tear-down has no fault, if the array has `num_chans`
-- entries. It gives every channel back, so that any one channel has been given back as often as it
-- was given since, and then frees the two arrays, with the device unchanged.
pub dma_exit-Returned :
    (k : Kernel) (chan : ℕ) (s0 s : State)
    → IsReserved chan s0 s
    → length s.dev.channels ≡ s.dev.num_chans
    → (s' : State) × (axidma_dma_exit k s
        ≡ ok tt (log (Event.kfree s.dev.cb_data_ptr) (log (Event.kfree s.dev.channels_ptr) s')))
      × (s'.dev ≡ s.dev)
      × Returned chan s0 s'
unfolding axidma_dma_exit
dma_exit-Returned k chan s0 s reserved whole =
    let n = s.dev.num_chans in
    let (s', run, kept, g) = exit_rounds-GaveBack k chan n 0 s (omega (arith, whole)) in
    let start : 0 + n ≡ n = omega arith in
    let back : released chan s'.trace + 0 ≡ released chan s.trace + uses chan s.dev.channels =
      g.back
      ∙ ap (λ j. released chan s.trace + uses chan (take j s.dev.channels)) start
      ∙ ap (λ cs. released chan s.trace + uses chan cs) (take-length s.dev.channels n whole) in
    (s', rw run, kept, omega (arith, back, g.same, reserved.asked, reserved.kept))
