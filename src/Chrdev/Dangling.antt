-- ===== src/Chrdev/Dangling.antt =====
-- `axidma_put_external` frees a structure that stays in the list.
use axidma_driver.Common.{ℕ, ◌≡◌, ap, none, List, [], ◌∷◌, arith, ==_refl, Any}
use axidma_driver.Types.{AxidmaDevice}
use axidma_driver.Kernel.{State, ok}
use axidma_driver.Chrdev.Memory.{put_loop, release_external, free_external, axidma_put_external}

put_loop_dangles :
    (u : ℕ) (ps : List ℕ) (s s' : State)
    → put_loop u ps s ≡ ok tt s'
    → (s'.dev ≡ s.dev) × Any (λ p. s'.exts p ≡ none) ps
unfolding put_loop release_external free_external
put_loop_dangles u [] s s' h = absurd (cc)
put_loop_dangles u (p ∷ ps) s s' h = ground (arith, put_loop_dangles u ps s s', ==_refl p)

-- A buffer that is unregistered stays in the list of the device, where its structure is freed.
pub put_external_dangles :
    (u : ℕ) (s s' : State)
    → axidma_put_external u s ≡ ok tt s'
    → (s'.dev ≡ s.dev) × Any (λ p. s'.exts p ≡ none) s'.dev.external_dmabufs
unfolding axidma_put_external
put_external_dangles u s s' h =
    let (same, any) = put_loop_dangles u s.dev.external_dmabufs s s' h in
    (same, rw (ap (λ (v : AxidmaDevice). v.external_dmabufs) same) any)
