-- ===== src/Chrdev/Cleanup.antt =====
-- A buffer that cannot be set up leaves nothing behind.
use axidma_driver.Common.{
  ℕ, ◌==◌, ◌≡◌, refl, ap, ◌∙◌, inl, inr, Option, some, List, ◌∷◌, Bool-cases,
}
use axidma_driver.Types.{AxidmaDevice, RegisterBuffer, ExternalAllocation}
use axidma_driver.Kernel.{
  Kernel, Event, State, log, kmalloc, Ret, success, failure, from_ret, update,
}
use axidma_driver.Kernel.Ends
use axidma_driver.Kernel.Ends.{Attempt, done, failed}
use axidma_driver.Kernel.Resources.{
  Resource, held, memory, shared, attached, mapped, acquire, release, release-acquire, after,
}
use axidma_driver.Chrdev.Memory.{
  dma_buf_get, dma_buf_attach, dma_buf_map_attachment, add_external, register_mapped,
  axidma_get_external, sizeof_external,
}

-- The device and its buffers are as before, and everything acquired since has been released, in the
-- reverse order.
abbrev pub Undone : State → State → Type 0
Undone s s' =
    (s'.dev ≡ s.dev) × (s'.exts ≡ s.exts) × (s'.allocs ≡ s.allocs) × (held s'.trace ≡ held s.trace)

-- The device and its buffers are those of `s`, and `h` is held.
abbrev pub Kept : State → Option (List Resource) → State → Type 0
Kept s h s' = (s'.dev ≡ s.dev) × (s'.exts ≡ s.exts) × (s'.allocs ≡ s.allocs) × (held s'.trace ≡ h)

-- The registered buffer: a live structure at the head of the list, with what it holds.
abbrev pub Registered : State → RegisterBuffer → State → Type 0
Registered s buf s' =
    (ptr : ℕ) × (a : ExternalAllocation) × (s'.dev
      ≡ record s.dev { external_dmabufs = ptr ∷ s.dev.external_dmabufs })
    × (s'.exts ≡ update s.exts ptr (some a))
    × (a.user_addr ≡ buf.user_addr)
    × (a.size ≡ buf.size)
    × (held s'.trace
        ≡ acquire (mapped a.dma_attach a.sg_table) (
            acquire (attached a.dma_buf a.dma_attach)
              (acquire (shared a.dma_buf) (acquire (memory ptr) (held s.trace)))))

module _ (s : State) (h : Option (List Resource)) (s1 : State) (kept : Kept s h s1) where
  get-Attempt :
      (fd : ℕ) (r : Ret ℕ)
      → Attempt
          (λ b. Kept s (acquire (shared b) h))
          (Kept s h)
          (from_ret r (log (Event.dma_buf_get fd r) s1))
  get-Attempt fd (success b) = done (kept.0, kept.1, kept.2, ap (acquire (shared b)) kept.3)
  get-Attempt fd (failure e) = failed kept

  attach-Attempt :
      (b : ℕ) (r : Ret ℕ)
      → Attempt
          (λ a. Kept s (acquire (attached b a) h))
          (Kept s h)
          (from_ret r (log (Event.dma_buf_attach b r) s1))
  attach-Attempt b (success a) = done (kept.0, kept.1, kept.2, ap (acquire (attached b a)) kept.3)
  attach-Attempt b (failure e) = failed kept

  map-Attempt :
      (a : ℕ) (r : Ret (ℕ × ℕ × ℕ))
      → Attempt
          (λ x. Kept s (acquire (mapped a x.0) h))
          (Kept s h)
          (from_ret r (log (Event.dma_buf_map_attachment a r) s1))
  map-Attempt a (success (t, n, d)) =
      done (kept.0, kept.1, kept.2, ap (acquire (mapped a t)) kept.3)
  map-Attempt a (failure e) = failed kept

-- The release of what was acquired last.
pub undo-Kept :
    (s : State) (r : Resource) (h : Option (List Resource)) (e : Event) (s1 : State)
    → ((g : Option (List Resource)) → after e g ≡ release r g)
    → Kept s (acquire r h) s1
    → Kept s h (log e s1)
undo-Kept s r h e s1 releases (d, x, a, t) =
    (d, x, a, releases (held s1.trace) ∙ ap (release r) t ∙ release-acquire r h)

module _ (k : Kernel) (s : State) (buf : RegisterBuffer) where
  entries-Attempt :
      (ptr b a sgt n d : ℕ) (s1 : State)
      → Kept s
          (acquire
            (mapped a sgt)
            (acquire (attached b a) (acquire (shared b) (acquire (memory ptr) (held s.trace)))))
          s1
      → Attempt
          (λ _. Registered s buf)
          (Kept s
            (acquire (attached b a) (acquire (shared b) (acquire (memory ptr) (held s.trace)))))
          (register_mapped buf ptr b a (sgt, n, d) s1)
  unfolding register_mapped add_external
  entries-Attempt ptr b a sgt n d s1 kept = elim (Bool-cases (n == 1)) [
    | inl one ↦
        let ext : ExternalAllocation = record {
          fd = buf.fd;
          dma_buf = b;
          dma_attach = a;
          size = buf.size;
          user_addr = buf.user_addr;
          sg_table = sgt;
          sg_address = d;
        } in
        rw one (
          done (
            ptr,
            ext,
            ap (λ (v : AxidmaDevice). record v { external_dmabufs = ptr ∷ v.external_dmabufs })
                kept.0,
            ap (λ (v : ℕ → Option ExternalAllocation). update v ptr (some ext)) kept.1,
            refl,
            refl,
            kept.3,
          ))
    | inr many ↦ rw many (
        failed
          (undo-Kept s (mapped a sgt) _ (Event.dma_buf_unmap_attachment a sgt) s1 (λ g. refl) kept))
  ]

  -- The registration of a buffer of another driver has no fault; it registers the buffer, or leaves
  -- nothing behind, whatever step fails.
  pub get_external-Attempt :
      Attempt (λ _. Registered s buf) (Undone s) (axidma_get_external k buf s)
  unfolding axidma_get_external kmalloc dma_buf_get dma_buf_attach dma_buf_map_attachment
  get_external-Attempt =
      let ptr = k.kmalloc s.trace sizeof_external in
      let s1 = log (Event.kmalloc sizeof_external ptr) s in
      let held1 = acquire (memory ptr) (held s.trace) in
      elim (Bool-cases (ptr == 0)) [
        | inl null ↦ rw null (failed (refl, refl, refl, rw null))
        | inr got ↦ rw got (
            Ends.undo (Event.kfree ptr)
              (Ends.carry_on
                (get-Attempt s held1 s1 (refl, refl, refl, rw got) buf.fd
                  (k.dma_buf_get s1.trace buf.fd))
                λ b s2 k2.
                  Ends.undo (Event.dma_buf_put b)
                    (Ends.carry_on (attach-Attempt s _ s2 k2 b (k.dma_buf_attach s2.trace b))
                      λ a s3 k3.
                        Ends.undo (Event.dma_buf_detach b a)
                          (Ends.carry_on
                            (map-Attempt s _ s3 k3 a (k.dma_buf_map_attachment s3.trace a))
                            λ (sgt, n, d) s4 k4. entries-Attempt ptr b a sgt n d s4 k4)
                          λ s4 k4.
                            undo-Kept s (attached b a) _ (Event.dma_buf_detach b a) s4 (λ g. refl)
                              k4)
                    λ s3 k3. undo-Kept s (shared b) _ (Event.dma_buf_put b) s3 (λ g. refl) k3)
              λ s2 k2. undo-Kept s (memory ptr) _ (Event.kfree ptr) s2 (λ g. refl) k2)
      ]
