-- ===== src/Chrdev/Mapping.antt =====
-- A buffer that is mapped into a process: set up, used and closed.
use axidma_driver.Common.{
  ℕ, ◌==◌, ◌≡◌, ◌≢◌, refl, ap, ◌∙◌, inl, inr, Option, none, some, ◌∷◌, arith, ==_refl, ==_ne,
  Bool-cases,
}
use axidma_driver.Types.{AxidmaDevice, DmaAllocation, Errno}
use axidma_driver.Kernel.{Kernel, Event, Trace, State, ok, log, kmalloc, update, check}
use axidma_driver.Kernel.Ends
use axidma_driver.Kernel.Ends.{Attempt, done, failed}
use axidma_driver.Kernel.Resources.{held, memory, coherent, acquire, release, release-acquire}
use axidma_driver.Chrdev.Memory.{
  dma_alloc_coherent, dma_mmap_coherent, add_allocation, axidma_mmap, sizeof_allocation, area_size,
  map_region, unlink, free_allocation, close_allocation, axidma_vma_close,
}
use axidma_driver.Chrdev.Cleanup.{Undone, Kept, undo-Kept}

-- The buffer of an area: a live structure at the head of the list, with the memory that it holds.
pub record Mapped (s : State) (user_addr size ptr : ℕ) (s' : State) : Type 0 where
  pub kern_addr : ℕ
  pub dma_addr : ℕ
  pub listed : s'.dev ≡ record s.dev { dmabuf_list = ptr ∷ s.dev.dmabuf_list }
  pub live :
      s'.allocs
      ≡ update s.allocs ptr (
          some (record {
            size = size;
            user_addr = user_addr;
            kern_addr = kern_addr;
            dma_addr = dma_addr;
          }))
  pub others : s'.exts ≡ s.exts
  pub holding :
      held s'.trace
      ≡ acquire (coherent size kern_addr dma_addr) (acquire (memory ptr) (held s.trace))

abbrev pub structure :
    {s s' : State} {user_addr size ptr : ℕ} → Mapped s user_addr size ptr s' → DmaAllocation
structure {user_addr} {size} m = record {
  size = size;
  user_addr = user_addr;
  kern_addr = m.kern_addr;
  dma_addr = m.dma_addr;
}

-- The buffer of an area, at the DMA address that the kernel has answered.
abbrev pub MappedAt : State → (user_addr size dma_addr : ℕ) → (ptr : ℕ) → State → Type 0
MappedAt s user_addr size dma_addr ptr s' =
    (m : Mapped s user_addr size ptr s') × (m.dma_addr ≡ dma_addr)

-- The same at some address, which the kernel answered with memory.
abbrev pub MappedBy : Kernel → State → (user_addr size ptr : ℕ) → State → Type 0
MappedBy k s user_addr size ptr s' =
    (tr : Trace) × ((k.dma_alloc_coherent tr size).0 ≢ 0)
    × MappedAt s user_addr size (k.dma_alloc_coherent tr size).1 ptr s'

module _ (s : State) (user_addr size ptr : ℕ) where
  abbrev Holding : State → Type 0
  Holding = Kept s (acquire (memory ptr) (held s.trace))

  map_region-Attempt :
      (k : Kernel) (kern_addr dma_addr : ℕ) (s1 : State)
      → kern_addr ≢ 0
      → Kept s (acquire (coherent size kern_addr dma_addr) (acquire (memory ptr) (held s.trace))) s1
      → Attempt
          (MappedAt s user_addr size dma_addr)
          Holding
          (map_region k user_addr size ptr (kern_addr, dma_addr) s1)
  unfolding map_region dma_mmap_coherent add_allocation
  map_region-Attempt k kern_addr dma_addr s1 got kept = rw (==_ne kern_addr 0 got) (
      Ends.carry_on
        (Ends.undo (Event.dma_free_coherent size kern_addr dma_addr)
          (check-Attempt (k.dma_mmap_coherent s1.trace kern_addr dma_addr size) _ kept)
          λ s2 k2.
            undo-Kept s (coherent size kern_addr dma_addr) _
              (Event.dma_free_coherent size kern_addr dma_addr) s2 (λ g. refl) k2)
        λ _ s2 k2. done (
          record {
            kern_addr = kern_addr;
            dma_addr = dma_addr;
            listed = ap (λ (v : AxidmaDevice). record v { dmabuf_list = ptr ∷ v.dmabuf_list }) k2.0;
            live =
                ap
                  (λ (v : ℕ → Option DmaAllocation). update v ptr (
                    some (record {
                      size = size;
                      user_addr = user_addr;
                      kern_addr = kern_addr;
                      dma_addr = dma_addr;
                    })))
                  k2.2;
            others = k2.1;
            holding = k2.3;
          },
          refl,
        ))
    where
      check-Attempt :
          (r : Option Errno) (s2 : State)
          → Kept s
              (acquire (coherent size kern_addr dma_addr) (acquire (memory ptr) (held s.trace)))
              s2
          → Attempt
              (λ _.
                Kept s (
                  acquire (coherent size kern_addr dma_addr) (acquire (memory ptr) (held s.trace))))
              (Kept s
                (acquire (coherent size kern_addr dma_addr) (acquire (memory ptr) (held s.trace))))
              (check r s2)
      check-Attempt none s2 h = done h
      check-Attempt (some e) s2 h = failed h

  region-Attempt :
      (k : Kernel) (r : ℕ × ℕ) (s1 : State)
      → Holding s1
      → Attempt
          (λ ptr s'. (r.0 ≢ 0) × MappedAt s user_addr size r.1 ptr s')
          Holding
          (map_region k user_addr size ptr r (log (Event.dma_alloc_coherent size r.0 r.1) s1))
  unfolding map_region
  region-Attempt k (kern_addr, dma_addr) s1 kept = elim (Bool-cases (kern_addr == 0)) [
    | inl null ↦ rw null (failed (kept.0, kept.1, kept.2, rw null kept.3))
    | inr got ↦
        let nonzero : kern_addr ≢ 0 = ground (arith, got) in
        Ends.relax
          (map_region-Attempt k kern_addr dma_addr _ nonzero (
            kept.0,
            kept.1,
            kept.2,
            rw got (ap (acquire (coherent size kern_addr dma_addr)) kept.3),
          ))
          (λ _ _ m. (nonzero, m))
  ]

pub mmap-MappedBy :
    (k : Kernel) (s : State) (vm_start vm_end : ℕ)
    → Attempt
        (MappedBy k s vm_start (area_size vm_start vm_end))
        (Undone s)
        (axidma_mmap k vm_start vm_end s)
unfolding axidma_mmap kmalloc dma_alloc_coherent
mmap-MappedBy k s vm_start vm_end =
    let ptr = k.kmalloc s.trace sizeof_allocation in
    let size = area_size vm_start vm_end in
    let s1 = log Event.of_dma_configure (log (Event.kmalloc sizeof_allocation ptr) s) in
    elim (Bool-cases (ptr == 0)) [
      | inl null ↦ rw null (failed (refl, refl, refl, rw null))
      | inr got ↦ rw got (
          Ends.undo (Event.kfree ptr)
            (Ends.relax
              (region-Attempt s vm_start size ptr k (k.dma_alloc_coherent s1.trace size) s1
                (refl, refl, refl, rw got))
              (λ _ _ m. (s1.trace, m.0, m.1)))
            λ s2 k2. undo-Kept s (memory ptr) _ (Event.kfree ptr) s2 (λ g. refl) k2)
    ]

-- The mapping of a buffer has no fault: the buffer is mapped, or nothing is left behind, whatever
-- step fails.
pub mmap-Attempt :
    (k : Kernel) (s : State) (vm_start vm_end : ℕ)
    → Attempt
        (Mapped s vm_start (area_size vm_start vm_end))
        (Undone s)
        (axidma_mmap k vm_start vm_end s)
mmap-Attempt k s vm_start vm_end =
    Ends.relax (mmap-MappedBy k s vm_start vm_end) (λ ptr s' m. m.2.0)

update_twice :
    {A : Type 0} (f : ℕ → Option A) (p : ℕ) (v : Option A)
    → update (update f p v) p none ≡ update f p none
update_twice f p v = λ i q. same q i
  where
    same : (q : ℕ) → update (update f p v) p none q ≡ update f p none q
    same q = elim (Bool-cases (p == q)) [ inl y ↦ rw y | inr n ↦ rw n ]

-- The close of a mapped area frees its memory: the device is as it was before the mapping, all that
-- was acquired for it is released, its structure is gone, and the others
-- are as they were.
pub close-Mapped :
    (s s' : State) (user_addr size ptr : ℕ)
    → Mapped s user_addr size ptr s'
    → (s2 : State) × (axidma_vma_close ptr s' ≡ ok tt s2)
      × (s2.dev ≡ s.dev)
      × (held s2.trace ≡ held s.trace)
      × (s2.allocs ≡ update s.allocs ptr none)
unfolding axidma_vma_close close_allocation free_allocation unlink
close-Mapped s s' user_addr size ptr m =
    let a = structure m in
    let live_at : s'.allocs ptr ≡ some a =
      ap (λ (f : ℕ → Option DmaAllocation). f ptr) m.live ∙ rw (==_refl ptr) in
    let freed = Event.dma_free_coherent size m.kern_addr m.dma_addr in
    (
      record s' {
        trace = Event.kfree ptr ∷ freed ∷ s'.trace;
        dev = record s'.dev { dmabuf_list = unlink ptr s'.dev.dmabuf_list };
        allocs = update s'.allocs ptr none;
      },
      rw (live_at, axidma_vma_close),
      ap (λ (v : AxidmaDevice). record v { dmabuf_list = unlink ptr v.dmabuf_list }) m.listed
          ∙ rw (==_refl ptr),
      ap (release (memory ptr)) (
            ap (release (coherent size m.kern_addr m.dma_addr)) m.holding
            ∙ release-acquire (coherent size m.kern_addr m.dma_addr) _)
          ∙ release-acquire (memory ptr) (held s.trace),
      ap (λ (f : ℕ → Option DmaAllocation). update f ptr none) m.live
          ∙ update_twice s.allocs ptr (some a),
    )
