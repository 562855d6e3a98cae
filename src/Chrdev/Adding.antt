-- ===== src/Chrdev/Adding.antt =====
-- A buffer that is mapped into a process is one more region of the device.
use axidma_driver.Common.{
  ℕ, ◌+◌, ◌<◌, ◌≤◌, ◌≡◌, ◌≢◌, refl, ap, none, some, Option, List, [], ◌∷◌, arith, ==_refl,
}
use axidma_driver.Types.{word_mod, AxidmaDevice, DmaAllocation}
use axidma_driver.Kernel.{Kernel, Trace, State, ok, update}
use axidma_driver.Kernel.Ends.{Attempt, done}
use axidma_driver.Buffers.Regions.{Region, own_region, Loads, IsRegion, IsDevice}
use axidma_driver.Chrdev.Memory.{axidma_mmap, area_size}
use axidma_driver.Chrdev.Mapping.{Mapped, structure, mmap-MappedBy}

Loads-update :
    (h : ℕ → Option DmaAllocation) (ptr : ℕ) (a : DmaAllocation) (ps : List ℕ) (rs : List Region)
    → h ptr ≡ none
    → Loads h own_region ps rs
    → Loads (update h ptr (some a)) own_region ps rs
Loads-update h ptr a [] [] fresh l = tt
Loads-update h ptr a [] (r ∷ rs) fresh l = l
Loads-update h ptr a (p ∷ ps) [] fresh l = l
Loads-update h ptr a (p ∷ ps) (r ∷ rs) fresh ((b, there, same), rest) =
    ((b, ground arith, same), Loads-update h ptr a ps rs fresh rest)

Mapped-IsDevice :
    (s s' : State) (user_addr size ptr : ℕ) (own es : List Region)
    (m : Mapped s user_addr size ptr s')
    → s.allocs ptr ≡ none
    → IsRegion (record { user_addr = user_addr; size = size; dma_addr = m.dma_addr })
    → IsDevice s own es
    → IsDevice s' (record { user_addr = user_addr; size = size; dma_addr = m.dma_addr } ∷ own) es
Mapped-IsDevice s s' user_addr size ptr own es m fresh region d = record {
  holds = record {
    own_loads =
        rw (m.live, ap (λ (v : AxidmaDevice). v.dmabuf_list) m.listed)
          (
            (structure m, rw (==_refl ptr), refl),
            Loads-update s.allocs ptr (structure m) s.dev.dmabuf_list own fresh d.holds.own_loads,
          );
    external_loads =
        rw (m.others, ap (λ (v : AxidmaDevice). v.external_dmabufs) m.listed)
          d.holds.external_loads;
  };
  own_regions = (region, d.own_regions);
  external_regions = d.external_regions;
}

-- The kernel's memory for a buffer, where there is any, is a range of the 32-bit bus without address 0.
abbrev pub Allocates : Kernel → Type 0
Allocates k =
    (tr : Trace) (size : ℕ)
    → (k.dma_alloc_coherent tr size).0 ≢ 0
    → (0 < (k.dma_alloc_coherent tr size).1) × ((k.dma_alloc_coherent tr size).1 + size ≤ word_mod)

-- A mapping that returns has added its area to the regions that the lists of buffers stand for, and has
-- kept the others, if the structure that it returns was not live before, the area does not wrap, and the
-- kernel's memory for it does not wrap and is not at address 0.
pub mmap-IsDevice :
    (k : Kernel) (s : State) (vm_start vm_end ptr : ℕ) (s' : State) (own es : List Region)
    → IsDevice s own es
    → axidma_mmap k vm_start vm_end s ≡ ok ptr s'
    → s.allocs ptr ≡ none
    → vm_start + area_size vm_start vm_end < word_mod
    → Allocates k
    → (dma_addr : ℕ) × IsDevice s'
        (record { user_addr = vm_start; size = area_size vm_start vm_end; dma_addr = dma_addr }
          ∷ own)
        es
mmap-IsDevice k s vm_start vm_end ptr s' own es d run fresh small allocates =
    let (tr, got, (m, same)) = returned (rw run at (mmap-MappedBy k s vm_start vm_end)) in
    let (some_dma, fits) = allocates tr (area_size vm_start vm_end) got in
    (
      m.dma_addr,
      Mapped-IsDevice s s' vm_start (area_size vm_start vm_end) ptr own es m fresh
          (record {
            user_end = small;
            dma_end = omega (arith, same, fits);
            dma_start = omega (arith, same, some_dma);
          })
          d,
    )
  where
    returned :
        {A : Type 0} {Q : A → State → Type 0} {R : State → Type 0} {a : A} {s1 : State}
        → Attempt Q R (ok a s1)
        → Q a s1
    returned (done q) = q
