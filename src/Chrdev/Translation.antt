-- ===== src/Chrdev/Translation.antt =====
-- A mapped area is translated from the moment it is mapped.
use axidma_driver.Common.{
  ℕ, ◌+◌, ◌-◌, ◌%◌, ◌≤◌, ◌<◌, ◌≡◌, ◌∙◌, ap, Option, some, ◌∷◌, arith, ==_refl,
}
use axidma_driver.Types.{word_mod, AxidmaDevice, DmaAllocation}
use axidma_driver.Kernel.{State, ok}
use axidma_driver.Buffers.{axidma_uservirt_to_dma, search_dmabufs, valid_dma_request}
use axidma_driver.Buffers.Regions.{IsRegion}
use axidma_driver.Chrdev.Mapping.{Mapped, structure}

-- After a mapping that does not wrap, each request within the mapped area that is not empty is
-- translated to its place in the memory of the area, whatever other buffers there are.
pub uservirt_to_dma-Mapped :
    (s s' : State) (user_addr size ptr : ℕ) (m : Mapped s user_addr size ptr s') (u n : ℕ)
    → IsRegion (record { user_addr = user_addr; size = size; dma_addr = m.dma_addr })
    → u + n ≤ user_addr + size
    → user_addr ≤ u
    → 0 < n
    → axidma_uservirt_to_dma u n s' ≡ ok (m.dma_addr + (u - user_addr)) s'
unfolding axidma_uservirt_to_dma valid_dma_request
uservirt_to_dma-Mapped s s' user_addr size ptr m u n region end start pos =
    let list : s'.dev.dmabuf_list ≡ ptr ∷ s.dev.dmabuf_list =
      ap (λ (v : AxidmaDevice). v.dmabuf_list) m.listed in
    let there : s'.allocs ptr ≡ some (structure m) =
      ap (λ (f : ℕ → Option DmaAllocation). f ptr) m.live ∙ rw (==_refl ptr) in
    let user_end : user_addr + size < word_mod = region.user_end in
    let dma_end : m.dma_addr + size ≤ word_mod = region.dma_end in
    let inside : (m.dma_addr + (u - user_addr)) % word_mod ≡ m.dma_addr + (u - user_addr) =
      omega arith in
    rw (list, there, search_dmabufs) (ground arith)
