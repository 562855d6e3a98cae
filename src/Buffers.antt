-- ===== src/Buffers.antt =====
-- The DMA buffers of driver/axidma_chrdev.c and the translation of user addresses.
pub mod Regions
pub mod Translate
use axidma_driver.Common.{
  ℕ, ◌+◌, ◌-◌, ◌%◌, Bool, ◌&&◌, Option, none, some, List, [], ◌∷◌, leb, if◌then◌else◌,
}
use axidma_driver.Types.{word_mod}
use axidma_driver.Kernel.{M, ok, fault, use_after_free, pure, ◌>>=◌, get_dev}

unfoldable pub valid_dma_request : (dma_start dma_size user_addr user_size : ℕ) → Bool
valid_dma_request dma_start dma_size user_addr user_size =
    leb dma_start user_addr
    && leb ((user_addr + user_size) % word_mod) ((dma_start + dma_size) % word_mod)

-- The loop over `dev->dmabuf_list`. An entry that is freed is read all the same.
unfoldable pub search_dmabufs : (user_addr size : ℕ) → List ℕ → M (Option ℕ)
search_dmabufs u n [] s = ok none s
search_dmabufs u n (p ∷ ps) s = elim (s.allocs p) [
  | none ↦ fault use_after_free s
  | some a ↦
      let rest = search_dmabufs u n ps s in
      if valid_dma_request a.user_addr a.size u n
      then ok (some ((a.dma_addr + (u - a.user_addr)) % word_mod)) s
      else rest
]

-- The loop over `dev->external_dmabufs`.
unfoldable pub search_external : (user_addr size : ℕ) → List ℕ → M (Option ℕ)
search_external u n [] s = ok none s
search_external u n (p ∷ ps) s = elim (s.exts p) [
  | none ↦ fault use_after_free s
  | some a ↦
      let rest = search_external u n ps s in
      if valid_dma_request a.user_addr a.size u n
      then ok (some ((a.sg_address + (u - a.user_addr)) % word_mod)) s
      else rest
]

abbrev pub or_null : Option ℕ → ℕ
or_null none = 0
or_null (some a) = a

abbrev pub or_else : Option ℕ → M ℕ → M ℕ
or_else (some a) m = pure a
or_else none m = m

unfoldable pub axidma_uservirt_to_dma : (user_addr size : ℕ) → M ℕ
unfolding search_dmabufs search_external
axidma_uservirt_to_dma u n = do
  dev ← get_dev
  own ← search_dmabufs u n dev.dmabuf_list
  or_else own do other ← search_external u n dev.external_dmabufs; pure (or_null other)
