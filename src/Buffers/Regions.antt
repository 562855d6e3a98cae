-- ===== src/Buffers/Regions.antt =====
-- The abstract view of the registered buffers: a list of regions, each a range of user addresses
-- with the DMA address of its first byte.
use axidma_driver.Common.{ℕ, ◌+◌, ◌≤◌, ◌<◌, ◌≡◌, Option, some, List, [], ◌∷◌, All}
use axidma_driver.Types.{word_mod, DmaAllocation, ExternalAllocation}
use axidma_driver.Kernel.{State, Event, log}

pub record Region : Type 0 where
  pub user_addr : ℕ
  pub size : ℕ
  pub dma_addr : ℕ

abbrev pub own_region : DmaAllocation → Region
own_region a = record { user_addr = a.user_addr; size = a.size; dma_addr = a.dma_addr }

abbrev pub external_region : ExternalAllocation → Region
external_region a = record { user_addr = a.user_addr; size = a.size; dma_addr = a.sg_address }

-- The addresses of a list are those of live structures, which are the regions in order.
abbrev pub Loads : {A : Type 0} → (ℕ → Option A) → (A → Region) → List ℕ → List Region → Type 0
Loads h f [] [] = Unit
Loads h f [] (r ∷ rs) = ⊥
Loads h f (p ∷ ps) [] = ⊥
Loads {A} h f (p ∷ ps) (r ∷ rs) = ((a : A) × (h p ≡ some a) × (f a ≡ r)) × Loads h f ps rs

-- The two lists of the device stand for these regions.
pub record Holds (s : State) (own external : List Region) : Type 0 where
  pub own_loads : Loads s.allocs own_region s.dev.dmabuf_list own
  pub external_loads : Loads s.exts external_region s.dev.external_dmabufs external

-- Neither the user range nor the DMA range of a region wraps, and its DMA address is not NULL.
pub record IsRegion (r : Region) : Type 0 where
  pub user_end : r.user_addr + r.size < word_mod
  pub dma_end : r.dma_addr + r.size ≤ word_mod
  pub dma_start : 0 < r.dma_addr

-- The user range from `u`, `n` bytes long, lies in the region.
abbrev pub Covers : (u n : ℕ) → Region → Type 0
Covers u n r = (r.user_addr ≤ u) × (u + n ≤ r.user_addr + r.size)

-- The DMA range from `a`, `n` bytes long, lies in the region.
abbrev pub Inside : (a n : ℕ) → Region → Type 0
Inside a n r = (r.dma_addr ≤ a) × (a + n ≤ r.dma_addr + r.size)

-- The device's buffers stand for these regions, none of which wraps.
pub record IsDevice (s : State) (own external : List Region) : Type 0 where
  pub holds : Holds s own external
  pub own_regions : All IsRegion own
  pub external_regions : All IsRegion external

-- A call of the kernel leaves the buffers as they are.
pub IsDevice-log :
    (e : Event) (s : State) (own es : List Region) → IsDevice s own es → IsDevice (log e s) own es
IsDevice-log e s own es d = record {
  holds = record { own_loads = d.holds.own_loads; external_loads = d.holds.external_loads };
  own_regions = d.own_regions;
  external_regions = d.external_regions;
}
