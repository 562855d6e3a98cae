-- ===== src/DeviceTree/Counters.antt =====
-- Each counter of the device, and the channels it counts.
use mathlib.Core.Option.{some-injective}
use axidma_driver.Common.{
  ℕ, zero, suc, ◌+◌, ◌≡◌, ◌∙◌, inl, inr, refl, sym, ap, Bool, true, false, ◌&&◌, some, List, [],
  ◌∷◌, get_elem?, set, take, length, length-set, get_elem?-set, take-set, arith, Option-cases,
}
use axidma_driver.Types.{AxidmaChan, AxidmaDevice, is_write, is_read, is_dma, is_vdma}
use axidma_driver.Kernel.{State}
use axidma_driver.Kernel.Ends
use axidma_driver.Kernel.Ends.{Outcome, returns, fails, stops}
use axidma_driver.DeviceTree.{
  Kind, dma_tx, dma_rx, vdma_tx, vdma_rx, kind_type, kind_dir, count_chan, store_chan, write_chan,
  assign_kind,
}

abbrev pub is_kind : Kind → AxidmaChan → Bool
is_kind dma_tx c = is_dma c.type && is_write c.dir
is_kind dma_rx c = is_dma c.type && is_read c.dir
is_kind vdma_tx c = is_vdma c.type && is_write c.dir
is_kind vdma_rx c = is_vdma c.type && is_read c.dir

abbrev pub counter : Kind → AxidmaDevice → ℕ
counter dma_tx dev = dev.num_dma_tx_chans
counter dma_rx dev = dev.num_dma_rx_chans
counter vdma_tx dev = dev.num_vdma_tx_chans
counter vdma_rx dev = dev.num_vdma_rx_chans

abbrev one_if : Bool → ℕ
one_if true = 1
one_if false = 0

abbrev pub count : Kind → List AxidmaChan → ℕ
count kind [] = 0
count kind (c ∷ cs) = one_if (is_kind kind c) + count kind cs

count-take :
    (kind : Kind) (cs : List AxidmaChan) (i : ℕ) (c : AxidmaChan)
    → get_elem? cs i ≡ some c
    → count kind (take (suc i) cs) ≡ count kind (take i cs) + one_if (is_kind kind c)
count-take kind [] i c h = absurd (cc)
count-take kind (x ∷ xs) zero c h =
    omega (arith, ap (λ x. one_if (is_kind kind x)) (some-injective _ _ h))
count-take kind (x ∷ xs) (suc i) c h = omega (arith, count-take kind xs i c h)

-- The counters count the first `i` channels.
abbrev pub Counted : ℕ → ℕ → State → Type 0
Counted n i s =
    (length s.dev.channels ≡ n)
    × ((kind : Kind) → counter kind s.dev ≡ count kind (take i s.dev.channels))

abbrev set_chan : ℕ → AxidmaChan → State → State
set_chan i c s = record s { dev = record s.dev { channels = set s.dev.channels i c } }

-- What a write through a channel's pointer leaves.
abbrev Written : ℕ → (AxidmaChan → AxidmaChan) → State → Unit {0} → State → Type 0
Written i f s _ s' =
    (c : AxidmaChan) × (get_elem? s.dev.channels i ≡ some c) × (s' ≡ set_chan i (f c) s)

pub write_chan-Written :
    (i : ℕ) (f : AxidmaChan → AxidmaChan) (s : State)
    → Outcome (Written i f s) (λ _. Unit) (write_chan i f s)
unfolding write_chan store_chan
write_chan-Written i f s = elim (Option-cases (get_elem? s.dev.channels i)) [
  | inl e ↦ rw e (stops tt)
  | inr (c, e) ↦ rw e (returns (c, e, refl))
]

counter-set_chan :
    (kind : Kind) (i : ℕ) (c : AxidmaChan) (s : State)
    → counter kind (set_chan i c s).dev ≡ counter kind s.dev
counter-set_chan dma_tx i c s = refl
counter-set_chan dma_rx i c s = refl
counter-set_chan vdma_tx i c s = refl
counter-set_chan vdma_rx i c s = refl

-- A write to channel `i` does not touch the channels below it.
pub set_chan-Counted :
    (n i : ℕ) (c : AxidmaChan) (s : State) → Counted n i s → Counted n i (set_chan i c s)
set_chan-Counted n i c s (len, h) = (
  length-set s.dev.channels i c ∙ len,
  λ kind.
      counter-set_chan kind i c s ∙ h kind ∙ ap (count kind) (sym (take-set s.dev.channels i c)),
)

-- A write that keeps the kind of channel `i` keeps the count that includes it.
pub rename-Counted :
    (n i : ℕ) (c c' : AxidmaChan) (s : State)
    → get_elem? s.dev.channels i ≡ some c
    → ((kind : Kind) → is_kind kind c' ≡ is_kind kind c)
    → Counted n (suc i) s
    → Counted n (suc i) (set_chan i c' s)
rename-Counted n i c c' s there same (len, h) = (
  length-set s.dev.channels i c' ∙ len,
  λ kind. omega (
    arith,
    h kind,
    counter-set_chan kind i c' s,
    count-take kind s.dev.channels i c there,
    count-take kind (set s.dev.channels i c') i c' (get_elem?-set s.dev.channels i c' there),
    ap (count kind) (take-set s.dev.channels i c'),
    ap one_if (same kind),
  ),
)

-- The counter of the kind goes up by one, the others stay.
counter-count_chan :
    (kind other : Kind) (dev : AxidmaDevice) (c : AxidmaChan)
    → counter other (count_chan kind dev)
      ≡ counter other dev
        + one_if (is_kind other (record c { type = kind_type kind; dir = kind_dir kind }))
unfolding count_chan
counter-count_chan dma_tx dma_tx dev c = omega arith
counter-count_chan dma_rx dma_tx dev c = omega arith
counter-count_chan vdma_tx dma_tx dev c = omega arith
counter-count_chan vdma_rx dma_tx dev c = omega arith
counter-count_chan dma_tx dma_rx dev c = omega arith
counter-count_chan dma_rx dma_rx dev c = omega arith
counter-count_chan vdma_tx dma_rx dev c = omega arith
counter-count_chan vdma_rx dma_rx dev c = omega arith
counter-count_chan dma_tx vdma_tx dev c = omega arith
counter-count_chan dma_rx vdma_tx dev c = omega arith
counter-count_chan vdma_tx vdma_tx dev c = omega arith
counter-count_chan vdma_rx vdma_tx dev c = omega arith
counter-count_chan dma_tx vdma_rx dev c = omega arith
counter-count_chan dma_rx vdma_rx dev c = omega arith
counter-count_chan vdma_tx vdma_rx dev c = omega arith
counter-count_chan vdma_rx vdma_rx dev c = omega arith

channels-count_chan :
    (kind : Kind) (dev : AxidmaDevice) → (count_chan kind dev).channels ≡ dev.channels
unfolding count_chan
channels-count_chan dma_tx dev = refl
channels-count_chan dma_rx dev = refl
channels-count_chan vdma_tx dev = refl
channels-count_chan vdma_rx dev = refl

pub assign_kind-Counted :
    (n i : ℕ) (kind : Kind) (s : State)
    → Counted n i s
    → Outcome (λ _. Counted n (suc i)) (λ _. Unit) (assign_kind i kind s)
unfolding assign_kind
assign_kind-Counted n i kind s h = Ends.proceed (write_chan-Written i _ s) λ _ s' (c, there, e).
    let c' : AxidmaChan = record c { type = kind_type kind; dir = kind_dir kind } in
    let dev' = (set_chan i c' s).dev in
    let (len, below) = set_chan-Counted n i c' s h in
    rw e (
      returns (
        rw (channels-count_chan kind dev') len,
        λ other. omega (
          arith,
          ap (λ (cs : List AxidmaChan). count other (take (suc i) cs))
              (channels-count_chan kind dev'),
          counter-count_chan kind other dev' c,
          below other,
          count-take other (set s.dev.channels i c') i c' (get_elem?-set s.dev.channels i c' there),
        ),
      ))
