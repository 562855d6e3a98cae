-- ===== src/Libaxidma/Memory.antt =====
-- library/libaxidma.c: how often memory was allocated and freed, and what keeps the pointers to it.
use axidma_driver.Common.{
  ℕ, zero, suc, ◌+◌, ◌==◌, ltb, ◌≡◌, ◌∙◌, refl, inl, inr, Option, none, some, List, [], ◌∷◌,
  if◌then◌else◌, length, get_elem?, Bool-cases,
}
use axidma_driver.Types.{AxidmaChan, Errno}
use axidma_driver.DeviceTree.{Kind, dma_tx, dma_rx, vdma_tx, vdma_rx}
use axidma_driver.Libaxidma.Calls.{Call}
use axidma_driver.Libaxidma.Process.{
  Process, AxidmaDev, Array, Result, Abort, P, ok, err, abort, and_then, result_then, note,
  set_array, same,
}
use axidma_driver.Libaxidma.Channels.{
  kind_of, append_id, store_channel, channel_of, place_kind, place_found, place_channels,
}
use axidma_driver.Libaxidma.Sorting.{same_eq}

-- A run that returns has `Q`, one that fails leaves `R`; nothing is said of an abort.
pub data Fate {A : Type 0} (Q : A → Process → Type 0) (R : Process → Type 0)
    : Result A → Type 0 where
  returns : {a : A} {p : Process} → Q a p → Fate Q R (ok a p)
  fails : {e : Errno} {p : Process} → R p → Fate Q R (err e p)
  aborts : {a : Abort} {p : Process} → Fate Q R (abort a p)

pub then_on :
    {A B : Type 0} {Q : A → Process → Type 0} {Q' : B → Process → Type 0} {R : Process → Type 0}
    {o : Result A} {f : A → P B}
    → Fate Q R o
    → ((a : A) (p : Process) → Q a p → Fate Q' R (f a p))
    → Fate Q' R (and_then o f)
then_on (returns q) next = next _ _ q
then_on (fails r) next = fails r
then_on aborts next = aborts

-- What follows after a return and after an error.
pub followed :
    {A : Type 0} {Q Q' : A → Process → Type 0} {R R' : Process → Type 0} {o : Result A} (c : Call)
    → Fate Q R o
    → ((a : A) (p : Process) → Q a p → Q' a (note c p))
    → ((p : Process) → R p → R' (note c p))
    → Fate Q' R' (result_then o (λ p. ok tt (note c p)))
followed c (returns q) f g = returns (f _ _ q)
followed c (fails r) f g = fails (g _ r)
followed c aborts f g = aborts

abbrev pub here : (ptr p : ℕ) → ℕ
here ptr p = if p == ptr then 1 else 0

-- How often the memory at the pointer was allocated, and how often it was freed.
abbrev pub mallocs : ℕ → List Call → ℕ
mallocs ptr [] = 0
mallocs ptr (Call.malloc n p ∷ cs) = here ptr p + mallocs ptr cs
mallocs ptr (_ ∷ cs) = mallocs ptr cs

abbrev pub frees : ℕ → List Call → ℕ
frees ptr [] = 0
frees ptr (Call.free p ∷ cs) = here ptr p + frees ptr cs
frees ptr (_ ∷ cs) = frees ptr cs

-- Since `p0`, the pointer was allocated `n` times more than it was freed.
abbrev pub Owns : (ptr n : ℕ) → Process → Process → Type 0
Owns ptr n p0 p =
    mallocs ptr p.calls + frees ptr p0.calls ≡ n + mallocs ptr p0.calls + frees ptr p.calls

-- How often the five pointers of the device are this one.
abbrev pub owned : ℕ → AxidmaDev → ℕ
owned ptr d =
    here ptr d.channels_ptr
    + here ptr (d.arrays dma_tx).ptr
    + here ptr (d.arrays dma_rx).ptr
    + here ptr (d.arrays vdma_tx).ptr
    + here ptr (d.arrays vdma_rx).ptr

-- What was allocated since `p0`, and not freed, is what the device points to.
abbrev pub Holds : (ptr : ℕ) → Process → Process → Type 0
Holds ptr p0 p = Owns ptr (owned ptr p.dev) p0 p

-- `p'` has made no more calls than `p`, and has its pointers.
abbrev pub Keeps : Process → Process → Type 0
Keeps p p' =
    (p'.calls ≡ p.calls)
    × (p'.dev.channels_ptr ≡ p.dev.channels_ptr)
    × ((kind : Kind) → (p'.dev.arrays kind).ptr ≡ (p.dev.arrays kind).ptr)

abbrev pub Never : Process → Type 0
Never p = ⊥

pub Keeps-Holds : (ptr : ℕ) (p0 p p' : Process) → Keeps p p' → Holds ptr p0 p → Holds ptr p0 p'
Keeps-Holds ptr p0 p p' (calls, channels_ptr, ptrs) h =
    rw (calls, channels_ptr, ptrs dma_tx, ptrs dma_rx, ptrs vdma_tx, ptrs vdma_rx, h)

set_array-ptr :
    (kind other : Kind) (a : Array) (d : AxidmaDev)
    → a.ptr ≡ (d.arrays kind).ptr
    → ((set_array kind a d).arrays other).ptr ≡ (d.arrays other).ptr
set_array-ptr kind other a d h = elim (Bool-cases (same kind other)) [
  | inl y ↦ rw (y, h, same_eq kind other y)
  | inr n ↦ rw n
]

append_id-Keeps :
    (kind : Kind) (id : ℕ) (p : Process) → Fate (λ _. Keeps p) Never (append_id kind id p)
unfolding append_id
append_id-Keeps kind id p =
    let a = p.dev.arrays kind in
    elim (Bool-cases (ltb a.len (length a.cells))) [
      | inl y ↦ rw y (returns (refl, refl, λ other. set_array-ptr kind other _ p.dev refl))
      | inr n ↦ rw n aborts
    ]

store_channel-Keeps :
    (i : ℕ) (c : AxidmaChan) (p0 p : Process)
    → Keeps p0 p
    → Fate (λ _. Keeps p0) Never (store_channel i (channel_of c) p)
unfolding store_channel
store_channel-Keeps i c p0 p h = elim (Bool-cases (ltb i (length p.dev.channels))) [
  | inl y ↦ rw y (returns h)
  | inr n ↦ rw n aborts
]

place_kind-Keeps :
    (i : ℕ) (c : AxidmaChan) (k : Option Kind) (p : Process)
    → Fate (λ _. Keeps p) Never (place_kind i c k p)
unfolding place_kind
place_kind-Keeps i c none p = aborts
place_kind-Keeps i c (some kind) p =
    then_on (append_id-Keeps kind c.channel_id p) (λ _ p'. store_channel-Keeps i c p p')

place_found-Keeps :
    (i : ℕ) (c : Option AxidmaChan) (p : Process) → Fate (λ _. Keeps p) Never (place_found i c p)
unfolding place_found
place_found-Keeps i none p = aborts
place_found-Keeps i (some c) p = place_kind-Keeps i c (kind_of c.dir c.type) p

Keeps-trans : (p p' p'' : Process) → Keeps p p' → Keeps p' p'' → Keeps p p''
Keeps-trans p p' p'' (c, d, e) (c', d', e') = (c' ∙ c, d' ∙ d, λ kind. e' kind ∙ e kind)

pub place_channels-Keeps :
    (n i : ℕ) (channels : List AxidmaChan) (p0 p : Process)
    → Keeps p0 p
    → Fate (λ _. Keeps p0) Never (place_channels n i channels p)
unfolding place_channels
place_channels-Keeps zero i channels p0 p h = returns h
place_channels-Keeps (suc n) i channels p0 p h =
    then_on (place_found-Keeps i (get_elem? channels i) p)
      (λ _ p' k. place_channels-Keeps n (i + 1) channels p0 p' (Keeps-trans p0 p p' h k))
