-- ===== src/Buffers/Translate.antt =====
-- `axidma_uservirt_to_dma` against the regions that the device's lists stand for.
use axidma_driver.Common.{
  ℕ, ◌+◌, ◌-◌, ◌%◌, ◌≤◌, ◌<◌, ◌≡◌, ◌⊎◌, inl, inr, refl, ◌++◌, Option, none, some, List, [], ◌∷◌,
  All, Any, if◌then◌else◌, true, false, arith, Bool-cases,
}
use axidma_driver.Types.{word_mod, DmaAllocation}
use axidma_driver.Kernel.{State, ok}
use axidma_driver.Buffers.{
  valid_dma_request, search_dmabufs, search_external, axidma_uservirt_to_dma, or_null,
}
use axidma_driver.Buffers.Regions.{
  Region, own_region, external_region, Loads, Holds, IsDevice, IsRegion, Covers, Inside,
}

-- The first region that passes the driver's test.
translate : (u n : ℕ) → List Region → Option ℕ
translate u n [] = none
translate u n (r ∷ rs) =
    if valid_dma_request r.user_addr r.size u n
    then some ((r.dma_addr + (u - r.user_addr)) % word_mod)
    else translate u n rs

search_dmabufs-translate :
    (u n : ℕ) (s : State) (ps : List ℕ) (rs : List Region)
    → Loads s.allocs own_region ps rs
    → search_dmabufs u n ps s ≡ ok (translate u n rs) s
unfolding search_dmabufs translate
search_dmabufs-translate u n s [] [] h = refl
search_dmabufs-translate u n s [] (r ∷ rs) h = elim h [ ]
search_dmabufs-translate u n s (p ∷ ps) [] h = elim h [ ]
search_dmabufs-translate u n s (p ∷ ps) (r ∷ rs) ((a, found, same), rest) =
    rw (found, search_dmabufs) (ground (arith, search_dmabufs-translate u n s ps rs rest))

search_external-translate :
    (u n : ℕ) (s : State) (ps : List ℕ) (rs : List Region)
    → Loads s.exts external_region ps rs
    → search_external u n ps s ≡ ok (translate u n rs) s
unfolding search_external translate
search_external-translate u n s [] [] h = refl
search_external-translate u n s [] (r ∷ rs) h = elim h [ ]
search_external-translate u n s (p ∷ ps) [] h = elim h [ ]
search_external-translate u n s (p ∷ ps) (r ∷ rs) ((a, found, same), rest) =
    rw (found, search_external) (ground (arith, search_external-translate u n s ps rs rest))

abbrev first : Option ℕ → Option ℕ → Option ℕ
first none q = q
first (some a) q = some a

-- The address lies as far into the region's DMA range as the request lies into its user range.
abbrev pub Maps : (u n a : ℕ) → Region → Type 0
Maps u n a r = Covers u n r × Inside a n r × (a + r.user_addr ≡ r.dma_addr + u)

abbrev Translates : (u n : ℕ) → List Region → Option ℕ → Type 0
Translates u n rs none = ¬ Any (Covers u n) rs
Translates u n rs (some a) = (0 < a) × Any (Maps u n a) rs

valid-Covers :
    (r : Region) (u n : ℕ)
    → IsRegion r
    → u + n < word_mod
    → valid_dma_request r.user_addr r.size u n ≡ true
    → Covers u n r
unfolding valid_dma_request
valid-Covers r u n w small h = ground arith

not_valid-Covers :
    (r : Region) (u n : ℕ)
    → IsRegion r
    → u + n < word_mod
    → valid_dma_request r.user_addr r.size u n ≡ false
    → ¬ Covers u n r
unfolding valid_dma_request
not_valid-Covers r u n w small h = ground arith

Translates-cons :
    (u n : ℕ) (r : Region) (rs : List Region) (o : Option ℕ)
    → ¬ Covers u n r
    → Translates u n rs o
    → Translates u n (r ∷ rs) o
Translates-cons u n r rs none out t = λ h. elim h [ inl c ↦ out c | inr c ↦ t c ]
Translates-cons u n r rs (some a) out t = (t.0, inr t.1)

translate-Translates :
    (u n : ℕ) (rs : List Region)
    → All IsRegion rs
    → u + n < word_mod
    → 0 < n
    → Translates u n rs (translate u n rs)
unfolding translate
translate-Translates u n [] w small pos = λ h. h
translate-Translates u n (r ∷ rs) w small pos =
    elim (Bool-cases (valid_dma_request r.user_addr r.size u n)) [
      | inl hit ↦
          let c = valid-Covers r u n w.0 small hit in rw hit (omega arith, inl (omega arith))
      | inr miss ↦ rw miss (
          Translates-cons u n r rs _ (not_valid-Covers r u n w.0 small miss)
            (translate-Translates u n rs w.1 small pos))
    ]

-- What the translation of a request returns, against the regions of the device.
abbrev pub Answers : (u n a : ℕ) → List Region → Type 0
Answers u n a rs = ((a ≡ 0) × ¬ Any (Covers u n) rs) ⊎ ((0 < a) × Any (Maps u n a) rs)

Any-append {ℓ} :
    {A : Type ℓ} (P : A → Type 0) (xs ys : List A) → Any P xs ⊎ Any P ys → Any P (xs ++ ys)
Any-append P [] ys (inl h) = elim h [ ]
Any-append P [] ys (inr h) = h
Any-append P (x ∷ xs) ys (inl (inl h)) = inl h
Any-append P (x ∷ xs) ys (inl (inr h)) = inr (Any-append P xs ys (inl h))
Any-append P (x ∷ xs) ys (inr h) = inr (Any-append P xs ys (inr h))

Any-append_inv {ℓ} :
    {A : Type ℓ} (P : A → Type 0) (xs ys : List A) → Any P (xs ++ ys) → Any P xs ⊎ Any P ys
Any-append_inv P [] ys h = inr h
Any-append_inv P (x ∷ xs) ys (inl h) = inl (inl h)
Any-append_inv P (x ∷ xs) ys (inr h) = elim (Any-append_inv P xs ys h) [
  | inl g ↦ inl (inr g)
  | inr g ↦ inr g
]

Translates-Answers :
    (u n : ℕ) (rs es : List Region) (o q : Option ℕ)
    → Translates u n rs o
    → Translates u n es q
    → Answers u n (or_null (first o q)) (rs ++ es)
Translates-Answers u n rs es (some a) q t t' = inr (t.0, Any-append (Maps u n a) rs es (inl t.1))
Translates-Answers u n rs es none none t t' =
    inl (refl, λ h. elim (Any-append_inv (Covers u n) rs es h) [ inl g ↦ t g | inr g ↦ t' g ])
Translates-Answers u n rs es none (some a) t t' =
    inr (t'.0, Any-append (Maps u n a) rs es (inr t'.1))

-- Over live lists the translation returns, whatever the request, and changes nothing.
pub uservirt_to_dma_returns :
    (s : State) (own es : List Region) (u n : ℕ)
    → Holds s own es
    → (a : ℕ) × (axidma_uservirt_to_dma u n s ≡ ok a s)
unfolding axidma_uservirt_to_dma
uservirt_to_dma_returns s own es u n h = (
  or_null (first (translate u n own) (translate u n es)),
  ground (
    arith,
    search_dmabufs-translate u n s s.dev.dmabuf_list own h.own_loads,
    search_external-translate u n s s.dev.external_dmabufs es h.external_loads,
  ),
)

-- Where the lists of buffers stand for regions that do not wrap, they are walked without a fault,
-- the state stays as it was, and a request that is not empty and does not wrap is answered by its
-- place in the DMA range of a region that covers it. The answer is NULL exactly if no region covers
-- the request.
pub uservirt_to_dma-Answers :
    (s : State) (own es : List Region) (u n : ℕ)
    → IsDevice s own es
    → u + n < word_mod
    → 0 < n
    → (a : ℕ) × (axidma_uservirt_to_dma u n s ≡ ok a s) × Answers u n a (own ++ es)
unfolding axidma_uservirt_to_dma
uservirt_to_dma-Answers s own es u n d small pos = (
  or_null (first (translate u n own) (translate u n es)),
  ground (
    arith,
    search_dmabufs-translate u n s s.dev.dmabuf_list own d.holds.own_loads,
    search_external-translate u n s s.dev.external_dmabufs es d.holds.external_loads,
  ),
  Translates-Answers u n own es _ _ (translate-Translates u n own d.own_regions small pos)
      (translate-Translates u n es d.external_regions small pos),
)

-- The end of a request is computed in 32 bits. So a request that starts in the first buffer of the
-- list, wraps round, and ends before the end of that buffer is translated, though the buffer, which
-- does not wrap, does not cover it.
pub uservirt_to_dma_wraps :
    (s : State) (p : ℕ) (ps : List ℕ) (b : DmaAllocation) (u n : ℕ)
    → s.dev.dmabuf_list ≡ p ∷ ps
    → s.allocs p ≡ some b
    → IsRegion (own_region b)
    → b.user_addr ≤ u
    → u < word_mod
    → word_mod ≤ u + n
    → u + n ≤ word_mod + b.user_addr + b.size
    → (axidma_uservirt_to_dma u n s ≡ ok ((b.dma_addr + (u - b.user_addr)) % word_mod) s)
      × ¬ Covers u n (own_region b)
unfolding axidma_uservirt_to_dma valid_dma_request
uservirt_to_dma_wraps s p ps b u n list there region from small wraps end =
    (rw (list, there, search_dmabufs) (ground arith), λ c. omega arith)
