-- ===== src/Examples/Filling.antt =====
-- Loops that write one cell after another leave a list of cells in place of what was there.
use axidma_driver.Common.{
  ℕ, zero, suc, ◌+◌, ◌*◌, ◌/◌, ◌%◌, ◌≡◌, ◌∙◌, refl, sym, ap, arith, Option, some, List, [], ◌∷◌,
  ◌++◌, append_assoc, length, length-append, set, replicate, ltb, true,
}
use axidma_driver.Examples.Packets.{◌>>=◌, store}
use axidma_driver.Examples.Mm2s.{clean_loop, store_bytes, fill_longs, pattern_long}

-- `write` puts `content` at the address, and keeps the cells around it.
abbrev pub Fills : (write : List ℕ → Option (List ℕ)) (address : ℕ) (content : List ℕ) → Type 0
Fills write address content =
    (front old rest : List ℕ)
    → length front ≡ address
    → length old ≡ length content
    → write (front ++ (old ++ rest)) ≡ some (front ++ (content ++ rest))

ltb-true : (i n : ℕ) → ltb i (i + suc n) ≡ true
ltb-true i n = ground arith

set-append :
    (front : List ℕ) (old new : ℕ) (rest : List ℕ)
    → set (front ++ (old ∷ rest)) (length front) new ≡ front ++ (new ∷ rest)
set-append [] old new rest = refl
set-append (x ∷ front) old new rest = ap (◌∷◌ x) (set-append front old new rest)

pub store-Fills : (i v : ℕ) → Fills (λ cells. store cells i v) i (v ∷ [])
unfolding store
store-Fills i v front [] rest h g = absurd (omega arith)
store-Fills i v front (x ∷ (y ∷ old)) rest h g = absurd (omega arith)
store-Fills i v front (x ∷ []) rest h g =
    rw (sym h, length-append front (x ∷ rest), ltb-true (length front) (length rest))
      (ap some (set-append front x v rest))

split :
    (a b : ℕ) (xs : List ℕ)
    → length xs ≡ a + b
    → (ys zs : List ℕ) × (xs ≡ ys ++ zs) × (length ys ≡ a) × (length zs ≡ b)
split zero b xs h = ([], xs, refl, refl, omega arith)
split (suc a) b [] h = absurd (omega arith)
split (suc a) b (x ∷ xs) h =
    let (ys, zs, e, hy, hz) = split a b xs (omega arith) in
    (x ∷ ys, zs, ap (◌∷◌ x) e, ap suc hy, hz)

pub then-Fills :
    (write write' : List ℕ → Option (List ℕ)) (i : ℕ) (content content' : List ℕ)
    → Fills write i content
    → Fills write' (i + length content) content'
    → Fills (λ cells. write cells >>= write') i (content ++ content')
then-Fills write write' i content content' f g front old rest hf ho =
    let (old1, old2, e, h1, h2) =
      split (length content) (length content') old (ho ∙ length-append content content') in
    let first : write (front ++ (old ++ rest)) ≡ some (front ++ (content ++ (old2 ++ rest))) =
      rw (e, append_assoc old1 old2 rest) (f front old1 (old2 ++ rest) hf h1) in
    let second =
      g (front ++ content) old2 rest (length-append front content ∙ ap (λ n. n + length content) hf)
        h2 in
    ap (λ o. o >>= write') first
    ∙ ap write' (sym (append_assoc front content (old2 ++ rest)))
    ∙ second
    ∙ ap some (
        append_assoc front content (content' ++ rest)
        ∙ ap (λ c. front ++ c) (sym (append_assoc content content' rest)))

-- A loop that has no round left.
pub none-Fills : (i : ℕ) → Fills some i []
none-Fills i front [] rest h g = refl
none-Fills i front (x ∷ old) rest h g = absurd (omega arith)

pub clean_loop-Fills : (n i : ℕ) → Fills (clean_loop n i) i (replicate n 0)
unfolding clean_loop
clean_loop-Fills zero i = none-Fills i
clean_loop-Fills (suc n) i =
    then-Fills (λ cells. store cells i 0) (clean_loop n (i + 1)) i (0 ∷ []) (replicate n 0)
      (store-Fills i 0) (clean_loop-Fills n (i + 1))

-- The bytes of a number, the lowest first.
abbrev pub bytes_of : (n v : ℕ) → List ℕ
bytes_of zero v = []
bytes_of (suc n) v = v % 256 ∷ bytes_of n (v / 256)

pub store_bytes-Fills : (n i v : ℕ) → Fills (store_bytes n i v) i (bytes_of n v)
unfolding store_bytes
store_bytes-Fills zero i v = none-Fills i
store_bytes-Fills (suc n) i v =
    then-Fills (λ cells. store cells i (v % 256)) (store_bytes n (i + 1) (v / 256)) i (v % 256 ∷ [])
      (bytes_of n (v / 256)) (store-Fills i (v % 256)) (store_bytes-Fills n (i + 1) (v / 256))

-- The longs that init_tx_data writes, from the index `i` on.
abbrev pub pattern_longs : (n i : ℕ) → List ℕ
pattern_longs zero i = []
pattern_longs (suc n) i = bytes_of 8 (pattern_long i) ++ pattern_longs n (i + 1)

pub length-pattern_longs : (n i : ℕ) → length (pattern_longs n i) ≡ 8 * n
length-pattern_longs zero i = refl
length-pattern_longs (suc n) i = omega (arith, length-pattern_longs n (i + 1))

pub fill_longs-Fills :
    (n i base : ℕ) → Fills (fill_longs n i base) (base + 8 * i) (pattern_longs n i)
unfolding fill_longs
fill_longs-Fills zero i base = none-Fills (base + 8 * i)
fill_longs-Fills (suc n) i base =
    then-Fills (store_bytes 8 (base + 8 * i) (pattern_long i)) (fill_longs n (i + 1) base)
      (base + 8 * i) (bytes_of 8 (pattern_long i)) (pattern_longs n (i + 1))
      (store_bytes-Fills 8 (base + 8 * i) (pattern_long i))
      (λ front old rest h g. fill_longs-Fills n (i + 1) base front old rest (omega (arith, h)) g)
