-- ===== src/Examples/Shown.antt =====
-- The loop that prints the longs of a packet.
use axidma_driver.Common.{
  ℕ, zero, suc, ◌+◌, ◌-◌, ◌*◌, ◌==◌, ◌≤◌, ◌≡◌, refl, arith, some, false, List, [], ◌∷◌, ◌++◌,
  length, get_elem?-lt, map, le→ltb,
}
use axidma_driver.Examples.S2mm.{load_bytes, load_long, show_longs}

load_bytes-some :
    (n address : ℕ) (cells : List ℕ)
    → address + n ≤ length cells
    → (v : ℕ) × (load_bytes n address cells ≡ some v)
unfolding load_bytes
load_bytes-some zero address cells h = (0, refl)
load_bytes-some (suc n) address cells h =
    let (low, e) = get_elem?-lt cells address (omega arith) in
    let (high, f) = load_bytes-some n (address + 1) cells (omega arith) in
    (low + 256 * high, rw (e, f) refl)

pub load_long-some :
    (it : ℕ) (cells : List ℕ) → 8 * it + 8 ≤ length cells → (v : ℕ) × (load_long cells it ≡ some v)
unfolding load_long
load_long-some it cells h = load_bytes-some 8 (8 * it) cells h

abbrev pub upto : (n i : ℕ) → List ℕ
upto zero i = []
upto (suc n) i = i ∷ upto n (i + 1)

-- The loop ends, and has printed the longs at these indices.
abbrev pub Shows : (rounds totalct it ct : ℕ) (cells : List ℕ) (indices : List ℕ) → Type 0
Shows rounds totalct it ct cells indices =
    (shown : List ℕ) × (show_longs rounds totalct it ct cells ≡ some shown)
    × (map some shown ≡ map (load_long cells) indices)

not_five : (it : ℕ) → 5 ≤ it → ((it + 1) == 5) ≡ false
not_five it h = ground arith

counted : (ct : ℕ) → ((suc ct == 0) ≡ false) × (suc ct - 1 ≡ ct)
counted ct = (ground arith, omega arith)

step-Shows :
    (rounds rounds' totalct it ct ct' : ℕ) (cells indices : List ℕ)
    → rounds' ≡ suc rounds
    → ct' ≡ suc ct
    → 8 * it + 8 ≤ length cells
    → ((it + 1) == 5) ≡ false
    → Shows rounds totalct (it + 1) ct cells indices
    → Shows rounds' totalct it ct' cells (it ∷ indices)
unfolding show_longs
step-Shows rounds rounds' totalct it ct ct' cells indices more more' h other (shown, e, f) =
    let (v, g) = load_long-some it cells h in
    let (positive, one_less) = counted ct in
    (v ∷ shown, rw (more, more', positive, g, other, one_less, e) refl, rw (g, f) refl)

end-Shows :
    (rounds totalct it : ℕ) (cells : List ℕ) → show_longs rounds totalct it 0 cells ≡ some []
unfolding show_longs
end-Shows zero totalct it cells = refl
end-Shows (suc n) totalct it cells = refl

last-Shows :
    (extra totalct it ct : ℕ) (cells : List ℕ)
    → 5 ≤ it
    → 8 * (it + ct) ≤ length cells
    → Shows (extra + ct) totalct it ct cells (upto ct it)
last-Shows extra totalct it zero cells h fits = ([], end-Shows (extra + 0) totalct it cells, refl)
last-Shows extra totalct it (suc ct) cells h fits =
    step-Shows (extra + ct) (extra + suc ct) totalct it ct (suc ct) cells (upto ct (it + 1))
      (omega arith) refl (omega arith) (not_five it h)
      (last-Shows extra totalct (it + 1) ct cells (omega arith) (omega arith))

skip-Shows :
    (extra ct : ℕ) (cells indices : List ℕ)
    → ct ≡ suc (extra + 30)
    → 8 * 4 + 8 ≤ length cells
    → Shows (extra + 30) (extra + 30) (5 + extra) 30 cells indices
    → Shows ct (extra + 30) 4 ct cells (4 ∷ indices)
unfolding show_longs
skip-Shows extra ct cells indices more h (shown, e, f) =
    let (v, g) = load_long-some 4 cells h in
    let t = le→ltb (extra + 30) 30 (omega arith) in
    let (positive, one_less) = counted (extra + 30) in
    let a : extra + 30 - 30 ≡ extra = omega arith in
    let b : extra + 30 - extra ≡ 30 = omega arith in
    (v ∷ shown, rw (more, positive, g, t, one_less, a, b, e) refl, rw (g, f) refl)

-- Of a packet that has 30 longs at least, the first five and the last 30 are printed.
pub show_longs-Shows :
    (extra : ℕ) (cells : List ℕ)
    → 8 * (extra + 35) ≤ length cells
    → Shows (extra + 35) (extra + 30) 0 (extra + 35) cells (upto 5 0 ++ upto 30 (5 + extra))
show_longs-Shows extra cells h =
    let step = λ (it r : ℕ).
      step-Shows (extra + r) (extra + suc r) (extra + 30) it (extra + r) (extra + suc r) cells in
    step 0 34 (1 ∷ 2 ∷ 3 ∷ 4 ∷ upto 30 (5 + extra)) (omega arith) (omega arith) (omega arith) refl (
      step 1 33 (2 ∷ 3 ∷ 4 ∷ upto 30 (5 + extra)) (omega arith) (omega arith) (omega arith) refl (
        step 2 32 (3 ∷ 4 ∷ upto 30 (5 + extra)) (omega arith) (omega arith) (omega arith) refl (
          step 3 31 (4 ∷ upto 30 (5 + extra)) (omega arith) (omega arith) (omega arith) refl (
            skip-Shows extra (extra + 31) cells (upto 30 (5 + extra)) (omega arith) (omega arith)
              (last-Shows extra (extra + 30) (5 + extra) 30 cells (omega arith) (omega arith))))))
