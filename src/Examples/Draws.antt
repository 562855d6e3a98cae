-- ===== src/Examples/Draws.antt =====
-- The parameters that the program draws.
use axidma_driver.Common.{
  ℕ, zero, suc, ◌*◌, ◌%◌, ◌==◌, leb, Bool-cases, inl, inr, if◌then◌else◌, ◌≤◌, ◌<◌, ◌≡◌, refl,
  arith, some, Bool, true, false,
}
use axidma_driver.Examples.Packets.{Mm2sFirst}
use axidma_driver.Examples.Mm2s.{
  rand_btw, random_mm2s, choose_mm2s, modu_cal, rounded_up, data_max, data_tr,
}

abbrev all_below : ℕ → (ℕ → Bool) → Bool
all_below zero f = true
all_below (suc n) f = if f 0 then all_below n (λ i. f (suc i)) else false

all_below-lt : (n i : ℕ) (f : ℕ → Bool) → all_below n f ≡ true → i < n → f i ≡ true
all_below-lt zero i f h l = absurd (omega arith)
all_below-lt (suc n) zero f h l = ground arith
all_below-lt (suc n) (suc i) f h l =
    all_below-lt n i (λ j. f (suc j))
      (elim (Bool-cases (f 0)) [ inl y ↦ rw y at h | inr k ↦ absurd (cc) ]) (omega arith)

abbrev blocks : (factor mb : ℕ) → ℕ
blocks factor mb = rounded_up (data_max * factor) (data_tr mb)

abbrev few : (factor mb : ℕ) → Bool
few factor mb = if leb 1 (blocks factor mb) then leb (blocks factor mb) 362 else false

few_all :
    (all_below 64 (few 1) ≡ true)
    × (all_below 64 (few 2) ≡ true)
    × (all_below 64 (few 4) ≡ true)
    × (all_below 64 (few 6) ≡ true)
unfolding rounded_up
few_all = (refl, refl, refl, refl)

both : (n : ℕ) → (if leb 1 n then leb n 362 else false) ≡ true → (1 ≤ n) × (n ≤ 362)
both n h = (ground arith, ground arith)

few-bounds :
    (factor mb : ℕ)
    → all_below 64 (few factor) ≡ true
    → mb < 64
    → (1 ≤ blocks factor mb) × (blocks factor mb ≤ 362)
few-bounds factor mb all h = both (blocks factor mb) (all_below-lt 64 mb (few factor) all h)

-- The parameters of a packet that fits into the buffer, and into its fields.
abbrev pub Sendable : Mm2sFirst → Type 0
Sendable m = (m.modulation < 4) × (m.mb < 64) × ((1 ≤ m.ldpc_num) × (m.ldpc_num ≤ 362))

modu_cal-bounds :
    (modu mb : ℕ)
    → modu < 4
    → mb < 64
    → (factor : ℕ) × (modu_cal modu ≡ some factor)
      × ((1 ≤ blocks factor mb) × (blocks factor mb ≤ 362))
unfolding modu_cal
modu_cal-bounds zero mb h l = (1, refl, few-bounds 1 mb few_all.0 l)
modu_cal-bounds (suc zero) mb h l = (2, refl, few-bounds 2 mb few_all.1 l)
modu_cal-bounds (suc (suc zero)) mb h l = (4, refl, few-bounds 4 mb few_all.2 l)
modu_cal-bounds (suc (suc (suc zero))) mb h l = (6, refl, few-bounds 6 mb few_all.3 l)
modu_cal-bounds (suc (suc (suc (suc n)))) mb h l = absurd (omega arith)

rand_btw-lt :
    (rand : ℕ → ℕ) (time : ℕ)
    → (rand_btw rand time 0 63 ≡ rand time % 64) × (rand_btw rand time 0 3 ≡ rand time % 4)
unfolding rand_btw
rand_btw-lt rand time = (omega arith, omega arith)

-- The parameters that are drawn fit; `mb` and the modulation are the remainders of what `rand` answers
-- after it was given the two times, so that in one second the modulation is `mb % 4`.
pub random_mm2s-Sendable :
    (rand : ℕ → ℕ) (time time' : ℕ)
    → (m : Mm2sFirst) × (random_mm2s rand time time' ≡ some m)
      × Sendable m
      × (m.mb ≡ rand time % 64)
      × (m.modulation ≡ rand time' % 4)
unfolding random_mm2s
random_mm2s-Sendable rand time time' =
    let mb = (rand_btw-lt rand time).0 in
    let modu = (rand_btw-lt rand time').1 in
    let (factor, e, few) =
      modu_cal-bounds (rand_btw rand time' 0 3) (rand_btw rand time 0 63) (omega (arith, modu))
        (omega (arith, mb)) in
    (
      record {
        modulation = rand_btw rand time' 0 3;
        mb = rand_btw rand time 0 63;
        ldpc_num = blocks factor (rand_btw rand time 0 63);
      },
      rw e refl,
      (omega (arith, modu), omega (arith, mb), few),
      mb,
      modu,
    )

pub choose_mm2s-Sendable :
    (random_flag : ℕ) (rand : ℕ → ℕ) (time time' : ℕ)
    → (m : Mm2sFirst) × (choose_mm2s random_flag rand time time' ≡ some m) × Sendable m
unfolding choose_mm2s
choose_mm2s-Sendable zero rand time time' =
    let (m, e, fits, _, _) = random_mm2s-Sendable rand time time' in (m, e, fits)
choose_mm2s-Sendable (suc zero) rand time time' =
    (_, refl, (omega arith, omega arith, (omega arith, omega arith)))
choose_mm2s-Sendable (suc (suc n)) rand time time' = (
  record { modulation = 3; mb = 0; ldpc_num = 362 },
  rw (other n, other' n) refl,
  (omega arith, omega arith, (omega arith, omega arith)),
)
  where
    other : (n : ℕ) → (suc (suc n) == 0) ≡ false
    other n = ground arith

    other' : (n : ℕ) → (suc (suc n) == 1) ≡ false
    other' n = ground arith
