-- ===== src/DeviceTree/Unique.antt =====
-- Channel ids are unique, so an id names one channel.
use mathlib.Core.Option.{some-injective}
use axidma_driver.Common.{
  ℕ, subst, ==_ne, zero, suc, ◌≡◌, ◌≢◌, ◌↔◌, inl, inr, refl, false, some, List, [], ◌∷◌, get_elem?,
  All, arith, Bool-cases,
}
use axidma_driver.Types.{AxidmaChan, einval}
use axidma_driver.Kernel.{State, ok, err}
use axidma_driver.Kernel.Ends.{Outcome, returns, fails}
use axidma_driver.DeviceTree.{id_clashes, any_clash, axidma_check_unique_ids}
use axidma_driver.Dma.Engine.{find_chan}

-- No two channels of the list have the same id.
abbrev pub Distinct : List AxidmaChan → Type 0
Distinct [] = Unit
Distinct (c ∷ cs) = All (λ d. c.channel_id ≢ d.channel_id) cs × Distinct cs

id_clashes-All :
    (id : ℕ) (cs : List AxidmaChan) → id_clashes id cs ≡ false → All (λ d. id ≢ d.channel_id) cs
unfolding id_clashes
id_clashes-All id [] h = tt
id_clashes-All id (c ∷ cs) h = ground (arith, id_clashes-All id cs)

id_clashes_none :
    (id : ℕ) (cs : List AxidmaChan) → All (λ d. id ≢ d.channel_id) cs → id_clashes id cs ≡ false
unfolding id_clashes
id_clashes_none id [] h = refl
id_clashes_none id (c ∷ cs) h = ground (arith, id_clashes_none id cs h.1)

any_clash-Distinct : (cs : List AxidmaChan) → any_clash cs ≡ false → Distinct cs
unfolding any_clash
any_clash-Distinct [] h = tt
any_clash-Distinct (c ∷ cs) h =
    ground (arith, id_clashes-All c.channel_id cs, any_clash-Distinct cs)

any_clash_none : (cs : List AxidmaChan) → Distinct cs → any_clash cs ≡ false
unfolding any_clash
any_clash_none [] h = refl
any_clash_none (c ∷ cs) h =
    ground (arith, id_clashes_none c.channel_id cs h.0, any_clash_none cs h.1)

-- The check changes nothing; it accepts exactly the devices whose channel ids are distinct, and
-- rejects exactly the others, with -EINVAL.
pub check_unique_ids_iff :
    (s : State)
    → ((axidma_check_unique_ids s ≡ ok tt s) ↔ Distinct s.dev.channels)
      × ((axidma_check_unique_ids s ≡ err einval s) ↔ ¬ Distinct s.dev.channels)
unfolding axidma_check_unique_ids
check_unique_ids_iff s = (
  (
    λ h. any_clash-Distinct s.dev.channels (ground arith),
    λ d. rw (any_clash_none s.dev.channels d),
  ),
  (
    λ h d. ground (arith, any_clash_none s.dev.channels d),
    λ n. elim (Bool-cases (any_clash s.dev.channels)) [
      | inl y ↦ rw y
      | inr y ↦ absurd (n (any_clash-Distinct s.dev.channels y))
    ],
  ),
)

pub check_unique_ids-Outcome :
    (s : State)
    → Outcome (λ _ s'. (s' ≡ s) × Distinct s.dev.channels) (λ _. Unit) (axidma_check_unique_ids s)
unfolding axidma_check_unique_ids
check_unique_ids-Outcome s = elim (Bool-cases (any_clash s.dev.channels)) [
  | inl y ↦ rw y (fails tt)
  | inr y ↦ rw y (returns (refl, any_clash-Distinct s.dev.channels y))
]

pub All-get {ℓ} :
    {A : Type 0} (P : A → Type ℓ) (xs : List A) (i : ℕ) {x : A}
    → All P xs
    → get_elem? xs i ≡ some x
    → P x
All-get P [] i h e = cc
All-get P (y ∷ ys) zero h e = subst P (some-injective _ _ e) h.0
All-get P (y ∷ ys) (suc i) h e = All-get P ys i h.1 e

-- On a device whose ids are distinct, the lookup of a channel's id returns that channel, wherever it
-- stands in the array.
pub find_chan_at :
    (cs : List AxidmaChan) (i : ℕ) (c : AxidmaChan)
    → Distinct cs
    → get_elem? cs i ≡ some c
    → find_chan c.channel_id cs ≡ some c
unfolding find_chan
find_chan_at [] i c d h = cc
find_chan_at (x ∷ xs) zero c d h = ground (arith, some-injective _ _ h)
find_chan_at (x ∷ xs) (suc i) c d h =
    rw (==_ne x.channel_id c.channel_id (All-get _ xs i d.0 h)) (find_chan_at xs i c d.1 h)
