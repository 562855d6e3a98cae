-- ===== src/Examples/Verification.antt =====
-- What the benchmark's check of its buffers accepts.
use mathlib.Core.Option.{some-injective}
use mathlib.Core.List.{head-eq_of_cons-eq, tail-eq_of_cons-eq}
use axidma_driver.Common.{
  ℕ, zero, suc, ◌+◌, ◌*◌, ◌/◌, ◌%◌, ◌≤◌, ◌==◌, ◌≡◌, ◌≢◌, ◌↔◌, ◌∙◌, refl, sym, ap, inl, inr, Bool,
  true, false, not, some, List, [], ◌∷◌, arith, get_elem?, length, set, ==_iff, Bool-cases, take,
  ◌++◌, append-nil, append_assoc, take-length, take-suc-set, length-set, lt→ltb, get_elem?-lt,
}
use axidma_driver.Examples.Packets.{store}
use axidma_driver.Examples.Files.{drop}
use axidma_driver.Examples.Benchmark.{
  test_pattern, fill_words, fill_bytes, init_data, compare_with, count_same, verify_data,
}

-- The pattern in the `n` words from `i` on.
abbrev pub expected : (n i : ℕ) (pattern : ℕ → ℕ) → List ℕ
expected zero i pattern = []
expected (suc n) i pattern = pattern i ∷ expected n (i + 1) pattern

fill_words_lem :
    (n i : ℕ) (f : ℕ → ℕ) (buf : List ℕ)
    → length buf ≡ i + n
    → fill_words n i f buf ≡ some (take i buf ++ expected n i f)
unfolding fill_words store
fill_words_lem zero i f buf h =
    ap some (sym (append-nil (take i buf) ∙ take-length buf i (omega arith)))
fill_words_lem (suc n) i f buf h =
    let next : i + 1 ≡ suc i = omega arith in
    rw (lt→ltb i (length buf) (omega arith)) (
      fill_words_lem n (i + 1) f (set buf i (f i)) (omega (arith, length-set buf i (f i)))
      ∙ ap (λ xs. some (xs ++ expected n (i + 1) f))
          (ap (λ k. take k (set buf i (f i))) next ∙ take-suc-set buf i (f i) (omega arith))
      ∙ ap some (append_assoc (take i buf) (f i ∷ []) (expected n (i + 1) f)))

-- The words from `i` on are the next word, and those behind it.
drop-next :
    (buf : List ℕ) (i : ℕ) (w : ℕ) → get_elem? buf i ≡ some w → drop i buf ≡ w ∷ drop (i + 1) buf
drop-next [] i w h = absurd (cc)
drop-next (x ∷ buf) zero w h = ap (λ y. y ∷ buf) (some-injective _ _ h)
drop-next (x ∷ buf) (suc i) w h =
    let next : suc i + 1 ≡ suc (i + 1) = omega arith in rw next (drop-next buf i w h)

drop-all : (buf : List ℕ) (i : ℕ) → length buf ≡ i → drop i buf ≡ []
drop-all [] zero h = refl
drop-all [] (suc i) h = refl
drop-all (x ∷ buf) zero h = absurd (omega arith)
drop-all (x ∷ buf) (suc i) h = drop-all buf i (omega arith)

cons_agrees : (w v : ℕ) (xs ys zs : List ℕ) → xs ≡ w ∷ ys → w ≡ v → (xs ≡ v ∷ zs) ↔ (ys ≡ zs)
cons_agrees w v xs ys zs split e =
    (λ h. tail-eq_of_cons-eq (sym split ∙ h), λ h. split ∙ rw (e, h) refl)

cons_differs : (w v : ℕ) (xs ys zs : List ℕ) → xs ≡ w ∷ ys → w ≢ v → xs ≢ v ∷ zs
cons_differs w v xs ys zs split n h = n (head-eq_of_cons-eq (sym split ∙ h))

false-true : false ≢ true
false-true h = cc

-- A comparison that ends, and whether what it has read is what is expected.
compare_with_lem :
    (n i : ℕ) (f : ℕ → ℕ) (buf : List ℕ)
    → length buf ≡ i + n
    → (b : Bool) × (compare_with (get_elem? buf) n i f ≡ some b)
      × ((b ≡ true) ↔ (drop i buf ≡ expected n i f))
unfolding compare_with
compare_with_lem zero i f buf h = (true, refl, (λ _. drop-all buf i (omega arith), λ _. refl))
compare_with_lem (suc n) i f buf h =
    let (w, there) = get_elem?-lt buf i (omega arith) in
    let (b, run, decides) = compare_with_lem n (i + 1) f buf (omega arith) in
    let next = drop-next buf i w there in
    elim (Bool-cases (w == f i)) [
      | inl y ↦
          let e : w ≡ f i = (==_iff w (f i)).0 y in
          let same = cons_agrees w (f i) (drop i buf) (drop (i + 1) buf) _ next e in
          (b, rw (there, y) run, (λ x. same.1 (decides.0 x), λ x. decides.1 (same.0 x)))
      | inr k ↦
          let n : w ≢ f i = λ e. false-true (sym k ∙ (==_iff w (f i)).1 e) in
          (
            false,
            rw (there, k) refl,
            (
              λ x. absurd (false-true x),
              λ x. absurd (cons_differs w (f i) (drop i buf) (drop (i + 1) buf) _ next n x),
            ),
          )
    ]

-- A count that ends, and whether all that it has read is what is expected.
count_same_lem :
    (n i same : ℕ) (f : ℕ → ℕ) (buf : List ℕ)
    → length buf ≡ i + n
    → (k : ℕ) × (count_same (get_elem? buf) n i f same ≡ some (same + k))
      × (k ≤ n)
      × ((k ≡ n) ↔ (drop i buf ≡ expected n i f))
unfolding count_same
count_same_lem zero i same f buf h =
    (0, ap some (omega arith), omega arith, (λ _. drop-all buf i (omega arith), λ _. refl))
count_same_lem (suc n) i same f buf h =
    let (w, there) = get_elem?-lt buf i (omega arith) in
    let next = drop-next buf i w there in
    elim (Bool-cases (w == f i)) [
      | inl y ↦
          let (k, run, below, decides) = count_same_lem n (i + 1) (same + 1) f buf (omega arith) in
          let e : w ≡ f i = (==_iff w (f i)).0 y in
          let agree =
            cons_agrees w (f i) (drop i buf) (drop (i + 1) buf) (expected n (i + 1) f) next e in
          let sum : same + 1 + k ≡ same + suc k = omega arith in
          (
            suc k,
            rw (there, y) (run ∙ ap some sum),
            omega (arith, below),
            (λ x. agree.1 (decides.0 (omega (arith, x))), λ x. ap suc (decides.1 (agree.0 x))),
          )
      | inr m ↦
          let (k, run, below, decides) = count_same_lem n (i + 1) same f buf (omega arith) in
          let n' : w ≢ f i = λ e. false-true (sym m ∙ (==_iff w (f i)).1 e) in
          (
            k,
            rw (there, m) run,
            omega (arith, below),
            (
              λ x. absurd (omega (arith, x, below)),
              λ x. absurd (cons_differs w (f i) (drop i buf) (drop (i + 1) buf) _ next n' x),
            ),
          )
    ]

not_same : (k m : ℕ) → (not (0 + k == m + 0) ≡ true) ↔ (k ≢ m)
not_same k m = elim (Bool-cases (0 + k == m + 0)) [
  | inl y ↦
      let e = (==_iff (0 + k) (m + 0)).0 y in
      rw y (λ h. absurd (false-true h), λ n. absurd (n (omega (arith, e))))
  | inr d ↦
      rw d (λ _ e. false-true (sym d ∙ (==_iff (0 + k) (m + 0)).1 (omega (arith, e))), λ _. refl)
]

-- For sizes that are whole numbers of words, and buffers of that size: the buffers are filled; and
-- whatever a transfer leaves in them, the check returns 0 exactly if the transmit buffer is as it was
-- filled and the receive buffer is not.
pub verify_data-init_data :
    (n m : ℕ) (tx_buf rx_buf tx' rx' : List ℕ)
    → length tx_buf ≡ n
    → length rx_buf ≡ m
    → length tx' ≡ n
    → length rx' ≡ m
    → (tx rx : List ℕ) × (init_data tx_buf rx_buf (n * 4) (m * 4) ≡ some (tx, rx))
      × ((verify_data tx' rx' (n * 4) (m * 4) ≡ some true) ↔ ((tx' ≡ tx) × (rx' ≢ rx)))
unfolding init_data verify_data fill_bytes compare_with count_same
verify_data-init_data n m tx_buf rx_buf tx' rx' htx hrx htx' hrx' =
    let f = λ (i : ℕ). test_pattern (i + n * 4) in
    let (b, run, decides) = compare_with_lem n 0 test_pattern tx' (omega arith) in
    let (k, counted, below, all) = count_same_lem m 0 0 f rx' (omega arith) in
    let wn : n * 4 / 4 ≡ n = omega arith in
    let bn : n * 4 % 4 ≡ 0 = omega arith in
    let wm : m * 4 / 4 ≡ m = omega arith in
    let bm : m * 4 % 4 ≡ 0 = omega arith in
    (
      expected n 0 test_pattern,
      expected m 0 f,
      rw (wn, bn, wm, bm)
          (rw (fill_words_lem n 0 test_pattern tx_buf (omega arith))
            (rw (fill_words_lem m 0 f rx_buf (omega arith)) refl)),
      elim (Bool-cases b) [
        | inl same ↦
            let v : verify_data tx' rx' (n * 4) (m * 4) ≡ some (not (0 + k == m + 0)) =
              rw (wn, bn, wm, bm) (rw (run, same) (rw counted refl)) in
            (
              λ h. (
                decides.0 same,
                λ e. (not_same k m).0 (some-injective _ _ (sym v ∙ h)) (all.1 e),
              ),
              λ h. v ∙ ap some ((not_same k m).1 (λ e. h.1 (all.0 e))),
            )
        | inr other ↦
            let v : verify_data tx' rx' (n * 4) (m * 4) ≡ some false =
              rw (wn, bn) (rw (run, other) refl) in
            (
              λ h. absurd (false-true (some-injective _ _ (sym v ∙ h))),
              λ h. absurd (false-true (sym other ∙ decides.1 h.0)),
            )
      ],
    )
