-- ===== src/Tests/Programs.antt =====
-- The helpers of the programs on a packet, a number and a file.
use axidma_driver.Common.{
  none, Option, ℕ, zero, suc, ◌+◌, ◌≡◌, ◌⊎◌, inl, inr, refl, some, List, [], ◌∷◌, ◌++◌, map, arith,
  length, replicate, append-nil, take, sym, ◌≤◌, ◌≢◌, ◌↔◌, true, false, Bool,
}
use axidma_driver.Examples.Packets.{
  Mm2sFirst, constr_m2s, get_head_m2s, get_param_m2s, char2bit, bit2char, long2char, itobs, store,
  qam64,
}
use axidma_driver.Examples.Digits.{itobs_agrees}
use axidma_driver.Examples.Layout.{get_param_m2s-constr_m2s}
use axidma_driver.Examples.Benchmark.{
  init_data, verify_data, test_pattern, xor, fill_words, fill_bytes, get_byte, set_byte,
  compare_with, count_same,
}
use axidma_driver.Examples.Verification.{verify_data-init_data}
use axidma_driver.Examples.Files.{File, Transfer, done, robust_read, robust_write}
use axidma_driver.Examples.Reading.{IsSource}
use axidma_driver.Examples.Copying.{IsTarget, robust_write-robust_read}

abbrev parameters : Mm2sFirst
parameters = record { modulation = qam64; mb = 37; ldpc_num = 300 }

get_param_m2s-constr_m2s_example :
    (packet bits : List ℕ) × (constr_m2s (some (replicate 65 7)) 99 parameters (replicate 8 255)
      ≡ some packet)
    × (get_head_m2s packet ≡ some 1234)
    × (char2bit packet 8 (replicate 65 2) ≡ some bits)
    × (get_param_m2s (some (replicate 65 0)) bits ≡ some parameters)
get_param_m2s-constr_m2s_example =
    get_param_m2s-constr_m2s (replicate 65 7) (replicate 65 0) (replicate 8 255) (replicate 65 2) 99
      parameters refl refl refl refl (omega arith) (omega arith) (omega arith)

itobs_agrees_example :
    (chars bits : List ℕ) × (long2char 8 0x0102DEADBEEF (replicate 8 1) ≡ some chars)
    × (char2bit chars 8 (replicate 64 9) ≡ some bits)
    × (itobs 8 0x0102DEADBEEF (replicate 65 5) ≡ some (map (λ b. b + 48) bits ++ (0 ∷ [])))
    × (bit2char bits 8 (replicate 8 200) ≡ some chars)
itobs_agrees_example =
    itobs_agrees 8 0x0102DEADBEEF (replicate 65 5) (replicate 8 1) (replicate 64 9)
      (replicate 8 200) (inr refl) refl refl refl refl

-- A file that is its bytes, and that takes and gives one at a time.
abbrev read_byte : List ℕ → ℕ → Transfer (List ℕ) × List ℕ
read_byte s zero = (done [], s)
read_byte [] (suc n) = (done [], [])
read_byte (b ∷ s) (suc n) = (done (b ∷ []), s)

abbrev write_byte : List ℕ → List ℕ → Transfer ℕ × List ℕ
write_byte t [] = (done 0, t)
write_byte t (b ∷ bs) = (done 1, t ++ (b ∷ []))

abbrev pub bytewise : File (List ℕ)
bytewise = record { read = read_byte; write = write_byte }

bytewise-IsSource : IsSource bytewise (λ s. s)
bytewise-IsSource = record { reads = reads }
  where
    reads :
        (s : List ℕ) (count : ℕ)
        → (bs s' : List ℕ) × (read_byte s count ≡ (done bs, s'))
          × (s ≡ bs ++ s')
          × (length bs ≤ count)
          × ((count ≡ 0) ⊎ (s' ≡ []) ⊎ (1 ≤ length bs))
    reads s zero = ([], s, refl, refl, omega arith, inl refl)
    reads [] (suc n) = ([], [], refl, refl, omega arith, inr (inl refl))
    reads (b ∷ s) (suc n) = (b ∷ [], s, refl, refl, omega arith, inr (inr (omega arith)))

bytewise-IsTarget : IsTarget bytewise (λ t. t)
bytewise-IsTarget = record { writes = writes }
  where
    writes :
        (t bs : List ℕ)
        → (n : ℕ) × (t' : List ℕ) × (write_byte t bs ≡ (done n, t'))
          × (t' ≡ t ++ take n bs)
          × (n ≤ length bs)
          × ((length bs ≡ 0) ⊎ (1 ≤ n))
    writes t [] = (0, t, refl, sym (append-nil t), omega arith, inl refl)
    writes t (b ∷ bs) = (1, t ++ (b ∷ []), refl, refl, omega arith, inr (omega arith))

robust_write-robust_read_example :
    (bs buf' s' t' : List ℕ) × (robust_read bytewise 3 (0 ∷ 0 ∷ []) 2 (1 ∷ 2 ∷ 3 ∷ [])
      ≡ some (done (length bs), buf', s'))
    × (robust_write bytewise (length bs + 1) buf' (length bs) (9 ∷ [])
        ≡ some (done (length bs), t'))
    × ((1 ∷ 2 ∷ 3 ∷ []) ≡ bs ++ s')
    × (t' ≡ (9 ∷ []) ++ bs)
    × ((length bs ≡ 2) ⊎ (s' ≡ []))
robust_write-robust_read_example =
    robust_write-robust_read bytewise (λ s. s) bytewise (λ t. t) (0 ∷ 0 ∷ []) (1 ∷ 2 ∷ 3 ∷ [])
      (9 ∷ []) bytewise-IsSource bytewise-IsTarget

verify_data-init_data_example :
    (tx rx : List ℕ) × (init_data (0 ∷ 0 ∷ []) (5 ∷ []) 8 4 ≡ some (tx, rx))
    × ((verify_data (0x1234ACDE ∷ 0x1234ACDF ∷ []) (77 ∷ []) 8 4 ≡ some true)
        ↔ (((0x1234ACDE ∷ 0x1234ACDF ∷ []) ≡ tx) × ((77 ∷ []) ≢ rx)))
verify_data-init_data_example =
    verify_data-init_data 2 1 (0 ∷ 0 ∷ []) (5 ∷ []) (0x1234ACDE ∷ 0x1234ACDF ∷ []) (77 ∷ []) refl
      refl refl refl

-- The pattern of the first two words.
pattern_runs : (test_pattern 0 ≡ 0x1234ACDE) × (test_pattern 1 ≡ 0x1234ACDF)
unfolding test_pattern xor
pattern_runs = (refl, refl)

-- A buffer of five bytes does not pass the check, even if nothing has touched it.
abbrev unaligned : Option (List ℕ × List ℕ) → Option Bool
unaligned none = none
unaligned (some (tx, rx)) = verify_data tx (9 ∷ []) 5 4

unaligned_runs : unaligned (init_data (0 ∷ 0 ∷ []) (0 ∷ []) 5 4) ≡ some false
unfolding verify_data init_data fill_words fill_bytes get_byte set_byte store compare_with
    count_same test_pattern xor
unaligned_runs = refl
