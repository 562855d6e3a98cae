-- ===== src/Examples/Clearing.antt =====
-- The buffer that examples/interdma.c clears before it receives, and copies afterwards.
use axidma_driver.Common.{
  ℕ, zero, suc, ◌+◌, ◌*◌, ◌/◌, ◌%◌, ◌≡◌, ◌∙◌, refl, sym, ap, arith, some, List, [], ◌++◌,
  append-nil, length, ◌∷◌,
}
use axidma_driver.Examples.Packets.{memcpy}
use axidma_driver.Examples.Mm2s.{store_bytes, max_size}
use axidma_driver.Examples.S2mm.{
  clear_longs, clear_bytes, clean_rx_data, get_info, process_s2mm, s2mm_packet,
}
use axidma_driver.Examples.Filling.{Fills, then-Fills, none-Fills, store_bytes-Fills, bytes_of}
use axidma_driver.Examples.Sending.{zeros, length-zeros, replicate_split}

abbrev zero_longs : ℕ → List ℕ
zero_longs zero = []
zero_longs (suc n) = bytes_of 8 0 ++ zero_longs n

zero_longs-zeros : (n : ℕ) → zero_longs n ≡ zeros (8 * n)
zero_longs-zeros zero = refl
zero_longs-zeros (suc n) =
    ap (λ xs. zeros 8 ++ xs) (zero_longs-zeros n)
    ∙ sym (replicate_split 8 (8 * n) (8 * suc n) (omega arith))

clear_longs-Fills : (n i : ℕ) → Fills (clear_longs n i) (8 * i) (zero_longs n)
unfolding clear_longs
clear_longs-Fills zero i = none-Fills (8 * i)
clear_longs-Fills (suc n) i =
    then-Fills (store_bytes 8 (8 * i) 0) (clear_longs n (i + 1)) (8 * i) (bytes_of 8 0)
      (zero_longs n) (store_bytes-Fills 8 (8 * i) 0)
      (λ front old rest h g. clear_longs-Fills n (i + 1) front old rest (omega (arith, h)) g)

-- A buffer of whole longs is cleared, whatever it held.
pub clean_rx_data-zeros :
    (n : ℕ) (rx_buf : List ℕ)
    → length rx_buf ≡ 8 * n
    → clean_rx_data (8 * n) rx_buf ≡ some (zeros (8 * n))
unfolding clean_rx_data clear_bytes
clean_rx_data-zeros n rx_buf h =
    let a : 8 * n / 8 ≡ n = omega arith in
    let b : 8 * n % 8 ≡ 0 = omega arith in
    let content = zero_longs-zeros n in
    let room = h ∙ sym (length-zeros (8 * n)) ∙ ap length (sym content) in
    let cleared = clear_longs-Fills n 0 [] rx_buf [] refl room in
    rw (a, b, rw (append-nil rx_buf, append-nil (zero_longs n), content) at cleared) refl

memcpy-all :
    (n : ℕ) (memory source : List ℕ)
    → length memory ≡ n
    → length source ≡ n
    → memcpy n memory source ≡ some source
unfolding memcpy
memcpy-all zero [] [] h k = refl
memcpy-all zero [] (x ∷ source) h k = absurd (omega arith)
memcpy-all zero (x ∷ memory) source h k = absurd (omega arith)
memcpy-all (suc n) [] source h k = absurd (omega arith)
memcpy-all (suc n) (x ∷ memory) [] h k = absurd (omega arith)
memcpy-all (suc n) (x ∷ memory) (y ∷ source) h k =
    rw (memcpy-all n memory source (omega (arith, h)) (omega (arith, k))) refl

-- The thread sees what is in the buffer.
pub s2mm_packet-get_info :
    (fresh memory : List ℕ) (after : ℕ) (rx_buf : List ℕ)
    → length memory ≡ max_size
    → length rx_buf ≡ max_size
    → s2mm_packet (some fresh) (some memory) after rx_buf ≡ get_info (some fresh) after rx_buf
unfolding s2mm_packet process_s2mm
s2mm_packet-get_info fresh memory after rx_buf h k = rw (memcpy-all max_size memory rx_buf h k) refl
