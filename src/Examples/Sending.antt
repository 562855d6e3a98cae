-- ===== src/Examples/Sending.antt =====
-- The packet that the program puts into its buffer.
use axidma_driver.Common.{
  ℕ, zero, suc, ◌+◌, ◌-◌, ◌*◌, ◌/◌, ◌%◌, ◌≤◌, ◌≡◌, ◌∙◌, refl, sym, ap, arith, none, some, List, [],
  ◌∷◌, ◌++◌, length, length-append, length-replicate, replicate, append-nil,
}
use axidma_driver.Examples.Packets.{Mm2sFirst, revert_char, memcpy, swap_ends, store}
use axidma_driver.Examples.Mm2s.{
  mm2s_packet, clean_tx_data, init_tx_data, fill_longs, datalen_inbyte, max_size, ldpc_k,
}
use axidma_driver.Examples.Bits.{nth, cells, nth-cells, packed}
use axidma_driver.Examples.Layout.{layout, constr_m2s-packed}
use axidma_driver.Examples.Filling.{
  clean_loop-Fills, fill_longs-Fills, pattern_longs, length-pattern_longs,
}
use axidma_driver.Examples.Draws.{Sendable}

abbrev pub zeros : ℕ → List ℕ
zeros n = replicate n 0

pub length-zeros : (n : ℕ) → length (zeros n) ≡ n
length-zeros n = length-replicate n 0

-- The chars of a packet, the last first.
abbrev pub head_of : Mm2sFirst → List ℕ
head_of m = cells 8 (λ q. nth (packed (nth (layout m))) (7 - q))

-- The longs behind the head, and 0 behind them.
abbrev pub data_of : Mm2sFirst → List ℕ
data_of m = pattern_longs (88 * m.ldpc_num) 0 ++ zeros (max_size - 8 - 704 * m.ldpc_num)

-- The buffer with a packet.
abbrev pub sent : Mm2sFirst → List ℕ
sent m = head_of m ++ data_of m

pub length-sent : (m : Mm2sFirst) → m.ldpc_num ≤ 362 → length (sent m) ≡ max_size
length-sent m h =
    let tail = max_size - 8 - 704 * m.ldpc_num in
    let longs = pattern_longs (88 * m.ldpc_num) 0 in
    omega (
      arith,
      h,
      length-append longs (zeros tail),
      length-pattern_longs (88 * m.ldpc_num) 0,
      length-zeros tail,
    )

pub replicate_split : (a b n : ℕ) → n ≡ a + b → zeros n ≡ zeros a ++ zeros b
replicate_split zero b n e = ap zeros (omega (arith, e))
replicate_split (suc a) b zero e = absurd (omega (arith, e))
replicate_split (suc a) b (suc n) e = ap (λ xs. 0 ∷ xs) (replicate_split a b n (omega (arith, e)))

clean_lem :
    (size : ℕ) (tx_buf : List ℕ)
    → length tx_buf ≡ size
    → clean_tx_data size tx_buf ≡ some (replicate size 0)
unfolding clean_tx_data
clean_lem size tx_buf h =
    let cleaned = clean_loop-Fills size 0 [] tx_buf [] refl (h ∙ sym (length-zeros size)) in
    rw (append-nil tx_buf, append-nil (zeros size)) at cleaned

headed_lem :
    (c : ℕ → ℕ) (room : ℕ) (front rest : List ℕ)
    → length front ≡ 8
    → memcpy 8 (front ++ rest) (cells 8 c ++ (room ∷ [])) ≡ some (cells 8 c ++ rest)
unfolding memcpy
headed_lem c room front rest h = rw (nth-cells 8 front h) refl

reversed_lem :
    (c : ℕ → ℕ) (after room : ℕ)
    → revert_char (cells 8 c ++ (after ∷ [])) 8 (replicate 8 0 ++ (room ∷ []))
      ≡ some (cells 8 (λ q. c (7 - q)) ++ (after ∷ []))
unfolding revert_char memcpy swap_ends store
reversed_lem c after room = refl

-- Without padding, the ninth cell is outside of the array.
overrun_lem :
    (c : ℕ → ℕ) (after : ℕ) → revert_char (cells 8 c ++ (after ∷ [])) 8 (replicate 8 0 ++ []) ≡ none
unfolding revert_char memcpy
overrun_lem c after = refl

datalen_lem : (n : ℕ) → datalen_inbyte (n * ldpc_k) ≡ 704 * n
unfolding datalen_inbyte
datalen_lem n = ground arith

init_lem :
    (n : ℕ) (front old rest : List ℕ)
    → length front ≡ 8
    → length old ≡ 704 * n
    → init_tx_data 8 (704 * n) (front ++ (old ++ rest))
      ≡ some (front ++ (pattern_longs (88 * n) 0 ++ rest))
unfolding init_tx_data fill_longs
init_lem n front old rest h l =
    let a : 704 * n / 8 ≡ 88 * n = omega arith in
    let b : 704 * n % 8 ≡ 0 = omega arith in
    rw
      (
        a,
        b,
        fill_longs-Fills (88 * n) 0 8 front old rest h
            (omega (arith, l, length-pattern_longs (88 * n) 0)),
      )
      refl

-- The run leaves the array `pack_r` if there is no padding behind it.
pub mm2s_packet_overruns :
    (memory tx_buf : List ℕ) (after after' : ℕ) (m : Mm2sFirst)
    → length memory ≡ 65
    → length tx_buf ≡ max_size
    → Sendable m
    → mm2s_packet (some memory) after after' [] m tx_buf ≡ none
unfolding mm2s_packet
mm2s_packet_overruns memory tx_buf after after' m h l (modulation, _, _) =
    rw
      (
        nth-cells 65 memory h,
        clean_lem max_size tx_buf l,
        constr_m2s-packed (nth memory) (nth (zeros 8)) after m.modulation m.mb m.ldpc_num
            modulation,
        overrun_lem (nth (packed (nth (layout m)))) after',
      )
      refl

-- Whatever the memory holds that is used for it, the program sends the packet with the parameters, and
-- all of its data, from a buffer that has room for it, if there is a cell of padding behind `pack_r`.
pub mm2s_packet-sent :
    (memory tx_buf : List ℕ) (after after' room : ℕ) (m : Mm2sFirst)
    → length memory ≡ 65
    → length tx_buf ≡ max_size
    → Sendable m
    → mm2s_packet (some memory) after after' (room ∷ []) m tx_buf
      ≡ some (sent m, 704 * m.ldpc_num + 8)
unfolding mm2s_packet
mm2s_packet-sent memory tx_buf after after' room m h l (modulation, _, (_, few)) =
    let c = nth (packed (nth (layout m))) in
    let tail = max_size - 8 - 704 * m.ldpc_num in
    let built =
      constr_m2s-packed (nth memory) (nth (zeros 8)) after m.modulation m.mb m.ldpc_num
        modulation in
    let cut = replicate_split 8 (704 * m.ldpc_num + tail) max_size (omega (arith, few)) in
    let cut' = replicate_split (704 * m.ldpc_num) tail (704 * m.ldpc_num + tail) refl in
    let filled =
      init_lem m.ldpc_num (head_of m) (zeros (704 * m.ldpc_num)) (zeros tail) refl
        (length-zeros (704 * m.ldpc_num)) in
    rw
      (
        nth-cells 65 memory h,
        clean_lem max_size tx_buf l,
        built,
        reversed_lem c after' room,
        cut,
        cut',
      )
      (rw
        (
          headed_lem (λ q. c (7 - q)) after' (zeros 8) (zeros (704 * m.ldpc_num) ++ zeros tail)
              refl,
          datalen_lem m.ldpc_num,
          filled,
        )
        refl)
