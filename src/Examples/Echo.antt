-- ===== src/Examples/Echo.antt =====
-- A packet that the program sends, and gets back unchanged.
use axidma_driver.Common.{
  ℕ, zero, suc, ◌+◌, ◌-◌, ◌*◌, ◌/◌, ◌%◌, ◌^◌, ◌≤◌, ◌<◌, ◌≡◌, ◌∙◌, refl, sym, ap, subst, arith, none,
  some, List, [], ◌∷◌, ◌++◌, length, replicate, map,
}
use axidma_driver.Examples.Packets.{
  Mm2sFirst, S2mmFirst, long2char, long2char_loop, store, char2bit, char2bit_loop, get_param_s2m,
  get_head_s2m, read_bits, revert_char, memcpy, swap_ends,
}
use axidma_driver.Examples.Mm2s.{mm2s_packet, choose_mm2s, max_size}
use axidma_driver.Examples.S2mm.{get_info, s2mm_packet, load_long, load_bytes, Report}
use axidma_driver.Examples.Bits.{nth, cells, nth-cells, packed, byte, byte-cells, append_eq}
use axidma_driver.Examples.Layout.{layout, two_digits, six_digits, nine_digits}
use axidma_driver.Examples.Draws.{Sendable, choose_mm2s-Sendable}
use axidma_driver.Examples.Sending.{
  sent, data_of, length-sent, mm2s_packet_overruns, mm2s_packet-sent,
}
use axidma_driver.Examples.Clearing.{s2mm_packet-get_info}
use axidma_driver.Examples.Shown.{upto, show_longs-Shows}

-- The number that has the bytes `c 7`, ..., `c 0`.
abbrev joined : (ℕ → ℕ) → ℕ
joined c =
    c 7
    + 256
      * (c 6
          + 256
            * (c 5 + 256 * (c 4 + 256 * (c 3 + 256 * (c 2 + 256 * (c 1 + 256 * (c 0 + 256 * 0)))))))

joined-bytes :
    (c : ℕ → ℕ)
    → ((q : ℕ) → c q < 256)
    → cells 8 (λ q. joined c / 2 ^ ((7 - q) * 8) % 256) ≡ cells 8 c
joined-bytes c small =
    let e0 : joined c / 2 ^ 56 % 256 ≡ c 0 =
      omega (arith, small 0, small 1, small 2, small 3, small 4, small 5, small 6, small 7) in
    let e1 : joined c / 2 ^ 48 % 256 ≡ c 1 =
      omega (arith, small 0, small 1, small 2, small 3, small 4, small 5, small 6, small 7) in
    let e2 : joined c / 2 ^ 40 % 256 ≡ c 2 =
      omega (arith, small 0, small 1, small 2, small 3, small 4, small 5, small 6, small 7) in
    let e3 : joined c / 2 ^ 32 % 256 ≡ c 3 =
      omega (arith, small 0, small 1, small 2, small 3, small 4, small 5, small 6, small 7) in
    let e4 : joined c / 2 ^ 24 % 256 ≡ c 4 =
      omega (arith, small 0, small 1, small 2, small 3, small 4, small 5, small 6, small 7) in
    let e5 : joined c / 2 ^ 16 % 256 ≡ c 5 =
      omega (arith, small 0, small 1, small 2, small 3, small 4, small 5, small 6, small 7) in
    let e6 : joined c / 2 ^ 8 % 256 ≡ c 6 =
      omega (arith, small 0, small 1, small 2, small 3, small 4, small 5, small 6, small 7) in
    let e7 : joined c / 2 ^ 0 % 256 ≡ c 7 =
      omega (arith, small 0, small 1, small 2, small 3, small 4, small 5, small 6, small 7) in
    rw (e0, e1, e2, e3, e4, e5, e6, e7) refl

-- The chars of a number whose bytes are in memory, the lowest first.
chars_lem :
    (c : ℕ → ℕ)
    → ((q : ℕ) → c q < 256)
    → (rest : List ℕ)
    → (v : ℕ) × (load_long (cells 8 (λ q. c (7 - q)) ++ rest) 0 ≡ some v)
      × (long2char 8 v (replicate 8 0) ≡ some (cells 8 c))
unfolding load_long load_bytes long2char long2char_loop store
chars_lem c small rest = (joined c, refl, ap some (joined-bytes c small))

byte-lt : (b : ℕ → ℕ) → byte b < 256
byte-lt b = omega arith

char2bit_lem : (b : ℕ → ℕ) → char2bit (packed b) 8 (replicate 64 0) ≡ some (cells 64 (λ k. b k % 2))
unfolding char2bit char2bit_loop store
char2bit_lem b =
    let at = λ (q : ℕ). byte-cells (λ k. b (q * 8 + k)) in
    ap some (
      append_eq (at 0) (
        append_eq (at 1) (
          append_eq (at 2) (
            append_eq (at 3)
              (append_eq (at 4) (append_eq (at 5) (append_eq (at 6) (append_eq (at 7) refl))))))))

-- The fields that only a received packet has are 0 in one that was sent.
abbrev pub received : Mm2sFirst → S2mmFirst
received m = record {
  crc_r = 0;
  ldpc_tnum = 0;
  amp_dresult = 0;
  modu = m.modulation;
  mb = m.mb;
  ldpcnum = m.ldpc_num;
}

get_param_s2m-layout :
    (r : ℕ → ℕ) (after : ℕ) (m : Mm2sFirst)
    → m.modulation < 4
    → m.mb < 64
    → m.ldpc_num < 512
    → get_param_s2m (some (cells 65 r)) (cells 64 (λ k. nth (layout m) k % 2) ++ (after ∷ []))
      ≡ some (received m)
unfolding get_param_s2m revert_char memcpy swap_ends store read_bits
get_param_s2m-layout r after m modulation mb ldpc_num =
    rw (two_digits m.modulation modulation, six_digits m.mb mb, nine_digits m.ldpc_num ldpc_num)
      refl

get_head_s2m-packed : (m : Mm2sFirst) → get_head_s2m (packed (nth (layout m))) ≡ some 1234
unfolding get_head_s2m
get_head_s2m-packed m = refl

nth-cells_lt : (n : ℕ) (c : ℕ → ℕ) (q : ℕ) → ((p : ℕ) → c p < 256) → nth (cells n c) q < 256
nth-cells_lt zero c q small = omega arith
nth-cells_lt (suc n) c zero small = small 0
nth-cells_lt (suc n) c (suc q) small = nth-cells_lt n (λ p. c (suc p)) q (λ p. small (suc p))

packed-lt : (b : ℕ → ℕ) (q : ℕ) → nth (packed b) q < 256
packed-lt b q =
    nth-cells_lt 8 (λ p. byte (λ k. b (p * 8 + k))) q (λ p. byte-lt (λ k. b (p * 8 + k)))

-- How many longs `n` blocks have.
counts :
    (n : ℕ)
    → 1 ≤ n
    → n ≤ 362
    → (n * 5632 / 64 + 1 ≡ 88 * n - 29 + 30)
      × (88 * n - 29 + 30 + 5 ≡ 88 * n - 29 + 35)
      × (8 * (88 * n - 29 + 35) ≤ max_size)
      × (n < 512)
counts n some_block few = (omega arith, omega arith, omega arith, omega arith)

-- The indices of the longs that are printed: the first five, and the last 30, the five behind the data
-- among them.
abbrev pub ends_of : (ldpcnum : ℕ) → List ℕ
ends_of ldpcnum = upto 5 0 ++ upto 30 (5 + (88 * ldpcnum - 29))

-- Of a packet that was sent, the program finds the parameters, and prints 35 longs.
get_info-sent :
    (memory : List ℕ) (after : ℕ) (m : Mm2sFirst)
    → length memory ≡ 65
    → Sendable m
    → (shown : List ℕ) × (get_info (some memory) after (sent m)
        ≡ some (some (record { parameters = received m; shown = shown })))
      × (map some shown ≡ map (load_long (sent m)) (ends_of m.ldpc_num))
unfolding get_info
get_info-sent memory after m h (modulation, mb, (some_block, few)) =
    let b = nth (layout m) in
    let (v, loaded, chars) = chars_lem (nth (packed b)) (packed-lt b) (data_of m) in
    let (count, rounds, fits, small) = counts m.ldpc_num some_block few in
    let param = get_param_s2m-layout (nth memory) after m modulation mb small in
    let room : 8 * (88 * m.ldpc_num - 29 + 35) ≤ length (sent m) =
      subst (λ n. 8 * (88 * m.ldpc_num - 29 + 35) ≤ n) (sym (length-sent m few)) fits in
    let (shown, e, f) = show_longs-Shows (88 * m.ldpc_num - 29) (sent m) room in
    (
      shown,
      rw
          (
            nth-cells 65 memory h,
            loaded,
            chars,
            get_head_s2m-packed m,
            char2bit_lem b,
            param,
            count,
            rounds,
            e,
          )
          refl,
      f,
    )

-- Whatever the program draws, and whatever its memory holds, its run leaves the array `pack_r` by one
-- cell: without padding behind that array, the construction of the packet is outside of it. With a
-- cell of padding that nothing else uses, the program sends a packet of at most its buffer; and if the packet comes back,
-- then from a copy of it, it finds the parameters that it drew, prints 35 longs, and goes on.
pub s2mm_packet-mm2s_packet :
    (random_flag : ℕ) (rand : ℕ → ℕ) (time time' : ℕ) (memory memory' copy tx_buf : List ℕ)
    (after after' room after'' : ℕ)
    → length memory ≡ 65
    → length memory' ≡ 65
    → length copy ≡ max_size
    → length tx_buf ≡ max_size
    → (m : Mm2sFirst) × (buffer : List ℕ) × (size : ℕ) × (report : Report) × (choose_mm2s
          random_flag rand time time'
        ≡ some m)
      × (mm2s_packet (some memory) after after' [] m tx_buf ≡ none)
      × (mm2s_packet (some memory) after after' (room ∷ []) m tx_buf ≡ some (buffer, size))
      × (size ≤ max_size)
      × (s2mm_packet (some memory') (some copy) after'' buffer ≡ some (some report))
      × (report.parameters ≡ received m)
      × (map some report.shown ≡ map (load_long buffer) (ends_of m.ldpc_num))
s2mm_packet-mm2s_packet random_flag rand time time' memory memory' copy tx_buf after after' room
      after'' h h' hc l =
    let (m, chosen, fits) = choose_mm2s-Sendable random_flag rand time time' in
    let (shown, found, printed) = get_info-sent memory' after'' m h' fits in
    (
      m,
      sent m,
      704 * m.ldpc_num + 8,
      record { parameters = received m; shown = shown },
      chosen,
      mm2s_packet_overruns memory tx_buf after after' m h l fits,
      mm2s_packet-sent memory tx_buf after after' room m h l fits,
      room_lem m.ldpc_num fits.2.1,
      s2mm_packet-get_info memory' copy after'' (sent m) hc (length-sent m fits.2.1) ∙ found,
      refl,
      printed,
    )
  where
    room_lem : (n : ℕ) → n ≤ 362 → 704 * n + 8 ≤ max_size
    room_lem n few = omega arith
