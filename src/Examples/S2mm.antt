-- ===== src/Examples/S2mm.antt =====
-- examples/interdma.c: what the program makes of a packet that it received.
use axidma_driver.Common.{
  ℕ, zero, suc, ◌+◌, ◌-◌, ◌*◌, ◌/◌, ◌%◌, ◌==◌, ltb, Option, none, some, List, [], ◌∷◌, ◌++◌,
  if◌then◌else◌, get_elem?, replicate,
}
use axidma_driver.Examples.Packets.{
  ◌>>=◌, store, memcpy, S2mmFirst, long2char, get_head_s2m, char2bit, get_param_s2m, pack_len,
}
use axidma_driver.Examples.Mm2s.{ldpc_k, sizeof_long, store_bytes, max_size}

-- The loop that clears the longs, and the one for the bytes that are left over, which starts at the
-- byte whose number is that of the longs.
unfoldable pub clear_longs : (rounds i : ℕ) → List ℕ → Option (List ℕ)
clear_longs zero i cells = some cells
clear_longs (suc n) i cells =
    store_bytes sizeof_long (sizeof_long * i) 0 cells >>= clear_longs n (i + 1)

unfoldable pub clear_bytes : (rounds i : ℕ) → List ℕ → Option (List ℕ)
clear_bytes zero i cells = some cells
clear_bytes (suc n) i cells = store cells i 0 >>= clear_bytes n (i + 1)

unfoldable pub clean_rx_data : (rx_buf_size : ℕ) (rx_buf : List ℕ) → Option (List ℕ)
clean_rx_data rx_buf_size rx_buf =
    clear_longs (rx_buf_size / sizeof_long) 0 rx_buf
    >>= clear_bytes (rx_buf_size % sizeof_long) (rx_buf_size / sizeof_long)

-- A number of `n` bytes, read from an address.
unfoldable pub load_bytes : (n address : ℕ) → List ℕ → Option ℕ
load_bytes zero address cells = some 0
load_bytes (suc n) address cells = do
  low ← get_elem? cells address
  high ← load_bytes n (address + 1) cells
  some (low + 256 * high)

-- The long at an index.
unfoldable pub load_long : (cells : List ℕ) (it : ℕ) → Option ℕ
load_long cells it = load_bytes sizeof_long (sizeof_long * it) cells

-- After the fifth long the loop skips `totalct - 30` of them, and `ct` falls by as much. If that is
-- negative, the next long is read in front of the buffer.
abbrev pub skipped : (totalct it ct : ℕ) → Option (ℕ × ℕ)
skipped totalct it ct =
    if it == 5
    then (if ltb totalct 30 then none else some (it + (totalct - 30), ct - (totalct - 30)))
    else some (it, ct)

-- The loop that prints the longs, with what it has printed as its result. Each round takes one from `ct`
-- at least, so `ct` rounds are enough.
unfoldable pub show_longs : (rounds totalct it ct : ℕ) (cells : List ℕ) → Option (List ℕ)
show_longs zero totalct it ct cells = if ct == 0 then some [] else none
show_longs (suc n) totalct it ct cells = if ct == 0 then some [] else (do
  long ← load_long cells it
  (it', ct') ← skipped totalct (it + 1) (ct - 1)
  rest ← show_longs n totalct it' ct' cells
  some (long ∷ rest))

-- What is found behind the header 1234. `lcnum` is the number in it.
pub record Report : Type 0 where
  pub parameters : S2mmFirst
  pub shown : List ℕ

-- The result is `some none` for another header. `after` is the cell behind the array of the bits.
unfoldable pub get_info :
    (fresh : Option (List ℕ)) (after : ℕ) (rx_buf : List ℕ) → Option (Option Report)
get_info fresh after rx_buf = do
  data_s ← load_long rx_buf 0
  charpack_s ← long2char sizeof_long data_s (replicate 8 0)
  head ← get_head_s2m charpack_s
  if head == 1234
      then (do
        bitpack_s ← char2bit charpack_s 8 (replicate 64 0)
        sf ← get_param_s2m fresh (bitpack_s ++ (after ∷ []))
        let totalct = sf.ldpcnum * ldpc_k / pack_len + 1
        shown ← show_longs (totalct + 5) totalct 0 (totalct + 5) rx_buf
        some (some (record { parameters = sf; shown = shown })))
      else some none

-- The thread, which frees its data at the end.
unfoldable pub process_s2mm :
    (fresh : Option (List ℕ)) (after : ℕ) (processdata : List ℕ) → Option (Option Report)
process_s2mm fresh after processdata = get_info fresh after processdata

-- What s2mm_all_test does with the buffer once its callback has come: the thread is given a copy of it.
-- `copy` is the memory that `malloc` gives for that, which is not tested for NULL.
unfoldable pub s2mm_packet :
    (fresh copy : Option (List ℕ)) (after : ℕ) (rx_buf : List ℕ) → Option (Option Report)
s2mm_packet fresh copy after rx_buf = do
  memory ← copy
  processdata ← memcpy max_size memory rx_buf
  process_s2mm fresh after processdata
