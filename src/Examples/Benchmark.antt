-- ===== src/Examples/Benchmark.antt =====
-- examples/axidma_benchmark.c: the buffers are filled with a pattern before the transfer, and checked
-- after it. A buffer is the list of its words; its bytes are those of the words, the lowest first, as
-- on the Zynq-7000, and a `char` has no sign. `none` is an access outside of the buffer.
use axidma_driver.Common.{
  ℕ, zero, suc, ◌+◌, ◌-◌, ◌*◌, ◌/◌, ◌%◌, ◌^◌, ◌==◌, Bool, true, false, not, Option, some, List,
  if◌then◌else◌, get_elem?,
}
use axidma_driver.Examples.Packets.{◌>>=◌, store}

-- `^` on numbers of as many bits.
unfoldable pub xor : (bits a b : ℕ) → ℕ
xor zero a b = 0
xor (suc n) a b = (a % 2 + b % 2) % 2 + 2 * xor n (a / 2) (b / 2)

unfoldable pub test_pattern : ℕ → ℕ
test_pattern i = xor 32 0x1234ACDE i

abbrev pub sizeof_int : ℕ
sizeof_int = 4

-- The byte `i` of the buffer, and a write to it.
unfoldable pub get_byte : List ℕ → (i : ℕ) → Option ℕ
get_byte buf i = get_elem? buf (i / 4) >>= λ w. some (w / 2 ^ (8 * (i % 4)) % 256)

unfoldable pub set_byte : List ℕ → (i v : ℕ) → Option (List ℕ)
set_byte buf i v = do
  w ← get_elem? buf (i / 4)
  let unit = 2 ^ (8 * (i % 4))
  store buf (i / 4) (w - w / unit % 256 * unit + v % 256 * unit)

-- The loops that fill, over `n` words or bytes from `i` on.
unfoldable pub fill_words : (n i : ℕ) (pattern : ℕ → ℕ) → List ℕ → Option (List ℕ)
fill_words zero i pattern buf = some buf
fill_words (suc n) i pattern buf = store buf i (pattern i) >>= fill_words n (i + 1) pattern

unfoldable pub fill_bytes : (n i : ℕ) (pattern : ℕ → ℕ) → List ℕ → Option (List ℕ)
fill_bytes zero i pattern buf = some buf
fill_bytes (suc n) i pattern buf = set_byte buf i (pattern i) >>= fill_bytes n (i + 1) pattern

-- The bytes that are left over are written from the start of the buffer on.
unfoldable pub init_data :
    (tx_buf rx_buf : List ℕ) (tx_buf_size rx_buf_size : ℕ) → Option (List ℕ × List ℕ)
init_data tx_buf rx_buf tx_buf_size rx_buf_size = do
  tx_words ← fill_words (tx_buf_size / sizeof_int) 0 test_pattern tx_buf
  tx ←
      fill_bytes (tx_buf_size % sizeof_int) 0 (λ i. test_pattern (i + tx_buf_size / sizeof_int))
        tx_words
  rx_words ← fill_words (rx_buf_size / sizeof_int) 0 (λ i. test_pattern (i + tx_buf_size)) rx_buf
  rx ←
      fill_bytes (rx_buf_size % sizeof_int) 0
        (λ i. test_pattern (i + tx_buf_size + rx_buf_size / sizeof_int)) rx_words
  some (tx, rx)

-- The loops that compare, over what `read` finds; they end at the first difference.
unfoldable pub compare_with : (read : ℕ → Option ℕ) (n i : ℕ) (pattern : ℕ → ℕ) → Option Bool
compare_with read zero i pattern = some true
compare_with read (suc n) i pattern =
    let rest = compare_with read n (i + 1) pattern in
    read i >>= λ w. if w == pattern i then rest else some false

-- The loops that count what is the same, from `same` on.
unfoldable pub count_same : (read : ℕ → Option ℕ) (n i : ℕ) (pattern : ℕ → ℕ) (same : ℕ) → Option ℕ
count_same read zero i pattern same = some same
count_same read (suc n) i pattern same =
    read i >>= λ w. count_same read n (i + 1) pattern (if w == pattern i then same + 1 else same)

-- `some true` is the return of 0, `some false` that of -EINVAL. A warning is only printed.
unfoldable pub verify_data : (tx_buf rx_buf : List ℕ) (tx_buf_size rx_buf_size : ℕ) → Option Bool
verify_data tx_buf rx_buf tx_buf_size rx_buf_size = do
  tx_words ← compare_with (get_elem? tx_buf) (tx_buf_size / sizeof_int) 0 test_pattern
  tx_bytes ←
      if not tx_words
      then some false
      else compare_with (get_byte tx_buf) (tx_buf_size % sizeof_int) 0
          (λ i. test_pattern (i + tx_buf_size / sizeof_int))
  if not tx_bytes then some false else (do
    words ←
        count_same (get_elem? rx_buf) (rx_buf_size / sizeof_int) 0
          (λ i. test_pattern (i + tx_buf_size)) 0
    rx_data_same ←
        count_same (get_byte rx_buf) (rx_buf_size % sizeof_int) 0
          (λ i. test_pattern (i + tx_buf_size + rx_buf_size / sizeof_int)) words
    some (not (rx_data_same == rx_buf_size / sizeof_int + rx_buf_size % sizeof_int)))
