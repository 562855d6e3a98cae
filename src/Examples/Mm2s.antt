-- ===== src/Examples/Mm2s.antt =====
-- examples/interdma.c: what the program sends, and randBtw of examples/util.c, which draws it. A `long`
-- has 64 bits here, since the program keeps a word of the device in each. `rand time` is the first
-- answer of `rand` after `srand(time)`. Memory is a list of bytes, the lowest byte of a number first.
use axidma_driver.Common.{
  ℕ, zero, suc, ◌+◌, ◌-◌, ◌*◌, ◌/◌, ◌%◌, ◌==◌, ltb, Option, none, some, List, ◌∷◌, [], ◌++◌,
  if◌then◌else◌, replicate,
}
use axidma_driver.Examples.Packets.{
  ◌>>=◌, Mm2sFirst, bpsk, qpsk, qam16, qam64, store, memcpy, revert_char, constr_m2s,
}

abbrev pub head_size : ℕ
head_size = 8

abbrev pub ldpc_k : ℕ
ldpc_k = 5632

-- `MAX_SIZE` is `TRANS_NUM * MAX_DATA_NUM`.
abbrev pub max_size : ℕ
max_size = 8 * (5632 * 511 / 64)

abbrev pub data_max : ℕ
data_max = 448 * (69 * 10 - 1)

abbrev pub data_tr : (mb : ℕ) → ℕ
data_tr mb = (mb + 22) * 256 - 512

abbrev pub sizeof_long : ℕ
sizeof_long = 8

abbrev draw : (rand : ℕ → ℕ) (time small big : ℕ) → ℕ
draw rand time small big = rand time % (big - small + 1) + small

-- The bounds that the program gives are not negative. If the first is larger, the two are swapped by
-- way of their sum.
unfoldable pub rand_btw : (rand : ℕ → ℕ) (time small big : ℕ) → ℕ
rand_btw rand time small big =
    if ltb big small
    then draw rand time (small + big - small) (small + big - (small + big - small))
    else draw rand time small big

-- The `switch`, which leaves `modu_cal` unset for a number that is no modulation.
unfoldable pub modu_cal : (modu : ℕ) → Option ℕ
modu_cal modu =
    if modu == bpsk
    then some 1
    else if modu == qpsk
    then some 2
    else if modu == qam16
    then some 4
    else if modu == qam64
    then some 6
    else none

-- The quotient, rounded up.
unfoldable pub rounded_up : (cal_u cal_d : ℕ) → ℕ
rounded_up cal_u cal_d = if cal_u % cal_d == 0 then cal_u / cal_d else cal_u / cal_d + 1

unfoldable pub random_mm2s : (rand : ℕ → ℕ) (time time' : ℕ) → Option Mm2sFirst
random_mm2s rand time time' = do
  let mb = rand_btw rand time 0 63
  let modu = rand_btw rand time' 0 3
  factor ← modu_cal modu
  let ldpc_num = rounded_up (data_max * factor) (data_tr mb)
  some (record { modulation = modu; mb = mb; ldpc_num = ldpc_num })

-- The parameters by `random_flag`.
unfoldable pub choose_mm2s : (random_flag : ℕ) (rand : ℕ → ℕ) (time time' : ℕ) → Option Mm2sFirst
choose_mm2s random_flag rand time time' =
    if random_flag == 0
    then random_mm2s rand time time'
    else if random_flag == 1
    then some (record { modulation = bpsk; mb = 63; ldpc_num = 16 })
    else some (record { modulation = qam64; mb = 0; ldpc_num = 362 })

unfoldable pub clean_loop : (rounds i : ℕ) → List ℕ → Option (List ℕ)
clean_loop zero i cells = some cells
clean_loop (suc n) i cells = store cells i 0 >>= clean_loop n (i + 1)

unfoldable pub clean_tx_data : (tx_buf_size : ℕ) (tx_buf : List ℕ) → Option (List ℕ)
clean_tx_data tx_buf_size tx_buf = clean_loop tx_buf_size 0 tx_buf

-- A number of `n` bytes, stored at an address.
unfoldable pub store_bytes : (n address v : ℕ) → List ℕ → Option (List ℕ)
store_bytes zero address v cells = some cells
store_bytes (suc n) address v cells =
    store cells address (v % 256) >>= store_bytes n (address + 1) (v / 256)

-- `0x0102030400000000 | i`. The index has 32 bits at most, so it is a sum.
abbrev pub pattern_long : (i : ℕ) → ℕ
pattern_long i = 0x0102030400000000 + i

-- The loops of `init_tx_data`, from the index `i` on. `base` is the address of the buffer.
unfoldable pub fill_longs : (rounds i base : ℕ) → List ℕ → Option (List ℕ)
fill_longs zero i base cells = some cells
fill_longs (suc n) i base cells =
    store_bytes sizeof_long (base + sizeof_long * i) (pattern_long i) cells
    >>= fill_longs n (i + 1) base

-- The bytes that are left over are counted as longs too.
unfoldable pub init_tx_data : (base tx_buf_size : ℕ) (cells : List ℕ) → Option (List ℕ)
init_tx_data base tx_buf_size cells =
    fill_longs (tx_buf_size / sizeof_long) 0 base cells
    >>= fill_longs (tx_buf_size % sizeof_long) (tx_buf_size / sizeof_long) base

unfoldable pub datalen_inbyte : (datalen_inbit : ℕ) → ℕ
datalen_inbyte datalen_inbit =
    if datalen_inbit % 8 == 0 then datalen_inbit / 8 else datalen_inbit / 8 + 1

-- What mm2s_all_test puts into the buffer before the transfer, and how many bytes it sends. `after` and
-- `after'` are the cells behind the arrays in constrM2S and here. `behind` is the padding that the
-- compiler leaves behind `pack_r`: revert_char writes a ninth cell, so without padding the run leaves the
-- array.
unfoldable pub mm2s_packet :
    (fresh : Option (List ℕ)) (after after' : ℕ) (behind : List ℕ) (msf : Mm2sFirst)
    (tx_buf : List ℕ)
    → Option (List ℕ × ℕ)
mm2s_packet fresh after after' behind msf tx_buf = do
  cleaned ← clean_tx_data max_size tx_buf
  pack ← constr_m2s fresh after msf (replicate head_size 0)
  pack_r ← revert_char (pack ++ (after' ∷ [])) head_size (replicate head_size 0 ++ behind)
  headed ← memcpy head_size cleaned pack_r
  let size = datalen_inbyte (msf.ldpc_num * ldpc_k)
  filled ← init_tx_data head_size size headed
  some (filled, size + head_size)
