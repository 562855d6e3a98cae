-- ===== src/Examples/Packets.antt =====
-- examples/util_interdma.c: packets of 64 bits, their header and their parameters. A `char` has 8 bits
-- without a sign; how many of them a `long` has is a parameter. Memory is a list of cells; a run that
-- would leave it, or read through NULL, is `none`.
use axidma_driver.Common.{
  ℕ, zero, suc, ◌+◌, ◌-◌, ◌*◌, ◌/◌, ◌%◌, ◌^◌, ◌==◌, ltb, Option, none, some, List, [], ◌∷◌, ◌++◌,
  if◌then◌else◌, length, get_elem?, set, replicate,
}
use axidma_driver.Types.{word_mod}

infixl 5 ◌>>=◌
abbrev pub ◌>>=◌ : {A B : Type 0} → Option A → (A → Option B) → Option B
none >>= f = none
some a >>= f = f a

abbrev pub char_mod : ℕ
char_mod = 2 ^ 8

abbrev pub pack_len : ℕ
pack_len = 64

-- `struct MM2S_First`. Its first field is an enumeration, whose names are the numbers source 0 on.
pub record Mm2sFirst : Type 0 where
  pub modulation : ℕ
  pub mb : ℕ
  pub ldpc_num : ℕ

-- `s2mm_f`.
pub record S2mmFirst : Type 0 where
  pub crc_r : ℕ
  pub ldpc_tnum : ℕ
  pub amp_dresult : ℕ
  pub modu : ℕ
  pub mb : ℕ
  pub ldpcnum : ℕ

abbrev pub bpsk : ℕ
bpsk = 0

abbrev pub qpsk : ℕ
qpsk = 1

abbrev pub qam16 : ℕ
qam16 = 2

abbrev pub qam64 : ℕ
qam64 = 3

-- A write to a cell.
unfoldable pub store : List ℕ → (i v : ℕ) → Option (List ℕ)
store cells i v = if ltb i (length cells) then some (set cells i v) else none

-- `memcpy` of the first `n` cells.
unfoldable pub memcpy : (n : ℕ) → (to source : List ℕ) → Option (List ℕ)
memcpy zero to source = some to
memcpy (suc n) [] source = none
memcpy (suc n) (t ∷ to) [] = none
memcpy (suc n) (t ∷ to) (c ∷ source) = memcpy n to source >>= λ rest. some (c ∷ rest)

-- The loop of `revert_char`, with `p` at `i` and `p1` at `j`. Each round brings them nearer, so `j`
-- rounds are enough.
unfoldable pub swap_ends : (rounds i j : ℕ) → List ℕ → Option (List ℕ)
swap_ends zero i j cells = some cells
swap_ends (suc n) i j cells =
    let rest = swap_ends n (i + 1) (j - 1) in
    if ltb i j
    then (do
      temp ← get_elem? cells i
      last ← get_elem? cells j
      swapped ← store cells i last
      both ← store swapped j temp
      rest both)
    else some cells

-- The copy takes `len + 1` cells, the reversal `len` of them.
unfoldable pub revert_char : (bytes : List ℕ) (len : ℕ) (r_data : List ℕ) → Option (List ℕ)
revert_char bytes len r_data =
    memcpy (len + 1) r_data bytes >>= λ cp_data. swap_ends len 0 (len - 1) cp_data

unfoldable pub itobs_loop : (rounds : ℕ) → (n : ℕ) → List ℕ → Option (List ℕ)
itobs_loop zero n ps = some ps
itobs_loop (suc j) n ps = store ps j (n % 2 + 48) >>= λ written. itobs_loop j (n / 2) written

unfoldable pub long2char_loop : (rounds i count num : ℕ) → List ℕ → Option (List ℕ)
long2char_loop zero i count num str = some str
long2char_loop (suc n) i count num str =
    store str i (num / 2 ^ ((count - 1 - i) * 8) % 2 ^ 8) >>= λ written.
    long2char_loop n (i + 1) count num written

module _ (sizeof_long : ℕ) where
  -- The digits of all the bits, the highest first.
  unfoldable pub itobs : (n : ℕ) (ps : List ℕ) → Option (List ℕ)
  itobs n ps = itobs_loop (sizeof_long * 8) n ps >>= λ written. store written (sizeof_long * 8) 0

  unfoldable pub long2char : (num : ℕ) (str : List ℕ) → Option (List ℕ)
  long2char num str = long2char_loop sizeof_long 0 sizeof_long num str

unfoldable pub char2bit_loop : (rounds i : ℕ) (pack bitpack : List ℕ) → Option (List ℕ)
char2bit_loop zero i pack bitpack = some bitpack
char2bit_loop (suc n) i pack bitpack = do
  c ← get_elem? pack (i / 8)
  written ← store bitpack i (c / 2 ^ (7 - i % 8) % 2)
  char2bit_loop n (i + 1) pack written

unfoldable pub char2bit : (pack : List ℕ) (len : ℕ) (bitpack : List ℕ) → Option (List ℕ)
char2bit pack len bitpack = char2bit_loop (len * 8) 0 pack bitpack

-- The lowest bit of `c << 1` is 0, so the `|` with a bit is a sum.
unfoldable pub bit2char_loop : (rounds i : ℕ) (bitpack pack : List ℕ) → Option (List ℕ)
bit2char_loop zero i bitpack pack = some pack
bit2char_loop (suc n) i bitpack pack = do
  c ← get_elem? pack (i / 8)
  b ← get_elem? bitpack i
  written ← store pack (i / 8) ((c * 2 + b % 2) % char_mod)
  bit2char_loop n (i + 1) bitpack written

unfoldable pub bit2char : (bitpack : List ℕ) (len_inchar : ℕ) (pack : List ℕ) → Option (List ℕ)
bit2char bitpack len_inchar pack = bit2char_loop (len_inchar * 8) 0 bitpack pack

-- The four digits of the header.
unfoldable pub get_head_m2s : (bytes : List ℕ) → Option ℕ
get_head_m2s bytes = do
  c ← get_elem? bytes 0
  d ← get_elem? bytes 1
  some (c / 16 % 256 * 1000 + c % 16 * 100 + d / 16 % 256 * 10 + d % 16)

unfoldable pub get_head_s2m : (bytes : List ℕ) → Option ℕ
get_head_s2m bytes = do
  c ← get_elem? bytes 0
  d ← get_elem? bytes 1
  some (c / 16 % 256 * 1000 + c % 16 * 100 + d / 16 % 256 * 10 + d % 16)

-- The loops that read a field, `rounds` cells source `i` down.
unfoldable pub read_bits : (rounds i temp : ℕ) → List ℕ → Option ℕ
read_bits zero i temp r_data = some temp
read_bits (suc n) i temp r_data =
    get_elem? r_data i >>= λ b. read_bits n (i - 1) ((temp * 2 + b % 2) % word_mod) r_data

-- The memory that `malloc` gives is a parameter; `none` is NULL.
unfoldable pub get_param_m2s : (fresh : Option (List ℕ)) (bytes : List ℕ) → Option Mm2sFirst
get_param_m2s fresh bytes = do
  memory ← fresh
  r_data ← revert_char bytes pack_len memory
  modulation ← read_bits 2 27 0 r_data
  mb ← read_bits 6 25 0 r_data
  ldpc_num ← read_bits 9 19 0 r_data
  some (record { modulation = modulation; mb = mb; ldpc_num = ldpc_num })

unfoldable pub get_param_s2m : (fresh : Option (List ℕ)) (bytes : List ℕ) → Option S2mmFirst
get_param_s2m fresh bytes = do
  memory ← fresh
  r_data ← revert_char bytes pack_len memory
  crc_r ← read_bits 1 39 0 r_data
  ldpc_tnum ← read_bits 9 38 0 r_data
  amp_dresult ← read_bits 2 29 0 r_data
  modu ← read_bits 2 27 0 r_data
  mb ← read_bits 6 25 0 r_data
  ldpcnum ← read_bits 9 19 0 r_data
  some (record {
    crc_r = crc_r;
    ldpc_tnum = ldpc_tnum;
    amp_dresult = amp_dresult;
    modu = modu;
    mb = mb;
    ldpcnum = ldpcnum;
  })

-- The header of a packet, and 0 elsewhere.
unfoldable pub head_bits : List ℕ
head_bits = set (set (set (set (set (replicate 64 0) 60 1) 57 1) 53 1) 52 1) 50 1

-- The `switch`: a number that is no modulation writes nothing.
unfoldable pub write_modulation : (modu : ℕ) → List ℕ → List ℕ
write_modulation modu pack =
    if modu == bpsk
    then set (set pack 27 0) 26 0
    else if modu == qpsk
    then set (set pack 27 0) 26 1
    else if modu == qam16
    then set (set pack 27 1) 26 0
    else if modu == qam64
    then set (set pack 27 1) 26 1
    else pack

-- The loops that write the bits of a field, `rounds` of them, down to the cell `low`.
unfoldable pub write_bits : (rounds low v : ℕ) → List ℕ → List ℕ
write_bits zero low v pack = pack
write_bits (suc n) low v pack = write_bits n low v (set pack (low + n) (v / 2 ^ n % 2))

-- `after` is what memory holds behind the array `pack`: the copy reads one cell more than it has.
unfoldable pub constr_m2s :
    (fresh : Option (List ℕ)) (after : ℕ) (mm2s_first : Mm2sFirst) (bytes : List ℕ)
    → Option (List ℕ)
constr_m2s fresh after mm2s_first bytes = do
  memory ← fresh
  let pack =
      write_bits 9 11 mm2s_first.ldpc_num
        (write_bits 6 20 mm2s_first.mb (write_modulation mm2s_first.modulation head_bits))
  r_data ← revert_char (pack ++ (after ∷ [])) pack_len memory
  bit2char r_data 8 bytes
