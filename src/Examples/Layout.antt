-- ===== src/Examples/Layout.antt =====
-- The packets that are built are the packets that are read.
use axidma_driver.Common.{
  ℕ, zero, suc, ◌+◌, ◌*◌, ◌/◌, ◌%◌, ◌^◌, ◌<◌, ◌≡◌, refl, some, List, [], ◌∷◌, ◌++◌, arith, length,
}
use axidma_driver.Types.{word_mod}
use axidma_driver.Examples.Packets.{
  revert_char, memcpy, swap_ends, store, char2bit, get_param_m2s, get_head_m2s, read_bits,
  write_bits, write_modulation, head_bits, constr_m2s, Mm2sFirst,
}
use axidma_driver.Examples.Bits.{nth, cells, nth-cells, packed, bit2char-packed, char2bit-packed}

-- The `n` binary digits of a number, the highest first.
abbrev pub digits : (n v : ℕ) → List ℕ
digits zero v = []
digits (suc n) v = v / 2 ^ n % 2 ∷ digits n v

-- A packet in the order of its bits: the digits 1, 2, 3, 4, and the fields.
abbrev pub layout : Mm2sFirst → List ℕ
layout m =
    digits 16 0x1234
    ++ (digits 20 0
        ++ (digits 2 m.modulation ++ (digits 6 m.mb ++ (digits 9 m.ldpc_num ++ digits 11 0))))

abbrev pub packet_of : (modulation mb ldpc_num : ℕ) → Mm2sFirst
packet_of modulation mb ldpc_num = record { modulation = modulation; mb = mb; ldpc_num = ldpc_num }

pub constr_m2s-packed :
    (r c : ℕ → ℕ) (after modulation mb ldpc_num : ℕ)
    → modulation < 4
    → constr_m2s (some (cells 65 r)) after (packet_of modulation mb ldpc_num) (cells 8 c)
      ≡ some (packed (nth (layout (packet_of modulation mb ldpc_num))))
unfolding constr_m2s revert_char memcpy swap_ends store write_bits write_modulation head_bits
constr_m2s-packed r c after zero mb ldpc_num h =
    bit2char-packed (nth (layout (packet_of 0 mb ldpc_num))) c (after ∷ [])
constr_m2s-packed r c after (suc zero) mb ldpc_num h =
    bit2char-packed (nth (layout (packet_of 1 mb ldpc_num))) c (after ∷ [])
constr_m2s-packed r c after (suc (suc zero)) mb ldpc_num h =
    bit2char-packed (nth (layout (packet_of 2 mb ldpc_num))) c (after ∷ [])
constr_m2s-packed r c after (suc (suc (suc zero))) mb ldpc_num h =
    bit2char-packed (nth (layout (packet_of 3 mb ldpc_num))) c (after ∷ [])
constr_m2s-packed r c after (suc (suc (suc (suc n)))) mb ldpc_num h = absurd (omega arith)

get_head_m2s-packed : (m : Mm2sFirst) → get_head_m2s (packed (nth (layout m))) ≡ some 1234
unfolding get_head_m2s
get_head_m2s-packed m = refl

abbrev next : (temp b : ℕ) → ℕ
next temp b = (temp * 2 + b % 2 % 2 % 2) % word_mod

pub two_digits : (v : ℕ) → v < 4 → next (next 0 (v / 2)) (v / 1) ≡ v
two_digits v h = omega arith

pub six_digits :
    (v : ℕ)
    → v < 64
    → next (next (next (next (next (next 0 (v / 32)) (v / 16)) (v / 8)) (v / 4)) (v / 2)) (v / 1)
      ≡ v
six_digits v h = omega arith

pub nine_digits :
    (v : ℕ)
    → v < 512
    → next
        (next
          (next
            (next
              (next (next (next (next (next 0 (v / 256)) (v / 128)) (v / 64)) (v / 32)) (v / 16))
              (v / 8))
            (v / 4))
          (v / 2))
        (v / 1)
      ≡ v
nine_digits v h = omega arith

get_param_m2s-layout :
    (r : ℕ → ℕ) (after : ℕ) (m : Mm2sFirst)
    → m.modulation < 4
    → m.mb < 64
    → m.ldpc_num < 512
    → get_param_m2s (some (cells 65 r)) (cells 64 (λ k. nth (layout m) k % 2) ++ (after ∷ []))
      ≡ some m
unfolding get_param_m2s revert_char memcpy swap_ends store read_bits
get_param_m2s-layout r after m modulation mb ldpc_num =
    rw (two_digits m.modulation modulation, six_digits m.mb mb, nine_digits m.ldpc_num ldpc_num)
      refl

-- In a packet that is built, the header is 1234, and its bits have the parameters that it was built
-- from, if the modulation is one of the four, and the fields fit into 6 and 9 bits. The memory that is
-- used for it may hold anything, and so may the cell behind the array of the packet.
pub get_param_m2s-constr_m2s :
    (memory memory' bytes bitpack : List ℕ) (after : ℕ) (m : Mm2sFirst)
    → length memory ≡ 65
    → length memory' ≡ 65
    → length bytes ≡ 8
    → length bitpack ≡ 65
    → m.modulation < 4
    → m.mb < 64
    → m.ldpc_num < 512
    → (packet bits : List ℕ) × (constr_m2s (some memory) after m bytes ≡ some packet)
      × (get_head_m2s packet ≡ some 1234)
      × (char2bit packet 8 bitpack ≡ some bits)
      × (get_param_m2s (some memory') bits ≡ some m)
get_param_m2s-constr_m2s memory memory' bytes bitpack after m h h' hb hp modulation mb ldpc_num = (
  packed (nth (layout m)),
  cells 64 (λ k. nth (layout m) k % 2) ++ (nth bitpack 64 ∷ []),
  rw (nth-cells 65 memory h, nth-cells 8 bytes hb)
      (constr_m2s-packed (nth memory) (nth bytes) after m.modulation m.mb m.ldpc_num modulation),
  get_head_m2s-packed m,
  rw (nth-cells 65 bitpack hp) (char2bit-packed (nth (layout m)) (nth bitpack)),
  rw (nth-cells 65 memory' h')
      (get_param_m2s-layout (nth memory') (nth bitpack 64) m modulation mb ldpc_num),
)
