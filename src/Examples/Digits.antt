-- ===== src/Examples/Digits.antt =====
-- The binary digits of a number, its chars, and their bits.
use axidma_driver.Common.{
  ℕ, zero, suc, ◌+◌, ◌-◌, ◌*◌, ◌/◌, ◌%◌, ◌^◌, ◌<◌, ◌≡◌, refl, ap, sym, some, List, [], ◌∷◌, ◌++◌,
  arith, length, map, All, subst, ◌⊎◌, inl, inr,
}
use axidma_driver.Examples.Packets.{
  store, itobs, itobs_loop, long2char, long2char_loop, char2bit, char2bit_loop, bit2char,
  bit2char_loop,
}
use axidma_driver.Examples.Bits.{nth, cells, nth-cells, byte, shifted, append_eq}

abbrev bit_of : (ℕ → ℕ) → ℕ → ℕ
bit_of x k = x (k / 8) / 2 ^ (7 - k % 8) % 2

byte-bit_of : (c : ℕ) → c < 256 → byte (λ k. c / 2 ^ (7 - k) % 2) ≡ c
byte-bit_of c h = omega arith

abbrev half : (k n : ℕ) → ℕ
half zero n = n
half (suc k) n = half k (n / 2)

byte-half :
    (n m : ℕ)
    → n ≡ m
    → cells 8 (λ t. m % 256 / 2 ^ (7 - t) % 2 + 48) ≡ cells 8 (λ t. half (7 - t) n % 2 + 48)
byte-half n m e =
    let e0 : m % 256 / 128 % 2 ≡ n / 2 / 2 / 2 / 2 / 2 / 2 / 2 % 2 = omega arith in
    let e1 : m % 256 / 64 % 2 ≡ n / 2 / 2 / 2 / 2 / 2 / 2 % 2 = omega arith in
    let e2 : m % 256 / 32 % 2 ≡ n / 2 / 2 / 2 / 2 / 2 % 2 = omega arith in
    let e3 : m % 256 / 16 % 2 ≡ n / 2 / 2 / 2 / 2 % 2 = omega arith in
    let e4 : m % 256 / 8 % 2 ≡ n / 2 / 2 / 2 % 2 = omega arith in
    let e5 : m % 256 / 4 % 2 ≡ n / 2 / 2 % 2 = omega arith in
    let e6 : m % 256 / 2 % 2 ≡ n / 2 % 2 = omega arith in
    let e7 : m % 256 / 1 % 2 ≡ n % 2 = omega arith in rw (e0, e1, e2, e3, e4, e5, e6, e7) refl

abbrev Halved : (k n : ℕ) → Type 0
Halved k n = half k n ≡ n / 2 ^ k

half_lem :
    (n : ℕ)
    → Halved 8 n × Halved 16 n × Halved 24 n × Halved 32 n × Halved 40 n × Halved 48 n × Halved 56 n
half_lem n =
    let h1 : Halved 8 n = omega arith in
    let h2 : Halved 16 n = eight (half 8 n) _ (n / 2 ^ 16) h1 (omega arith) in
    let h3 : Halved 24 n = eight (half 16 n) _ (n / 2 ^ 24) h2 (omega arith) in
    let h4 : Halved 32 n = eight (half 24 n) _ (n / 2 ^ 32) h3 (omega arith) in
    let h5 : Halved 40 n = eight (half 32 n) _ (n / 2 ^ 40) h4 (omega arith) in
    let h6 : Halved 48 n = eight (half 40 n) _ (n / 2 ^ 48) h5 (omega arith) in
    let h7 : Halved 56 n = eight (half 48 n) _ (n / 2 ^ 56) h6 (omega arith) in
    (h1, h2, h3, h4, h5, h6, h7)
  where
    eight : (h m v : ℕ) → h ≡ m → m / 256 ≡ v → half 8 h ≡ v
    eight h m v e f = omega arith

bit2char-bit_of :
    (x c : ℕ → ℕ)
    → All (λ v. v < 256) (cells 4 x)
    → bit2char (cells 32 (bit_of x)) 4 (cells 4 c) ≡ some (cells 4 x)
unfolding bit2char bit2char_loop store
bit2char-bit_of x c (s0, (s1, (s2, (s3, tt)))) =
    let at = λ (q : ℕ). shifted (c q) (λ k. x q / 2 ^ (7 - k) % 2) in
    rw (at 0, at 1, at 2, at 3)
      (rw (byte-bit_of (x 0) s0, byte-bit_of (x 1) s1, byte-bit_of (x 2) s2, byte-bit_of (x 3) s3)
        refl)

bit2char-bit_of_long :
    (x c : ℕ → ℕ)
    → ((q : ℕ) → x q < 256)
    → bit2char (cells 64 (bit_of x)) 8 (cells 8 c) ≡ some (cells 8 x)
unfolding bit2char bit2char_loop store
bit2char-bit_of_long x c small =
    let at = λ (q : ℕ). shifted (c q) (λ k. x q / 2 ^ (7 - k) % 2) in
    let is = λ (q : ℕ). byte-bit_of (x q) (small q) in
    rw (at 0, at 1, at 2, at 3, at 4, at 5, at 6, at 7)
      (rw (is 0, is 1, is 2, is 3, is 4, is 5, is 6, is 7) refl)

abbrev Agrees : (sizeof_long : ℕ) → Type 0
Agrees sizeof_long =
    (n : ℕ) (ps str bitpack pack : List ℕ)
    → length ps ≡ sizeof_long * 8 + 1
    → length str ≡ sizeof_long
    → length bitpack ≡ sizeof_long * 8
    → length pack ≡ sizeof_long
    → (chars bits : List ℕ) × (long2char sizeof_long n str ≡ some chars)
      × (char2bit chars sizeof_long bitpack ≡ some bits)
      × (itobs sizeof_long n ps ≡ some (map (λ b. b + 48) bits ++ (0 ∷ [])))
      × (bit2char bits sizeof_long pack ≡ some chars)

four-Agrees : Agrees 4
unfolding long2char long2char_loop char2bit char2bit_loop itobs itobs_loop store
four-Agrees n ps str bitpack pack room room' room_bits room_pack =
    let x = λ (q : ℕ). n / 2 ^ ((3 - q) * 8) % 2 ^ 8 in
    let (h8, h16, h24, h32, h40, h48, h56) = half_lem n in
    (
      cells 4 x,
      cells 32 (bit_of x),
      rw (nth-cells 4 str room') refl,
      rw (nth-cells 32 bitpack room_bits) refl,
      rw (nth-cells 33 ps room) (
          ap some (
            sym (
              append_eq (byte-half (half 24 n) (n / 2 ^ 24) h24) (
                append_eq (byte-half (half 16 n) (n / 2 ^ 16) h16) (
                  append_eq (byte-half (half 8 n) (n / 2 ^ 8) h8)
                    (append_eq (byte-half n (n / 2 ^ 0) (omega arith)) refl)))))),
      rw (nth-cells 4 pack room_pack) (
          bit2char-bit_of x (nth pack)
            (omega arith, (omega arith, (omega arith, (omega arith, tt))))),
    )

eight-Agrees : Agrees 8
unfolding long2char long2char_loop char2bit char2bit_loop itobs itobs_loop store
eight-Agrees n ps str bitpack pack room room' room_bits room_pack =
    let x = λ (q : ℕ). n / 2 ^ ((7 - q) * 8) % 2 ^ 8 in
    let (h8, h16, h24, h32, h40, h48, h56) = half_lem n in
    (
      cells 8 x,
      cells 64 (bit_of x),
      rw (nth-cells 8 str room') refl,
      rw (nth-cells 64 bitpack room_bits) refl,
      rw (nth-cells 65 ps room) (
          ap some (
            sym (
              append_eq (byte-half (half 56 n) (n / 2 ^ 56) h56) (
                append_eq (byte-half (half 48 n) (n / 2 ^ 48) h48) (
                  append_eq (byte-half (half 40 n) (n / 2 ^ 40) h40) (
                    append_eq (byte-half (half 32 n) (n / 2 ^ 32) h32) (
                      append_eq (byte-half (half 24 n) (n / 2 ^ 24) h24) (
                        append_eq (byte-half (half 16 n) (n / 2 ^ 16) h16) (
                          append_eq (byte-half (half 8 n) (n / 2 ^ 8) h8)
                            (append_eq (byte-half n (n / 2 ^ 0) (omega arith)) refl)))))))))),
      rw (nth-cells 8 pack room_pack)
          (bit2char-bit_of_long x (nth pack) (λ q. low_byte (n / 2 ^ ((7 - q) * 8)))),
    )
  where
    low_byte : (v : ℕ) → v % 2 ^ 8 < 256
    low_byte v = omega arith

-- With longs of 4 or of 8 bytes: the digits of a number are the bits of its chars, and the bits put
-- together again are the chars, whatever the memory held before.
pub itobs_agrees :
    (sizeof_long n : ℕ) (ps str bitpack pack : List ℕ)
    → (sizeof_long ≡ 4) ⊎ (sizeof_long ≡ 8)
    → length ps ≡ sizeof_long * 8 + 1
    → length str ≡ sizeof_long
    → length bitpack ≡ sizeof_long * 8
    → length pack ≡ sizeof_long
    → (chars bits : List ℕ) × (long2char sizeof_long n str ≡ some chars)
      × (char2bit chars sizeof_long bitpack ≡ some bits)
      × (itobs sizeof_long n ps ≡ some (map (λ b. b + 48) bits ++ (0 ∷ [])))
      × (bit2char bits sizeof_long pack ≡ some chars)
itobs_agrees sizeof_long n ps str bitpack pack (inl e) =
    subst Agrees (sym e) four-Agrees n ps str bitpack pack
itobs_agrees sizeof_long n ps str bitpack pack (inr e) =
    subst Agrees (sym e) eight-Agrees n ps str bitpack pack
