-- ===== src/Examples/Bits.antt =====
-- A packet as its chars and as its bits.
use axidma_driver.Common.{
  ℕ, zero, suc, ◌+◌, ◌-◌, ◌*◌, ◌/◌, ◌%◌, ◌^◌, ◌≡◌, refl, ap, some, List, [], ◌∷◌, ◌++◌, arith,
  length,
}
use axidma_driver.Examples.Packets.{store, char2bit, char2bit_loop, bit2char, bit2char_loop}

abbrev pub nth : List ℕ → ℕ → ℕ
nth [] i = 0
nth (x ∷ xs) zero = x
nth (x ∷ xs) (suc i) = nth xs i

abbrev pub cells : ℕ → (ℕ → ℕ) → List ℕ
cells zero f = []
cells (suc n) f = f 0 ∷ cells n (λ i. f (suc i))

-- A list of a known length is made of its cells.
pub nth-cells : (n : ℕ) (xs : List ℕ) → length xs ≡ n → xs ≡ cells n (nth xs)
nth-cells zero [] h = refl
nth-cells (suc n) [] h = absurd (omega arith)
nth-cells zero (x ∷ xs) h = absurd (omega arith)
nth-cells (suc n) (x ∷ xs) h = ap (◌∷◌ x) (nth-cells n xs (omega arith))

abbrev pub byte : (ℕ → ℕ) → ℕ
byte b =
    b 0 % 2 * 128
    + b 1 % 2 * 64
    + b 2 % 2 * 32
    + b 3 % 2 * 16
    + b 4 % 2 * 8
    + b 5 % 2 * 4
    + b 6 % 2 * 2
    + b 7 % 2

abbrev shift : (c b : ℕ) → ℕ
shift c b = (c * 2 + b % 2) % 256

-- Eight shifts leave nothing of what the `char` was.
pub shifted :
    (c : ℕ) (b : ℕ → ℕ)
    → shift
        (shift
          (shift (shift (shift (shift (shift (shift c (b 0)) (b 1)) (b 2)) (b 3)) (b 4)) (b 5))
          (b 6))
        (b 7)
      ≡ byte b
shifted c b = omega arith

byte-bits :
    (b : ℕ → ℕ)
    → (byte b / 128 % 2 ≡ b 0 % 2)
      × (byte b / 64 % 2 ≡ b 1 % 2)
      × (byte b / 32 % 2 ≡ b 2 % 2)
      × (byte b / 16 % 2 ≡ b 3 % 2)
      × (byte b / 8 % 2 ≡ b 4 % 2)
      × (byte b / 4 % 2 ≡ b 5 % 2)
      × (byte b / 2 % 2 ≡ b 6 % 2)
      × (byte b / 1 % 2 ≡ b 7 % 2)
byte-bits b = (
  omega arith,
  omega arith,
  omega arith,
  omega arith,
  omega arith,
  omega arith,
  omega arith,
  omega arith,
)

-- The eight bytes of 64 bits.
abbrev pub packed : (ℕ → ℕ) → List ℕ
packed b = cells 8 (λ q. byte (λ k. b (q * 8 + k)))

pub bit2char-packed :
    (b c : ℕ → ℕ) (rest : List ℕ) → bit2char (cells 64 b ++ rest) 8 (cells 8 c) ≡ some (packed b)
unfolding bit2char bit2char_loop store
bit2char-packed b c rest =
    let at = λ (q : ℕ). shifted (c q) (λ k. b (q * 8 + k)) in
    rw (at 0, at 1, at 2, at 3, at 4, at 5, at 6, at 7) refl

pub byte-cells : (b : ℕ → ℕ) → cells 8 (λ t. byte b / 2 ^ (7 - t) % 2) ≡ cells 8 (λ t. b t % 2)
byte-cells b =
    let (e0, e1, e2, e3, e4, e5, e6, e7) = byte-bits b in rw (e0, e1, e2, e3, e4, e5, e6, e7) refl

pub append_eq : {xs xs' ys ys' : List ℕ} → xs ≡ xs' → ys ≡ ys' → xs ++ ys ≡ xs' ++ ys'
append_eq e f = rw (e, f) refl

pub char2bit-packed :
    (b d : ℕ → ℕ)
    → char2bit (packed b) 8 (cells 65 d) ≡ some (cells 64 (λ k. b k % 2) ++ (d 64 ∷ []))
unfolding char2bit char2bit_loop store
char2bit-packed b d =
    let at = λ (q : ℕ). byte-cells (λ k. b (q * 8 + k)) in
    ap some (
      append_eq (at 0) (
        append_eq (at 1) (
          append_eq (at 2) (
            append_eq (at 3)
              (append_eq (at 4) (append_eq (at 5) (append_eq (at 6) (append_eq (at 7) refl))))))))
