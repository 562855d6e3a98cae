-- ===== src/Examples/Files.antt =====
-- examples/util.c: `robust_read` and `robust_write`, over any file. What `read` and `write` do is a
-- parameter, the record `File`, over a state of its own.
use axidma_driver.Common.{
  ℕ, zero, suc, ◌+◌, ◌-◌, ◌==◌, Option, none, some, List, [], ◌∷◌, if◌then◌else◌, length, set, take,
}

-- A positive or zero return of `read` is the bytes that it has written, a negative one is `failed`,
-- which has the number without its sign.
pub data Transfer (A : Type 0) : Type 0 where
  done : A → Transfer A
  failed : (e : ℕ) → Transfer A

pub record File (S : Type 0) : Type 0 where
  pub read : S → (count : ℕ) → Transfer (List ℕ) × S
  pub write : S → List ℕ → Transfer ℕ × S

abbrev pub eintr : ℕ
eintr = 4

abbrev pub drop : ℕ → List ℕ → List ℕ
drop zero xs = xs
drop (suc n) [] = []
drop (suc n) (x ∷ xs) = drop n xs

-- The bytes are written to the buffer from `i` on.
abbrev pub write_at : (i : ℕ) → List ℕ → List ℕ → List ℕ
write_at i [] buf = buf
write_at i (b ∷ bs) buf = write_at (i + 1) bs (set buf i b)

module _ {S : Type 0} where
  -- What follows a `read`, with the next rounds of the loop.
  unfoldable pub after_read :
      (next : ℕ → List ℕ → S → Option (Transfer ℕ × List ℕ × S)) (buf_size bytes_remain : ℕ)
      → List ℕ
      → Transfer (List ℕ) × S
      → Option (Transfer ℕ × List ℕ × S)
  after_read next buf_size bytes_remain buf (done [], s) =
      some (done (buf_size - bytes_remain), buf, s)
  after_read next buf_size bytes_remain buf (done (b ∷ bs), s) =
      next (bytes_remain - length (b ∷ bs)) (write_at (buf_size - bytes_remain) (b ∷ bs) buf) s
  after_read next buf_size bytes_remain buf (failed e, s) =
      let again = next bytes_remain buf s in if e == eintr then again else some (failed e, buf, s)

  unfoldable pub after_write :
      (next : ℕ → S → Option (Transfer ℕ × S)) (buf_size bytes_remain : ℕ)
      → Transfer ℕ × S
      → Option (Transfer ℕ × S)
  after_write next buf_size bytes_remain (done zero, s) = some (done (buf_size - bytes_remain), s)
  after_write next buf_size bytes_remain (done (suc m), s) = next (bytes_remain - suc m) s
  after_write next buf_size bytes_remain (failed e, s) =
      let again = next bytes_remain s in if e == eintr then again else some (failed e, s)

module _ {S : Type 0} (file : File S) where
  -- The loop of `robust_read`; `none` if the rounds are used up.
  unfoldable pub read_loop :
      (rounds buf_size bytes_remain : ℕ) → List ℕ → S → Option (Transfer ℕ × List ℕ × S)
  read_loop zero buf_size bytes_remain buf s = none
  read_loop (suc n) buf_size bytes_remain buf s =
      after_read (read_loop n buf_size) buf_size bytes_remain buf (file.read s bytes_remain)

  unfoldable pub robust_read :
      (rounds : ℕ) (buf : List ℕ) (buf_size : ℕ) → S → Option (Transfer ℕ × List ℕ × S)
  robust_read rounds buf buf_size s = read_loop rounds buf_size buf_size buf s

  -- The loop of `robust_write`; the bytes that are left are those behind the ones written.
  unfoldable pub write_loop :
      (rounds buf_size bytes_remain : ℕ) → List ℕ → S → Option (Transfer ℕ × S)
  write_loop zero buf_size bytes_remain buf s = none
  write_loop (suc n) buf_size bytes_remain buf s =
      after_write (λ remain. write_loop n buf_size remain buf) buf_size bytes_remain
        (file.write s (take bytes_remain (drop (buf_size - bytes_remain) buf)))

  unfoldable pub robust_write :
      (rounds : ℕ) (buf : List ℕ) (buf_size : ℕ) → S → Option (Transfer ℕ × S)
  robust_write rounds buf buf_size s = write_loop rounds buf_size buf_size buf s
