-- ===== src/Examples/Copying.antt =====
-- What is read into a buffer and written out of it is the beginning of the file.
use native.Mathlib.Nat.{zero-add}
use axidma_driver.Common.{
  ℕ, zero, suc, ◌+◌, ◌-◌, ◌≤◌, ◌<◌, ◌≡◌, ◌⊎◌, ◌∙◌, refl, sym, ap, inl, inr, Option, some, List, [],
  ◌∷◌, ◌++◌, append_assoc, arith, length, take,
}
use axidma_driver.Examples.Files.{
  File, Transfer, done, drop, read_loop, write_loop, after_write, robust_read, robust_write,
}
use axidma_driver.Examples.Reading.{IsSource, read_loop-Ends}

-- A file that `written` has been written to, and that never fails: `write` takes some of the bytes.
pub record IsTarget {S : Type 0} (file : File S) (written : S → List ℕ) : Type 0 where
  pub writes :
      (s : S) (bs : List ℕ)
      → (n : ℕ) × (s' : S) × (file.write s bs ≡ (done n, s'))
        × (written s' ≡ written s ++ take n bs)
        × (n ≤ length bs)
        × ((length bs ≡ 0) ⊎ (1 ≤ n))

length-drop : (n : ℕ) (xs : List ℕ) → length (drop n xs) ≡ length xs - n
length-drop zero xs = omega arith
length-drop (suc n) [] = omega arith
length-drop (suc n) (x ∷ xs) = omega (arith, length-drop n xs)

length-take : (n : ℕ) (xs : List ℕ) → n ≤ length xs → length (take n xs) ≡ n
length-take zero xs h = refl
length-take (suc n) [] h = absurd (omega arith)
length-take (suc n) (x ∷ xs) h = ap suc (length-take n xs (omega arith))

drop-nil : (n : ℕ) → drop n [] ≡ []
drop-nil zero = refl
drop-nil (suc n) = refl

take-nil : (n : ℕ) → take {A = ℕ} n [] ≡ []
take-nil zero = refl
take-nil (suc n) = refl

drop-drop : (m n : ℕ) (xs : List ℕ) → drop n (drop m xs) ≡ drop (m + n) xs
drop-drop zero n xs = ap (λ k. drop k xs) (omega arith)
drop-drop (suc m) n [] = drop-nil n ∙ sym (drop-nil (suc m + n))
drop-drop (suc m) n (x ∷ xs) =
    let next : suc m + n ≡ suc (m + n) = omega arith in rw next (drop-drop m n xs)

take-take : (n m : ℕ) (xs : List ℕ) → n ≤ m → take n (take m xs) ≡ take n xs
take-take zero m xs h = refl
take-take (suc n) zero xs h = absurd (omega arith)
take-take (suc n) (suc m) [] h = refl
take-take (suc n) (suc m) (x ∷ xs) h = ap (◌∷◌ x) (take-take n m xs (omega arith))

take-split : (n m : ℕ) (xs : List ℕ) → take (n + m) xs ≡ take n xs ++ take m (drop n xs)
take-split zero m xs = ap (λ k. take k xs) (omega arith)
take-split (suc n) m [] = take-nil (suc n + m) ∙ sym (take-nil m)
take-split (suc n) m (x ∷ xs) =
    let next : suc n + m ≡ suc (n + m) = omega arith in rw next (ap (◌∷◌ x) (take-split n m xs))

module _ {T : Type 0} (file : File T) (written : T → List ℕ) (target : IsTarget file written) where
  -- A run of the loop that has written all.
  abbrev WritesAll :
      (run : Option (Transfer ℕ × T)) (offset remain : ℕ) (buf : List ℕ) (t : T) → Type 0
  WritesAll run offset remain buf t =
      (t' : T) × (run ≡ some (done (offset + remain), t'))
      × (written t' ≡ written t ++ take remain (drop offset buf))

  after_write-WritesAll :
      (n offset remain : ℕ) (buf : List ℕ) (t t1 : T) (m : ℕ)
      → written t1 ≡ written t ++ take m (take remain (drop offset buf))
      → m ≤ remain
      → (remain ≡ 0) ⊎ (1 ≤ m)
      → remain < suc n
      → offset + remain ≤ length buf
      → ((offset remain : ℕ) (buf : List ℕ) (t : T)
          → remain < n
          → offset + remain ≤ length buf
          → WritesAll (write_loop file n (offset + remain) remain buf t) offset remain buf t)
      → WritesAll
          (after_write
            (λ left. write_loop file n (offset + remain) left buf)
            (offset + remain)
            remain
            (done m, t1))
          offset
          remain
          buf
          t
  unfolding after_write
  after_write-WritesAll n offset remain buf t t1 zero got fits more enough room rest =
      let none_left : remain ≡ 0 = omega (arith, more) in
      (
        t1,
        ap (λ k. some (done k, t1)) (omega arith),
        got ∙ ap (λ k. written t ++ take k (drop offset buf)) (sym none_left),
      )
  after_write-WritesAll n offset remain buf t t1 (suc m) got fits more enough room rest =
      let left = remain - suc m in
      let sum : offset + remain ≡ (offset + suc m) + left = omega (arith, fits) in
      let (t', run, all) =
        rest (offset + suc m) left buf t1 (omega (arith, fits, enough))
          (omega (arith, sum, room)) in
      let bytes = drop offset buf in
      (
        t',
        ap (λ size. write_loop file n size left buf t1) sum
            ∙ run
            ∙ ap (λ k. some (done k, t')) (sym sum),
        all
            ∙ ap (λ xs. xs ++ take left (drop (offset + suc m) buf)) got
            ∙ append_assoc (written t) (take (suc m) (take remain bytes))
                (take left (drop (offset + suc m) buf))
            ∙ ap (λ xs. written t ++ xs)
                (ap (λ xs. xs ++ take left (drop (offset + suc m) buf))
                    (take-take (suc m) remain bytes fits)
                  ∙ ap (λ xs. take (suc m) bytes ++ take left xs)
                      (sym (drop-drop offset (suc m) buf))
                  ∙ sym (take-split (suc m) left bytes)
                  ∙ ap (λ k. take k bytes) (omega (arith, fits))),
      )

  write_loop-WritesAll :
      (rounds offset remain : ℕ) (buf : List ℕ) (t : T)
      → remain < rounds
      → offset + remain ≤ length buf
      → WritesAll (write_loop file rounds (offset + remain) remain buf t) offset remain buf t
  unfolding write_loop
  write_loop-WritesAll zero offset remain buf t enough room = absurd (omega arith)
  write_loop-WritesAll (suc n) offset remain buf t enough room =
      let start : (offset + remain) - remain ≡ offset = omega arith in
      let (m, t1, run, got, fits, more) = target.writes t (take remain (drop offset buf)) in
      let len =
        length-take remain (drop offset buf) (omega (arith, length-drop offset buf, room)) in
      rw (start, run)
        (after_write-WritesAll n offset remain buf t t1 m got (omega (arith, len, fits))
          (elim more [
            | inl nothing ↦ inl (sym len ∙ nothing)
            | inr some_written ↦ inr some_written
          ])
          enough room (write_loop-WritesAll n))

-- Over files that do not fail, whatever the lengths of the transfers are: `robust_read` ends within as
-- many rounds as the buffer has bytes, and one more; it has read the next bytes of the file, and the
-- buffer is full or the file at its end. `robust_write`, from that buffer, ends likewise, and has
-- written these bytes.
pub robust_write-robust_read :
    {S T : Type 0} (source : File S) (content : S → List ℕ) (target : File T) (written : T → List ℕ)
    (buf : List ℕ) (s : S) (t : T)
    → IsSource source content
    → IsTarget target written
    → (bs buf' : List ℕ) × (s' : S) × (t' : T) × (robust_read source
          (length buf + 1)
          buf
          (length buf)
          s
        ≡ some (done (length bs), buf', s'))
      × (robust_write target (length bs + 1) buf' (length bs) t ≡ some (done (length bs), t'))
      × (content s ≡ bs ++ content s')
      × (written t' ≡ written t ++ bs)
      × ((length bs ≡ length buf) ⊎ (content s' ≡ []))
unfolding robust_read robust_write
robust_write-robust_read source content target written buf s t is_source is_target =
    let (bs, buf', s', read, h) =
      read_loop-Ends source content is_source (length buf + 1) 0 (length buf) buf s (omega arith)
        (omega arith) in
    let (t', wrote, all) =
      write_loop-WritesAll target written is_target (length bs + 1) 0 (length bs) buf' t
        (omega arith) (omega (arith, h.fits, h.whole)) in
    (
      bs,
      buf',
      s',
      t',
      ap (λ size. read_loop source (length buf + 1) size (length buf) buf s)
            (sym (zero-add (length buf)))
          ∙ read
          ∙ ap (λ k. some (done k, buf', s')) (zero-add (length bs)),
      ap (λ size. write_loop target (length bs + 1) size (length bs) buf' t)
            (sym (zero-add (length bs)))
          ∙ wrote
          ∙ ap (λ k. some (done k, t')) (zero-add (length bs)),
      h.split,
      all
          ∙ ap (λ xs. written t ++ xs)
              (ap (λ k. take k buf') (sym (zero-add (length bs))) ∙ h.stored),
      h.ended,
    )
