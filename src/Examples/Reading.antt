-- ===== src/Examples/Reading.antt =====
-- `robust_read` over a file that does not fail: it ends, with the bytes that the file has.
use axidma_driver.Common.{
  ℕ, zero, suc, ◌+◌, ◌-◌, ◌≤◌, ◌<◌, ◌≡◌, ◌⊎◌, ◌∙◌, refl, sym, ap, inl, inr, Option, some, List, [],
  ◌∷◌, ◌++◌, append_assoc, append-nil, arith, length, set, take, length-set, length-append,
  take-suc-set,
}
use axidma_driver.Examples.Files.{File, Transfer, done, write_at, read_loop, after_read}

-- A file whose bytes that are left are `content`, and that never fails: `read` gives the next bytes,
-- and gives none only if none are asked for, or none are left.
pub record IsSource {S : Type 0} (file : File S) (content : S → List ℕ) : Type 0 where
  pub reads :
      (s : S) (count : ℕ)
      → (bs : List ℕ) × (s' : S) × (file.read s count ≡ (done bs, s'))
        × (content s ≡ bs ++ content s')
        × (length bs ≤ count)
        × ((count ≡ 0) ⊎ (content s' ≡ []) ⊎ (1 ≤ length bs))

length-write_at : (i : ℕ) (bs buf : List ℕ) → length (write_at i bs buf) ≡ length buf
length-write_at i [] buf = refl
length-write_at i (b ∷ bs) buf = length-write_at (i + 1) bs (set buf i b) ∙ length-set buf i b

take-write_at :
    (i : ℕ) (bs buf : List ℕ)
    → i + length bs ≤ length buf
    → take (i + length bs) (write_at i bs buf) ≡ take i buf ++ bs
take-write_at i [] buf h = rw (append-nil (take i buf)) (ap (λ n. take n buf) (omega arith))
take-write_at i (b ∷ bs) buf h =
    let next : i + 1 ≡ suc i = omega arith in
    let sum : i + suc (length bs) ≡ (i + 1) + length bs = omega arith in
    rw sum (
      take-write_at (i + 1) bs (set buf i b) (omega (arith, h, length-set buf i b))
      ∙ ap (λ xs. xs ++ bs)
          (ap (λ n. take n (set buf i b)) next ∙ take-suc-set buf i b (omega arith))
      ∙ append_assoc (take i buf) (b ∷ []) bs)

-- The loop, behind `offset` bytes, has read `bs`.
pub record HasRead {S : Type 0} (content : S → List ℕ) (offset remain : ℕ) (buf : List ℕ) (s : S)
    (bs buf' : List ℕ) (s' : S) : Type 0 where
  pub split : content s ≡ bs ++ content s'
  pub stored : take (offset + length bs) buf' ≡ take offset buf ++ bs
  pub whole : length buf' ≡ length buf
  pub fits : length bs ≤ remain
  pub ended : (length bs ≡ remain) ⊎ (content s' ≡ [])

module _ {S : Type 0} (file : File S) (content : S → List ℕ) (source : IsSource file content) where
  HasRead-more :
      (offset remain : ℕ) (buf : List ℕ) (s s1 s' : S) (b : ℕ) (bs more buf' : List ℕ)
      → content s ≡ (b ∷ bs) ++ content s1
      → suc (length bs) ≤ remain
      → length buf ≡ offset + remain
      → HasRead content
          (offset + suc (length bs))
          (remain - suc (length bs))
          (write_at offset (b ∷ bs) buf)
          s1
          more
          buf'
          s'
      → HasRead content offset remain buf s ((b ∷ bs) ++ more) buf' s'
  HasRead-more offset remain buf s s1 s' b bs more buf' split fits room h =
      let len : length ((b ∷ bs) ++ more) ≡ suc (length bs) + length more =
        length-append (b ∷ bs) more in
      record {
        split =
            split
            ∙ ap (λ xs. (b ∷ bs) ++ xs) h.split
            ∙ sym (append_assoc (b ∷ bs) more (content s'));
        stored =
            ap (λ n. take n buf') (omega (arith, len))
            ∙ h.stored
            ∙ ap (λ xs. xs ++ more) (take-write_at offset (b ∷ bs) buf (omega (arith, fits, room)))
            ∙ append_assoc (take offset buf) (b ∷ bs) more;
        whole = h.whole ∙ length-write_at offset (b ∷ bs) buf;
        fits = omega (arith, len, h.fits);
        ended = elim h.ended [
          | inl all ↦ inl (omega (arith, len, all))
          | inr none_left ↦ inr none_left
        ];
      }

  -- A run of the loop that ends, with what it has read.
  abbrev pub Ends :
      (run : Option (Transfer ℕ × List ℕ × S)) (offset remain : ℕ) (buf : List ℕ) (s : S) → Type 0
  Ends run offset remain buf s =
      (bs buf' : List ℕ) × (s' : S) × (run ≡ some (done (offset + length bs), buf', s'))
      × HasRead content offset remain buf s bs buf' s'

  after_read-Ends :
      (n offset remain : ℕ) (buf : List ℕ) (s s1 : S) (bs : List ℕ)
      → content s ≡ bs ++ content s1
      → length bs ≤ remain
      → (remain ≡ 0) ⊎ (content s1 ≡ []) ⊎ (1 ≤ length bs)
      → remain < suc n
      → length buf ≡ offset + remain
      → ((offset remain : ℕ) (buf : List ℕ) (s : S)
          → remain < n
          → length buf ≡ offset + remain
          → Ends (read_loop file n (offset + remain) remain buf s) offset remain buf s)
      → Ends
          (after_read
            (read_loop file n (offset + remain))
            (offset + remain)
            remain
            buf
            (done bs, s1))
          offset
          remain
          buf
          s
  unfolding after_read
  after_read-Ends n offset remain buf s s1 [] split fits more enough room rest =
      let start : (offset + remain) - remain ≡ offset + 0 = omega arith in
      (
        [],
        buf,
        s1,
        rw start refl,
        record {
          split = split;
          stored = rw (append-nil (take offset buf)) (ap (λ n. take n buf) (omega arith));
          whole = refl;
          fits = omega arith;
          ended = elim more [
            | inl none_asked ↦ inl (sym none_asked)
            | inr (inl none_left) ↦ inr none_left
            | inr (inr some_read) ↦ absurd (omega (arith, some_read))
          ];
        },
      )
  after_read-Ends n offset remain buf s s1 (b ∷ bs) split fits more enough room rest =
      let start : (offset + remain) - remain ≡ offset = omega arith in
      let sum : offset + remain ≡ (offset + suc (length bs)) + (remain - suc (length bs)) =
        omega (arith, fits) in
      let (read, buf', s', run, h) =
        rest (offset + suc (length bs)) (remain - suc (length bs)) (write_at offset (b ∷ bs) buf) s1
          (omega (arith, fits, enough)) (length-write_at offset (b ∷ bs) buf ∙ room ∙ sum) in
      let total : (offset + suc (length bs)) + length read ≡ offset + length ((b ∷ bs) ++ read) =
        omega (arith, length-append bs read) in
      (
        (b ∷ bs) ++ read,
        buf',
        s',
        ap
              (λ o.
                read_loop file n (offset + remain) (remain - suc (length bs))
                  (write_at o (b ∷ bs) buf) s1)
              start
            ∙ ap
                (λ size.
                  read_loop file n size (remain - suc (length bs)) (write_at offset (b ∷ bs) buf)
                    s1)
                sum
            ∙ run
            ∙ ap (λ k. some (done k, buf', s')) total,
        HasRead-more offset remain buf s s1 s' b bs read buf' split fits room h,
      )

  pub read_loop-Ends :
      (rounds offset remain : ℕ) (buf : List ℕ) (s : S)
      → remain < rounds
      → length buf ≡ offset + remain
      → Ends (read_loop file rounds (offset + remain) remain buf s) offset remain buf s
  unfolding read_loop
  read_loop-Ends zero offset remain buf s enough room = absurd (omega arith)
  read_loop-Ends (suc n) offset remain buf s enough room =
      let (bs, s1, run, split, fits, more) = source.reads s remain in
      rw run
        (after_read-Ends n offset remain buf s s1 bs split fits more enough room (read_loop-Ends n))
