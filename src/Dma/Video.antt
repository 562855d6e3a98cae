-- ===== src/Dma/Video.antt =====
-- `axidma_video_transfer`: the frame that is handed to the engine, and what the call returns.
use axidma_driver.Common.{
  ℕ, zero, suc, ◌+◌, ◌*◌, ◌/◌, ◌-◌, ◌%◌, ◌^◌, ◌<◌, ◌≡◌, ◌≢◌, ◌++◌, inl, inr, refl, some, List, [],
  ◌∷◌, ltb, ◌==◌, replicate, set, length, get_elem?, Any, arith, Bool-cases, Option-cases,
}
use native.Mathlib.Nat.{mod-eq_of_lt, le-mul_of_pos_right}
use axidma_driver.Types.{word_mod, SgEntry, AxidmaChan, AxidmaDir, VideoTransaction, VideoFrame}
use axidma_driver.Kernel.{
  Kernel, State, Event, Out, ok, err, fault, Fault, kmalloc, log, ◌>>=◌, and_then, drop_error, emit,
}
use axidma_driver.Kernel.Ends
use axidma_driver.Kernel.Ends.{Ends, Outcome, returns, fails, stops}
use axidma_driver.Buffers.Regions.{Region, Holds, IsDevice, IsDevice-log, Inside}
use axidma_driver.Buffers.Translate.{uservirt_to_dma_returns}
use axidma_driver.Dma.Engine.{
  axidma_init_sg_entry, axidma_get_chan, find_chan, axidma_prep_transfer, axidma_start_transfer,
}
use axidma_driver.Dma.Control.{
  init_frames, image_size, rounds, video_transfer_of, video_body, axidma_video_transfer,
}
use axidma_driver.Dma.Safety.{Traced, prep_transfer-IsSafe, start_transfer-IsSafe}
use axidma_driver.Dma.Buffers.{IsRequest, init_sg_entry-Entry}

set_pos :
    {A : Type 0} (x : A) (xs : List A) (i : ℕ) (v : A)
    → 0 < i
    → (ys : List A) × (set (x ∷ xs) i v ≡ x ∷ ys)
set_pos x xs zero v h = elim h [ ]
set_pos x xs (suc i) v h = (set xs i v, refl)

-- The table keeps its first entry.
abbrev KeepsHead : State → SgEntry → List SgEntry → State → Type 0
KeepsHead s e sg s' = (s' ≡ s) × (es : List SgEntry) × (sg ≡ e ∷ es)

module _ (s : State) (own es : List Region) (h : Holds s own es) where
  later_entry-KeepsHead :
      (u n i : ℕ) (e : SgEntry) (sg : List SgEntry)
      → 0 < i
      → Outcome (KeepsHead s e) (λ s'. s' ≡ s) (axidma_init_sg_entry (e ∷ sg) i u n s)
  unfolding axidma_init_sg_entry
  later_entry-KeepsHead u n i e sg pos =
      let (a, found) = uservirt_to_dma_returns s own es u n h in
      let v : SgEntry = record { address = a; len = n } in
      let (ys, kept) = set_pos e sg i v pos in
      rw (found, axidma_init_sg_entry)
        (elim (Bool-cases (a == 0)) [
          | inl null ↦ rw null (fails refl)
          | inr some_a ↦ elim (Bool-cases (ltb i (length (e ∷ sg)))) [
            | inl y ↦ rw (some_a, y) (returns (refl, ys, kept))
            | inr n ↦ rw (some_a, n) (stops refl)
          ]
        ])

  later_frames-KeepsHead :
      (m i size : ℕ) (buffers : List ℕ) (e : SgEntry) (sg : List SgEntry)
      → 0 < i
      → Outcome (KeepsHead s e) (λ s'. s' ≡ s) (init_frames m i size buffers (e ∷ sg) s)
  unfolding init_frames
  later_frames-KeepsHead zero i size buffers e sg pos = returns (refl, sg, refl)
  later_frames-KeepsHead (suc m) i size buffers e sg pos =
      elim (Option-cases (get_elem? buffers i)) [
        | inl missing ↦ rw (missing, init_frames) (stops refl)
        | inr (buf, there) ↦
            rw (there, init_frames)
              (Ends.proceed (later_entry-KeepsHead buf size i e sg pos) λ sg' s' (same, ys, kept).
                rw (same, kept) (later_frames-KeepsHead m (i + 1) size buffers e ys (omega arith)))
      ]

-- A frame whose size is not zero and fits into 32 bits.
abbrev pub IsFrame : VideoFrame → Type 0
IsFrame f = (0 < f.width * f.height * f.depth) × (f.width * f.height * f.depth < word_mod)

factor-lt : (a b m : ℕ) → 0 < a * b → a * b < m → a < m
factor-lt a zero m pos small = absurd (omega arith)
factor-lt a (suc b) m pos small = omega (arith, le-mul_of_pos_right {m = suc b} a (omega arith))

image_size_lem : (f : VideoFrame) → IsFrame f → image_size f ≡ f.width * f.height * f.depth
unfolding image_size
image_size_lem f (pos, small) =
    rw (mod-eq_of_lt (factor-lt (f.width * f.height) f.depth word_mod pos small))
      (mod-eq_of_lt small)

rows_lem :
    (f : VideoFrame)
    → IsFrame f
    → f.height * (f.width * f.depth % word_mod) ≡ f.width * f.height * f.depth
rows_lem f (pos, small) =
    let same : f.width * f.depth * f.height ≡ f.width * f.height * f.depth = omega arith in
    rw
      (mod-eq_of_lt (factor-lt (f.width * f.depth) f.height word_mod (rw same pos) (rw same small)))
      (omega arith)

-- The first entry of the table, filled in.
abbrev FirstEntry : List Region → State → ℕ → List SgEntry → State → Type 0
FirstEntry rs s n sg s' =
    (s' ≡ s)
    × (a : ℕ) × (es : List SgEntry) × (sg ≡ record { address = a; len = n } ∷ es)
    × Any (Inside a n) rs

module _ (s : State) (own es : List Region) (d : IsDevice s own es) where
  init_head-FirstEntry :
      (u n : ℕ) (sg : List SgEntry)
      → IsRequest u n
      → Outcome (FirstEntry (own ++ es) s n) (λ s'. s' ≡ s) (axidma_init_sg_entry sg 0 u n s)
  unfolding axidma_init_sg_entry
  init_head-FirstEntry u n [] request =
      let (a, found) = uservirt_to_dma_returns s own es u n d.holds in
      rw (found, axidma_init_sg_entry)
        (elim (Bool-cases (a == 0)) [
          | inl null ↦ rw null (fails refl)
          | inr some_a ↦ rw some_a (stops refl)
        ])
  init_head-FirstEntry u n (e ∷ sg) (pos, small) =
      Ends.weaken (init_sg_entry-Entry s own es d u n e sg (pos, small))
        λ sg' s' (same, a, filled, inside). (same, a, sg, filled, inside)

  frames-FirstEntry :
      (m size : ℕ) (buffers : List ℕ) (sg : List SgEntry)
      → ((buf : ℕ) → get_elem? buffers 0 ≡ some buf → IsRequest buf size)
      → Outcome
          (FirstEntry (own ++ es) s size)
          (λ s'. s' ≡ s)
          (init_frames (suc m) 0 size buffers sg s)
  unfolding init_frames
  frames-FirstEntry m size buffers sg request = elim (Option-cases (get_elem? buffers 0)) [
    | inl missing ↦ rw (missing, init_frames) (stops refl)
    | inr (buf, there) ↦
        rw (there, init_frames)
          (Ends.proceed (init_head-FirstEntry buf size sg (request buf there))
            λ sg' s' (same, a, ys, filled, inside).
              rw (same, filled)
                (Ends.weaken
                  (later_frames-KeepsHead s own es d.holds m (0 + 1) size buffers _ ys
                    (omega arith))
                  λ sg2 s2 (same2, zs, kept). (same2, a, zs, kept, inside)))
  ]

rounds_pos : (n : ℕ) → 0 < n → n < 2 ^ 31 → rounds n ≡ suc (n - 1)
rounds_pos n pos small = ground arith

-- A video transfer that the driver can serve: one to 2 ^ 31 - 1 frame buffers, a frame whose size
-- fits into 32 bits, and a first buffer that does not wrap.
pub record IsVideo (trans : VideoTransaction) : Type 0 where
  pub some_buffers : 0 < trans.num_frame_buffers
  pub int_buffers : trans.num_frame_buffers < 2 ^ 31
  pub frame : IsFrame trans.frame
  pub first_buffer :
      (buf : ℕ)
      → get_elem? trans.frame_buffers 0 ≡ some buf
      → buf + trans.frame.width * trans.frame.height * trans.frame.depth < word_mod

module _ (k : Kernel) (own es : List Region) where
  run_video-IsSafe :
      (trans : VideoTransaction) (dir : AxidmaDir) (chan : AxidmaChan) (s : State) (a : ℕ)
      (ys sg : List SgEntry)
      → sg ≡ record { address = a; len = image_size trans.frame } ∷ ys
      → IsFrame trans.frame
      → Any (Inside a (trans.frame.width * trans.frame.height * trans.frame.depth)) (own ++ es)
      → Traced (own ++ es) s
      → Ends (Traced (own ++ es)) (
          (axidma_prep_transfer k chan (video_transfer_of k s.dev trans dir sg)
              >>= axidma_start_transfer k chan)
            s)
  run_video-IsSafe trans dir chan s a ys sg filled f inside h = rw filled (
      Ends.bind (prep_transfer-IsSafe k (own ++ es) chan _ s (rw (rows_lem trans.frame f) inside) h)
        (start_transfer-IsSafe k (own ++ es) chan))

  video_body-IsSafe :
      (trans : VideoTransaction) (dir : AxidmaDir) (sg : List SgEntry) (s : State)
      → IsDevice s own es
      → IsVideo trans
      → Traced (own ++ es) s
      → Ends (Traced (own ++ es)) (video_body k trans dir sg s)
  unfolding video_body axidma_get_chan
  video_body-IsSafe trans dir sg s d v h =
      let size = image_size_lem trans.frame v.frame in
      rw (rounds_pos trans.num_frame_buffers v.some_buffers v.int_buffers) (
        Ends.continue_at h
          (frames-FirstEntry s own es d (trans.num_frame_buffers - 1) (image_size trans.frame)
            trans.frame_buffers sg (λ buf there. rw size (v.frame.0, v.first_buffer buf there)))
          λ sg' s' (same, a, ys, filled, inside).
            rw same (elim (Option-cases (find_chan trans.channel_id s.dev.channels)) [
              | inl e ↦ rw e (record { final = h })
              | inr (chan, e) ↦
                  rw e (
                    run_video-IsSafe trans dir chan s a ys sg' filled v.frame (rw size at inside) h)
            ]))

  -- Where the lists of buffers stand for regions that do not wrap, and every range that the driver
  -- has handed to the engine lies in one of them, a video transfer keeps it so, also if it fails,
  -- if it has one to 2 ^ 31 - 1 frame buffers, its frame is not empty and fits into 32 bits, and
  -- its first buffer does not wrap: all rows of the frame lie in one buffer.
  pub video_transfer-IsSafe :
      (trans : VideoTransaction) (dir : AxidmaDir) (s : State)
      → IsDevice s own es
      → IsVideo trans
      → Traced (own ++ es) s
      → Ends (Traced (own ++ es)) (axidma_video_transfer k trans dir s)
  unfolding axidma_video_transfer kmalloc
  video_transfer-IsSafe trans dir s d v h =
      let size = trans.num_frame_buffers * k.sizeof_scatterlist % word_mod in
      let ptr = k.kmalloc s.trace size in
      elim (Bool-cases (ptr == 0)) [
        | inl null ↦ rw null (record { final = (tt, h) })
        | inr got ↦ rw got (
            Ends.bind
              (Ends.drop (
                video_body-IsSafe trans dir _ (log (Event.kmalloc size ptr) s)
                  (IsDevice-log (Event.kmalloc size ptr) s own es d) v (tt, h)))
              λ _ s' h'. record { final = (tt, h') })
      ]

module _ (k : Kernel) (trans : VideoTransaction) where
  abbrev pub table_size : ℕ
  table_size = trans.num_frame_buffers * k.sizeof_scatterlist % word_mod

  abbrev pub table : List SgEntry
  table = replicate (table_size / k.sizeof_scatterlist) k.fresh_sg_entry

  -- The call returns 0, with the table released if it was there, or stops at a fault; it never returns a
  -- negative number.
  pub data ReturnsZero (ptr : ℕ) : Out (Unit {0}) → Type 0 where
    unallocated : {s : State} → ptr ≡ 0 → ReturnsZero ptr (ok tt s)
    released : {s : State} → ptr ≢ 0 → ReturnsZero ptr (ok tt (log (Event.kfree ptr) s))
    stopped : {f : Fault} {s : State} → ReturnsZero ptr (fault f s)

  dropped-ReturnsZero :
      (ptr : ℕ) (o : Out (Unit {0}))
      → ptr ≢ 0
      → ReturnsZero ptr (and_then (drop_error o) (λ _. emit (Event.kfree ptr)))
  dropped-ReturnsZero ptr (ok u s) got = released got
  dropped-ReturnsZero ptr (err e s) got = released got
  dropped-ReturnsZero ptr (fault f s) got = stopped

  -- A video transfer never returns a negative number, whatever is wrong with the memory, the buffers, the
  -- channel or the engine: it returns 0, with its table released if it was allocated, or stops at a fault.
  pub video_transfer-ReturnsZero :
      (dir : AxidmaDir) (s : State)
      → ReturnsZero (k.kmalloc s.trace table_size) (axidma_video_transfer k trans dir s)
  unfolding axidma_video_transfer kmalloc
  video_transfer-ReturnsZero dir s =
      let ptr = k.kmalloc s.trace table_size in
      elim (Bool-cases (ptr == 0)) [
        | inl null ↦ rw null (unallocated (ground (arith, null)))
        | inr got ↦ rw got (
            dropped-ReturnsZero ptr
              (video_body k trans dir table (log (Event.kmalloc table_size ptr) s))
              (ground (arith, got)))
      ]
