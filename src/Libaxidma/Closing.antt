-- ===== src/Libaxidma/Closing.antt =====
-- What the library allocated is freed when it is closed, and is lost if its set-up fails late.
use axidma_driver.Common.{
  ℕ, ◌≡◌, ◌≢◌, subst, ◌⊎◌, refl, inl, inr, true, false, Bool, Option, none, some, List, ◌∷◌, arith,
  Option-cases, Bool-cases, Option-cases,
}
use axidma_driver.Types.{Errno}
use axidma_driver.DeviceTree.{dma_tx, dma_rx, vdma_tx, vdma_rx}
use axidma_driver.Libaxidma.Calls.{Call, Request}
use axidma_driver.Libaxidma.Process.{Os, branch, Process, Result, P, ok, err, abort, note, ioctl}
use axidma_driver.Libaxidma.Channels.{probe_channels}
use axidma_driver.Libaxidma.Session.{axidma_destroy, close}
use axidma_driver.Libaxidma.Memory.{Fate, returns, fails, aborts, Owns, Holds, Never}
use axidma_driver.Libaxidma.Session.{
  init_opened, axidma_init, give_up, setup_dma_callback, sigaction, open_device,
}
use axidma_driver.Libaxidma.Allocation.{probe_channels-Fate}

-- The handle comes with all that was allocated; without it, that is freed or lost.
abbrev Opened : ℕ → Process → Bool → Process → Type 0
Opened ptr p0 true p = Holds ptr p0 p
Opened ptr p0 false p = Owns ptr 0 p0 p ⊎ Holds ptr p0 p

pub branch_on :
    {A B : Type 0} {Q : A → Process → Type 0} {Q' : B → Process → Type 0} {R R' : Process → Type 0}
    {o : Result A} {f : A → P B} {g : Errno → P B}
    → Fate Q R o
    → ((a : A) (p : Process) → Q a p → Fate Q' R' (f a p))
    → ((e : Errno) (p : Process) → R p → Fate Q' R' (g e p))
    → Fate Q' R' (branch o f g)
branch_on (returns q) f g = f _ _ q
branch_on (fails r) f g = g _ _ r
branch_on aborts f g = aborts

abbrev WhenOk : {A : Type 0} → (A → Process → Type 0) → Result A → Type 0
WhenOk Q (ok a p) = Q a p
WhenOk Q (err e p) = Unit {0}
WhenOk Q (abort a p) = Unit {0}

returned :
    {A : Type 0} (Q : A → Process → Type 0) {R : Process → Type 0} {o : Result A}
    → Fate Q R o
    → WhenOk Q o
returned Q (returns h) = h
returned Q (fails h) = tt
returned Q aborts = tt

module _ (os : Os) (ptr : ℕ) where
  give_up-Fate :
      (e : Errno) (p0 p : Process)
      → Opened ptr p0 false p
      → Fate (Opened ptr p0) Never (give_up os e p)
  unfolding give_up close
  give_up-Fate e p0 p (inl h) = returns (inl (omega (arith, h)))
  give_up-Fate e p0 p (inr h) = returns (inr (omega (arith, h)))

  setup_dma_callback-Fate :
      (p0 p : Process)
      → Holds ptr p0 p
      → Fate (λ _. Holds ptr p0) (Holds ptr p0) (setup_dma_callback os p)
  unfolding setup_dma_callback sigaction ioctl
  setup_dma_callback-Fate p0 p h =
      let a = os.sigaction p.calls os.sig_rtmin in
      let p1 = note (Call.sigaction os.sig_rtmin true) p in
      elim (Bool-cases a) [
        | inl y ↦
            elim (Option-cases (os.ioctl p1.calls p.dev.fd (Request.set_signal os.sig_rtmin))) [
              | inl z ↦ rw (y, z) (returns (omega (arith, h)))
              | inr (e, z) ↦ rw (y, z) (fails (omega (arith, h)))
            ]
        | inr n ↦ rw n (fails (omega (arith, h)))
      ]

  init_opened-Fate :
      (nonzero : ptr ≢ 0) (fd : Option ℕ) (p0 p : Process)
      → Owns ptr 0 p0 p
      → Fate (Opened ptr p0) Never (init_opened os fd p)
  unfolding init_opened
  init_opened-Fate nonzero none p0 p h = returns (inl h)
  init_opened-Fate nonzero (some fd) p0 p h =
      let p1 = record p { dev = record p.dev { fd = fd } } in
      branch_on (probe_channels-Fate os ptr nonzero p1)
        (λ _ p2 h2.
          let held : Holds ptr p0 p2 = omega (arith, h, h2) in
          branch_on (setup_dma_callback-Fate p0 p2 held) (λ _ p3 h3. returns h3)
            (λ e p3 h3. give_up-Fate e p0 p3 (inr h3)))
        (λ e p2 h2. give_up-Fate e p0 p2 (inl (omega (arith, h, h2))))

  axidma_init-Fate :
      (nonzero : ptr ≢ 0) (p : Process) → Fate (Opened ptr p) Never (axidma_init os p)
  unfolding axidma_init open_device
  axidma_init-Fate nonzero p = elim (Bool-cases p.dev.initialized) [
    | inl y ↦ simp (y) aborts
    | inr n ↦ simp (n) (
        init_opened-Fate nonzero (os.open_device p.calls) p
          (note (Call.open_device (os.open_device p.calls)) p) (omega arith))
  ]

  destroy_lem :
      (p0 p : Process)
      → Holds ptr p0 p
      → ((calls : List Call) (fd : ℕ) → os.close calls fd ≡ true)
      → (p2 : Process) × (axidma_destroy os p ≡ ok tt p2)
        × (p2.dev.initialized ≡ false)
        × Owns ptr 0 p0 p2
  unfolding axidma_destroy close
  destroy_lem p0 p h closes =
      let last =
        Call.free p.dev.channels_ptr
        ∷ Call.free (p.dev.arrays dma_tx).ptr
        ∷ Call.free (p.dev.arrays dma_rx).ptr
        ∷ Call.free (p.dev.arrays vdma_tx).ptr
        ∷ Call.free (p.dev.arrays vdma_rx).ptr
        ∷ p.calls in
      let p2 : Process = record {
        calls = Call.close p.dev.fd true ∷ last;
        dev = record p.dev { initialized = false };
      } in
      (p2, rw (closes last p.dev.fd) refl, refl, omega (arith, h))

  -- A handle that was given comes with all that was allocated.
  pub init-Holds : (p p1 : Process) → ptr ≢ 0 → axidma_init os p ≡ ok true p1 → Holds ptr p p1
  init-Holds p p1 nonzero e =
      subst (WhenOk (Opened ptr p)) e (returned (Opened ptr p) (axidma_init-Fate nonzero p))

  -- A handle that was given, and is closed, leaves nothing allocated.
  pub destroy-init :
      (p p1 : Process)
      → ptr ≢ 0
      → axidma_init os p ≡ ok true p1
      → ((calls : List Call) (fd : ℕ) → os.close calls fd ≡ true)
      → (p2 : Process) × (axidma_destroy os p1 ≡ ok tt p2)
        × (p2.dev.initialized ≡ false)
        × Owns ptr 0 p p2
  destroy-init p p1 nonzero e closes = destroy_lem p p1 (init-Holds p p1 nonzero e) closes

  -- If the signal cannot be set up, there is no handle, and what was allocated is not freed.
  pub init_leaks :
      (p p1 : Process) (fd : ℕ)
      → ptr ≢ 0
      → probe_channels os (record p { dev = record p.dev { fd = fd } }) ≡ ok tt p1
      → os.sigaction p1.calls os.sig_rtmin ≡ false
      → (p2 : Process) × (init_opened os (some fd) p ≡ ok false p2) × Holds ptr p p2
  unfolding init_opened setup_dma_callback sigaction give_up close
  init_leaks p p1 fd nonzero probed failed =
      let p0 = record p { dev = record p.dev { fd = fd } } in
      let h : Holds ptr p0 p1 =
        subst (WhenOk (λ _. Holds ptr p0)) probed
          (returned (λ _. Holds ptr p0) (probe_channels-Fate os ptr nonzero p0)) in
      let p2 = note (Call.sigaction os.sig_rtmin (os.sigaction p1.calls os.sig_rtmin)) p1 in
      (
        note (Call.close p2.dev.fd (os.close p2.calls p2.dev.fd)) p2,
        rw (probed, failed) refl,
        omega (arith, h),
      )
