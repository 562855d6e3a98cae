-- ===== src/Examples/Shutting.antt =====
-- What the display of an image opens and maps, it closes and unmaps, unless no channel is found.
use axidma_driver.Common.{ℕ, ◌+◌, ◌==◌, ◌≡◌, refl, true, false, Option, none, some, List, [], ◌∷◌}
use axidma_driver.Types.{Errno}
use axidma_driver.Libaxidma.Calls.{Call}
use axidma_driver.Libaxidma.Process.{Os, Process, Result, ok, err, note}
use axidma_driver.Libaxidma.Session.{close, open_device}
use axidma_driver.Libaxidma.Memory.{Fate, Never, here}
use axidma_driver.Examples.Files.{Transfer}
use axidma_driver.Examples.Held.{closes, Maps}
use axidma_driver.Examples.Measuring.{negative, no_channel}
use axidma_driver.Examples.Transfer.{Host, open_file}
use axidma_driver.Examples.Display.{
  ImageOptions, Signal, find_dma_channel, with_axidma, with_image, display_main,
}

abbrev here_some : (fd : ℕ) → Option ℕ → ℕ
here_some fd none = 0
here_some fd (some other) = here fd other

-- How often a descriptor was given, and how often it was closed.
abbrev pub given : ℕ → List Call → ℕ
given fd [] = 0
given fd (Call.open_device answer ∷ cs) = here_some fd answer + given fd cs
given fd (Call.open_file output answer ∷ cs) = here_some fd answer + given fd cs
given fd (_ ∷ cs) = given fd cs

-- Since `p0`, the descriptor was given `n` times more than it was closed.
abbrev pub Opens : (fd n : ℕ) → Process → Process → Type 0
Opens fd n p0 p = given fd p.calls + closes fd p0.calls ≡ n + given fd p0.calls + closes fd p.calls

module _ {S : Type 0} (os : Os) (host : Host S) (freed_id : List Call → ℕ → ℕ) (fd a : ℕ)
    (p0 : Process) where
  abbrev pub Tracks : (n m : ℕ) → Process → Type 0
  Tracks n m p = Opens fd n p0 p × Maps a m p0 p

  -- An operation that opens, closes and maps nothing.
  abbrev Steady : {A : Type 0} → (n m : ℕ) → Result A → Type 0
  Steady n m o = Fate (λ _. Tracks n m) (Tracks n m) o

  -- From here on, an error is a number that is returned.
  abbrev Ends : {A : Type 0} → (n m : ℕ) → Result A → Type 0
  Ends n m o = Fate (λ _. Tracks n m) Never o

-- If no channel is named, and none is found, then the image is closed, and the device is not.
pub display_main-leaks :
    {S : Type 0} (os : Os) (host : Host S) (freed_id : List Call → ℕ → ℕ) (o : ImageOptions)
    (signals : List Signal) (p p1 : Process) (image_fd axidma_fd : ℕ) (e : Errno)
    → let opened = note (Call.open_file false (some image_fd)) p in
      host.open_file p.calls false ≡ some image_fd
      → os.open_device opened.calls ≡ some axidma_fd
      → (o.tx_channel == no_channel) ≡ true
      → find_dma_channel os host freed_id axidma_fd
          (note (Call.open_device (some axidma_fd)) opened)
        ≡ err e p1
      → (p2 : Process) × (display_main os host freed_id o signals p ≡ ok (negative e) p2)
        × (closes axidma_fd p2.calls ≡ here axidma_fd image_fd + closes axidma_fd p1.calls)
unfolding display_main open_file with_image with_axidma open_device close
display_main-leaks os host freed_id o signals p p1 image_fd axidma_fd e image device unnamed
      missing =
    (
      note (Call.close image_fd (os.close p1.calls image_fd)) p1,
      rw (image, device, unnamed, missing) refl,
      refl,
    )
