-- ===== src/Libaxidma/Opening.antt =====
-- A set-up that succeeds, over the answers of the driver.
use axidma_driver.Common.{
  ℕ, ◌*◌, ◌%◌, ◌<◌, ◌≡◌, ◌≢◌, ◌∙◌, refl, sym, ap, true, false, none, some, List, [], ◌∷◌, All,
  arith, length, map, ==_ne,
}
use axidma_driver.Types.{AxidmaDevice, word_mod}
use axidma_driver.DeviceTree.{Kind}
use axidma_driver.DeviceTree.Counts.{IsParsed}
use axidma_driver.Dma.Control.{axidma_get_num_channels, axidma_get_channel_info}
use axidma_driver.Chrdev.Ioctl.{sizeof_chan}
use axidma_driver.Libaxidma.Calls.{Call, Request}
use axidma_driver.Libaxidma.Process.{Os, Process, ok, malloc, ioctl, note}
use axidma_driver.Libaxidma.Channels.{channel_of, probe_channels, probe_counted, query_channels}
use axidma_driver.Libaxidma.Session.{
  axidma_init, init_opened, open_device, setup_dma_callback, sigaction,
}
use axidma_driver.Libaxidma.Sorting.{HasKind, IsSorted}
use axidma_driver.Libaxidma.Discovery.{categorize_channels_lem}
use axidma_driver.Libaxidma.Completion.{IsOpen}

length-map : {A B : Type 0} (f : A → B) (xs : List A) → length (map f xs) ≡ length xs
length-map f [] = refl
length-map f (x ∷ xs) = omega (arith, length-map f xs)

-- The process answers as the driver does for this device, and nothing fails.
pub record Serves (os : Os) (device : AxidmaDevice) (fd : ℕ) : Type 0 where
  pub memory : (calls : List Call) (size : ℕ) → os.malloc calls size ≢ 0
  pub opens : (calls : List Call) → os.open_device calls ≡ some fd
  pub accepts : (calls : List Call) (fd : ℕ) (r : Request) → os.ioctl calls fd r ≡ none
  pub counts : (calls : List Call) → os.num_channels calls ≡ axidma_get_num_channels device
  pub lists : (calls : List Call) → os.channel_info calls ≡ axidma_get_channel_info device
  pub handles : (calls : List Call) (signal : ℕ) → os.sigaction calls signal ≡ true

module _ (os : Os) (device : AxidmaDevice) (fd : ℕ) (serves : Serves os device fd) where
  probe_channels-IsSorted :
      (p : Process)
      → IsParsed device
      → length device.channels ≡ device.num_chans
      → All HasKind device.channels
      → device.num_chans ≢ 0
      → device.num_chans * 20 < word_mod
      → ((kind : Kind) → (p.dev.arrays kind).len ≡ 0)
      → (p' : Process) × (probe_channels os p ≡ ok tt p')
        × IsSorted device.channels p'.dev
        × IsOpen p'.dev
        × (p'.dev.fd ≡ p.dev.fd)
  unfolding probe_channels probe_counted query_channels malloc ioctl axidma_get_num_channels
  probe_channels-IsSorted p parsed whole kinds some_channel small empty =
      let p1 = note (Call.ioctl p.dev.fd Request.get_num_channels none) p in
      let size = device.num_chans * sizeof_chan % word_mod in
      let at = os.malloc p1.calls size in
      let p2 = note (Call.malloc size at) p1 in
      let p3 = note (Call.ioctl p.dev.fd (Request.get_channels at) none) p2 in
      let (p', run, sorted, num_channels, kept) =
        categorize_channels_lem os serves.memory device p3 parsed whole kinds small empty in
      (
        note (Call.free at) p',
        rw (
          serves.accepts p.calls p.dev.fd Request.get_num_channels,
          serves.counts p1.calls,
          ==_ne device.num_chans 0 some_channel,
          ==_ne at 0 (serves.memory p1.calls size),
          serves.accepts p2.calls p.dev.fd (Request.get_channels at),
          serves.lists p3.calls,
          run,
        ),
        record { lens = sorted.lens; stored = sorted.stored; mirrored = sorted.mirrored },
        record {
          whole =
              ap length sorted.mirrored
              ∙ length-map channel_of device.channels
              ∙ whole
              ∙ sym num_channels;
          int = omega (arith, num_channels);
        },
        kept,
      )

  axidma_init_lem :
      (p : Process)
      → p.dev.initialized ≡ false
      → axidma_init os p ≡ init_opened os (some fd) (note (Call.open_device (some fd)) p)
  unfolding axidma_init open_device
  axidma_init_lem p closed = simp (closed, serves.opens p.calls) refl

  -- Over a process that answers as the driver does for a parsed device, and in which nothing fails:
  -- if the device has channels, each of one of the four kinds, whose structures fit into 32 bits, and
  -- the library has not been opened and has empty arrays, then it gives a handle. It then has each
  -- channel of the driver, and the ids of each kind in the driver's order; the descriptor is the one
  -- that was opened.
  pub axidma_init-IsSorted :
      (p : Process)
      → IsParsed device
      → length device.channels ≡ device.num_chans
      → All HasKind device.channels
      → device.num_chans ≢ 0
      → device.num_chans * 20 < word_mod
      → ((kind : Kind) → (p.dev.arrays kind).len ≡ 0)
      → p.dev.initialized ≡ false
      → (p' : Process) × (axidma_init os p ≡ ok true p')
        × IsSorted device.channels p'.dev
        × IsOpen p'.dev
        × (p'.dev.initialized ≡ true)
        × (p'.dev.fd ≡ fd)
  unfolding init_opened setup_dma_callback sigaction ioctl
  axidma_init-IsSorted p parsed whole kinds some_channel small empty closed =
      let opened = note (Call.open_device (some fd)) p in
      let p1 = record opened { dev = record p.dev { fd = fd } } in
      let (p2, run, sorted, open_, kept) =
        probe_channels-IsSorted p1 parsed whole kinds some_channel small empty in
      let p3 = note (Call.sigaction os.sig_rtmin true) p2 in
      let p4 = note (Call.ioctl p2.dev.fd (Request.set_signal os.sig_rtmin) none) p3 in
      (
        record p4 { dev = record p2.dev { initialized = true } },
        axidma_init_lem p closed
            ∙ rw
                (
                  run,
                  serves.handles p2.calls os.sig_rtmin,
                  serves.accepts p3.calls p2.dev.fd (Request.set_signal os.sig_rtmin),
                )
                refl,
        record { lens = sorted.lens; stored = sorted.stored; mirrored = sorted.mirrored },
        record { whole = open_.whole; int = open_.int },
        refl,
        kept,
      )
