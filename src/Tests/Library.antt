-- ===== src/Tests/Library.antt =====
-- The library on the concrete device.
use axidma_driver.Common.{
  ℕ, ◌+◌, ◌*◌, ◌≡◌, ◌≢◌, ◌⊎◌, refl, true, false, none, some, List, [], ◌∷◌, arith, length, take,
}
use axidma_driver.Types.{
  AxidmaChan, axidma_read, axidma_dma, is_read, is_write, AxidmaTransfer, enodev,
}
use axidma_driver.Kernel.{Kernel, State, Event, log}
use axidma_driver.Kernel as Driver
use axidma_driver.DeviceTree.{Kind, dma_tx, dma_rx, vdma_tx, vdma_rx}
use axidma_driver.DeviceTree.Counts.{IsParsed}
use axidma_driver.DeviceTree.Counters.{counter, count}
use axidma_driver.Dma.Control.{axidma_get_num_channels, axidma_get_channel_info}
use axidma_driver.Dma.Transfers.{oneway_transfer, axidma_rw_transfer, require_chan}
use axidma_driver.Dma.Engine.{find_chan, valid_notify_signal, axidma_dma_callback, cb_data_of}
use axidma_driver.Chrdev.Ioctl.{axidma_ioctl}
use axidma_driver.Libaxidma.Calls.{Call, Request, command}
use axidma_driver.Libaxidma.Process.{
  Os, Process, Array, assertion, out_of_bounds, ok, err, abort, note, malloc, ioctl, Result, ◌>>◌,
}
use axidma_driver.Libaxidma.Channels.{
  channel_of, categorize_channels, probe_channels, find_in, find_channel, probe_counted,
  query_channels, alloc_arrays, alloc_channels, alloc_ids, place_channels, place_found, place_kind,
  append_id, store_channel,
}
use axidma_driver.Libaxidma.Session.{
  invoke_callback, write_callback, open_device, setup_dma_callback, sigaction, axidma_init,
  axidma_destroy, init_opened, axidma_callback, axidma_set_callback,
}
use axidma_driver.Libaxidma.Requests.{
  known, known_channel, dir_to_ioctl, request, axidma_oneway_transfer, axidma_twoway_transfer,
}
use axidma_driver.Libaxidma.Sorting.{IsSorted, ids}
use axidma_driver.Libaxidma.Opening.{Serves, axidma_init-IsSorted}
use axidma_driver.Libaxidma.Agreement.{
  Knows, returned, inout_transaction, oneway_transaction, accepting, twoway_transfer_agrees,
  oneway_transfer_served,
}
use axidma_driver.Libaxidma.Completion.{IsOpen, completion-set_callback, set_callback_overruns}
use axidma_driver.Libaxidma.Reaching.{Operation, run, step, here, IsSession, Reaches-IsSession}
use axidma_driver.Libaxidma.Memory.{Fate, Owns, Holds}
use axidma_driver.Libaxidma.Allocation.{probe_channels-Fate}
use axidma_driver.Libaxidma.Closing.{destroy-init, init_leaks}
use axidma_driver.Tests.{sim, booted, device, frame, tx_chan, rx_chan, video_chan, far_chan}

-- Memory is given at growing addresses, and every call is answered.
abbrev pub os : Os
os = record {
  sig_rtmin = 34;
  malloc = λ calls size. 4096 * (1 + length calls);
  open_device = λ _. some 3;
  close = λ _ _. true;
  ioctl = λ _ _ _. none;
  num_channels = λ _. record {
    num_channels = 4;
    num_dma_tx_channels = 1;
    num_dma_rx_channels = 2;
    num_vdma_tx_channels = 1;
    num_vdma_rx_channels = 0;
  };
  channel_info = λ _. device.channels;
  sigaction = λ _ _. true;
  mmap = λ _ _ _. some 0x10000000;
  munmap = λ _ _ _. true;
  fresh_channel = channel_of rx_chan;
  fresh_cell = 7;
  fresh_frame = frame;
  fresh_name = 0;
  fresh_chan = 0;
}

abbrev empty_array : Array
empty_array = record { len = 0; ptr = 0; cells = [] }

abbrev pub unopened : Process
unopened = record {
  dev = record {
    initialized = false;
    fd = 0;
    arrays = λ _. empty_array;
    num_channels = 0;
    channels_ptr = 0;
    channels = [];
  };
  calls = [];
}

abbrev arrays : Kind → Array
arrays dma_tx = record { len = 1; ptr = 8192; cells = 0 ∷ [] }
arrays dma_rx = record { len = 2; ptr = 12288; cells = 1 ∷ 9 ∷ [] }
arrays vdma_tx = record { len = 1; ptr = 16384; cells = 2 ∷ [] }
arrays vdma_rx = record { len = 0; ptr = 20480; cells = [] }

abbrev opened : Process
opened = record {
  dev = record {
    initialized = true;
    fd = 3;
    arrays = arrays;
    num_channels = 4;
    channels_ptr = 4096;
    channels =
        channel_of tx_chan ∷ channel_of rx_chan ∷ channel_of video_chan ∷ channel_of far_chan ∷ [];
  };
  calls = [];
}

device-IsParsed : IsParsed device
device-IsParsed = record {
  distinct = (
    (λ e. omega arith, (λ e. omega arith, (λ e. omega arith, tt))),
    ((λ e. omega arith, (λ e. omega arith, tt)), ((λ e. omega arith, tt), (tt, tt))),
  );
  counted = counted;
}
  where
    counted : (kind : Kind) → counter kind device ≡ count kind device.channels
    counted dma_tx = refl
    counted dma_rx = refl
    counted vdma_tx = refl
    counted vdma_rx = refl

opened-Knows : Knows device.channels opened.dev.channels
opened-Knows =
    ((refl, refl, refl), ((refl, refl, refl), ((refl, refl, refl), ((refl, refl, refl), tt))))

opened-IsSorted : IsSorted device.channels opened.dev
opened-IsSorted = record { lens = lens; stored = stored; mirrored = refl }
  where
    lens : (kind : Kind) → (arrays kind).len ≡ length (ids kind device.channels)
    lens dma_tx = refl
    lens dma_rx = refl
    lens vdma_tx = refl
    lens vdma_rx = refl

    stored : (kind : Kind) → take (arrays kind).len (arrays kind).cells ≡ ids kind device.channels
    stored dma_tx = refl
    stored dma_rx = refl
    stored vdma_tx = refl
    stored vdma_rx = refl

memory_given : (calls : List Call) (size : ℕ) → os.malloc calls size ≢ 0
memory_given calls size h = omega (arith, h)

serves : Serves os device 3
unfolding axidma_get_num_channels axidma_get_channel_info
serves = record {
  memory = memory_given;
  opens = λ calls. refl;
  accepts = λ calls fd r. refl;
  counts = λ calls. refl;
  lists = λ calls. refl;
  handles = λ calls signal. refl;
}

axidma_init-IsSorted_example :
    (p' : Process) × (axidma_init os unopened ≡ ok true p')
    × IsSorted device.channels p'.dev
    × IsOpen p'.dev
    × (p'.dev.initialized ≡ true)
    × (p'.dev.fd ≡ 3)
axidma_init-IsSorted_example =
    axidma_init-IsSorted os device 3 serves unopened device-IsParsed refl
      ((dma_tx, refl), ((dma_rx, refl), ((vdma_tx, refl), ((dma_rx, refl), tt))))
      (λ e. omega (arith, e)) (omega arith) (λ kind. refl) refl

twoway_transfer_agrees_example :
    let trans = inout_transaction 0 0x10000010 64 none 1 0x20000000 16 none true in
    let run = axidma_twoway_transfer os 0 0x10000010 64 none 1 0x20000000 16 none true opened in
    ((run ≡ abort assertion opened)
      × (axidma_rw_transfer sim trans booted ≡ Driver.err enodev booted))
    ⊎ ((run ≡ ioctl os 3 (Request.readwrite trans) opened)
        × ((tx : AxidmaChan) × (require_chan is_write 0 booted ≡ Driver.ok tx booted))
        × ((rx : AxidmaChan) × (require_chan is_read 1 booted ≡ Driver.ok rx booted)))
twoway_transfer_agrees_example =
    twoway_transfer_agrees os sim opened booted 0 0x10000010 64 none 1 0x20000000 16 none true
      opened-Knows

-- The driver that is given the transfer of the library.
abbrev received : Kernel
received = record sim {
  copy_transaction = λ _ _. some (oneway_transaction os 1 0x10000800 64 true);
}

oneway_transfer_served_example :
    let trans = oneway_transaction os 1 0x10000800 64 true in
    let s1 = log (Event.copy_from_user 0x50000000 28) booted in
    (r : Request) × (axidma_oneway_transfer os 1 0x10000800 64 true opened ≡ ioctl os 3 r opened)
    × (axidma_ioctl received (command r) 0x50000000 booted
        ≡ oneway_transfer received (accepting axidma_read) trans s1)
    × (require_chan (accepting axidma_read) 1 s1 ≡ Driver.ok rx_chan s1)
unfolding find_chan
oneway_transfer_served_example =
    oneway_transfer_served os received opened booted 1 0x10000800 64 0x50000000 true rx_chan
      opened-Knows refl (λ e. cc) (λ w size. refl) refl

-- The device answers as the driver does.
abbrev answering : Os
answering = record os {
  ioctl = λ calls fd r. returned (axidma_ioctl sim (command r) 0x10000000 booted);
}

abbrev background : AxidmaTransfer
background = record {
  sg_len = 0;
  sg_list = [];
  cookie = 9;
  cb_data = 1;
  frame = frame;
  dir = axidma_read;
  type = axidma_dma;
  wait = false;
  channel_id = 1;
  notify_signal = 34;
  process = 77;
}

opened-IsOpen : IsOpen opened.dev
opened-IsOpen = record { whole = refl; int = omega arith }

completion-set_callback_example :
    (axidma_dma_callback sim (cb_data_of background) booted
      ≡ Driver.ok tt (log (Event.send_sig_info 34 1 77) booted))
    × (p' : Process) × ((axidma_set_callback 1 5000 6000 >> axidma_callback 1) opened
        ≡ ok tt (note (Call.invoke 5000 1 6000) p'))
    × (p'.calls ≡ [])
unfolding valid_notify_signal find_in
completion-set_callback_example =
    completion-set_callback sim background booted 5000 6000 (channel_of rx_chan) opened refl refl
      opened-IsOpen refl (omega arith) (λ e. omega (arith, e))

set_callback_overruns_example :
    (axidma_set_callback 9 5000 6000 opened ≡ abort out_of_bounds opened)
    × (axidma_callback 4 opened ≡ abort out_of_bounds opened)
unfolding find_in
set_callback_overruns_example =
    set_callback_overruns 9 5000 6000 (channel_of far_chan) opened opened-IsOpen refl (omega arith)

probe_channels-Fate_example :
    Fate (λ _. Holds 8192 unopened) (Owns 8192 0 unopened) (probe_channels os unopened)
probe_channels-Fate_example = probe_channels-Fate os 8192 (λ e. omega (arith, e)) unopened

-- The process that a run ends with.
abbrev pub end_of : {A : Type 0} → Result A → Process
end_of (ok a p) = p
end_of (err e p) = p
end_of (abort a p) = p

abbrev after_init : Process
after_init = end_of (axidma_init os unopened)

destroy-init_example :
    (p2 : Process) × (axidma_destroy os after_init ≡ ok tt p2)
    × (p2.dev.initialized ≡ false)
    × Owns 8192 0 unopened p2
unfolding axidma_init init_opened open_device setup_dma_callback sigaction probe_channels
    probe_counted query_channels categorize_channels alloc_arrays alloc_channels alloc_ids
    place_channels place_found place_kind append_id store_channel malloc ioctl
destroy-init_example =
    destroy-init os 8192 unopened after_init (λ e. omega (arith, e)) refl (λ calls fd. refl)

-- The signal cannot be set up.
abbrev unsignalled : Os
unsignalled = record os { sigaction = λ _ _. false }

abbrev probed : Process
probed =
    end_of (probe_channels unsignalled (record unopened { dev = record unopened.dev { fd = 3 } }))

init_leaks_example :
    (p2 : Process) × (init_opened unsignalled (some 3) unopened ≡ ok false p2)
    × Holds 8192 unopened p2
unfolding probe_channels probe_counted query_channels categorize_channels alloc_arrays
    alloc_channels alloc_ids place_channels place_found place_kind append_id store_channel malloc
    ioctl
init_leaks_example = init_leaks unsignalled 8192 unopened probed 3 (λ e. omega (arith, e)) refl refl

-- A callback is set, a transfer is started, and its signal arrives.
abbrev called : Process
called = end_of (run os (Operation.set_callback 1 5000 6000) opened)

abbrev started : Process
started = end_of (run os (Operation.oneway 1 0x10000800 64 false) called)

abbrev arrived : Process
arrived = end_of (run os (Operation.handle_signal 1) started)

Reaches-IsSession_example : IsSession device.channels opened.dev arrived.dev
unfolding axidma_set_callback write_callback find_channel find_in store_channel
    axidma_oneway_transfer known_channel known dir_to_ioctl request ioctl axidma_callback
    invoke_callback
Reaches-IsSession_example =
    Reaches-IsSession os device.channels opened arrived opened-IsSorted opened-IsOpen (
      step {p' = called} (Operation.set_callback 1 5000 6000) refl (
        step {p' = started} (Operation.oneway 1 0x10000800 64 false) refl
          (step {p' = arrived} (Operation.handle_signal 1) refl here)))
