-- ===== src/Tests/Runs.antt =====
-- The programs on concrete input.
use axidma_driver.Common.{
  ℕ, ◌+◌, ◌*◌, ◌%◌, ◌≡◌, ◌≤◌, ap, refl, true, false, Option, none, some, List, [], ◌∷◌, arith,
  length, replicate, length-replicate, map, ◌==◌, if◌then◌else◌,
}
use native.Mathlib.Nat.{mod-eq_of_lt}
use axidma_driver.Types.{VideoFrame, word_mod}
use axidma_driver.Libaxidma.Process.{Os, Process, malloc, ioctl}
use axidma_driver.Libaxidma.Channels.{
  categorize_channels, probe_channels, probe_counted, query_channels, alloc_arrays, alloc_channels,
  alloc_ids, place_channels, place_found, place_kind, append_id, store_channel,
}
use axidma_driver.Libaxidma.Session.{
  open_device, setup_dma_callback, sigaction, axidma_init, init_opened,
}
use axidma_driver.Libaxidma.Memory.{Fate, Never}
use axidma_driver.Examples.Packets.{Mm2sFirst}
use axidma_driver.Examples.Mm2s.{mm2s_packet, choose_mm2s, max_size}
use axidma_driver.Examples.S2mm.{s2mm_packet, load_long, Report}
use axidma_driver.Examples.Echo.{received, ends_of, s2mm_packet-mm2s_packet}
use axidma_driver.Examples.Measuring.{Options, Memory, no_channel, benchmark}
use axidma_driver.Examples.Releasing.{Released, benchmark-Released}
use axidma_driver.Examples.Transfer.{TransferOptions, Host, with_handle}
use axidma_driver.Examples.Handing.{with_handle-Released}
use axidma_driver.Examples.Display.{ImageOptions, Signal, sigint, other_signal}
use axidma_driver.Examples.Arguments.{Scan, Scanned, values, too_few, parsed, parse_args}
use axidma_driver.Examples.CommandLine.{
  IsFrameOfWords, AreWords, command_line, parse_args-command_line,
}
use axidma_driver.Examples.Gpio.{Event, main_loop}
use axidma_driver.Examples.Menu.{perform_all, Closes, main_loop-Closes}
use axidma_driver.Tests.{frame}
use axidma_driver.Tests.Library.{os, unopened, end_of}
use axidma_driver.Tests.Programs.{bytewise}

abbrev rand : ℕ → ℕ
rand time = time * 1103515245 + 12345

abbrev nines : List ℕ
nines = replicate max_size 9

s2mm_packet-mm2s_packet_example :
    (m : Mm2sFirst) × (buffer : List ℕ) × (size : ℕ) × (report : Report) × (choose_mm2s 0 rand 5 6
      ≡ some m)
    × (mm2s_packet (some (replicate 65 7)) 1 2 [] m nines ≡ none)
    × (mm2s_packet (some (replicate 65 7)) 1 2 (3 ∷ []) m nines ≡ some (buffer, size))
    × (size ≤ max_size)
    × (s2mm_packet (some (replicate 65 8)) (some nines) 4 buffer ≡ some (some report))
    × (report.parameters ≡ received m)
    × (map some report.shown ≡ map (load_long buffer) (ends_of m.ldpc_num))
s2mm_packet-mm2s_packet_example =
    s2mm_packet-mm2s_packet 0 rand 5 6 (replicate 65 7) (replicate 65 8) nines nines 1 2 3 4 refl
      refl (length-replicate {A = ℕ} max_size 9) (length-replicate {A = ℕ} max_size 9)

-- Memory is mapped at growing addresses.
abbrev spread : Os
spread = record os { mmap = λ calls size fd. some (0x10000000 + 4096 * length calls) }

abbrev spread_init : Process
spread_init = end_of (axidma_init spread unopened)

-- A transfer brings other words.
abbrev words : Memory
words = record {
  mapped = λ calls addr. replicate 2 0;
  transferred = λ calls tx rx. (tx, 5 ∷ 6 ∷ []);
}

abbrev options : Options
options = record {
  tx_channel = no_channel;
  rx_channel = no_channel;
  tx_size = 8;
  rx_size = 8;
  transmit_frame = frame;
  receive_frame = frame;
  num_transfers = 2;
  use_vdma = false;
}

abbrev tx_address : ℕ
tx_address = 0x10000000 + 4096 * length spread_init.calls

benchmark-Released_example :
    Fate
      (λ _. Released spread words 8192 tx_address unopened spread_init)
      Never
      (benchmark spread words options unopened)
unfolding axidma_init init_opened open_device setup_dma_callback sigaction probe_channels
    probe_counted query_channels categorize_channels alloc_arrays alloc_channels alloc_ids
    place_channels place_found place_kind append_id store_channel malloc ioctl
benchmark-Released_example =
    benchmark-Released spread words options 8192 tx_address unopened spread_init
      (λ e. omega (arith, e)) (λ e. omega (arith, e)) refl

-- A file of eight bytes, and a file of twelve bytes for the image.
abbrev host : Host (List ℕ)
host = record {
  open_file = λ calls output. some (10 + length calls);
  fstat = λ calls. some 8;
  file = bytewise;
  content = λ calls. 1 ∷ 2 ∷ 3 ∷ 4 ∷ 5 ∷ 6 ∷ 7 ∷ 8 ∷ [];
}

abbrev file_options : TransferOptions
file_options = record {
  input_channel = no_channel;
  output_channel = no_channel;
  output_size = no_channel;
}

abbrev bytes : Memory
bytes = record { mapped = λ calls addr. replicate 8 0; transferred = λ calls tx rx. (tx, tx) }

with_handle-Released_example :
    Fate
      (λ _. Released spread bytes 8192 tx_address unopened spread_init)
      Never
      (with_handle spread host bytes file_options true spread_init)
unfolding axidma_init init_opened open_device setup_dma_callback sigaction probe_channels
    probe_counted query_channels categorize_channels alloc_arrays alloc_channels alloc_ids
    place_channels place_found place_kind append_id store_channel malloc ioctl
with_handle-Released_example =
    with_handle-Released spread host bytes file_options 8192 tx_address unopened spread_init
      (λ e. omega (arith, e)) (λ e. omega (arith, e)) refl

abbrev image : ImageOptions
image = record { image_width = 2; image_height = 1; tx_channel = 0 }

abbrev signals : List Signal
signals = other_signal ∷ sigint ∷ []

-- Texts that are the numbers or the frames that they stand for.
data Text : Type 0 where
  number : ℕ → Text
  resolution_text : VideoFrame → Text

-- A frame whose three numbers are stored into words.
abbrev as_words : VideoFrame → VideoFrame
as_words f = record {
  height = f.height % word_mod;
  width = f.width % word_mod;
  depth = f.depth % word_mod;
}

in_words : (f : VideoFrame) → IsFrameOfWords f → values (as_words f) ≡ values f
in_words f (h, w, d) = rw (mod-eq_of_lt h, mod-eq_of_lt w, mod-eq_of_lt d) refl

options-AreWords : AreWords options
options-AreWords = ground arith

abbrev int_of : Text → Scanned ℕ
int_of (number n) = values (n % word_mod)
int_of (resolution_text f) = too_few

abbrev resolution_of : Text → Scanned VideoFrame
resolution_of (number n) = too_few
resolution_of (resolution_text f) = values (as_words f)

abbrev scan : Scan Text ℕ
scan = record {
  int = int_of;
  double = int_of;
  resolution = resolution_of;
  mib_to_byte = λ n. n * 1048576;
  is_empty = λ text. false;
}

parse_args-command_line_example :
    parse_args scan true false (command_line scan number resolution_text options) ≡ parsed options
parse_args-command_line_example =
    parse_args-command_line scan number resolution_text true false options options-AreWords
      ((λ n w. ap values (mod-eq_of_lt w)), (λ f w. in_words f w), (λ f. refl)) refl refl

-- The third file cannot be opened.
abbrev sysfs : List Event → Option ℕ
sysfs es = if length es == 6 then none else some 3

main_loop-Closes_example :
    (main_loop (λ es path mode. sysfs es) (1 ∷ 2 ∷ 9 ∷ []) []
      ≡ some (perform_all (λ es path mode. sysfs es) (1 ∷ 2 ∷ 9 ∷ []) []))
    × Closes 3 [] (perform_all (λ es path mode. sysfs es) (1 ∷ 2 ∷ 9 ∷ []) [])
main_loop-Closes_example = main_loop-Closes (λ es path mode. sysfs es) (1 ∷ 2 ∷ 9 ∷ []) [] 3
