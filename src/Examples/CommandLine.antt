-- ===== src/Examples/CommandLine.antt =====
-- The options of the benchmark, written as a command line.
use axidma_driver.Common.{
  ℕ, ◌<◌, ◌==◌, ◌≡◌, refl, Bool, true, false, List, [], ◌∷◌, ◌++◌, if◌then◌else◌,
}
use axidma_driver.Types.{VideoFrame, word_mod}
use axidma_driver.Examples.Measuring.{Options, no_channel}
use axidma_driver.Examples.Arguments.{
  Scan, values, Letter, letter_v, letter_t, letter_r, letter_b, letter_f, letter_s, letter_g,
  letter_n, parsed, parse_args, parse_loop, parse_option, parse_int, parse_resolution,
  check_settings, defaults, default_transfer_size, differ,
}

-- The three numbers of the frame are words.
abbrev pub IsFrameOfWords : VideoFrame → Type 0
IsFrameOfWords f = (f.height < word_mod) × (f.width < word_mod) × (f.depth < word_mod)

-- The numbers among the options are words, as those of the program are.
abbrev pub AreWords : Options → Type 0
AreWords o =
    ((o.tx_channel < word_mod)
      × (o.rx_channel < word_mod)
      × (o.tx_size < word_mod)
      × (o.rx_size < word_mod)
      × (o.num_transfers < word_mod))
    × IsFrameOfWords o.transmit_frame
    × IsFrameOfWords o.receive_frame

module _ {Text Double : Type 0} (scan : Scan Text Double) (text_of : ℕ → Text)
    (frame_text : VideoFrame → Text) where
  -- The options in the order -v, -t, -r, -f, -g, -b, -s, -n.
  abbrev pub command_line : Options → List (Letter × Text)
  command_line o =
      (if o.use_vdma then (letter_v, text_of 0) ∷ [] else [])
      ++ ((letter_t, text_of o.tx_channel)
          ∷ (letter_r, text_of o.rx_channel)
          ∷ (letter_f, frame_text o.transmit_frame)
          ∷ (letter_g, frame_text o.receive_frame)
          ∷ (letter_b, text_of o.tx_size)
          ∷ (letter_s, text_of o.rx_size)
          ∷ (letter_n, text_of o.num_transfers)
          ∷ [])

  -- A text is read as the word, or as the frame of words, that it was written from: `%d` stores 32
  -- bits, and a word above 2 ^ 31 is written as a negative number. Of other numbers nothing is said.
  abbrev pub Reads : Type 0
  Reads =
      ((k : ℕ) → k < word_mod → scan.int (text_of k) ≡ values k)
      × ((frame : VideoFrame)
          → IsFrameOfWords frame
          → scan.resolution (frame_text frame) ≡ values frame)
      × ((frame : VideoFrame) → scan.is_empty (frame_text frame) ≡ false)

differ_same : (x y : Bool) → x ≡ y → differ x y ≡ false
differ_same true true e = refl
differ_same true false e = absurd (cc)
differ_same false true e = absurd (cc)
differ_same false false e = refl

module _ {Text Double : Type 0} (scan : Scan Text Double) (text_of : ℕ → Text)
    (frame_text : VideoFrame → Text) (junk junk' : Bool) where
  abbrev options_of :
      (use_vdma : Bool) (tx_channel rx_channel tx_size rx_size num_transfers : ℕ)
      (transmit_frame receive_frame : VideoFrame)
      → Options
  options_of use_vdma tx_channel rx_channel tx_size rx_size num_transfers transmit_frame
        receive_frame =
      record {
        use_vdma = use_vdma;
        tx_channel = tx_channel;
        rx_channel = rx_channel;
        tx_size = tx_size;
        rx_size = rx_size;
        num_transfers = num_transfers;
        transmit_frame = transmit_frame;
        receive_frame = receive_frame;
      }

  fields-command_line :
      (use_vdma : Bool) (tx rx size size' num : ℕ) (frame frame' : VideoFrame)
      → AreWords (options_of use_vdma tx rx size size' num frame frame')
      → Reads scan text_of frame_text
      → differ (tx == no_channel) (rx == no_channel) ≡ false
      → differ (size == default_transfer_size) (size' == default_transfer_size) ≡ false
      → parse_args scan junk junk' (
          command_line scan text_of frame_text
            (options_of use_vdma tx rx size size' num frame frame'))
        ≡ parsed (options_of use_vdma tx rx size size' num frame frame')
  unfolding parse_args parse_loop parse_option parse_int parse_resolution check_settings defaults
  fields-command_line true tx rx size size' num frame frame' ((a, b, c1, d1, e), f, g)
        (int, resolution, full) c d =
      rw
        (
          int tx a,
          int rx b,
          full frame,
          resolution frame f,
          full frame',
          resolution frame' g,
          int size c1,
          int size' d1,
          int num e,
          c,
          d,
        )
        refl
  fields-command_line false tx rx size size' num frame frame' ((a, b, c1, d1, e), f, g)
        (int, resolution, full) c d =
      rw
        (
          int tx a,
          int rx b,
          full frame,
          resolution frame f,
          full frame',
          resolution frame' g,
          int size c1,
          int size' d1,
          int num e,
          c,
          d,
        )
        refl

  -- Options of 32-bit words that name both channels or none, and change both sizes or none, can be
  -- written as a command line, which is parsed to these options, whatever the two flags hold before, if
  -- the C library reads words and frames of words back from the texts.
  pub parse_args-command_line :
      (o : Options)
      → AreWords o
      → Reads scan text_of frame_text
      → (o.tx_channel == no_channel) ≡ (o.rx_channel == no_channel)
      → (o.tx_size == default_transfer_size) ≡ (o.rx_size == default_transfer_size)
      → parse_args scan junk junk' (command_line scan text_of frame_text o) ≡ parsed o
  parse_args-command_line o words reads channels sizes =
      fields-command_line o.use_vdma o.tx_channel o.rx_channel o.tx_size o.rx_size o.num_transfers
        o.transmit_frame o.receive_frame words reads (differ_same _ _ channels)
        (differ_same _ _ sizes)
