-- ===== src/Examples/Arguments.antt =====
-- The options of the programs: examples/util.c, and examples/axidma_benchmark.c from its options to its
-- end. `getopt` and `sscanf` are parameters: the options come as a list of letters with their texts, and
-- a text is scanned as a whole number, as a floating-point number or as a resolution. An `int` and a
-- `size_t` have 32 bits, as on the Zynq-7000.
use axidma_driver.Common.{
  ℕ, ◌-◌, ◌*◌, ◌%◌, ◌==◌, Bool, true, false, not, ◌&&◌, ◌||◌, List, [], ◌∷◌, if◌then◌else◌,
}
use axidma_driver.Types.{word_mod, VideoFrame, Errno, einval}
use axidma_driver.Libaxidma.Process.{Os, P, pure}
use axidma_driver.Examples.Measuring.{
  Options, Memory, Exit, success, failure, no_channel, benchmark,
}

-- What `sscanf` returns: the number of values that were asked for, with the values, fewer of them, or a
-- negative number.
pub data Scanned (A : Type 0) : Type 0 where
  values : A → Scanned A
  too_few : Scanned A
  input_error : Errno → Scanned A

-- The C library on texts, and the conversion of a size in MiB.
pub record Scan (Text Double : Type 0) : Type 0 where
  pub int : Text → Scanned ℕ
  pub double : Text → Scanned Double
  pub resolution : Text → Scanned VideoFrame
  pub mib_to_byte : Double → ℕ
  pub is_empty : Text → Bool

-- A number below 0, the end of the process with 0, or a return of 0 with what was set.
pub data Parsed (A : Type 0) : Type 0 where
  rejected : Errno → Parsed A
  exits : Parsed A
  parsed : A → Parsed A

abbrev pub parsed_of : {A : Type 0} → Scanned A → Parsed A
parsed_of (values a) = parsed a
parsed_of too_few = rejected einval
parsed_of (input_error e) = rejected e

-- An option whose text cannot be read is answered by -EINVAL.
abbrev pub with_value : {A B : Type 0} → Parsed A → (A → Parsed B) → Parsed B
with_value (parsed a) f = f a
with_value (rejected e) f = rejected einval
with_value exits f = exits

abbrev pub and_parse : {A B : Type 0} → Parsed A → (A → Parsed B) → Parsed B
and_parse (parsed a) f = f a
and_parse (rejected e) f = rejected e
and_parse exits f = exits

-- The letters of the benchmark; any other is `unknown`.
pub data Letter : Type 0 where
  letter_v letter_t letter_r letter_i letter_b letter_f letter_o letter_s : Letter
  letter_g letter_n letter_h unknown : Letter

-- What the loop sets, with its two flags.
pub record Settings : Type 0 where
  pub options : Options
  pub tx_frame_specified : Bool
  pub rx_frame_specified : Bool

abbrev pub default_transfer_size : ℕ
default_transfer_size = 1920 * 1080 * 4

abbrev pub default_num_transfers : ℕ
default_num_transfers = 1000

abbrev pub frame_size : VideoFrame → ℕ
frame_size frame = frame.height * frame.width * frame.depth % word_mod

-- The two flags are not initialised, so that they are parameters.
unfoldable pub defaults : (tx_frame_specified rx_frame_specified : Bool) → Settings
defaults tx_frame_specified rx_frame_specified =
    let unset : VideoFrame = record {
      height = word_mod - 1;
      width = word_mod - 1;
      depth = word_mod - 1;
    } in
    record {
      tx_frame_specified = tx_frame_specified;
      rx_frame_specified = rx_frame_specified;
      options = record {
        use_vdma = false;
        tx_channel = no_channel;
        rx_channel = no_channel;
        tx_size = default_transfer_size;
        rx_size = default_transfer_size;
        transmit_frame = unset;
        receive_frame = unset;
        num_transfers = default_num_transfers;
      };
    }

-- Whether exactly one of two holds.
abbrev pub differ : Bool → Bool → Bool
differ true c = not c
differ false c = c

module _ {Text Double : Type 0} (scan : Scan Text Double) where
  unfoldable pub parse_int : Text → Parsed ℕ
  parse_int text = parsed_of (scan.int text)

  unfoldable pub parse_double : Text → Parsed Double
  parse_double text = parsed_of (scan.double text)

  unfoldable pub parse_resolution : Text → Parsed VideoFrame
  parse_resolution text = parsed_of (scan.resolution text)

  -- The `switch`.
  unfoldable pub parse_option : Letter → Text → Settings → Parsed Settings
  parse_option letter_v text x =
      parsed (record x { options = record x.options { use_vdma = true } })
  parse_option letter_t text x =
      with_value (parse_int text)
        (λ c. parsed (record x { options = record x.options { tx_channel = c } }))
  parse_option letter_r text x =
      with_value (parse_int text)
        (λ c. parsed (record x { options = record x.options { rx_channel = c } }))
  parse_option letter_i text x =
      with_value (parse_double text)
        (λ d. parsed (record x { options = record x.options { tx_size = scan.mib_to_byte d } }))
  parse_option letter_b text x =
      with_value (parse_int text)
        (λ c. parsed (record x { options = record x.options { tx_size = c } }))
  parse_option letter_f text x =
      if scan.is_empty text
      then rejected einval
      else with_value (parse_resolution text) (λ frame. parsed (record x {
        options = record x.options { transmit_frame = frame; tx_size = frame_size frame };
        tx_frame_specified = true;
      }))
  parse_option letter_o text x =
      with_value (parse_double text)
        (λ d. parsed (record x { options = record x.options { rx_size = scan.mib_to_byte d } }))
  parse_option letter_s text x =
      with_value (parse_int text)
        (λ c. parsed (record x { options = record x.options { rx_size = c } }))
  parse_option letter_g text x =
      if scan.is_empty text
      then rejected einval
      else with_value (parse_resolution text) (λ frame. parsed (record x {
        options = record x.options { receive_frame = frame; rx_size = frame_size frame };
        rx_frame_specified = true;
      }))
  parse_option letter_n text x =
      with_value (parse_int text)
        (λ c. parsed (record x { options = record x.options { num_transfers = c } }))
  parse_option letter_h text x = exits
  parse_option unknown text x = rejected einval

  unfoldable pub parse_loop : List (Letter × Text) → Settings → Parsed Settings
  parse_loop [] x = parsed x
  parse_loop ((letter, text) ∷ args) x = and_parse (parse_option letter text x) (parse_loop args)

  -- The tests behind the loop.
  unfoldable pub check_settings : Settings → Parsed Options
  check_settings x =
      let o = x.options in
      if differ (o.tx_channel == no_channel) (o.rx_channel == no_channel)
      then rejected einval
      else if differ (o.tx_size == default_transfer_size) (o.rx_size == default_transfer_size)
      then rejected einval
      else if o.use_vdma && (not x.tx_frame_specified || not x.rx_frame_specified)
      then rejected einval
      else parsed o

  unfoldable pub parse_args :
      (tx_frame_specified rx_frame_specified : Bool) → List (Letter × Text) → Parsed Options
  parse_args tx_frame_specified rx_frame_specified args =
      and_parse (parse_loop args (defaults tx_frame_specified rx_frame_specified)) check_settings

  -- The whole of `main`.
  abbrev pub main_parsed : Os → Memory → Parsed Options → P Exit
  main_parsed os memory (rejected e) = pure failure
  main_parsed os memory exits = pure success
  main_parsed os memory (parsed o) = benchmark os memory o

  unfoldable pub benchmark_main :
      (os : Os) (memory : Memory) (tx_frame_specified rx_frame_specified : Bool)
      (args : List (Letter × Text))
      → P Exit
  benchmark_main os memory tx_frame_specified rx_frame_specified args =
      main_parsed os memory (parse_args tx_frame_specified rx_frame_specified args)
