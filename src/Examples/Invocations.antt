-- ===== src/Examples/Invocations.antt =====
-- The options of examples/axidma_transfer.c and examples/axidma_display_image.c, and their `main` from the
-- options to the end. What is behind the options comes as a list of paths.
use axidma_driver.Common.{
  ℕ, ◌^◌, ◌==◌, ltb, Bool, true, false, ◌&&◌, not, List, [], ◌∷◌, if◌then◌else◌,
}
use axidma_driver.Types.{einval}
use axidma_driver.Libaxidma.Calls.{Call}
use axidma_driver.Libaxidma.Process.{Os, P, pure}
use axidma_driver.Examples.Measuring.{Memory, Exit, success, failure, no_channel}
use axidma_driver.Examples.Arguments.{
  Scan, Parsed, rejected, exits, parsed, and_parse, differ, parse_int, parse_double,
}
use axidma_driver.Examples.Transfer.{TransferOptions, Host, transfer_main}
use axidma_driver.Examples.Display.{ImageOptions, Signal, display_main}

-- The letters of the two programs; any other is `unknown_letter`.
pub data TransferLetter : Type 0 where
  transfer_t transfer_r transfer_s transfer_o transfer_h unknown_letter : TransferLetter

pub data ImageLetter : Type 0 where
  image_w image_i image_t image_h unknown_image_letter : ImageLetter

-- What the loop of the transfer sets, with its two flags.
pub record TransferSettings : Type 0 where
  pub transfer : TransferOptions
  pub o_specified : Bool
  pub s_specified : Bool

abbrev pub transfer_defaults : TransferSettings
transfer_defaults = record {
  o_specified = false;
  s_specified = false;
  transfer = record {
    input_channel = no_channel;
    output_channel = no_channel;
    output_size = no_channel;
  };
}

abbrev pub default_image_width : ℕ
default_image_width = 640

abbrev pub default_image_height : ℕ
default_image_height = 480

abbrev pub image_defaults : ImageOptions
image_defaults = record {
  image_width = default_image_width;
  image_height = default_image_height;
  tx_channel = no_channel;
}

-- `n > 0` of an `int`.
abbrev pub is_positive : ℕ → Bool
is_positive n = ltb 0 n && ltb n (2 ^ 31)

-- The paths of the two files, and the path of the image.
unfoldable pub two_paths :
    {Text : Type 0} → TransferOptions → List Text → Parsed (TransferOptions × Text × Text)
two_paths o (input_path ∷ output_path ∷ []) = parsed (o, input_path, output_path)
two_paths o _ = rejected einval

unfoldable pub one_path : {Text : Type 0} → ImageOptions → List Text → Parsed (ImageOptions × Text)
one_path o (image_path ∷ []) =
    if not (is_positive o.image_width)
    then rejected einval
    else if not (is_positive o.image_height)
    then rejected einval
    else parsed (o, image_path)
one_path o _ = rejected einval

-- Whether there are no words behind the name of the program.
abbrev pub no_words : {A B : Type 0} → List A → List B → Bool
no_words [] [] = true
no_words _ _ = false

module _ {Text Double : Type 0} (scan : Scan Text Double) where
  unfoldable pub transfer_option :
      TransferLetter → Text → TransferSettings → Parsed TransferSettings
  transfer_option transfer_t text x =
      and_parse (parse_int scan text)
        (λ c. parsed (record x { transfer = record x.transfer { input_channel = c } }))
  transfer_option transfer_r text x =
      and_parse (parse_int scan text)
        (λ c. parsed (record x { transfer = record x.transfer { output_channel = c } }))
  transfer_option transfer_s text x = and_parse (parse_int scan text) (λ c.
      parsed (record x { transfer = record x.transfer { output_size = c }; s_specified = true }))
  transfer_option transfer_o text x = and_parse (parse_double scan text) (λ d. parsed (record x {
    transfer = record x.transfer { output_size = scan.mib_to_byte d };
    o_specified = true;
  }))
  transfer_option transfer_h text x = exits
  transfer_option unknown_letter text x = rejected einval

  unfoldable pub transfer_loop :
      List (TransferLetter × Text) → TransferSettings → Parsed TransferSettings
  transfer_loop [] x = parsed x
  transfer_loop ((letter, text) ∷ args) x =
      and_parse (transfer_option letter text x) (transfer_loop args)

  -- The tests behind the loop.
  unfoldable pub transfer_checks :
      (paths : List Text) → TransferSettings → Parsed (TransferOptions × Text × Text)
  transfer_checks paths x =
      let o = x.transfer in
      if differ (o.input_channel == no_channel) (o.output_channel == no_channel)
      then rejected einval
      else if x.s_specified && x.o_specified
      then rejected einval
      else two_paths o paths

  unfoldable pub parse_transfer :
      List (TransferLetter × Text) → (paths : List Text) → Parsed (TransferOptions × Text × Text)
  parse_transfer args paths =
      and_parse (transfer_loop args transfer_defaults) (transfer_checks paths)

  unfoldable pub image_option : ImageLetter → Text → ImageOptions → Parsed ImageOptions
  image_option image_w text o =
      and_parse (parse_int scan text) (λ c. parsed (record o { image_width = c }))
  image_option image_i text o =
      and_parse (parse_int scan text) (λ c. parsed (record o { image_height = c }))
  image_option image_t text o =
      and_parse (parse_int scan text) (λ c. parsed (record o { tx_channel = c }))
  image_option image_h text o = exits
  image_option unknown_image_letter text o = rejected einval

  unfoldable pub image_loop : List (ImageLetter × Text) → ImageOptions → Parsed ImageOptions
  image_loop [] o = parsed o
  image_loop ((letter, text) ∷ args) o = and_parse (image_option letter text o) (image_loop args)

  unfoldable pub parse_image :
      List (ImageLetter × Text) → (paths : List Text) → Parsed (ImageOptions × Text)
  parse_image args paths =
      if no_words args paths
      then rejected einval
      else and_parse (image_loop args image_defaults) (λ o. one_path o paths)

-- The whole of the two `main`s. The host answers on the files of the paths.
abbrev pub exit_or : {A : Type 0} → Parsed A → (A → P Exit) → P Exit
exit_or (rejected e) f = pure failure
exit_or exits f = pure success
exit_or (parsed a) f = f a

module _ {S Text Double : Type 0} (scan : Scan Text Double) (os : Os) where
  unfoldable pub transfer_program :
      (host : Text → Text → Host S) (memory : Memory) (args : List (TransferLetter × Text))
      (paths : List Text)
      → P Exit
  transfer_program host memory args paths =
      exit_or (parse_transfer scan args paths)
        (λ (o, input_path, output_path). transfer_main os (host input_path output_path) memory o)

  unfoldable pub display_program :
      (host : Text → Host S) (freed_id : List Call → (channel_id : ℕ) → ℕ)
      (args : List (ImageLetter × Text)) (paths : List Text) (signals : List Signal)
      → P Exit
  display_program host freed_id args paths signals =
      exit_or (parse_image scan args paths)
        (λ (o, image_path). display_main os (host image_path) freed_id o signals)
