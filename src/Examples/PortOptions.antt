-- ===== src/Examples/PortOptions.antt =====
-- examples/mgpio.c: the options, which the program has but does not read, since the call in `main` is a
-- comment. Only the seven ports are touched.
use axidma_driver.Common.{ℕ, ◌==◌, Bool, ◌||◌, Option, none, some, List, [], ◌∷◌, if◌then◌else◌}
use axidma_driver.Types.{Errno, einval, enodev}
use axidma_driver.Examples.Arguments.{Scan, Parsed, rejected, exits, parsed, parse_int}
use axidma_driver.Examples.Gpio.{
  Event, Sysfs, Status, exit_success, exit_failure, G, export_gpio, setdir, setvalue, getvalue,
  sysfs_gpio_dir_out, sysfs_gpio_dir_in, sysfs_gpio_val_h, sysfs_gpio_val_l,
}

pub data GpioLetter : Type 0 where
  gpio_e gpio_o gpio_i gpio_h gpio_l gpio_v unknown_gpio : GpioLetter

-- The ports that have a name.
abbrev pub named_port : ℕ → Bool
named_port port =
    port == 439
    || port == 438
    || port == 437
    || port == 436
    || port == 435
    || port == 434
    || port == 432

unfoldable pub checkport : (port : ℕ) → Status
checkport port = if named_port port then exit_success else exit_failure

-- A failure is only printed.
abbrev pub go_on : {A : Type 0} → Option (Status × List Event) → G A → Option (A × List Event)
go_on none m = none
go_on (some (status, es)) m = m es

module _ (sysfs : Sysfs) where
  -- What an option does to its port.
  unfoldable pub port_action : GpioLetter → (port : ℕ) → G Status
  port_action gpio_e port es = export_gpio sysfs port es
  port_action gpio_o port es = setdir sysfs port sysfs_gpio_dir_out es
  port_action gpio_i port es = setdir sysfs port sysfs_gpio_dir_in es
  port_action gpio_h port es =
      go_on (setdir sysfs port sysfs_gpio_dir_out es) (setvalue sysfs port sysfs_gpio_val_h)
  port_action gpio_l port es =
      go_on (setdir sysfs port sysfs_gpio_dir_out es) (setvalue sysfs port sysfs_gpio_val_l)
  port_action gpio_v port es = go_on (setdir sysfs port sysfs_gpio_dir_in es) (getvalue sysfs port)
  port_action unknown_gpio port es = some (exit_success, es)

  module _ {Text Double : Type 0} (scan : Scan Text Double) where
    -- What every letter does with its text: the error that ends the options, or none.
    unfoldable pub on_port : GpioLetter → Parsed ℕ → G (Option Errno)
    on_port letter (rejected e) es = some (some einval, es)
    on_port letter exits es = some (some einval, es)
    on_port letter (parsed port) es = elim (checkport port) [
      | exit_failure ↦ some (some enodev, es)
      | exit_success ↦ go_on (port_action letter port es) (λ es'. some (none, es'))
    ]

    -- The `switch`.
    unfoldable pub on_option : GpioLetter → Text → G (Option Errno)
    on_option unknown_gpio text es = some (some einval, es)
    on_option letter text es = on_port letter (parse_int scan text) es

    abbrev pub unless_ended :
        Option (Option Errno × List Event) → G (Option Errno) → Option (Option Errno × List Event)
    unless_ended none m = none
    unless_ended (some (some e, es)) m = some (some e, es)
    unless_ended (some (none, es)) m = m es

    -- At the end of the options the function returns no value.
    unfoldable pub parse_ports : List (GpioLetter × Text) → G (Option Errno)
    parse_ports [] es = some (none, es)
    parse_ports ((letter, text) ∷ args) es =
        unless_ended (on_option letter text es) (parse_ports args)
