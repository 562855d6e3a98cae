-- ===== src/Examples/Guarding.antt =====
-- The options of mgpio.c touch the files of the seven ports only.
use axidma_driver.Common.{
  ℕ, ◌≤◌, ◌<◌, ◌≡◌, ◌⊎◌, refl, inl, inr, arith, true, Option, none, some, List, [], ◌∷◌, All,
  Bool-cases,
}
use axidma_driver.Types.{Errno, einval, enodev}
use axidma_driver.Examples.Arguments.{Scan, Parsed, rejected, exits, parsed, parse_int}
use axidma_driver.Examples.Gpio.{
  Mode, Event, opened, Sysfs, Status, exit_success, exit_failure, G, export_gpio, setdir, setvalue,
  getvalue, sysfs_gpio_export, on_open, direction, value_file,
}
use axidma_driver.Examples.Ports.{
  Access, exporting, setting_dir, setting_value, getting_value, port_file, use_of, access, perform,
  perform_next, Does, export-Does, setdir-Does, setvalue-Does, getvalue-Does,
}
use axidma_driver.Examples.PortOptions.{
  GpioLetter, gpio_e, gpio_o, gpio_i, gpio_h, gpio_l, gpio_v, unknown_gpio, named_port, checkport,
  go_on, port_action, on_port, on_option, unless_ended, parse_ports,
}

-- The file that exports ports, and the files of the named ports.
abbrev pub IsPortFile : List ℕ → Type 0
IsPortFile path =
    (path ≡ sysfs_gpio_export)
    ⊎ ((port : ℕ) × (named_port port ≡ true)
        × ((path ≡ port_file port direction) ⊎ (path ≡ port_file port value_file)))

abbrev pub Touches : Event → Type 0
Touches (opened path mode fd) = IsPortFile path
Touches _ = Unit {0}

abbrev pub Guards : {A : Type 0} → Option (A × List Event) → Type 0
Guards {A} o = (a : A) × (es : List Event) × (o ≡ some (a, es)) × All Touches es

named-bounds : (port : ℕ) → named_port port ≡ true → (100 ≤ port) × (port < 1000)
named-bounds port h = (ground arith, ground arith)

checkport-named : (port : ℕ) → checkport port ≡ exit_success → named_port port ≡ true
unfolding checkport
checkport-named port h = elim (Bool-cases (named_port port)) [ inl y ↦ y | inr n ↦ absurd (cc) ]

module _ (sysfs : Sysfs) where
  open-Touches :
      (path : List ℕ) (mode : Mode) (bytes : Option (List ℕ)) (answer : Option ℕ) (es : List Event)
      → IsPortFile path
      → All Touches es
      → All Touches (on_open path mode (use_of bytes) answer es).1
  open-Touches path mode bytes none es h k = (h, k)
  open-Touches path mode none (some fd) es h k = (tt, (tt, (h, k)))
  open-Touches path mode (some bytes) (some fd) es h k = (tt, (tt, (h, k)))

  one-Touches :
      (r : Status × List Event)
      → All Touches r.1
      → All Touches (perform_next (perform sysfs []) r).1
  one-Touches (exit_success, es) h = h
  one-Touches (exit_failure, es) h = h

  -- An operation that is one access.
  Does-Guards :
      (m : G Status) (a : Access)
      → Does sysfs m (a ∷ [])
      → IsPortFile a.path
      → (es : List Event) → All Touches es
      → Guards (m es)
  Does-Guards m a does h es k =
      let r = perform sysfs (a ∷ []) es in
      (
        r.0,
        r.1,
        does es,
        one-Touches (access sysfs a es)
            (open-Touches a.path a.mode a.bytes (sysfs es a.path a.mode) es h k),
      )

  go_on-Guards :
      {A : Type 0} (o : Option (Status × List Event)) (m : G A)
      → Guards o
      → ((es : List Event) → All Touches es → Guards (m es))
      → Guards (go_on o m)
  go_on-Guards o m (a, es, e, k) h = rw e (h es k)

  action-Guards :
      (letter : GpioLetter) (port : ℕ) (es : List Event)
      → named_port port ≡ true
      → All Touches es
      → Guards (port_action sysfs letter port es)
  unfolding port_action
  action-Guards letter port es h k = by_letter letter
    where
      low : 100 ≤ port
      low = (named-bounds port h).0

      high : port < 1000
      high = (named-bounds port h).1

      dir : (d : ℕ) (es : List Event) → All Touches es → Guards (setdir sysfs port d es)
      dir d =
          Does-Guards (setdir sysfs port d) (setting_dir d port) (setdir-Does sysfs port d low high)
            (inr (port, h, inl refl))

      value : (v : ℕ) (es : List Event) → All Touches es → Guards (setvalue sysfs port v es)
      value v =
          Does-Guards (setvalue sysfs port v) (setting_value v port)
            (setvalue-Does sysfs port v low high) (inr (port, h, inr refl))

      get : (es : List Event) → All Touches es → Guards (getvalue sysfs port es)
      get =
          Does-Guards (getvalue sysfs port) (getting_value port) (getvalue-Does sysfs port low high)
            (inr (port, h, inr refl))

      by_letter : (letter : GpioLetter) → Guards (port_action sysfs letter port es)
      by_letter gpio_e =
          Does-Guards (export_gpio sysfs port) (exporting port) (export-Does sysfs port low high)
            (inl refl) es k
      by_letter gpio_o = dir 0 es k
      by_letter gpio_i = dir 1 es k
      by_letter gpio_h =
          go_on-Guards (setdir sysfs port 0 es) (setvalue sysfs port 1) (dir 0 es k) (value 1)
      by_letter gpio_l =
          go_on-Guards (setdir sysfs port 0 es) (setvalue sysfs port 0) (dir 0 es k) (value 0)
      by_letter gpio_v =
          go_on-Guards (setdir sysfs port 1 es) (getvalue sysfs port) (dir 1 es k) get
      by_letter unknown_gpio = (exit_success, es, refl, k)

  module _ {Text Double : Type 0} (scan : Scan Text Double) where
    known-Guards :
        (letter : GpioLetter) (port : ℕ) (es : List Event)
        → All Touches es
        → (s : Status) → checkport port ≡ s
        → Guards {A = Option Errno} (elim s [
          | exit_failure ↦ some (some enodev, es)
          | exit_success ↦ go_on (port_action sysfs letter port es) (λ es'. some (none, es'))
        ])
    known-Guards letter port es k exit_failure e = (some enodev, es, refl, k)
    known-Guards letter port es k exit_success e =
        go_on-Guards (port_action sysfs letter port es) (λ es'. some (none, es'))
          (action-Guards letter port es (checkport-named port e) k)
          (λ es' k'. (none, es', refl, k'))

    on_port-Guards :
        (letter : GpioLetter) (port : Parsed ℕ) (es : List Event)
        → All Touches es
        → Guards (on_port sysfs scan letter port es)
    unfolding on_port
    on_port-Guards letter (rejected e) es k = (some einval, es, refl, k)
    on_port-Guards letter exits es k = (some einval, es, refl, k)
    on_port-Guards letter (parsed port) es k = known-Guards letter port es k (checkport port) refl

    on_option-Guards :
        (letter : GpioLetter) (text : Text) (es : List Event)
        → All Touches es
        → Guards (on_option sysfs scan letter text es)
    unfolding on_option
    on_option-Guards unknown_gpio text es k = (some einval, es, refl, k)
    on_option-Guards gpio_e text es k = on_port-Guards gpio_e (parse_int scan text) es k
    on_option-Guards gpio_o text es k = on_port-Guards gpio_o (parse_int scan text) es k
    on_option-Guards gpio_i text es k = on_port-Guards gpio_i (parse_int scan text) es k
    on_option-Guards gpio_h text es k = on_port-Guards gpio_h (parse_int scan text) es k
    on_option-Guards gpio_l text es k = on_port-Guards gpio_l (parse_int scan text) es k
    on_option-Guards gpio_v text es k = on_port-Guards gpio_v (parse_int scan text) es k

    ended-Guards :
        (o : Option (Option Errno × List Event)) (m : G (Option Errno))
        → Guards o
        → ((es : List Event) → All Touches es → Guards (m es))
        → Guards (unless_ended sysfs scan o m)
    ended-Guards o m (some e, es, q, k) h = rw q (some e, es, refl, k)
    ended-Guards o m (none, es, q, k) h = rw q (h es k)

    -- Whatever the options are, the program stays within its arrays, and touches no file but the one
    -- that exports ports, and those of the seven ports.
    pub parse_ports-Guards :
        (args : List (GpioLetter × Text)) (es : List Event)
        → All Touches es
        → Guards (parse_ports sysfs scan args es)
    unfolding parse_ports
    parse_ports-Guards [] es k = (none, es, refl, k)
    parse_ports-Guards ((letter, text) ∷ args) es k =
        ended-Guards (on_option sysfs scan letter text es) (parse_ports sysfs scan args)
          (on_option-Guards letter text es k) (parse_ports-Guards args)
