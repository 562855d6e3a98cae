-- ===== src/Examples/Gpio.antt =====
-- examples/mgpio.c, and Int2String of examples/util.c. What `open` answers is a parameter, a function of
-- what was done before; what `write` and `read` answer is not looked at by the program. A run that would
-- leave an array is `none`. A text is a list of chars.
use axidma_driver.Common.{
  ℕ, zero, suc, ◌+◌, ◌-◌, ◌/◌, ◌%◌, ◌==◌, ltb, Bool, false, Option, none, some, List, [], ◌∷◌, ◌++◌,
  if◌then◌else◌, get_elem?, replicate, leb, length,
}
use axidma_driver.Examples.Packets.{◌>>=◌, store, char_mod}
use axidma_driver.Examples.Files.{drop}

-- The loop that writes the digits, the lowest first, with the next index. An `int` has ten digits at
-- most, so ten rounds are enough.
unfoldable pub digits_loop : (rounds num i : ℕ) (str : List ℕ) → Option (ℕ × List ℕ)
digits_loop zero num i str = none
digits_loop (suc n) num i str = do
  written ← store str i (num % 10 + 48)
  if num / 10 == 0 then some (i + 1, written) else digits_loop n (num / 10) (i + 1) written

-- The loop that swaps the ends by way of their sum. Each round takes `j` nearer to the middle.
unfoldable pub swap_loop : (rounds j i : ℕ) (str : List ℕ) → Option (List ℕ)
swap_loop zero j i str = some str
swap_loop (suc n) j i str =
    if ltb j (i / 2)
    then (do
      a ← get_elem? str j
      b ← get_elem? str (i - 1 - j)
      let sum = (a + b) % char_mod
      let first = (sum + char_mod - b) % char_mod
      one ← store str j sum
      two ← store one (i - 1 - j) first
      three ← store two j ((sum + char_mod - first) % char_mod)
      swap_loop n (j + 1) i three)
    else some str

-- The number is given by its sign and its value, which is below 2 ^ 31.
unfoldable pub int_to_string : (negative : Bool) (num : ℕ) (str : List ℕ) → Option (List ℕ)
int_to_string negative num str = do
  signed ← if negative then store str 0 45 else some str
  (i, written) ← digits_loop 10 num (if negative then 1 else 0) signed
  ended ← store written i 0
  first ← get_elem? ended 0
  if first == 45 then swap_loop (i + 1) 1 (i + 1) ended else swap_loop i 0 i ended

-- The chars in front of the first 0.
abbrev pub c_string : List ℕ → List ℕ
c_string [] = []
c_string (zero ∷ str) = []
c_string (suc c ∷ str) = suc c ∷ c_string str

pub data Mode : Type 0 where
  wronly rdwr rdonly : Mode

-- What the program asks of the kernel, the newest first.
pub data Event : Type 0 where
  opened : (path : List ℕ) → Mode → (fd : Option ℕ) → Event
  wrote : (fd : ℕ) (bytes : List ℕ) → Event
  read_one : (fd : ℕ) → Event
  closed : (fd : ℕ) → Event

abbrev pub Sysfs : Type 0
Sysfs = List Event → (path : List ℕ) → Mode → Option ℕ

pub data Status : Type 0 where
  exit_success exit_failure : Status

abbrev pub G : Type 0 → Type 0
G A = List Event → Option (A × List Event)

-- What follows a success.
abbrev pub or_failure : Option (Status × List Event) → G Status → Option (Status × List Event)
or_failure none m = none
or_failure (some (exit_failure, es)) m = some (exit_failure, es)
or_failure (some (exit_success, es)) m = m es

infixl 5 ◌then_do◌
abbrev pub ◌then_do◌ : G Status → G Status → G Status
◌then_do◌ m n es = or_failure (m es) n

-- /sys/class/gpio/export
abbrev pub sysfs_gpio_export : List ℕ
sysfs_gpio_export =
    47 ∷ 115 ∷ 121 ∷ 115 ∷ 47 ∷ 99 ∷ 108 ∷ 97 ∷ 115 ∷ 115 ∷ 47 ∷ 103 ∷ 112 ∷ 105 ∷ 111 ∷ 47 ∷ 101
    ∷ 120 ∷ 112 ∷ 111 ∷ 114 ∷ 116 ∷ []

-- /sys/class/gpio/gpio
abbrev pub gpio_dir : List ℕ
gpio_dir =
    47 ∷ 115 ∷ 121 ∷ 115 ∷ 47 ∷ 99 ∷ 108 ∷ 97 ∷ 115 ∷ 115 ∷ 47 ∷ 103 ∷ 112 ∷ 105 ∷ 111 ∷ 47 ∷ 103
    ∷ 112 ∷ 105 ∷ 111 ∷ []

-- /direction
abbrev pub direction : List ℕ
direction = 47 ∷ 100 ∷ 105 ∷ 114 ∷ 101 ∷ 99 ∷ 116 ∷ 105 ∷ 111 ∷ 110 ∷ []

-- /value
abbrev pub value_file : List ℕ
value_file = 47 ∷ 118 ∷ 97 ∷ 108 ∷ 117 ∷ 101 ∷ []

-- The answer of `open`, with what is done to the descriptor before it is closed.
abbrev pub on_open :
    (path : List ℕ) → Mode → (use_fd : ℕ → Event) → Option ℕ → List Event → Status × List Event
on_open path mode use_fd none es = (exit_failure, opened path mode none ∷ es)
on_open path mode use_fd (some fd) es =
    (exit_success, closed fd ∷ use_fd fd ∷ opened path mode (some fd) ∷ es)

-- The two values of `dir` and of `value`; any other number stands for the default.
abbrev pub sysfs_gpio_dir_out : ℕ
sysfs_gpio_dir_out = 0

abbrev pub sysfs_gpio_dir_in : ℕ
sysfs_gpio_dir_in = 1

abbrev pub sysfs_gpio_val_h : ℕ
sysfs_gpio_val_h = 1

abbrev pub sysfs_gpio_val_l : ℕ
sysfs_gpio_val_l = 0

-- The texts are written with the 0 at their end.
abbrev pub dir_text : (dir : ℕ) → List ℕ
dir_text dir = if dir == sysfs_gpio_dir_out then 111 ∷ 117 ∷ 116 ∷ 0 ∷ [] else 105 ∷ 110 ∷ 0 ∷ []

abbrev pub value_text : (value : ℕ) → List ℕ
value_text value = if value == sysfs_gpio_val_h then 49 ∷ 0 ∷ [] else 48 ∷ 0 ∷ []

-- The text behind the one in the array, with the 0 at its end; none if the array has no room for it.
unfoldable pub strcat : (dest src : List ℕ) → Option (List ℕ)
strcat dest src =
    let text = c_string dest ++ (src ++ (0 ∷ [])) in
    if leb (length text) (length dest) then some (text ++ drop (length text) dest) else none

-- `char dir_str[50]` and `char loca_str[50]` as they are declared.
abbrev pub path_size : ℕ
path_size = 50

abbrev pub fresh_path : List ℕ
fresh_path = gpio_dir ++ replicate (path_size - length gpio_dir) 0

-- The path of a file of a port, in its array.
unfoldable pub port_path : (port_str file : List ℕ) → Option (List ℕ)
port_path port_str file = do
  dir_str ← strcat fresh_path (c_string port_str)
  path_str ← strcat dir_str file
  some (c_string path_str)

-- What getvalue does with `char buf[3]` if the file was opened: one byte is read, and a 0 is put behind
-- it. Of the bytes only the places matter.
unfoldable pub read_byte : Status × List Event → Option (Status × List Event)
read_byte (exit_failure, es) = some (exit_failure, es)
read_byte (exit_success, es) = do
  buf ← store (replicate 3 0) 0 0
  ended ← store buf 1 0
  some (exit_success, es)

module _ (sysfs : Sysfs) where
  unfoldable pub export_gpio : (port : ℕ) → G Status
  export_gpio port es = do
    port_s ← int_to_string false port (replicate 16 0)
    some (
        on_open sysfs_gpio_export wronly (λ fd. wrote fd (c_string port_s))
          (sysfs es sysfs_gpio_export wronly) es)

  unfoldable pub setdir : (port dir : ℕ) → G Status
  setdir port dir es = do
    port_str ← int_to_string false port (replicate 15 0)
    path ← port_path port_str direction
    some (on_open path wronly (λ fd. wrote fd (dir_text dir)) (sysfs es path wronly) es)

  unfoldable pub setvalue : (port value : ℕ) → G Status
  setvalue port value es = do
    port_str ← int_to_string false port (replicate 15 0)
    path ← port_path port_str value_file
    some (on_open path rdwr (λ fd. wrote fd (value_text value)) (sysfs es path rdwr) es)

  unfoldable pub getvalue : (port : ℕ) → G Status
  getvalue port es = do
    port_str ← int_to_string false port (replicate 15 0)
    path ← port_path port_str value_file
    read_byte (on_open path rdonly read_one (sysfs es path rdonly) es)

-- The loop of the tests, from the port `i` on, which leaves out 433.
unfoldable pub for_ports : (rounds i : ℕ) (test : ℕ → G Status) → G Status
for_ports zero i test es = some (exit_success, es)
for_ports (suc n) i test es =
    if i == 433 then for_ports n (i + 1) test es else (test i then_do for_ports n (i + 1) test) es

module _ (sysfs : Sysfs) where
  unfoldable pub test_all : G Status
  test_all = for_ports 8 432 (λ i.
      export_gpio sysfs i
      then_do setdir sysfs i sysfs_gpio_dir_out
      then_do setvalue sysfs i sysfs_gpio_val_l
      then_do setvalue sysfs i sysfs_gpio_val_h
      then_do setdir sysfs i sysfs_gpio_dir_in
      then_do getvalue sysfs i)

  unfoldable pub test_all_export : G Status
  test_all_export = for_ports 8 432 (export_gpio sysfs)

  unfoldable pub test_all_out_dir : G Status
  test_all_out_dir = for_ports 8 432 (λ i. setdir sysfs i sysfs_gpio_dir_out)

  unfoldable pub test_all_high : G Status
  test_all_high = for_ports 8 432 (λ i. setvalue sysfs i sysfs_gpio_val_h)

  unfoldable pub test_all_low : G Status
  test_all_low = for_ports 8 432 (λ i. setvalue sysfs i sysfs_gpio_val_l)

  unfoldable pub test_all_in_dir : G Status
  test_all_in_dir = for_ports 8 432 (λ i. setdir sysfs i sysfs_gpio_dir_in)

  unfoldable pub test_all_in_value : G Status
  test_all_in_value = for_ports 8 432 (getvalue sysfs)

  -- The `switch` of `main`; what a test returns is not looked at, and another number does nothing.
  unfoldable pub menu : (choice : ℕ) → G Status
  menu choice =
      if choice == 1
      then test_all_export
      else if choice == 2
      then test_all_out_dir
      else if choice == 3
      then test_all_high
      else if choice == 4
      then test_all_low
      else if choice == 5
      then test_all_in_dir
      else if choice == 6
      then test_all_in_value
      else (λ es. some (exit_success, es))

  -- `main` on the numbers that `scanf` reads, one after another, up to a text that is no number. At the
  -- end of the input `scanf` returns -1, and the loop goes on with the last number; no run of the model
  -- does that.
  unfoldable pub main_loop : (choices : List ℕ) → List Event → Option (List Event)
  main_loop [] es = some es
  main_loop (choice ∷ choices) es = menu choice es >>= λ r. main_loop choices r.1
