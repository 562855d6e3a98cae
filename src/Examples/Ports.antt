-- ===== src/Examples/Ports.antt =====
-- The tests of mgpio.c, as accesses to the files of the ports.
use axidma_driver.Common.{
  ℕ, zero, suc, ◌+◌, ◌-◌, ◌/◌, ◌%◌, ◌==◌, ◌≤◌, ◌<◌, ◌≡◌, refl, ap, sym, ◌∙◌, arith, true, false,
  Option, none, some, List, [], ◌∷◌, ◌++◌, replicate, leb, length, if◌then◌else◌,
}
use axidma_driver.Examples.Packets.{store}
use axidma_driver.Examples.Files.{drop}
use axidma_driver.Examples.Gpio.{
  digits_loop, swap_loop, int_to_string, c_string, Mode, wronly, rdwr, rdonly, Event, wrote,
  read_one, Sysfs, Status, exit_success, exit_failure, G, or_failure, ◌then_do◌, sysfs_gpio_export,
  gpio_dir, direction, value_file, on_open, dir_text, value_text, export_gpio, setdir, setvalue,
  getvalue, for_ports, port_path, strcat, fresh_path, read_byte,
}

-- The three digits of a port.
abbrev pub port_text : ℕ → List ℕ
port_text i = (i / 10 / 10 % 10 + 48) ∷ (i / 10 % 10 + 48) ∷ (i % 10 + 48) ∷ []

tests :
    (i : ℕ)
    → 100 ≤ i
    → i < 1000
    → ((i / 10 == 0) ≡ false)
      × ((i / 10 / 10 == 0) ≡ false)
      × ((i / 10 / 10 / 10 == 0) ≡ true)
      × ((i % 10 + 48 == 45) ≡ false)
tests i low high = (ground arith, ground arith, ground arith, ground arith)

swapped :
    (a b : ℕ)
    → a < 128
    → b < 128
    → (((a + b) % 256 + 256 - b) % 256 ≡ a) × (((a + b) % 256 + 256 - a) % 256 ≡ b)
swapped a b h k = (omega arith, omega arith)

abbrev Written : (room i : ℕ) → Type 0
Written room i =
    int_to_string false i (replicate room 0) ≡ some (port_text i ++ replicate (room - 3) 0)

port_text-Written : (i : ℕ) → 100 ≤ i → i < 1000 → Written 15 i × Written 16 i
unfolding int_to_string digits_loop swap_loop store
port_text-Written i low high =
    let (a, b, c, d) = tests i low high in
    let (e, f) = swapped (i % 10 + 48) (i / 10 / 10 % 10 + 48) (omega arith) (omega arith) in
    (rw (a, b, c, d, e, f) refl, rw (a, b, c, d, e, f) refl)

c_string-cons : (c : ℕ) (str : List ℕ) → 1 ≤ c → c_string (c ∷ str) ≡ c ∷ c_string str
c_string-cons zero str h = absurd (omega arith)
c_string-cons (suc c) str h = refl

c_string-port : (i room : ℕ) → c_string (port_text i ++ replicate (suc room) 0) ≡ port_text i
c_string-port i room =
    let one = λ (c : ℕ). λ (str : List ℕ). λ (h : 1 ≤ c). c_string-cons c str h in
    rw
      (
        one (i / 10 / 10 % 10 + 48) _ (omega arith),
        one (i / 10 % 10 + 48) _ (omega arith),
        one (i % 10 + 48) _ (omega arith),
      )
      refl

c_string-path :
    (i : ℕ) (rest : List ℕ)
    → c_string (gpio_dir ++ (port_text i ++ rest)) ≡ gpio_dir ++ (port_text i ++ c_string rest)
c_string-path i rest =
    let one = λ (c : ℕ). λ (str : List ℕ). λ (h : 1 ≤ c). c_string-cons c str h in
    rw
      (
        one (i / 10 / 10 % 10 + 48) ((i / 10 % 10 + 48) ∷ (i % 10 + 48) ∷ rest) (omega arith),
        one (i / 10 % 10 + 48) ((i % 10 + 48) ∷ rest) (omega arith),
        one (i % 10 + 48) rest (omega arith),
      )
      refl

abbrev zeros : ℕ → List ℕ
zeros n = replicate n 0

-- The text of an array with the path of the port.
abbrev in_array : ℕ → List ℕ → List ℕ
in_array i rest = gpio_dir ++ (port_text i ++ rest)

strcat_at :
    (dest src text : List ℕ)
    → c_string dest ≡ text
    → strcat dest src ≡ (
        let joined = text ++ (src ++ (0 ∷ [])) in
        if leb (length joined) (length dest)
        then some (joined ++ drop (length joined) dest)
        else none)
unfolding strcat
strcat_at dest src text e = rw e refl

strcat_port : (i : ℕ) → strcat fresh_path (port_text i) ≡ some (in_array i (zeros 27))
unfolding strcat
strcat_port i = refl

strcat-direction :
    (i : ℕ) → strcat (in_array i (zeros 27)) direction ≡ some (in_array i (direction ++ zeros 17))
strcat-direction i =
    strcat_at (in_array i (zeros 27)) direction (gpio_dir ++ (port_text i ++ []))
      (c_string-path i (zeros 27))

strcat_value :
    (i : ℕ) → strcat (in_array i (zeros 27)) value_file ≡ some (in_array i (value_file ++ zeros 21))
strcat_value i =
    strcat_at (in_array i (zeros 27)) value_file (gpio_dir ++ (port_text i ++ []))
      (c_string-path i (zeros 27))

-- The two paths fit into their arrays.
port_path-Fits :
    (i : ℕ)
    → (port_path (port_text i ++ replicate 12 0) direction
        ≡ some (gpio_dir ++ (port_text i ++ direction)))
      × (port_path (port_text i ++ replicate 12 0) value_file
          ≡ some (gpio_dir ++ (port_text i ++ value_file)))
unfolding port_path
port_path-Fits i =
    let behind = strcat_port i in
    (
      rw (c_string-port i 11, behind, strcat-direction i)
          (ap some (c_string-path i (direction ++ zeros 17))),
      rw (c_string-port i 11, behind, strcat_value i)
          (ap some (c_string-path i (value_file ++ zeros 21))),
    )

-- An access to a file: the bytes that are written to it, or one byte that is read.
pub record Access : Type 0 where
  pub path : List ℕ
  pub mode : Mode
  pub bytes : Option (List ℕ)

abbrev pub use_of : Option (List ℕ) → (fd : ℕ) → Event
use_of none fd = read_one fd
use_of (some bytes) fd = wrote fd bytes

abbrev pub perform_next :
    (List Event → Status × List Event) → Status × List Event → Status × List Event
perform_next next (exit_failure, es) = (exit_failure, es)
perform_next next (exit_success, es) = next es

module _ (sysfs : Sysfs) where
  abbrev pub access : Access → List Event → Status × List Event
  access a es = on_open a.path a.mode (use_of a.bytes) (sysfs es a.path a.mode) es

  -- Accesses one after another, up to the first file that cannot be opened.
  abbrev pub perform : List Access → List Event → Status × List Event
  perform [] es = (exit_success, es)
  perform (a ∷ rest) es = perform_next (perform rest) (access a es)

-- The four operations on a port.
abbrev pub exporting : (port : ℕ) → Access
exporting port = record { path = sysfs_gpio_export; mode = wronly; bytes = some (port_text port) }

abbrev pub port_file : (port : ℕ) (file : List ℕ) → List ℕ
port_file port file = gpio_dir ++ (port_text port ++ file)

abbrev pub setting_dir : (dir port : ℕ) → Access
setting_dir dir port = record {
  path = port_file port direction;
  mode = wronly;
  bytes = some (dir_text dir);
}

abbrev pub setting_value : (value port : ℕ) → Access
setting_value value port = record {
  path = port_file port value_file;
  mode = rdwr;
  bytes = some (value_text value);
}

abbrev pub getting_value : (port : ℕ) → Access
getting_value port = record { path = port_file port value_file; mode = rdonly; bytes = none }

-- The accesses of a test, at each of the seven ports.
abbrev pub at_ports : (accesses : ℕ → List Access) → List Access
at_ports accesses =
    accesses 432
    ++ (accesses 434
        ++ (accesses 435
            ++ (accesses 436 ++ (accesses 437 ++ (accesses 438 ++ (accesses 439 ++ []))))))

-- A test does these accesses.
abbrev pub Does : Sysfs → G Status → List Access → Type 0
Does sysfs m accesses = (es : List Event) → m es ≡ some (perform sysfs accesses es)

module _ (sysfs : Sysfs) where
  alone : (r : Status × List Event) → perform_next (perform sysfs []) r ≡ r
  alone (exit_success, es) = refl
  alone (exit_failure, es) = refl

  pub export-Does :
      (i : ℕ) → 100 ≤ i → i < 1000 → Does sysfs (export_gpio sysfs i) (exporting i ∷ [])
  unfolding export_gpio
  export-Does i low high es =
      rw ((port_text-Written i low high).1, c_string-port i 12) (ap some (sym (alone _)))

  pub setdir-Does :
      (i dir : ℕ) → 100 ≤ i → i < 1000 → Does sysfs (setdir sysfs i dir) (setting_dir dir i ∷ [])
  unfolding setdir
  setdir-Does i dir low high es =
      rw ((port_text-Written i low high).0, (port_path-Fits i).0) (ap some (sym (alone _)))

  pub setvalue-Does :
      (i value : ℕ)
      → 100 ≤ i
      → i < 1000
      → Does sysfs (setvalue sysfs i value) (setting_value value i ∷ [])
  unfolding setvalue
  setvalue-Does i value low high es =
      rw ((port_text-Written i low high).0, (port_path-Fits i).1) (ap some (sym (alone _)))

  read_byte_lem : (r : Status × List Event) → read_byte r ≡ some r
  unfolding read_byte store
  read_byte_lem (exit_success, es) = refl
  read_byte_lem (exit_failure, es) = refl

  pub getvalue-Does :
      (i : ℕ) → 100 ≤ i → i < 1000 → Does sysfs (getvalue sysfs i) (getting_value i ∷ [])
  unfolding getvalue
  getvalue-Does i low high es =
      rw ((port_text-Written i low high).0, (port_path-Fits i).1, read_byte_lem _)
        (ap some (sym (alone _)))

  next-append :
      (xs ys : List Access)
      → ((es : List Event)
          → or_failure (some (perform sysfs xs es)) (λ es. some (perform sysfs ys es))
            ≡ some (perform sysfs (xs ++ ys) es))
      → (r : Status × List Event)
      → or_failure (some (perform_next (perform sysfs xs) r)) (λ es. some (perform sysfs ys es))
        ≡ some (perform_next (perform sysfs (xs ++ ys)) r)
  next-append xs ys h (exit_failure, es) = refl
  next-append xs ys h (exit_success, es) = h es

  perform-append :
      (xs ys : List Access) (es : List Event)
      → or_failure (some (perform sysfs xs es)) (λ es. some (perform sysfs ys es))
        ≡ some (perform sysfs (xs ++ ys) es)
  perform-append [] ys es = refl
  perform-append (x ∷ xs) ys es = next-append xs ys (perform-append xs ys) (access sysfs x es)

  or_failure-eq :
      (o : Option (Status × List Event)) (r : Status × List Event) (m : G Status) (ys : List Access)
      → o ≡ some r
      → Does sysfs m ys
      → or_failure o m ≡ or_failure (some r) (λ es. some (perform sysfs ys es))
  or_failure-eq o (exit_failure, es) m ys h does = rw h refl
  or_failure-eq o (exit_success, es) m ys h does = rw (h, does es) refl

  -- One after another.
  pub then_do-Does :
      (m n : G Status) (xs ys : List Access)
      → Does sysfs m xs
      → Does sysfs n ys
      → Does sysfs (m then_do n) (xs ++ ys)
  then_do-Does m n xs ys h k es =
      or_failure-eq (m es) (perform sysfs xs es) n ys (h es) k ∙ perform-append xs ys es

  pub for_ports-Does :
      (test : ℕ → G Status) (accesses : ℕ → List Access)
      → ((i : ℕ) → 100 ≤ i → i < 1000 → Does sysfs (test i) (accesses i))
      → Does sysfs (for_ports 8 432 test) (at_ports accesses)
  unfolding for_ports
  for_ports-Does test accesses h =
      let one = λ (i : ℕ). λ (low : 100 ≤ i). λ (high : i < 1000). λ (rest : G Status).
        λ (ys : List Access). then_do-Does (test i) rest (accesses i) ys (h i low high) in
      one 432 (omega arith) (omega arith) _ _ (
        one 434 (omega arith) (omega arith) _ _ (
          one 435 (omega arith) (omega arith) _ _ (
            one 436 (omega arith) (omega arith) _ _ (
              one 437 (omega arith) (omega arith) _ _ (
                one 438 (omega arith) (omega arith) _ _
                  (one 439 (omega arith) (omega arith) _ _ (λ es. refl)))))))
