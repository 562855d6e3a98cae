-- ===== src/Examples/Menu.antt =====
-- What the menu of mgpio.c does.
use axidma_driver.Common.{
  ℕ, ◌+◌, ◌==◌, ◌≡◌, refl, ap, ◌∙◌, arith, Bool, true, false, Option, none, some, List, [], ◌∷◌,
  ◌++◌, if◌then◌else◌,
}
use axidma_driver.Examples.Packets.{◌>>=◌}
use axidma_driver.Examples.Gpio.{
  Mode, Event, opened, closed, Sysfs, Status, exit_success, exit_failure, G, on_open, test_all,
  test_all_export, test_all_out_dir, test_all_high, test_all_low, test_all_in_dir,
  test_all_in_value, menu, main_loop,
}
use axidma_driver.Examples.Ports.{
  Access, exporting, setting_dir, setting_value, getting_value, use_of, access, perform_next,
  perform, Does, export-Does, setdir-Does, setvalue-Does, getvalue-Does, then_do-Does, at_ports,
  for_ports-Does,
}

-- The accesses of `test_all` to a port.
abbrev pub full_test : (port : ℕ) → List Access
full_test port =
    exporting port
    ∷ setting_dir 0 port
    ∷ setting_value 0 port
    ∷ setting_value 1 port
    ∷ setting_dir 1 port
    ∷ getting_value port
    ∷ []

-- The accesses of a choice of the menu.
abbrev pub chosen : (choice : ℕ) → List Access
chosen choice =
    if choice == 1
    then at_ports (λ i. exporting i ∷ [])
    else if choice == 2
    then at_ports (λ i. setting_dir 0 i ∷ [])
    else if choice == 3
    then at_ports (λ i. setting_value 1 i ∷ [])
    else if choice == 4
    then at_ports (λ i. setting_value 0 i ∷ [])
    else if choice == 5
    then at_ports (λ i. setting_dir 1 i ∷ [])
    else if choice == 6
    then at_ports (λ i. getting_value i ∷ [])
    else []

-- How often a descriptor was given, and how often it was closed.
abbrev pub given_fd : (fd : ℕ) → List Event → ℕ
given_fd fd [] = 0
given_fd fd (opened path mode (some other) ∷ es) = (if other == fd then 1 else 0) + given_fd fd es
given_fd fd (_ ∷ es) = given_fd fd es

abbrev pub closed_fd : (fd : ℕ) → List Event → ℕ
closed_fd fd [] = 0
closed_fd fd (closed other ∷ es) = (if other == fd then 1 else 0) + closed_fd fd es
closed_fd fd (_ ∷ es) = closed_fd fd es

-- Since `es`, the descriptor was closed as often as it was given.
abbrev pub Closes : (fd : ℕ) → List Event → List Event → Type 0
Closes fd es es' = given_fd fd es' + closed_fd fd es ≡ given_fd fd es + closed_fd fd es'

module _ (sysfs : Sysfs) (fd : ℕ) where
  open-Closes :
      (path : List ℕ) (mode : Mode) (bytes : Option (List ℕ)) (answer : Option ℕ) (es : List Event)
      → Closes fd es (on_open path mode (use_of bytes) answer es).1
  open-Closes path mode bytes none es = refl
  open-Closes path mode none (some other) es = omega arith
  open-Closes path mode (some bytes) (some other) es = omega arith

  next-Closes :
      (rest : List Access) (es : List Event) (r : Status × List Event)
      → ((es : List Event) → Closes fd es (perform sysfs rest es).1)
      → Closes fd es r.1
      → Closes fd es (perform_next (perform sysfs rest) r).1
  next-Closes rest es (exit_failure, es') h k = k
  next-Closes rest es (exit_success, es') h k = omega (arith, h es', k)

  perform-Closes :
      (accesses : List Access) (es : List Event) → Closes fd es (perform sysfs accesses es).1
  perform-Closes [] es = refl
  perform-Closes (a ∷ rest) es =
      next-Closes rest es (access sysfs a es) (perform-Closes rest)
        (open-Closes a.path a.mode a.bytes (sysfs es a.path a.mode) es)

module _ (sysfs : Sysfs) where
  test_all-Does : Does sysfs (test_all sysfs) (at_ports full_test)
  unfolding test_all
  test_all-Does = for_ports-Does sysfs _ full_test (λ i low high.
      let a1 = exporting i ∷ [] in
      let a2 = a1 ++ (setting_dir 0 i ∷ []) in
      let a3 = a2 ++ (setting_value 0 i ∷ []) in
      let a4 = a3 ++ (setting_value 1 i ∷ []) in
      let a5 = a4 ++ (setting_dir 1 i ∷ []) in
      let both = then_do-Does sysfs in
      both _ _ a5 (getting_value i ∷ [])
        (both _ _ a4 (setting_dir 1 i ∷ [])
          (both _ _ a3 (setting_value 1 i ∷ [])
            (both _ _ a2 (setting_value 0 i ∷ [])
              (both _ _ a1 (setting_dir 0 i ∷ []) (export-Does sysfs i low high)
                (setdir-Does sysfs i 0 low high))
              (setvalue-Does sysfs i 0 low high))
            (setvalue-Does sysfs i 1 low high))
          (setdir-Does sysfs i 1 low high))
        (getvalue-Does sysfs i low high))

  menu-Does : (choice : ℕ) → Does sysfs (menu sysfs choice) (chosen choice)
  unfolding menu test_all_export test_all_out_dir test_all_high test_all_low test_all_in_dir
      test_all_in_value
  menu-Does choice es =
      by_test (choice == 1) _ _ _ _
        (for_ports-Does sysfs _ (λ i. exporting i ∷ []) (export-Does sysfs))
        (by_test (choice == 2) _ _ _ _
          (for_ports-Does sysfs _ (λ i. setting_dir 0 i ∷ []) (λ i. setdir-Does sysfs i 0))
          (by_test (choice == 3) _ _ _ _
            (for_ports-Does sysfs _ (λ i. setting_value 1 i ∷ []) (λ i. setvalue-Does sysfs i 1))
            (by_test (choice == 4) _ _ _ _
              (for_ports-Does sysfs _ (λ i. setting_value 0 i ∷ []) (λ i. setvalue-Does sysfs i 0))
              (by_test (choice == 5) _ _ _ _
                (for_ports-Does sysfs _ (λ i. setting_dir 1 i ∷ []) (λ i. setdir-Does sysfs i 1))
                (by_test (choice == 6) _ _ _ _
                  (for_ports-Does sysfs _ (λ i. getting_value i ∷ []) (getvalue-Does sysfs))
                  (λ es. refl))))))
        es
    where
      by_test :
          (b : Bool) (m n : G Status) (xs ys : List Access)
          → Does sysfs m xs
          → Does sysfs n ys
          → Does sysfs (if b then m else n) (if b then xs else ys)
      by_test true m n xs ys h k = h
      by_test false m n xs ys h k = k

-- The accesses of the choices, each up to the first file that cannot be opened.
abbrev pub perform_all : Sysfs → List ℕ → List Event → List Event
perform_all sysfs [] es = es
perform_all sysfs (choice ∷ choices) es =
    perform_all sysfs choices (perform sysfs (chosen choice) es).1

perform_all-Closes :
    (sysfs : Sysfs) (fd : ℕ) (choices : List ℕ) (es : List Event)
    → Closes fd es (perform_all sysfs choices es)
perform_all-Closes sysfs fd [] es = refl
perform_all-Closes sysfs fd (choice ∷ choices) es =
    let es' = (perform sysfs (chosen choice) es).1 in
    omega
      (arith, perform-Closes sysfs fd (chosen choice) es, perform_all-Closes sysfs fd choices es')

main_loop-perform_all :
    (sysfs : Sysfs) (choices : List ℕ) (es : List Event)
    → main_loop sysfs choices es ≡ some (perform_all sysfs choices es)
unfolding main_loop
main_loop-perform_all sysfs [] es = refl
main_loop-perform_all sysfs (choice ∷ choices) es =
    ap (λ o. o >>= λ r. main_loop sysfs choices r.1) (menu-Does sysfs choice es)
    ∙ main_loop-perform_all sysfs choices (perform sysfs (chosen choice) es).1

-- Whatever is chosen, the program stays within its arrays, and does the accesses of the choices at the
-- seven ports, in their order, a test up to the first file that cannot be opened; and every descriptor
-- is closed as often as it is given.
pub main_loop-Closes :
    (sysfs : Sysfs) (choices : List ℕ) (es : List Event) (fd : ℕ)
    → (main_loop sysfs choices es ≡ some (perform_all sysfs choices es))
      × Closes fd es (perform_all sysfs choices es)
main_loop-Closes sysfs choices es fd =
    (main_loop-perform_all sysfs choices es, perform_all-Closes sysfs fd choices es)
