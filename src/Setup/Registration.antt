-- ===== src/Setup/Registration.antt =====
-- The character device is registered as a whole or not at all, and can be taken away again.
use axidma_driver.Common.{ℕ, ◌≡◌, ◌∙◌, refl, ap, ◌⊎◌, inl, inr, Option, none, some, List, []}
use axidma_driver.Types.{AxidmaDevice, CharDevice, Errno}
use axidma_driver.Kernel.{Kernel, Event, State, ok, log, Ret, success, failure, check}
use axidma_driver.Kernel.Ends
use axidma_driver.Kernel.Ends.{Attempt, done, failed}
use axidma_driver.Kernel.Resources.{
  Resource, held, region, class_of, node, cdev, acquire, release, release-acquire, after,
}
use axidma_driver.Setup.Chardev.{
  alloc_chrdev_region, class_create, device_create, cdev_add, make_device, make_class, init_lists,
  axidma_chrdev_init, axidma_chrdev_exit,
}

-- The resources `h` are held.
abbrev Holding : Option (List Resource) → State → Type 0
Holding h s = held s.trace ≡ h

-- Only the character device's fields have changed, by `f`, and `h` is held.
abbrev Changed : State → (CharDevice → CharDevice) → Option (List Resource) → State → Type 0
Changed s f h s' =
    (s'.dev ≡ record s.dev { chrdev = f s.dev.chrdev })
    × (s'.allocs ≡ s.allocs)
    × (s'.exts ≡ s.exts)
    × (held s'.trace ≡ h)

Ret-cases : {A : Type 0} (r : Ret A) → ((a : A) × (r ≡ success a)) ⊎ ((e : Errno) × (r ≡ failure e))
Ret-cases (success a) = inl (a, refl)
Ret-cases (failure e) = inr (e, refl)

-- A write to the fields of the character device.
abbrev change : (CharDevice → CharDevice) → State → State
change f s = record s { dev = record s.dev { chrdev = f s.dev.chrdev } }

-- The release of what was acquired last.
releases :
    (r : Resource) (h : Option (List Resource)) (e : Event) (s : State)
    → ((g : Option (List Resource)) → after e g ≡ release r g)
    → Holding (acquire r h) s
    → Holding h (log e s)
releases r h e s drops kept = drops (held s.trace) ∙ ap (release r) kept ∙ release-acquire r h

add-Attempt :
    (s : State) (h : Option (List Resource)) (n count : ℕ) (answer : Option Errno)
    → Holding h s
    → Attempt
        (λ _. Changed s (λ x. x) (acquire (cdev n) h))
        (Holding h)
        (check answer (log (Event.cdev_add n count answer) s))
add-Attempt s h n count none kept = done (refl, refl, refl, ap (acquire (cdev n)) kept)
add-Attempt s h n count (some e) kept = failed kept

module _ (k : Kernel) where
  make_device-Attempt :
      (n c : ℕ) (s : State) (h : Option (List Resource))
      → Holding h s
      → Attempt
          (λ _ s'.
            (d : ℕ) × Changed s
              (λ x. record x { device = d })
              (acquire (cdev n) (acquire (node c n) h))
              s')
          (Holding h)
          (make_device k n c s)
  unfolding make_device device_create cdev_add
  make_device-Attempt n c s h kept =
      let name = s.dev.chrdev.chrdev_name in
      let count = s.dev.chrdev.num_devices in
      elim (Ret-cases (k.device_create s.trace c n name)) [
        | inl (d, e) ↦
            let s2 =
              change (λ x. record x { device = d })
                (log (Event.device_create c n name (success d)) s) in
            rw e (
              Ends.relax
                (Ends.undo (Event.device_destroy c n)
                  (add-Attempt s2 (acquire (node c n) h) n count (k.cdev_add s2.trace n count)
                    (ap (acquire (node c n)) kept))
                  (λ s3 kept3.
                    releases (node c n) h (Event.device_destroy c n) s3 (λ g. refl) kept3))
                λ _ s3 changed. (d, changed))
        | inr (x, e) ↦ rw e (failed kept)
      ]

  make_class-Attempt :
      (n : ℕ) (s : State) (h : Option (List Resource))
      → Holding h s
      → Attempt
          (λ _ s'.
            (c : ℕ) × (d : ℕ) × Changed s
              (λ x. record x { dev_class = c; device = d })
              (acquire (cdev n) (acquire (node c n) (acquire (class_of c) h)))
              s')
          (Holding h)
          (make_class k n s)
  unfolding make_class class_create
  make_class-Attempt n s h kept =
      let name = s.dev.chrdev.chrdev_name in
      elim (Ret-cases (k.class_create s.trace name)) [
        | inl (c, e) ↦
            let s2 =
              change (λ x. record x { dev_class = c })
                (log (Event.class_create name (success c)) s) in
            rw e (
              Ends.relax
                (Ends.undo (Event.class_destroy c)
                  (make_device-Attempt n c s2 (acquire (class_of c) h)
                    (ap (acquire (class_of c)) kept))
                  (λ s3 kept3.
                    releases (class_of c) h (Event.class_destroy c) s3 (λ g. refl) kept3))
                λ _ s3 (d, changed). (c, d, changed))
        | inr (x, e) ↦ rw e (failed kept)
      ]

-- The character device is registered: its numbers are those of the device, both lists of buffers
-- are empty, and four resources are held beside those of before.
pub record IsRegistered (s s' : State) : Type 0 where
  pub dev_num : ℕ
  pub dev_class : ℕ
  pub device : ℕ
  pub stored : s'.dev ≡ record s.dev {
    chrdev = record s.dev.chrdev { dev_num = dev_num; dev_class = dev_class; device = device };
    dmabuf_list = [];
    external_dmabufs = [];
  }
  pub holding :
      held s'.trace
      ≡ acquire (cdev dev_num) (
          acquire
            (node dev_class dev_num)
            (acquire (class_of dev_class) (acquire (region dev_num) (held s.trace))))

-- The registration of the character device has no fault: all of it is registered and both lists of
-- buffers are empty, or what was registered is taken back in the reverse order, whichever step fails.
pub chrdev_init-Attempt :
    (k : Kernel) (s : State)
    → Attempt (λ _. IsRegistered s) (λ s'. held s'.trace ≡ held s.trace) (axidma_chrdev_init k s)
unfolding axidma_chrdev_init alloc_chrdev_region init_lists
chrdev_init-Attempt k s =
    let chrdev = s.dev.chrdev in
    let made = Event.alloc_chrdev_region chrdev.minor_num chrdev.num_devices chrdev.chrdev_name in
    elim (Ret-cases
      (k.alloc_chrdev_region s.trace chrdev.minor_num chrdev.num_devices chrdev.chrdev_name)) [
        | inl (n, e) ↦
            let s2 = change (λ x. record x { dev_num = n }) (log (made (success n)) s) in
            let freed = Event.unregister_chrdev_region n chrdev.num_devices in
            rw e (
              Ends.carry_on
                (Ends.undo freed
                  (make_class-Attempt k n s2 (acquire (region n) (held s.trace)) refl)
                  (λ s3 kept3. releases (region n) (held s.trace) freed s3 (λ g. refl) kept3))
                λ _ s3 (c, d, changed). done (record {
                  dev_num = n;
                  dev_class = c;
                  device = d;
                  stored =
                      ap
                        (λ (v : AxidmaDevice). record v { dmabuf_list = []; external_dmabufs = [] })
                        changed.0;
                  holding = changed.3;
                }))
        | inr (x, e) ↦ rw e (failed refl)
      ]

-- The character device that has been registered is taken away without a fault, in the reverse
-- order, so that the resources from before its registration are held.
pub chrdev_exit-IsRegistered :
    (s s' : State)
    → IsRegistered s s'
    → (s2 : State) × (axidma_chrdev_exit s' ≡ ok tt s2)
      × (s2.dev ≡ s'.dev)
      × (held s2.trace ≡ held s.trace)
unfolding axidma_chrdev_exit
chrdev_exit-IsRegistered s s' r =
    let n = s'.dev.chrdev.dev_num in
    let c = s'.dev.chrdev.dev_class in
    let h = held s.trace in
    let num : n ≡ r.dev_num = ap (λ (v : AxidmaDevice). v.chrdev.dev_num) r.stored in
    let cls : c ≡ r.dev_class = ap (λ (v : AxidmaDevice). v.chrdev.dev_class) r.stored in
    let kept : Holding
        (acquire (cdev n) (acquire (node c n) (acquire (class_of c) (acquire (region n) h)))) s' =
      rw (num, cls) r.holding in
    let e1 = Event.cdev_del n in
    let e2 = Event.device_destroy c n in
    let e3 = Event.class_destroy c in
    let e4 = Event.unregister_chrdev_region n s'.dev.chrdev.num_devices in
    let kept1 = releases (cdev n) _ e1 s' (λ g. refl) kept in
    let kept2 = releases (node c n) _ e2 (log e1 s') (λ g. refl) kept1 in
    let kept3 = releases (class_of c) _ e3 (log e2 (log e1 s')) (λ g. refl) kept2 in
    (
      log e4 (log e3 (log e2 (log e1 s'))),
      refl,
      refl,
      releases (region n) h e4 (log e3 (log e2 (log e1 s'))) (λ g. refl) kept3,
    )
