-- ===== src/Setup/Chardev.antt =====
-- driver/axidma_chrdev.c: the character device is registered, and taken away.
use axidma_driver.Common.{ℕ, []}
use axidma_driver.Types.{CharDevice}
use axidma_driver.Kernel.{
  Kernel, Event, M, ◌>>=◌, ◌>>◌, on_error, get_dev, put_dev, emit, check, from_ret, log,
}

module _ (k : Kernel) where
  unfoldable pub alloc_chrdev_region : (minor count name : ℕ) → M ℕ
  alloc_chrdev_region minor count name s =
      let r = k.alloc_chrdev_region s.trace minor count name in
      from_ret r (log (Event.alloc_chrdev_region minor count name r) s)

  unfoldable pub class_create : (name : ℕ) → M ℕ
  class_create name s =
      let r = k.class_create s.trace name in from_ret r (log (Event.class_create name r) s)

  unfoldable pub device_create : (dev_class dev_num name : ℕ) → M ℕ
  device_create c n name s =
      let r = k.device_create s.trace c n name in
      from_ret r (log (Event.device_create c n name r) s)

  unfoldable pub cdev_add : (dev_num count : ℕ) → M (Unit {0})
  cdev_add n count s =
      let r = k.cdev_add s.trace n count in check r (log (Event.cdev_add n count r) s)

-- A write to the fields of the device that the character device keeps.
abbrev pub update_chrdev : (CharDevice → CharDevice) → M (Unit {0})
update_chrdev f = do dev ← get_dev; put_dev (record dev { chrdev = f dev.chrdev })

module _ (k : Kernel) where
  -- The device file and the character device. An error pointer that the C code stores in the device
  -- is not kept.
  unfoldable pub make_device : (dev_num dev_class : ℕ) → M (Unit {0})
  make_device dev_num dev_class = do
    dev ← get_dev
    device ← device_create k dev_class dev_num dev.chrdev.chrdev_name
    update_chrdev (λ c. record c { device = device })
    on_error (emit (Event.device_destroy dev_class dev_num))
        (cdev_add k dev_num dev.chrdev.num_devices)

  unfoldable pub make_class : (dev_num : ℕ) → M (Unit {0})
  make_class dev_num = do
    dev ← get_dev
    dev_class ← class_create k dev.chrdev.chrdev_name
    update_chrdev (λ c. record c { dev_class = dev_class })
    on_error (emit (Event.class_destroy dev_class)) (make_device dev_num dev_class)

  -- `INIT_LIST_HEAD` of both lists.
  unfoldable pub init_lists : M (Unit {0})
  init_lists = do dev ← get_dev; put_dev (record dev { dmabuf_list = []; external_dmabufs = [] })

  -- Each `on_error` is a label of the clean-up code at the end.
  unfoldable pub axidma_chrdev_init : M (Unit {0})
  axidma_chrdev_init = do
    dev ← get_dev
    dev_num ←
        alloc_chrdev_region k dev.chrdev.minor_num dev.chrdev.num_devices dev.chrdev.chrdev_name
    update_chrdev (λ c. record c { dev_num = dev_num })
    on_error (emit (Event.unregister_chrdev_region dev_num dev.chrdev.num_devices))
        (make_class dev_num)
    init_lists

unfoldable pub axidma_chrdev_exit : M (Unit {0})
axidma_chrdev_exit = do
  dev ← get_dev
  emit (Event.cdev_del dev.chrdev.dev_num)
  emit (Event.device_destroy dev.chrdev.dev_class dev.chrdev.dev_num)
  emit (Event.class_destroy dev.chrdev.dev_class)
  emit (Event.unregister_chrdev_region dev.chrdev.dev_num dev.chrdev.num_devices)
