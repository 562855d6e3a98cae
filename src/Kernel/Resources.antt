-- ===== src/Kernel/Resources.antt =====
-- Which resources a trace has acquired and not yet released, the last one first. A release of
-- anything but the last one breaks the order, and so does one with nothing held.
use axidma_driver.Common.{
  ℕ, ◌==◌, ◌≡◌, refl, arith, Bool, false, ◌&&◌, Option, none, some, List, [], ◌∷◌, if◌then◌else◌,
}
use axidma_driver.Kernel.{Event, Trace, success}

pub data Resource : Type 0 where
  memory : ℕ → Resource
  coherent : (size kern_addr dma_addr : ℕ) → Resource
  shared : (dma_buf : ℕ) → Resource
  attached : (dma_buf dma_attach : ℕ) → Resource
  mapped : (dma_attach sg_table : ℕ) → Resource
  region : (dev_num : ℕ) → Resource
  class_of : (dev_class : ℕ) → Resource
  node : (dev_class dev_num : ℕ) → Resource
  cdev : (dev_num : ℕ) → Resource

abbrev pub same_resource : Resource → Resource → Bool
same_resource (memory p) (memory q) = p == q
same_resource (coherent n a d) (coherent m b e) = n == m && a == b && d == e
same_resource (shared p) (shared q) = p == q
same_resource (attached p a) (attached q b) = p == q && a == b
same_resource (mapped p a) (mapped q b) = p == q && a == b
same_resource (region n) (region m) = n == m
same_resource (class_of c) (class_of d) = c == d
same_resource (node c n) (node d m) = c == d && n == m
same_resource (cdev n) (cdev m) = n == m
same_resource _ _ = false

abbrev pub acquire : Resource → Option (List Resource) → Option (List Resource)
acquire r none = none
acquire r (some rs) = some (r ∷ rs)

abbrev pub release : Resource → Option (List Resource) → Option (List Resource)
release r none = none
release r (some []) = none
release r (some (q ∷ rs)) = if same_resource r q then some rs else none

abbrev pub after : Event → Option (List Resource) → Option (List Resource)
after (Event.kmalloc n p) h = if p == 0 then h else acquire (memory p) h
after (Event.kfree p) h = release (memory p) h
after (Event.dma_alloc_coherent n a d) h = if a == 0 then h else acquire (coherent n a d) h
after (Event.dma_free_coherent n a d) h = release (coherent n a d) h
after (Event.dma_buf_get fd (success b)) h = acquire (shared b) h
after (Event.dma_buf_put b) h = release (shared b) h
after (Event.dma_buf_attach b (success a)) h = acquire (attached b a) h
after (Event.dma_buf_detach b a) h = release (attached b a) h
after (Event.dma_buf_map_attachment a (success (sgt, n, d))) h = acquire (mapped a sgt) h
after (Event.dma_buf_unmap_attachment a sgt) h = release (mapped a sgt) h
after (Event.alloc_chrdev_region minor count name (success n)) h = acquire (region n) h
after (Event.unregister_chrdev_region n count) h = release (region n) h
after (Event.class_create name (success c)) h = acquire (class_of c) h
after (Event.class_destroy c) h = release (class_of c) h
after (Event.device_create c n name (success d)) h = acquire (node c n) h
after (Event.device_destroy c n) h = release (node c n) h
after (Event.cdev_add n count none) h = acquire (cdev n) h
after (Event.cdev_del n) h = release (cdev n) h
after _ h = h

abbrev pub held : Trace → Option (List Resource)
held [] = some []
held (e ∷ tr) = after e (held tr)

-- What was acquired last can be released.
pub release-acquire : (r : Resource) (h : Option (List Resource)) → release r (acquire r h) ≡ h
release-acquire r none = refl
release-acquire (memory p) (some rs) = ground arith
release-acquire (coherent n a d) (some rs) = ground arith
release-acquire (shared p) (some rs) = ground arith
release-acquire (attached p a) (some rs) = ground arith
release-acquire (mapped p a) (some rs) = ground arith
release-acquire (region n) (some rs) = ground arith
release-acquire (class_of c) (some rs) = ground arith
release-acquire (node c n) (some rs) = ground arith
release-acquire (cdev n) (some rs) = ground arith
