-- ===== src/Chrdev/Memory.antt =====
-- driver/axidma_chrdev.c: buffers of other drivers, and buffers that are mapped into a process.
use axidma_driver.Common.{
  ℕ, ◌+◌, ◌-◌, ◌%◌, ◌==◌, leb, ◌&&◌, none, some, List, [], ◌∷◌, if◌then◌else◌,
}
use axidma_driver.Types.{
  word_mod, RegisterBuffer, DmaAllocation, ExternalAllocation, einval, enomem, enoent,
}
use axidma_driver.Kernel.{
  Kernel, Event, M, fault, use_after_free, ok, pure, fail, ◌>>=◌, ◌>>◌, on_error, get_dev, put_dev,
  emit, check, from_ret, log, update, kmalloc,
}

-- `sizeof(struct axidma_external_allocation)` and `sizeof(struct axidma_dma_allocation)`.
abbrev pub sizeof_external : ℕ
sizeof_external = 32

abbrev pub sizeof_allocation : ℕ
sizeof_allocation = 24

module _ (k : Kernel) where
  unfoldable pub dma_buf_get : ℕ → M ℕ
  dma_buf_get fd s = let r = k.dma_buf_get s.trace fd in from_ret r (log (Event.dma_buf_get fd r) s)

  unfoldable pub dma_buf_attach : ℕ → M ℕ
  dma_buf_attach b s =
      let r = k.dma_buf_attach s.trace b in from_ret r (log (Event.dma_buf_attach b r) s)

  -- The table, the number of its entries, and the DMA address of the first.
  unfoldable pub dma_buf_map_attachment : ℕ → M (ℕ × ℕ × ℕ)
  dma_buf_map_attachment a s =
      let r = k.dma_buf_map_attachment s.trace a in
      from_ret r (log (Event.dma_buf_map_attachment a r) s)

  -- The kernel address, 0 if there is no memory, and the DMA address.
  unfoldable pub dma_alloc_coherent : ℕ → M (ℕ × ℕ)
  dma_alloc_coherent n s =
      let r = k.dma_alloc_coherent s.trace n in ok r (log (Event.dma_alloc_coherent n r.0 r.1) s)

  unfoldable pub dma_mmap_coherent : (kern_addr dma_addr size : ℕ) → M (Unit {0})
  dma_mmap_coherent a d n s =
      let r = k.dma_mmap_coherent s.trace a d n in check r (log (Event.dma_mmap_coherent a d n r) s)

-- The structure is filled in, and added at the head of `dev->external_dmabufs`.
unfoldable pub add_external : ℕ → ExternalAllocation → M (Unit {0})
add_external ptr a s = ok tt (record s {
  exts = update s.exts ptr (some a);
  dev = record s.dev { external_dmabufs = ptr ∷ s.dev.external_dmabufs };
})

-- The structure is filled in, and added at the head of `dev->dmabuf_list`.
unfoldable pub add_allocation : ℕ → DmaAllocation → M (Unit {0})
add_allocation ptr a s = ok tt (record s {
  allocs = update s.allocs ptr (some a);
  dev = record s.dev { dmabuf_list = ptr ∷ s.dev.dmabuf_list };
})

-- `kfree` of a structure that is in use so far.
unfoldable pub free_external : ℕ → M (Unit {0})
free_external ptr s = emit (Event.kfree ptr) (record s { exts = update s.exts ptr none })

unfoldable pub free_allocation : ℕ → M (Unit {0})
free_allocation ptr s = emit (Event.kfree ptr) (record s { allocs = update s.allocs ptr none })

-- `list_del`
unfoldable pub unlink : ℕ → List ℕ → List ℕ
unlink p [] = []
unlink p (q ∷ qs) = if q == p then qs else q ∷ unlink p qs

-- The end of `axidma_get_external`: the buffer must be one region, and is added to the list.
unfoldable pub register_mapped :
    RegisterBuffer → (ptr dma_buf dma_attach : ℕ) → ℕ × ℕ × ℕ → M (Unit {0})
register_mapped ext_buf ptr dma_buf dma_attach (sg_table, nents, address) = do
  on_error (emit (Event.dma_buf_unmap_attachment dma_attach sg_table))
      (if nents == 1 then pure tt else fail einval)
  add_external ptr (record {
    fd = ext_buf.fd;
    dma_buf = dma_buf;
    dma_attach = dma_attach;
    size = ext_buf.size;
    user_addr = ext_buf.user_addr;
    sg_table = sg_table;
    sg_address = address;
  })

module _ (k : Kernel) where
  -- Each `on_error` is a label of the clean-up code at the end.
  unfoldable pub axidma_get_external : RegisterBuffer → M (Unit {0})
  axidma_get_external ext_buf = do
    ptr ← kmalloc k sizeof_external
    if ptr == 0
        then fail enomem
        else on_error (emit (Event.kfree ptr)) do
          dma_buf ← dma_buf_get k ext_buf.fd
          on_error (emit (Event.dma_buf_put dma_buf)) do
            dma_attach ← dma_buf_attach k dma_buf
            on_error (emit (Event.dma_buf_detach dma_buf dma_attach)) (
                dma_buf_map_attachment k dma_attach
                >>= register_mapped ext_buf ptr dma_buf dma_attach)

-- What is undone for the structure that is found. It stays in the list.
unfoldable pub release_external : ℕ → ExternalAllocation → M (Unit {0})
release_external p a = do
  emit (Event.dma_buf_unmap_attachment a.dma_attach a.sg_table)
  emit (Event.dma_buf_detach a.dma_buf a.dma_attach)
  emit (Event.dma_buf_put a.dma_buf)
  free_external p

-- The loop of `axidma_put_external`; the end of the range counts as inside.
unfoldable pub put_loop : ℕ → List ℕ → M (Unit {0})
put_loop u [] s = fail enoent s
put_loop u (p ∷ ps) s = elim (s.exts p) [
  | none ↦ fault use_after_free s
  | some a ↦
      let rest = put_loop u ps s in
      if leb a.user_addr u && leb u ((a.user_addr + a.size) % word_mod)
      then release_external p a s
      else rest
]

unfoldable pub axidma_put_external : ℕ → M (Unit {0})
axidma_put_external user_addr = do dev ← get_dev; put_loop user_addr dev.external_dmabufs

-- `dma_alloc` is the `vm_private_data` of the area.
unfoldable pub close_allocation : ℕ → DmaAllocation → M (Unit {0})
close_allocation p a = do
  emit (Event.dma_free_coherent a.size a.kern_addr a.dma_addr)
  dev ← get_dev
  put_dev (record dev { dmabuf_list = unlink p dev.dmabuf_list })
  free_allocation p

unfoldable pub axidma_vma_close : ℕ → M (Unit {0})
axidma_vma_close dma_alloc s = elim (s.allocs dma_alloc) [
  | none ↦ fault use_after_free s
  | some a ↦ close_allocation dma_alloc a s
]

-- `vma->vm_end - vma->vm_start`
abbrev pub area_size : (vm_start vm_end : ℕ) → ℕ
area_size vm_start vm_end = (vm_end + word_mod - vm_start) % word_mod

module _ (k : Kernel) where
  -- The end of `axidma_mmap`, over the memory that was allocated.
  unfoldable pub map_region : (user_addr size ptr : ℕ) → ℕ × ℕ → M ℕ
  map_region user_addr size ptr (kern_addr, dma_addr) = if kern_addr == 0 then fail enomem else do
    on_error (emit (Event.dma_free_coherent size kern_addr dma_addr))
        (dma_mmap_coherent k kern_addr dma_addr size)
    add_allocation ptr
        (record { size = size; user_addr = user_addr; kern_addr = kern_addr; dma_addr = dma_addr })
    pure ptr

  -- Returns the area's new `vm_private_data`.
  unfoldable pub axidma_mmap : (vm_start vm_end : ℕ) → M ℕ
  axidma_mmap vm_start vm_end = do
    ptr ← kmalloc k sizeof_allocation
    if ptr == 0
        then fail enomem
        else on_error (emit (Event.kfree ptr)) do
          emit Event.of_dma_configure
          region ← dma_alloc_coherent k (area_size vm_start vm_end)
          map_region vm_start (area_size vm_start vm_end) ptr region
