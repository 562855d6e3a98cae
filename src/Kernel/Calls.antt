-- ===== src/Kernel/Calls.antt =====
-- The calls of kernel functions that the driver makes, each with its arguments and its answer.
use axidma_driver.Common.{ℕ, Option, List}
use axidma_driver.Types.{
  AxidmaChan, NumChannels, SgEntry, TransferDirection, VdmaConfig, InterleavedTemplate, DmaStatus,
  Errno,
}

-- A pointer, or an error for which `IS_ERR` holds.
pub data Ret (A : Type 0) : Type 0 where
  success : A → Ret A
  failure : Errno → Ret A

pub data Event : Type 0 where
  kmalloc : (size ptr : ℕ) → Event
  kfree : (ptr : ℕ) → Event
  prep_slave_sg : (chan : ℕ) → List SgEntry → (sg_len : ℕ) → TransferDirection → (txn : ℕ) → Event
  set_config : (chan : ℕ) → VdmaConfig → Option Errno → Event
  prep_interleaved : (chan : ℕ) → InterleavedTemplate → (txn : ℕ) → Event
  init_completion : Event
  submit : (txn cb_data : ℕ) → (cookie : Option ℕ) → Event
  issue_pending : (chan : ℕ) → Event
  wait_for_completion : (timeout remain : ℕ) → Event
  tx_status : (chan cookie : ℕ) → DmaStatus → Event
  terminate_all : (chan : ℕ) → Option Errno → Event
  complete : Event
  dma_set_coherent_mask : Option Errno → Event
  dma_request_slave_channel : (name chan : ℕ) → Event
  dma_release_channel : (chan : ℕ) → Event
  alloc_chrdev_region : (minor count name : ℕ) → Ret ℕ → Event
  unregister_chrdev_region : (dev_num count : ℕ) → Event
  class_create : (name : ℕ) → Ret ℕ → Event
  class_destroy : (dev_class : ℕ) → Event
  device_create : (dev_class dev_num name : ℕ) → Ret ℕ → Event
  device_destroy : (dev_class dev_num : ℕ) → Event
  cdev_add : (dev_num count : ℕ) → Option Errno → Event
  cdev_del : (dev_num : ℕ) → Event
  dev_set_drvdata : (ptr : ℕ) → Event
  send_sig_info : (signo si_int process : ℕ) → Event
  copy_num_channels : (ptr : ℕ) → NumChannels → Event
  copy_channels : (ptr : ℕ) → List AxidmaChan → (size : ℕ) → Event
  copy_from_user : (ptr size : ℕ) → Event
  of_dma_configure : Event
  dma_alloc_coherent : (size kern_addr dma_addr : ℕ) → Event
  dma_free_coherent : (size kern_addr dma_addr : ℕ) → Event
  dma_mmap_coherent : (kern_addr dma_addr size : ℕ) → Option Errno → Event
  dma_buf_get : (fd : ℕ) → Ret ℕ → Event
  dma_buf_attach : (dma_buf : ℕ) → Ret ℕ → Event
  dma_buf_map_attachment : (dma_attach : ℕ) → Ret (ℕ × ℕ × ℕ) → Event
  dma_buf_unmap_attachment : (dma_attach sg_table : ℕ) → Event
  dma_buf_detach : (dma_buf dma_attach : ℕ) → Event
  dma_buf_put : (dma_buf : ℕ) → Event
