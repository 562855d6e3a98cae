-- ===== src/Types.antt =====
-- The structures of include/axidma_ioctl.h and driver/axidma.h, and the ones that axidma_dma.c and
-- axidma_chrdev.c declare for themselves. An `int`, a `size_t`, a pointer and a `dma_addr_t` are the
-- bit patterns of 32-bit words (Zynq-7000): numbers below `2 ^ 32`. A null pointer is 0.
use axidma_driver.Common.{ℕ, ◌^◌, Bool, true, false, List}

abbrev pub word_mod : ℕ
word_mod = 2 ^ 32

-- `enum axidma_dir`. Memory that nobody has initialised may hold any other number.
pub data AxidmaDir : Type 0 where
  axidma_write axidma_read other_dir : AxidmaDir

-- `enum axidma_type`.
pub data AxidmaType : Type 0 where
  axidma_dma axidma_vdma other_type : AxidmaType

abbrev pub is_write : AxidmaDir → Bool
is_write axidma_write = true
is_write _ = false

abbrev pub is_read : AxidmaDir → Bool
is_read axidma_read = true
is_read _ = false

abbrev pub is_dma : AxidmaType → Bool
is_dma axidma_dma = true
is_dma _ = false

abbrev pub is_vdma : AxidmaType → Bool
is_vdma axidma_vdma = true
is_vdma _ = false

pub record VideoFrame : Type 0 where
  pub height : ℕ
  pub width : ℕ
  pub depth : ℕ

pub record AxidmaChan : Type 0 where
  pub dir : AxidmaDir
  pub type : AxidmaType
  pub channel_id : ℕ
  pub name : ℕ
  pub chan : ℕ

pub record NumChannels : Type 0 where
  pub num_channels : ℕ
  pub num_dma_tx_channels : ℕ
  pub num_dma_rx_channels : ℕ
  pub num_vdma_tx_channels : ℕ
  pub num_vdma_rx_channels : ℕ

pub record RegisterBuffer : Type 0 where
  pub fd : ℕ
  pub size : ℕ
  pub user_addr : ℕ

pub record Transaction : Type 0 where
  pub wait : Bool
  pub channel_id : ℕ
  pub buf : ℕ
  pub buf_len : ℕ
  pub frame : VideoFrame

pub record InoutTransaction : Type 0 where
  pub wait : Bool
  pub tx_channel_id : ℕ
  pub tx_buf : ℕ
  pub tx_buf_len : ℕ
  pub tx_frame : VideoFrame
  pub rx_channel_id : ℕ
  pub rx_buf : ℕ
  pub rx_buf_len : ℕ
  pub rx_frame : VideoFrame

-- `frame_buffers` holds what the array of pointers holds.
pub record VideoTransaction : Type 0 where
  pub channel_id : ℕ
  pub num_frame_buffers : ℕ
  pub frame_buffers : List ℕ
  pub frame : VideoFrame

-- `struct axidma_cb_data`. `comp` says whether the pointer to the completion is set.
pub record CbData : Type 0 where
  pub channel_id : ℕ
  pub notify_signal : ℕ
  pub process : ℕ
  pub comp : Bool

-- `struct axidma_dma_allocation`, less its list node.
pub record DmaAllocation : Type 0 where
  pub size : ℕ
  pub user_addr : ℕ
  pub kern_addr : ℕ
  pub dma_addr : ℕ

-- `struct axidma_external_allocation`, less its list node. `sg_address` is
-- `sg_dma_address(&sg_table->sgl[0])`.
pub record ExternalAllocation : Type 0 where
  pub fd : ℕ
  pub dma_buf : ℕ
  pub dma_attach : ℕ
  pub size : ℕ
  pub user_addr : ℕ
  pub sg_table : ℕ
  pub sg_address : ℕ

-- The fields of `struct axidma_device` that the character device keeps.
pub record CharDevice : Type 0 where
  pub num_devices : ℕ
  pub minor_num : ℕ
  pub dev_num : ℕ
  pub chrdev_name : ℕ
  pub device : ℕ
  pub dev_class : ℕ

-- `struct axidma_device`. A `list_head` is the list of the addresses of its entries, first to last;
-- the two arrays stand beside their addresses.
pub record AxidmaDevice : Type 0 where
  pub chrdev : CharDevice
  pub num_dma_tx_chans : ℕ
  pub num_dma_rx_chans : ℕ
  pub num_vdma_tx_chans : ℕ
  pub num_vdma_rx_chans : ℕ
  pub num_chans : ℕ
  pub notify_signal : ℕ
  pub cb_data : List CbData
  pub cb_data_ptr : ℕ
  pub channels : List AxidmaChan
  pub channels_ptr : ℕ
  pub dmabuf_list : List ℕ
  pub external_dmabufs : List ℕ

-- One entry of a scatter-gather list: `sg_dma_address` and `sg_dma_len`.
pub record SgEntry : Type 0 where
  pub address : ℕ
  pub len : ℕ

-- `struct axidma_transfer`. `cb_data` is the index of its entry in the device's array.
pub record AxidmaTransfer : Type 0 where
  pub sg_len : ℕ
  pub sg_list : List SgEntry
  pub wait : Bool
  pub cookie : ℕ
  pub dir : AxidmaDir
  pub type : AxidmaType
  pub channel_id : ℕ
  pub notify_signal : ℕ
  pub process : ℕ
  pub cb_data : ℕ
  pub frame : VideoFrame

-- The fields of the kernel's structures that the driver fills in.
pub data TransferDirection : Type 0 where
  mem_to_dev dev_to_mem : TransferDirection

pub record VdmaConfig : Type 0 where
  pub frm_dly : ℕ
  pub gen_lock : ℕ
  pub master : ℕ
  pub frm_cnt_en : ℕ
  pub park : ℕ
  pub park_frm : ℕ
  pub coalesc : ℕ
  pub delay : ℕ
  pub reset : ℕ
  pub ext_fsync : ℕ

pub record InterleavedTemplate : Type 0 where
  pub dst_start : ℕ
  pub src_start : ℕ
  pub dir : TransferDirection
  pub numf : ℕ
  pub frame_size : ℕ
  pub sgl_size : ℕ
  pub sgl_icg : ℕ

pub data DmaStatus : Type 0 where
  dma_complete dma_in_progress dma_paused dma_error : DmaStatus

-- The negative numbers that calls return; `code` is one that only the kernel knows.
pub data Errno : Type 0 where
  efault enodev ebusy etime einval enomem enoent enotty eacces enosys : Errno
  code : ℕ → Errno
