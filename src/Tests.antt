-- ===== src/Tests.antt =====
-- A concrete kernel and a concrete device, on which the tests and the examples run.
pub mod Transfers
pub mod Memory
pub mod Startup
pub mod Library
pub mod Programs
pub mod Runs
use axidma_driver.Common.{
  false, leb, ◌+◌, refl, ℕ, ◌==◌, ◌*◌, true, Option, none, some, [], ◌∷◌, if◌then◌else◌,
}
use axidma_driver.Types.{
  AxidmaDevice, AxidmaChan, CbData, SgEntry, DmaAllocation, ExternalAllocation, CharDevice,
  RegisterBuffer, Transaction, InoutTransaction, VideoTransaction, VideoFrame, axidma_write,
  axidma_read, axidma_dma, axidma_vdma, other_dir, other_type, dma_complete,
}
use axidma_driver.Kernel.{Kernel, State, success}
use axidma_driver.Buffers.Regions.{Region, IsRegion, IsDevice, own_region, external_region}
use native.Mathlib.Omega.{arith}

abbrev pub frame : VideoFrame
frame = record { height = 4; width = 8; depth = 2 }

abbrev pub transmit : Transaction
transmit = record { wait = true; channel_id = 0; buf = 0x10000010; buf_len = 64; frame = frame }

abbrev pub receive : Transaction
receive = record { wait = true; channel_id = 1; buf = 0x10000800; buf_len = 128; frame = frame }

abbrev pub both : InoutTransaction
both = record {
  wait = true;
  tx_channel_id = 0;
  tx_buf = 0x10000010;
  tx_buf_len = 64;
  tx_frame = frame;
  rx_channel_id = 1;
  rx_buf = 0x20000000;
  rx_buf_len = 16;
  rx_frame = frame;
}

abbrev pub video : VideoTransaction
video = record {
  channel_id = 2;
  num_frame_buffers = 1;
  frame_buffers = 0x10000100 ∷ [];
  frame = frame;
}

abbrev pub registration : RegisterBuffer
registration = record { fd = 5; size = 256; user_addr = 0x40000000 }

-- Every call is answered, with numbers that are not 0.
abbrev pub sim : Kernel
sim = record {
  sig_rtmin = 34;
  sig_rtmax = 64;
  current = 77;
  usecs_to_jiffies = λ n. n;
  sizeof_scatterlist = 20;
  sizeof_axidma_device = 160;
  fresh_sg_entry = record { address = 0; len = 0 };
  stack_frame = λ _. record { height = 0xdeadbeef; width = 7; depth = 0 };
  kmalloc = λ _ _. 3000;
  prep_slave_sg = λ _ _ _ _ _. 500;
  vdma_set_config = λ _ _ _. none;
  prep_interleaved = λ _ _ _. 501;
  submit = λ _ _. some 9;
  wait_for_completion = λ _ n. n;
  tx_status = λ _ _ _. dma_complete;
  terminate_all = λ _ _. none;
  capable = λ _. true;
  access_ok = λ _ _ _. true;
  copy_to_user = λ _ _ _. true;
  copy_channel_info = λ _ _. some 0x50000000;
  copy_register_buffer = λ _ _. some registration;
  copy_transaction = λ _ _. some receive;
  copy_inout_transaction = λ _ _. some both;
  copy_video_transaction = λ _ _. some video;
  copy_frame_buffers = λ _ _ _. some (λ _. 0x10000100);
  copy_chan =
      λ _ _. record { dir = axidma_read; type = axidma_dma; channel_id = 1; name = 0; chan = 0 };
  dma_alloc_coherent = λ _ n. if leb n 0x1000000 then (0xC0100000, 0x31000000) else (0, 0);
  dma_mmap_coherent = λ _ _ _ _. none;
  dma_buf_get = λ _ _. success 600;
  dma_buf_attach = λ _ _. success 601;
  dma_buf_map_attachment = λ _ _. success (602, 1, 0x38000000);
  fresh_chan = record { dir = other_dir; type = other_type; channel_id = 0; name = 0; chan = 0 };
  fresh_cb_data = record { channel_id = 0; notify_signal = 0; process = 0; comp = false };
  dma_set_coherent_mask = λ _. none;
  dma_request_slave_channel = λ _ name. 1000 + name;
  alloc_chrdev_region = λ _ _ _ _. success 240;
  class_create = λ _ _. success 800;
  device_create = λ _ _ _ _. success 801;
  cdev_add = λ _ _ _. none;
}

abbrev pub tx_chan : AxidmaChan
tx_chan = record { dir = axidma_write; type = axidma_dma; channel_id = 0; name = 10; chan = 100 }

abbrev pub rx_chan : AxidmaChan
rx_chan = record { dir = axidma_read; type = axidma_dma; channel_id = 1; name = 11; chan = 101 }

abbrev pub video_chan : AxidmaChan
video_chan = record {
  dir = axidma_write;
  type = axidma_vdma;
  channel_id = 2;
  name = 12;
  chan = 102;
}

-- Its id is no index of the callback data.
abbrev pub far_chan : AxidmaChan
far_chan = record { dir = axidma_read; type = axidma_dma; channel_id = 9; name = 13; chan = 103 }

abbrev pub idle : CbData
idle = record { channel_id = 0; notify_signal = 0; process = 0; comp = true }

abbrev pub device : AxidmaDevice
device = record {
  chrdev = record {
    num_devices = 1;
    minor_num = 0;
    dev_num = 0;
    chrdev_name = 20;
    device = 21;
    dev_class = 22;
  };
  num_dma_tx_chans = 1;
  num_dma_rx_chans = 2;
  num_vdma_tx_chans = 1;
  num_vdma_rx_chans = 0;
  num_chans = 4;
  notify_signal = 34;
  cb_data = idle ∷ idle ∷ idle ∷ idle ∷ [];
  cb_data_ptr = 900;
  channels = tx_chan ∷ rx_chan ∷ video_chan ∷ far_chan ∷ [];
  channels_ptr = 901;
  dmabuf_list = 1000 ∷ [];
  external_dmabufs = 2000 ∷ [];
}

abbrev pub buffer : DmaAllocation
buffer = record {
  size = 4096;
  user_addr = 0x10000000;
  kern_addr = 0xC0000000;
  dma_addr = 0x30000000;
}

abbrev pub external : ExternalAllocation
external = record {
  fd = 4;
  dma_buf = 700;
  dma_attach = 701;
  size = 4096;
  user_addr = 0x20000000;
  sg_table = 702;
  sg_address = 0x32000000;
}

abbrev pub booted : State
booted = record {
  dev = device;
  allocs = λ p. if p == 1000 then some buffer else none;
  exts = λ p. if p == 2000 then some external else none;
  trace = [];
}

pub booted-IsDevice : IsDevice booted (own_region buffer ∷ []) (external_region external ∷ [])
booted-IsDevice = record {
  holds = record {
    own_loads = ((buffer, refl, refl), tt);
    external_loads = ((external, refl, refl), tt);
  };
  own_regions =
      (record { user_end = omega arith; dma_end = omega arith; dma_start = omega arith }, tt);
  external_regions =
      (record { user_end = omega arith; dma_end = omega arith; dma_start = omega arith }, tt);
}
