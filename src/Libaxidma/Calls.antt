-- ===== src/Libaxidma/Calls.antt =====
-- The calls that the library makes, each with its arguments and its answer.
use axidma_driver.Common.{ℕ, Bool, Option}
use axidma_driver.Types.{
  AxidmaChan, RegisterBuffer, Transaction, InoutTransaction, VideoTransaction, Errno,
}
use axidma_driver.Chrdev.Ioctl.{
  axidma_get_num_dma_channels, axidma_get_dma_channels, axidma_set_dma_signal,
  axidma_register_buffer, axidma_unregister_buffer, axidma_dma_read, axidma_dma_write,
  axidma_dma_readwrite, axidma_dma_video_read, axidma_dma_video_write, axidma_stop_dma_channel,
}

-- The requests of `ioctl`, each with the argument that is passed. A command of the driver with a
-- pointer is given what the pointer leads to.
pub data Request : Type 0 where
  get_num_channels : Request
  get_channels : (channels : ℕ) → Request
  set_signal : (signal : ℕ) → Request
  register : RegisterBuffer → Request
  unregister : (user_addr : ℕ) → Request
  read : Transaction → Request
  write : Transaction → Request
  readwrite : InoutTransaction → Request
  video_read : VideoTransaction → Request
  video_write : VideoTransaction → Request
  stop : AxidmaChan → Request

-- The command of a request.
abbrev pub command : Request → ℕ
command get_num_channels = axidma_get_num_dma_channels
command (get_channels c) = axidma_get_dma_channels
command (set_signal n) = axidma_set_dma_signal
command (register b) = axidma_register_buffer
command (unregister a) = axidma_unregister_buffer
command (read t) = axidma_dma_read
command (write t) = axidma_dma_write
command (readwrite t) = axidma_dma_readwrite
command (video_read t) = axidma_dma_video_read
command (video_write t) = axidma_dma_video_write
command (stop c) = axidma_stop_dma_channel

pub data Call : Type 0 where
  malloc : (size ptr : ℕ) → Call
  free : (ptr : ℕ) → Call
  open_device : Option ℕ → Call
  close : (fd : ℕ) → Bool → Call
  ioctl : (fd : ℕ) → Request → Option Errno → Call
  sigaction : (signal : ℕ) → Bool → Call
  mmap : (size fd : ℕ) → Option ℕ → Call
  munmap : (addr size : ℕ) → Bool → Call
  invoke : (callback channel_id user_data : ℕ) → Call
  open_file : (output : Bool) → Option ℕ → Call
