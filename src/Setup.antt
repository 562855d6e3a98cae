-- ===== src/Setup.antt =====
-- The set-up and the tear-down of the driver: `axidma_chrdev_init` and `axidma_chrdev_exit` of
-- driver/axidma_chrdev.c, `axidma_request_channels`, `axidma_dma_init` and `axidma_dma_exit` of
-- driver/axidma_dma.c, and the probe and the removal of driver/axi_dma.c.
pub mod Chardev
pub mod Channels
pub mod Registration
pub mod Reserve
pub mod Release
pub mod Leaks
