-- ===== src/Chrdev.antt =====
-- driver/axidma_chrdev.c: the buffers (`Memory`), the file operations and the ioctl (`Ioctl`).
pub mod Memory
pub mod Cleanup
pub mod Mapping
pub mod Adding
pub mod Translation
pub mod Ioctl
pub mod Commands
pub mod Dangling
pub mod Leaks
