-- ===== src/Lib.antt =====
-- The AXI DMA driver of this repository: a Linux platform driver that reads its DMA channels from the
-- device tree, gives user space buffers that the DMA engine can reach, and runs transfers between
-- these buffers and the engine on behalf of `ioctl` calls.
--
-- The parts, and the files that model them:
-- - Types: the structures of include/axidma_ioctl.h and driver/axidma.h, and those private to
--   driver/axidma_dma.c and driver/axidma_chrdev.c. Fields keep their names.
-- - Kernel: the functions of Linux that the driver calls. They are a parameter, the record `Kernel`:
--   what each call returns is a function of all calls before it, so the theorems hold of a kernel
--   that answers anything. Each call is an event of the trace. The state is the device, the live
--   allocation structures by address, and the trace; a run returns, fails with an error number, or
--   stops at a fault (a NULL or freed pointer, an index out of bounds, a BUG_ON); memory that
--   nobody wrote holds what a parameter says. Kernel/Ends and Kernel/Balance have the rules to reason
--   about runs, Kernel/Resources says what a trace has acquired and not released.
-- - Buffers: `valid_dma_request` and `axidma_uservirt_to_dma` of driver/axidma_chrdev.c.
--   Buffers/Regions is the abstract view, a list of regions, and Buffers/Translate the refinement.
-- - Dma/Engine, Dma/Transfers, Dma/Control: driver/axidma_dma.c. A helper that stands for a part of a
--   C function is named for what it does: `prep_descriptor` and `submit_step` are the two halves of
--   `axidma_prep_transfer`, `oneway_transfer` is what `axidma_read_transfer` and
--   `axidma_write_transfer` share. Dma/Safety, Dma/Buffers, Dma/Frames and Dma/Video prove which
--   memory the engine is given, Dma/Errors, Dma/Faults and Dma/Overruns how transfers end, Dma/Memory
--   what they free. A frame that a transfer does not write is what the stack holds, `stack_frame` of
--   `Kernel`.
-- - DeviceTree: driver/axidma_of.c. The tree is a parameter, the record `DeviceTree`.
--   DeviceTree/Unique is about the ids of channels, DeviceTree/Counters and DeviceTree/Counts about
--   the four counters.
-- - Chrdev/Memory, Chrdev/Ioctl: the rest of driver/axidma_chrdev.c, buffers and commands.
--   Chrdev/Cleanup, Chrdev/Mapping, Chrdev/Adding, Chrdev/Translation and Chrdev/Dangling are about
--   buffers, Chrdev/Commands and Chrdev/Leaks about commands.
-- - Setup/Chardev, Setup/Channels: `axidma_chrdev_init` and `axidma_chrdev_exit` of
--   driver/axidma_chrdev.c, the set-up of driver/axidma_dma.c, and `axidma_probe` and
--   `axidma_remove` of driver/axi_dma.c. Setup/Registration, Setup/Reserve, Setup/Release
--   and Setup/Leaks are about what they acquire and give back.
-- - Libaxidma: library/libaxidma.c, which runs in the user's process. Libaxidma/Calls and
--   Libaxidma/Process are the process: the structure `axidma_dev`, and the calls of the C library and of
--   the kernel, whose answers are a parameter, the record `Os`; an operation returns, returns an error,
--   or aborts. Libaxidma/Channels, Libaxidma/Session and Libaxidma/Requests are the functions.
--   Libaxidma/Sorting, Libaxidma/Discovery and Libaxidma/Opening are about the channels, Libaxidma/Agreement about
--   the requests, Libaxidma/Completion about callbacks, Libaxidma/Steps and Libaxidma/Reaching about
--   sessions, operations in any order, Libaxidma/Memory, Libaxidma/Allocation and
--   Libaxidma/Closing about memory, and Libaxidma/Reopening about the second use.
-- - Examples: the programs under examples. Examples/Packets is examples/util_interdma.c, packets of 64
--   bits over lists of cells that stand for memory; Examples/Bits, Examples/Digits and Examples/Layout
--   are about it. Examples/Mm2s and Examples/S2mm are the packets that examples/interdma.c sends and
--   receives; Examples/Draws, Examples/Filling, Examples/Sending, Examples/Clearing, Examples/Shown and Examples/Echo are
--   about them.
--   Examples/Files is `robust_read` and `robust_write` of examples/util.c, over any file, the record
--   `File`; Examples/Reading and Examples/Copying are about them. Examples/Benchmark is the filling and
--   the check of the buffers in examples/axidma_benchmark.c, and Examples/Verification is about them;
--   Examples/Arguments is its options, Examples/CommandLine about them, and Examples/Measuring its
--   tests and its `main`, which run on the model of the library. Examples/Transfer is
--   examples/axidma_transfer.c, Examples/Display is examples/axidma_display_image.c, Examples/Invocations
--   is the options of both, and Examples/Accepted is about them. Examples/Held,
--   Examples/Releasing, Examples/Handing and Examples/Shutting are about what these three release.
--   Examples/Gpio is examples/mgpio.c, with `Int2String`, and Examples/PortOptions its options;
--   Examples/Ports, Examples/Menu and Examples/Guarding are about it.
--   A loop over a file takes a number of rounds, of which one more than the bytes of the buffer is enough.
-- - Tests: a concrete kernel, device and device tree, and the examples that run on them.
--
-- How they interact: `axidma_ioctl` copies a structure in from user space and calls a transfer or a
-- registration; a transfer looks its channel up, translates its addresses over the lists of buffers
-- that `axidma_mmap` and `axidma_get_external` extend, and calls the engine; the channels and their
-- ids come from the device tree. The library queries the channels with two commands, sorts their ids,
-- and makes a request for each operation; the driver's signal runs the library's handler.
--
-- Conventions. Machine words have 32 bits (Zynq-7000), but a `long` of examples/interdma.c has 64: an
-- `int`, a `size_t` and an address are numbers below 2 ^ 32, and arithmetic on them wraps where the C code's does. A `list_head` is the
-- list of the addresses of its entries; `channels` and `cb_data` are lists that stand for arrays of
-- `num_chans` entries, so a loop up to `num_chans` is a recursion over the list. Every loop is a
-- structural recursion, over a list or over the rounds that are left; only the loops over files, and the
-- one that writes the ten digits of an `int`, need enough rounds. `goto` labels are clean-ups that run after an error. Messages are left out, but what
-- they dereference is not. The library's `channels` is the list of the structures up to
-- `num_channels`. Calls run one after the other: two processes that run in the driver at once are not
-- modelled, as the code has no lock.
--
-- Not modelled: the text of messages; driver/interrupt.c, a stand-alone test; of the programs under
-- examples the printing, the clock and the rates computed from it, the endless loops of
-- examples/interdma.c with their threads and their waiting for callbacks, and examples/dma_uart.c,
-- which repeats examples/axidma_benchmark.c around sockets and a board; and the programs for UDP.
pub mod Common
pub mod Types
pub mod Kernel
pub mod Buffers
pub mod Dma
pub mod DeviceTree
pub mod Chrdev
pub mod Setup
pub mod Libaxidma
pub mod Examples
pub mod Tests
