-- ===== src/Libaxidma.antt =====
-- library/libaxidma.c: the library that user programs call. `Process` has its state and the calls it
-- makes, `Channels` and `Session` the set-up, `Requests` the transfers; the other modules are about
-- these.
pub mod Calls
pub mod Process
pub mod Channels
pub mod Session
pub mod Requests
pub mod Sorting
pub mod Discovery
pub mod Agreement
pub mod Completion
pub mod Reopening
pub mod Memory
pub mod Allocation
pub mod Closing
pub mod Opening
pub mod Steps
pub mod Reaching
