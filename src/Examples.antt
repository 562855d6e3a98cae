-- ===== src/Examples.antt =====
-- The programs under examples: the helpers that they share.
pub mod Packets
pub mod Benchmark
pub mod Verification
pub mod Files
pub mod Reading
pub mod Copying
pub mod Bits
pub mod Mm2s
pub mod S2mm
pub mod Filling
pub mod Shown
pub mod Draws
pub mod Sending
pub mod Echo
pub mod Measuring
pub mod Held
pub mod Releasing
pub mod Arguments
pub mod CommandLine
pub mod Gpio
pub mod Ports
pub mod Menu
pub mod Transfer
pub mod Handing
pub mod Display
pub mod Shutting
pub mod Invocations
pub mod Accepted
pub mod PortOptions
pub mod Guarding
pub mod Clearing
pub mod Digits
pub mod Layout
