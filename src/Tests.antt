-- ===== src/Tests.antt =====
-- Concrete inputs on which the theorems are applied, one module for each part of the program.
pub mod Frames
pub mod Streams
pub mod Fcc
pub mod Media
pub mod Backup
pub mod Rtp
pub mod Pcap
pub mod Log
pub mod Scheduler
pub mod Channels
pub mod Snapshot
pub mod Dhcp
pub mod Stores
pub mod Hls
pub mod Exports
pub mod Records
pub mod Http
