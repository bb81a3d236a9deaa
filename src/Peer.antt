-- ===== src/Peer.antt =====
-- test-peer.c, the program that talks to another peer through the library.
pub mod Outcome
pub mod Packets
pub mod Input
pub mod Output
pub mod State
pub mod Events
pub mod Loop
pub mod Growth
pub mod Wire
pub mod Short
pub mod Main
pub mod Fragments
