-- ===== src/Tests.antt =====
-- The theorems at concrete inputs.
mod Data
mod Markers
mod Splitting
mod Receiving
mod Receipts
mod Resending
mod Rings
mod Sending
mod Passage
mod Peers
mod Bound
