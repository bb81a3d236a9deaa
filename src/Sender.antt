-- ===== src/Sender.antt =====
-- tox-defragmenter.c, the sending side: messages that are split into fragments, and the receipts that
-- are waited for.
pub mod Types
pub mod Split
pub mod Receipts
pub mod Channel
pub mod Send
pub mod Heap
pub mod State
pub mod Long
pub mod Confirm
pub mod Periodic
pub mod Load
pub mod Api
