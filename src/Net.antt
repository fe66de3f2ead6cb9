-- ===== src/Net.antt =====
-- net/ax_net.c: the transmit slots, the state of the interface, and received frames.
pub mod Queue
pub mod Tx
pub mod Session
pub mod Input
pub mod Port
mod Tests
