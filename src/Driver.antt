-- ===== src/Driver.antt =====
-- driver/ax88179.c: the user-mode driver of the AX88179 adapter.
pub mod Rx
pub mod Ring
pub mod Tx
pub mod Endpoints
pub mod Control
pub mod Link
pub mod BringUp
pub mod Lifetime
mod Tests
