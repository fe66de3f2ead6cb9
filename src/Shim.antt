-- ===== src/Shim.antt =====
-- aroma_module/nsysnet_shim.c: the replacement of nsysnet's socket calls.
pub mod Multi
pub mod Sockets
pub mod Dns
pub mod Select
pub mod Options
pub mod AddrInfo
mod Tests
