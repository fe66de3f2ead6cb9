-- ===== src/PtrDns.antt =====
-- aroma_module/nsysnet_shim.c: reverse DNS (the ptr_dns functions), a PTR query and its answer.
pub mod Codec
pub mod Query
mod Tests
