-- ===== src/Module.antt =====
-- aroma_module/main.c: the module between the console's titles and the network.
pub mod Run
pub mod Worker
pub mod Config
pub mod Patch
pub mod Titles
pub mod Watchdog
