-- ===== src/Module/Patch/Tests.antt =====
-- The patch at concrete inputs.
use ax88179_aroma_driver.Base.{ℕ, true}
use ax88179_aroma_driver.Module.Patch.{
  guard_addr, guard_beq, Mocha, iosu_patch_apply, IsClosed, IsKept, iosu_patch_apply-Safe,
}

abbrev mocha : Mocha
mocha = record { starts = true; reads = true; writes = true; arrives = true; reads_back = true }

abbrev kernel : ℕ → ℕ
kernel p = guard_beq

iosu_patch_apply-Safe_example :
    IsClosed (iosu_patch_apply mocha kernel).events
    × IsKept kernel (iosu_patch_apply mocha kernel).memory guard_addr
iosu_patch_apply-Safe_example = iosu_patch_apply-Safe mocha kernel guard_addr
