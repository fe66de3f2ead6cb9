-- ===== src/Net/Port.antt =====
-- net/port/sys_arch.c: the waits of lwIP's system layer, which poll with a sleep of 1 ms. What coreinit
-- answers is an argument: the queue or the semaphore in each round, and the milliseconds since the start
-- of the wait. The probes for the heartbeat are left out.
pub mod Waits
pub mod Objects
mod Tests
use ax88179_aroma_driver.Base.{
  ℕ, zero, suc, ◌+◌, ◌*◌, ◌%◌, ◌^◌, Bool, true, false, not, ◌&&◌, ◌||◌, Option, none, some, List,
  [], ◌∷◌, ◌++◌, leb, ltb, ◌==◌, if◌then◌else◌, ℤ, pos, negsuc,
}

-- The end of a wait: what came and the time that it took, or SYS_ARCH_TIMEOUT.
pub data Waited (M : Type 0) : Type 0 where
  got : M → ℕ → Waited M
  timed_out : Waited M

-- `(u32_t)OSTicksToMilliseconds(…)`
abbrev pub elapsed : ℕ → ℕ
elapsed ms = ms % 2 ^ 32

module _ {M : Type 0} (arrives : ℕ → Option M) (ms : ℕ → ℕ) (timeout : ℕ) where
  -- Round `j` of the loop, with the rest of it.
  unfoldable pub wait_round : ℕ → Option M → Option (Waited M) → Option (Waited M)
  wait_round j (some m) rest = some (got m (elapsed (ms j)))
  wait_round j none rest = if leb timeout (elapsed (ms j)) then some timed_out else rest

  -- The loop of `sys_arch_mbox_fetch` and of `sys_arch_sem_wait` with a timeout, from round `j` on.
  unfoldable pub wait_loop : ℕ → ℕ → Option (Waited M)
  unfolding wait_round
  wait_loop zero j = none
  wait_loop (suc fuel) j = let rest = wait_loop fuel (suc j) in wait_round j (arrives j) rest

-- `sys_arch_mbox_fetch` and `sys_arch_sem_wait`: without a timeout, coreinit blocks until `first` is there.
unfoldable pub wait : {M : Type 0} → M → (ℕ → Option M) → (ℕ → ℕ) → ℕ → ℕ → Option (Waited M)
unfolding wait_loop
wait first arrives ms timeout fuel =
    if timeout == 0 then some (got first 0) else wait_loop arrives ms timeout fuel 0
