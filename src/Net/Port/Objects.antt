-- ===== src/Net/Port/Objects.antt =====
-- net/port/sys_arch.c: the objects of lwIP's system layer, and `sys_thread_new`. The memory says which
-- blocks are allocated; the blocks that `malloc` and `memalign` give, `none` where they fail, and what
-- coreinit answers are arguments. A handle is its block, or `none` for a null pointer.
use ax88179_aroma_driver.Base.{
  ℕ, zero, suc, ◌+◌, ◌-◌, ◌*◌, ◌≤◌, ◌≡◌, ◌≢◌, arith, refl, Bool, true, false, ◌&&◌, Option, none,
  some, ◌==◌, ltb, if◌then◌else◌, ℤ, pos, negsuc, minus_one,
}

abbrev Memory : Type 0
Memory = ℕ → Bool

abbrev allocated : Option ℕ → Memory → Memory
allocated none m = m
allocated (some a) m = λ p. if p == a then true else m p

-- `free`; a null pointer is left alone.
abbrev freed : Option ℕ → Memory → Memory
freed none m = m
freed (some a) m = λ p. if p == a then false else m p

abbrev is_given : Option ℕ → Bool
is_given none = false
is_given (some a) = true

-- The result, the handle, and the memory. ERR_OK is 0, and ERR_MEM is -1.
record Made : Type 0 where
  pub result : ℤ
  pub handle : Option ℕ
  pub memory : Memory

-- `sys_sem_new` and `sys_mutex_new`, which only differ in what coreinit sets up in the block.
unfoldable object_new : Option ℕ → Memory → Made
object_new none m = record { result = minus_one; handle = none; memory = m }
object_new (some a) m = record { result = pos 0; handle = some a; memory = allocated (some a) m }

-- `sys_sem_free`, `sys_mutex_free` and `sys_mbox_free`: the handle behind it is null.
unfoldable object_free : Option ℕ → Memory → Option ℕ × Memory
object_free h m = (none, freed h m)

-- The number of messages that a mailbox has room for.
unfoldable mbox_size : ℤ → ℕ
mbox_size (pos zero) = 1
mbox_size (pos (suc n)) = suc n
mbox_size (negsuc n) = 1

-- `sys_mbox_new`, with the size that `OSInitMessageQueue` gets.
unfoldable mbox_new : Option ℕ → ℤ → Memory → Option ℕ × Made
unfolding object_new mbox_size
mbox_new block size m = (if is_given block then some (mbox_size size) else none, object_new block m)

-- `sys_mbox_trypost`, from what `OSSendMessage` answers.
unfoldable mbox_trypost : Bool → ℤ
mbox_trypost sent = if sent then pos 0 else minus_one

-- coreinit's priority: that of lwIP and 4, between 0 and 31.
unfoldable cprio_of : ℤ → ℕ
cprio_of (pos n) = if ltb 31 (4 + n) then 31 else 4 + n
cprio_of (negsuc n) = 3 - n

unfoldable stack_size : ℤ → ℕ
stack_size (pos zero) = 16 * 1024
stack_size (pos (suc n)) = suc n
stack_size (negsuc n) = 16 * 1024

-- A start of a thread: the thread, its stack and the block with its function, if all are given.
record Blocks : Type 0 where
  pub thread : Option ℕ
  pub stack : Option ℕ
  pub start : Option ℕ

abbrev all_given : Blocks → Bool
all_given b = is_given b.thread && (is_given b.stack && is_given b.start)

abbrev allocated_all : Blocks → Memory → Memory
allocated_all b m = allocated b.start (allocated b.stack (allocated b.thread m))

abbrev freed_all : Blocks → Memory → Memory
freed_all b m = freed b.start (freed b.stack (freed b.thread m))

-- `sys_thread_new`; `creates` is what `OSCreateThread` answers.
unfoldable sys_thread_new : Blocks → Bool → Memory → Option ℕ × Memory
sys_thread_new b creates m =
    if all_given b && creates
    then (b.thread, allocated_all b m)
    else (none, freed_all b (allocated_all b m))

-- `ax_thread_entry`, which gives back the block of the start.
unfoldable ax_thread_entry : Blocks → Memory → Memory
ax_thread_entry b m = freed b.start m

-- Not this block.
abbrev IsOther : Option ℕ → ℕ → Type 0
IsOther none p = Unit
IsOther (some a) p = p ≢ a

-- The blocks were not allocated before.
abbrev IsFresh : Option ℕ → Memory → Type 0
IsFresh none m = Unit
IsFresh (some a) m = m a ≡ false

-- A semaphore, mutex or mailbox that is freed leaves the memory as it was before it was made.
object_free-object_new :
    (block : Option ℕ) (m : Memory) (p : ℕ)
    → IsFresh block m
    → (object_free (object_new block m).handle (object_new block m).memory).1 p ≡ m p
unfolding object_free object_new
object_free-object_new none m p h = refl
object_free-object_new (some a) m p h = ground arith

-- `sys_thread_new` that gives no thread leaves none of the blocks that it was given.
sys_thread_new-Neutral :
    (b : Blocks) (creates : Bool) (m : Memory) (p : ℕ)
    → IsFresh b.thread m
    → IsFresh b.stack m
    → IsFresh b.start m
    → (sys_thread_new b creates m).0 ≡ none
    → (sys_thread_new b creates m).1 p ≡ m p
unfolding sys_thread_new
sys_thread_new-Neutral b creates m p f g h k = ground arith

-- Once a thread that was made has entered, only its struct and its stack are left.
sys_thread_new-ax_thread_entry :
    (b : Blocks) (creates : Bool) (m : Memory) (t p : ℕ)
    → IsFresh b.start m
    → (sys_thread_new b creates m).0 ≡ some t
    → IsOther b.thread p
    → IsOther b.stack p
    → ax_thread_entry b (sys_thread_new b creates m).1 p ≡ m p
unfolding sys_thread_new ax_thread_entry
sys_thread_new-ax_thread_entry b creates m t p h k o q = ground arith

cprio_of-bounds : (prio : ℤ) → cprio_of prio ≤ 31
unfolding cprio_of
cprio_of-bounds (pos n) = ground arith
cprio_of-bounds (negsuc n) = omega arith
