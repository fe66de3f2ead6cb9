-- ===== src/Shim/Select/Tests.antt =====
-- Runs of `select`, and its theorems at a set of one descriptor of each stack.
use ax88179_aroma_driver.Base.{
  ℕ, arith, ◌*◌, ◌≡◌, refl, ◌||◌, true, false, ◌&&◌, Option, none, some, ◌==◌, pos,
}
use ax88179_aroma_driver.Shim.Sockets.{held, fresh_compat, Shim}
use ax88179_aroma_driver.Shim.Multi.Receive.{Timeval}
use ax88179_aroma_driver.Shim.Select.{
  read, write, except, Sets, in_set, over, Round, Reply, einval, select, select_among, poll_both,
  decide, lwip_select_bits, from_answer, fill_set, put, limit, raise,
}
use ax88179_aroma_driver.Shim.Select.Bounded.{Returns, select-Returns}

-- Descriptor 3 stands for lwIP's socket 0; 4 is open in nsysnet.
abbrev shim : Shim
shim = record {
  open_mask = λ fd. fd == 3;
  mapped_fd = λ fd. some 0;
  accepting_sockets = true;
  force_native = false;
  stack_ready = true;
  compat_sock = λ fd. fresh_compat;
  ftp_restart_mask = λ fd. false;
  ftp_native_bind_ip = 0;
  ftp_ax_redirect_active = false;
  nssl_public_mask = λ fd. false;
  nssl_connection_by_fd = λ fd. pos 0;
  ax_activity_pending = 0;
  native = λ fd. true;
  lwip = λ x. x == 0;
  fate = λ fd. held;
  options = λ x. record { rcvbuf = none; sndbuf = none; broadcast = none };
}

-- The title waits for both to be readable.
abbrev both : Sets
both read = some (λ fd. (fd == 3) || (fd == 4))
both write = none
both except = none

-- nsysnet has nothing ready, lwIP everything it is asked for.
abbrev round : ℕ → Round
round j = record {
  native = λ q. record { rc = pos 0; sets = λ k. over (λ f x. f x && false) (q.sets k) };
  lwip = λ q. record { rc = pos 1; sets = λ k. over (λ f x. f x && true) (q.sets k) };
  now = 2 * j;
}

abbrev timeout : Option Timeval
timeout = some (record { sec = pos 0; usec = pos 4000 })

abbrev replied : Option Reply → Reply
replied none = record { result = pos 0; errno = einval; sets = both; shim = shim }
replied (some r) = r

abbrev reply : Reply
reply = replied (select 0 round 1 0 (pos 5) both timeout shim 3)

reply_reads : (in_set (reply.sets read) 3 ≡ true) × (in_set (reply.sets read) 4 ≡ false)
unfolding select select_among poll_both decide lwip_select_bits from_answer fill_set put limit raise
reply_reads = (refl, refl)

select-Returns_example : Returns (select 0 round 1 0 (pos 5) both timeout shim 3)
select-Returns_example =
    select-Returns 0 round both shim 1 0 (pos 5) (record { sec = pos 0; usec = pos 4000 }) 2
      (omega arith) (λ j. omega arith) (omega arith)
