-- ===== src/Module/Worker.antt =====
-- aroma_module/main.c: the worker thread, `run_network`, over the operations of net/ax_net.c in
-- Net/Session. The calls to the driver, the interface and the shim are a list, the newest first. What
-- they answer, the flags that the hooks set and the clock are arguments, each for its own round, so that
-- two reads may differ. The log's lines, the marks of progress and the status line are left out, an
-- address in text is the number that it shows, and `fuel` bounds the rounds of each loop.
pub mod Recover
pub mod Main
pub mod Orderly
pub mod Recovery
pub mod Ending
pub mod Returns
mod Tests
use ax88179_aroma_driver.Base.{
  ℕ, zero, suc, ◌+◌, Bool, true, false, not, ◌&&◌, ◌||◌, Option, none, some, List, [], ◌∷◌, ltb,
  leb, ◌==◌, if◌then◌else◌, ℤ, pos, negsuc, is_neg, eq_nat,
}
use ax88179_aroma_driver.Net.Session.{Net, Answers, Poll, Address, abandon_title}
use ax88179_aroma_driver.Net.Session.Run.{Op, starts, polls, looks, sets, stops, forgets, step}
use ax88179_aroma_driver.Module.Run.{Run, ended, unfinished, ◌>>=◌, ◌>>◌, chain, pure, loop}

-- The module's settings that the worker reads, `config_keep_first` and so on.
pub record Config : Type 0 where
  pub keep_first : Bool
  pub shim_trace : ℕ
  pub system_dns : Bool
  pub force_native : Bool
  pub nssl_bridge : Bool
  pub ftp_handoff : Bool
  pub wiiload_proxy : Bool

-- The worker's calls. `net` is one of net/ax_net.c, but for `ax_net_abandon_title`.
pub data Call : Type 0 where
  log_opened : Call
  log_closed : Call
  configured : Config → Call
  patched : Call
  opened : Bool → Call
  closed : Call
  forced_cold : Call
  abandoned : Call
  net : Op → Call
  net_abandoned : ℤ → Call
  installed : Bool → Call
  handed_off : ℤ → Call
  proxy_started : Call
  proxy_stopped : Call
  proxy_polled : Call
  accepting_stopped : Call
  drained : Call
  slept : ℕ → Call

-- The interface, the worker's variables, and its calls so far. `has_ax` says that `ax` is not null, and
-- `previous_ip` is `none` for the empty text.
pub record Worker : Type 0 where
  pub net : Net
  pub has_ax : Bool
  pub ftp_handoff_pending : Bool
  pub ftp_handoff_next : ℕ
  pub ftp_handoff_deadline : ℕ
  pub previous_ip : Option ℕ
  pub calls : List Call

abbrev pub M : Type 0 → Type 0
M B = Worker → Run Worker B

abbrev pub note : Call → Worker → Worker
note c s = record s { calls = c ∷ s.calls }

abbrev pub call : Call → M (Unit {0})
call c s = ended tt (note c s)

abbrev pub when_call : Bool → Call → M (Unit {0})
when_call b c s = ended tt (if b then note c s else s)

-- A call of net/ax_net.c, with its result.
abbrev pub after : Op → Worker → Worker
after o s = record s { net = (step o s.net).net; calls = net o ∷ s.calls }

abbrev pub call_net : Op → M ℤ
call_net o s = ended (step o s.net).result (after o s)

abbrev pub do_net : Op → M (Unit {0})
do_net o s = ended tt (after o s)

-- `ax_net_address`: no address without a link or an interface.
unfoldable pub shown : Address → Net → Option ℕ
shown a n = if not n.active || (not a.link_up || (a.lease.ip == 0)) then none else some a.lease.ip

abbrev pub call_address : Address → M (Option ℕ)
call_address a s = ended (shown a s.net) (after (looks a) s)

abbrev pub set_ax : Bool → M (Unit {0})
set_ax b s = ended tt (record s { has_ax = b })

-- A round of a loop that waits for an address: the clock and `stopping` before it, what the poll and
-- the address get, and the clock behind them.
pub record Look : Type 0 where
  pub stopping : Bool
  pub now : ℕ
  pub poll : Poll
  pub address : Address
  pub later : ℕ

-- A round of `recover_adapter`. The last `stopping` is the loop's, `begun` the clock at the deadline.
pub record Attempt : Type 0 where
  pub stopping : Bool
  pub opens : Bool
  pub start : Answers
  pub begun : ℕ
  pub looks : ℕ → Look

-- A round of the main loop.
pub record Round : Type 0 where
  pub stopping : Bool
  pub poll : Poll
  pub attempts : ℕ → Attempt
  pub now : ℕ
  pub handoff : ℤ
  pub address : Address
  pub exits : Bool

-- What a run of the worker gets. `begun` is the clock at the deadline of DHCP, `now` the one behind
-- the first handoff, and `shutdown` what `tcpip_shutdown` answers.
pub record World : Type 0 where
  pub stopping : ℕ → Bool
  pub opens : Bool
  pub start : Answers
  pub begun : ℕ
  pub dhcp : ℕ → Look
  pub installs : Bool
  pub handoff : ℤ
  pub now : ℕ
  pub rounds : ℕ → Round
  pub shutdown : ℤ
  pub title_ending : Bool

-- `r > 0`
abbrev pub is_positive : ℤ → Bool
is_positive (pos n) = ltb 0 n
is_positive (negsuc n) = false

-- Of the main loop's rounds: `return -2`.
abbrev pub is_lost : ℤ → Bool
is_lost (pos n) = false
is_lost (negsuc n) = n == 1

-- `ax_net_abandon_title`, without what it answers.
abbrev pub abandon_net : ℤ → M (Unit {0})
abandon_net r s =
    ended tt (record s { net = (abandon_title r s.net).net; calls = net_abandoned r ∷ s.calls })

-- `strcmp(ip, previous_ip) == 0`
abbrev pub eq_ip : Option ℕ → ℕ → Bool
eq_ip none ip = false
eq_ip (some p) ip = p == ip
