-- ===== src/Net/Input.antt =====
-- net/ax_net.c: the frames that a poll receives, on their way into lwIP: `input_rx_frame`, and the
-- receive half of `ax_net_poll`. What `ax88179_receive` and lwIP answer is an argument, and what happens
-- to each pbuf is a list. The bytes of the frames are left out.
pub mod Accounts
use ax88179_aroma_driver.Base.{
  ℕ, zero, suc, ◌+◌, ◌%◌, ◌^◌, Bool, true, false, List, [], ◌∷◌, ◌++◌, ℤ, pos, negsuc,
  if◌then◌else◌,
}

-- `stat_rx_ok`, `stat_rx_err`, `stat_rx_idle`, `stat_in_ok` and `stat_in_drop`.
pub record Stats : Type 0 where
  pub rx_ok : ℕ
  pub rx_err : ℕ
  pub rx_idle : ℕ
  pub in_ok : ℕ
  pub in_drop : ℕ

-- `x++` in 32 bits.
abbrev pub count_up : ℕ → ℕ
count_up x = (x + 1) % 2 ^ 32

-- What happens to a pbuf: `given` is an `iface.input` that returns ERR_OK, which keeps it.
pub data Event : Type 0 where
  allocated : Event
  given : Event
  freed : Event

-- What `pbuf_alloc`, `pbuf_take` and `iface.input` answer for a frame.
pub record Answer : Type 0 where
  pub alloc : Bool
  pub take : Bool
  pub input : Bool

pub record Done : Type 0 where
  pub events : List Event
  pub stats : Stats

-- `iface.input` is not called where `pbuf_take` fails.
unfoldable pub hand_over : Bool → Bool → Stats → Done
hand_over true true s = record {
  events = allocated ∷ given ∷ [];
  stats = record s { in_ok = count_up s.in_ok };
}
hand_over true false s = record {
  events = allocated ∷ freed ∷ [];
  stats = record s { in_drop = count_up s.in_drop };
}
hand_over false input s = record {
  events = allocated ∷ freed ∷ [];
  stats = record s { in_drop = count_up s.in_drop };
}

-- `input_rx_frame`.
unfoldable pub input_frame : Answer → Stats → Done
input_frame a s =
    let s' = record s { rx_ok = count_up s.rx_ok } in
    if a.alloc
    then hand_over a.take a.input s'
    else record { events = []; stats = record s' { in_drop = count_up s'.in_drop } }

abbrev pub after : List Event → Done → Done
after es d = record d { events = es ++ d.events }

-- The frames behind the first: what each `ax88179_receive` returns, with lwIP's answer. The end of the
-- list is one that returns 0, and so is a 0 in it.
unfoldable pub drain_rx : List (ℤ × Answer) → Stats → Done
drain_rx [] s = record { events = []; stats = s }
drain_rx ((negsuc k, a) ∷ more) s = record {
  events = [];
  stats = record s { rx_err = count_up s.rx_err };
}
drain_rx ((pos zero, a) ∷ more) s = record { events = []; stats = s }
drain_rx ((pos (suc k), a) ∷ more) s =
    after (input_frame a s).events (drain_rx more (input_frame a s).stats)

-- The receive half of `ax_net_poll`, with the first result and its answer.
unfoldable pub poll_rx : ℤ → Answer → List (ℤ × Answer) → Stats → Done
poll_rx (negsuc k) a more s = record {
  events = [];
  stats = record s { rx_err = count_up s.rx_err };
}
poll_rx (pos zero) a more s = record {
  events = [];
  stats = record s { rx_idle = count_up s.rx_idle };
}
poll_rx (pos (suc k)) a more s =
    after (input_frame a s).events (drain_rx more (input_frame a s).stats)
