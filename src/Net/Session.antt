-- ===== src/Net/Session.antt =====
-- net/ax_net.c: the state of the interface over starts, polls, stops and titles, its calls of lwIP
-- in their order, and the lease that outlives an interface. What lwIP and `ax88179_link` answer is an
-- argument. The counters, the text in `address`, the marks and the frames that a poll moves are left
-- out; Net/Tx and Net/Input have the frames.
pub mod Run
pub mod Legal
pub mod Held
pub mod Lost
pub mod Beats
mod Tests
use ax88179_aroma_driver.Base.{
  ℕ, suc, ◌+◌, ◌-◌, ◌%◌, ◌^◌, Bool, true, false, not, ◌&&◌, ◌||◌, Option, none, some, List, [], ◌∷◌,
  ◌++◌, ℤ, pos, negsuc, minus_one, is_neg, leb, ◌==◌, if◌then◌else◌,
}

-- `session_ip`, `session_netmask` and `session_gateway`.
pub record Lease : Type 0 where
  pub ip : ℕ
  pub netmask : ℕ
  pub gateway : ℕ

-- The file's variables; `has_dhcp` says that `iface` holds the data of a DHCP client.
pub record Net : Type 0 where
  pub initialized : Bool
  pub active : Bool
  pub netif_in_list : Bool
  pub has_dhcp : Bool
  pub last_link_up : Bool
  pub link_errors : ℕ
  pub last_link : ℕ
  pub session_lease_mode : Bool
  pub session_lease_valid : Bool
  pub session : Lease
  pub using_cached_lease : Bool

-- The calls of lwIP; `netif_add` and `dhcp_start` with what lwIP answers.
pub data Call : Type 0 where
  tcpip_init : Call
  tcpip_shutdown : Call
  port_reset : Call
  netif_add : Bool → Call
  netif_set_default : Call
  netif_set_up : Call
  netif_set_down : Call
  netif_set_link : Bool → Call
  netif_set_addr : Lease → Call
  netif_remove : Call
  dhcp_start : Bool → Call
  dhcp_stop : Call
  dhcp_release_and_stop : Call
  dhcp_cleanup : Call
  beat_timeout : Call

-- The end of an operation: its result, its calls and the state that it leaves.
pub record Done : Type 0 where
  pub result : ℤ
  pub calls : List Call
  pub net : Net

-- What lwIP, the clock and the adapter answer in a start. `link` is `ax88179_link`'s, `none` below 0.
pub record Answers : Type 0 where
  pub link : Option Bool
  pub added : Bool
  pub dhcp : Bool
  pub now : ℕ

abbrev pub is_up : Option Bool → Bool
is_up none = false
is_up (some up) = up

abbrev pub when : Bool → List Call → List Call
when b cs = if b then cs else []

-- What an earlier start left behind.
unfoldable pub remove_left : Net → List Call
remove_left n =
    when n.netif_in_list (when n.has_dhcp (dhcp_stop ∷ dhcp_cleanup ∷ []) ++ (netif_remove ∷ []))

abbrev pub wiped : Net → Net
wiped n = record n { netif_in_list = false; has_dhcp = false }

-- `setup_netif` from the lease on: what it restores, or the DHCP client.
unfoldable pub setup_address : Bool → Answers → List Call → Net → Done
setup_address true a cs n = record {
  result = pos 0;
  calls = cs ++ (netif_set_addr n.session ∷ beat_timeout ∷ []);
  net = record n { netif_in_list = true };
}
setup_address false a cs n =
    if a.dhcp
    then record {
      result = pos 0;
      calls = cs ++ (dhcp_start true ∷ beat_timeout ∷ []);
      net = record n { netif_in_list = true; has_dhcp = true };
    }
    else record {
      result = minus_one;
      calls = cs ++ (dhcp_start false ∷ dhcp_cleanup ∷ netif_remove ∷ []);
      net = record n { netif_in_list = false; has_dhcp = false };
    }

-- `setup_netif`, after the calls in `before`.
unfoldable pub setup_netif : Bool → Answers → List Call → Net → Done
setup_netif restore a before n =
    let cs = before ++ remove_left n in
    if a.added
    then setup_address restore a
        (cs
          ++ (netif_add true
              ∷ netif_set_default
              ∷ netif_set_up
              ∷ when (is_up a.link) (netif_set_link true ∷ [])))
        (wiped n)
    else record { result = minus_one; calls = cs ++ (netif_add false ∷ []); net = wiped n }

-- The end of `ax_net_start`.
unfoldable pub started : Answers → Done → Done
started a d = if is_neg d.result then d else record d {
  net = record d.net {
    active = true;
    last_link = a.now;
    last_link_up = is_up a.link;
    link_errors = 0;
  };
}

-- `ax_net_start`; `given` says that `ax` is not null.
unfoldable pub start : Bool → Answers → Net → Done
start given a n =
    let restore = n.session_lease_mode && n.session_lease_valid in
    if n.active || not given
    then record { result = minus_one; calls = []; net = n }
    else started a (
        setup_netif restore a (when (not n.initialized) (tcpip_init ∷ []))
          (record n { initialized = true; using_cached_lease = restore }))

-- What a poll gets: the time, the link, and the result of `ax88179_receive`.
pub record Poll : Type 0 where
  pub now : ℕ
  pub link : Option Bool
  pub received : ℤ

-- `set_link`, where the link differs from the one that lwIP knows.
unfoldable pub follow_link : Option Bool → Net → List Call
follow_link none n = []
follow_link (some up) n =
    if (up && not n.last_link_up) || (not up && n.last_link_up) then netif_set_link up ∷ [] else []

unfoldable pub note_link : Option Bool → Net → Net
note_link none n = record n { link_errors = suc n.link_errors }
note_link (some up) n = record n { last_link_up = up; link_errors = 0 }

-- Three failures in a row end the poll.
unfoldable pub give_up : ℤ → List Call → Net → Done
give_up r cs n =
    if leb 3 n.link_errors
    then record {
      result = negsuc 1;
      calls = cs ++ when n.last_link_up (netif_set_link false ∷ []);
      net = record n { last_link_up = false };
    }
    else record { result = r; calls = cs; net = n }

-- Half a second since the last look at the link, in 32 bits.
unfoldable pub is_due : ℕ → ℕ → Bool
is_due now last = leb 500 ((now + 2 ^ 32 - last) % 2 ^ 32)

-- `ax_net_poll`.
unfoldable pub poll : Poll → Net → Done
poll p n =
    if not n.active
    then record { result = minus_one; calls = []; net = n }
    else if is_due p.now n.last_link
    then give_up p.received (follow_link p.link n)
        (note_link p.link (record n { last_link = p.now }))
    else record { result = p.received; calls = []; net = n }

-- The address of the interface as lwIP has it, and whether DHCP supplied it.
pub record Address : Type 0 where
  pub link_up : Bool
  pub lease : Lease
  pub from_dhcp : Bool

-- `ax_net_address`, as far as it changes the state.
unfoldable pub look_up_address : Address → Net → Net
look_up_address a n =
    if not n.active || (not a.link_up || (a.lease.ip == 0))
    then n
    else if n.session_lease_mode && (not n.session_lease_valid && a.from_dhcp)
    then record n { session = a.lease; session_lease_valid = true }
    else n

-- `ax_net_set_session_lease_mode`.
unfoldable pub set_lease_mode : Bool → Net → Net
set_lease_mode enabled n = record n {
  session_lease_mode = enabled;
  session_lease_valid = enabled && n.session_lease_valid;
}

-- `stop_netif`: its calls.
unfoldable pub stop_netif : Net → List Call
stop_netif n =
    when n.has_dhcp (
      (if n.session_lease_mode && n.session_lease_valid then dhcp_stop else dhcp_release_and_stop)
      ∷ dhcp_cleanup
      ∷ [])
    ++ (netif_set_down ∷ netif_remove ∷ [])

-- `ax_net_stop`.
unfoldable pub stop : Net → Done
stop n =
    if n.active
    then record {
      result = pos 0;
      calls = stop_netif n;
      net = record n { active = false; netif_in_list = false; has_dhcp = false };
    }
    else record { result = pos 0; calls = []; net = n }

-- `ax_net_forget`.
unfoldable pub forget : Net → Done
forget n = record {
  result = pos 0;
  calls = port_reset ∷ [];
  net = record n {
    initialized = false;
    active = false;
    netif_in_list = false;
    has_dhcp = false;
    last_link_up = false;
    link_errors = 0;
  };
}

-- `ax_net_abandon_title`; `shutdown` is what `tcpip_shutdown` answers.
unfoldable pub abandon_title : ℤ → Net → Done
abandon_title shutdown n = record {
  result = if n.initialized then shutdown else pos 0;
  calls = when n.initialized (tcpip_shutdown ∷ []);
  net = record n { initialized = false; active = false; netif_in_list = false };
}
