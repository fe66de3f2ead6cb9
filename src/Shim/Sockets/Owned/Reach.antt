-- ===== src/Shim/Sockets/Owned/Reach.antt =====
-- The states of the table that calls lead to, and what holds in all of them.
use ax88179_aroma_driver.Base.{ℕ, ◌≡◌, Bool, true, false, ◌&&◌, arith, ℤ}
use ax88179_aroma_driver.Shim.Sockets.{relayed, Shim, Answers, lwip_answer, socket}
use ax88179_aroma_driver.Shim.Sockets.Calls.{
  socketclose, socketclose_all, Address, BindAnswers, bind, accept, quiesce, drain,
}
use ax88179_aroma_driver.Shim.Sockets.Titles.{
  begin_title, shim_install, Peer, Bridge, nssl_create_connection, relay_close,
}
use ax88179_aroma_driver.Shim.Sockets.Owned.{same-IsOwned}
use ax88179_aroma_driver.Shim.Sockets.Owned.Steps.{
  Holds, Fresh, socket-Holds, accept-Holds, socketclose-Holds, bind-Holds,
}
use ax88179_aroma_driver.Shim.Sockets.Owned.Closing.{
  empty-IsOwned, drain-closes_all, socketclose_all-Holds,
}
use ax88179_aroma_driver.Shim.Sockets.Owned.Titles.{
  begin_title-Holds, shim_install-Holds, relay_close-Holds, nssl_create_connection-Holds,
}

-- A step on the table, with any answers of the stacks: a call of a title on a socket,
-- `NSSLCreateConnection`, the end of a relay, `nsysnet_shim_quiesce`, `nsysnet_shim_drain_owned_sockets`,
-- the start of a title, or an installation. A socket that either stack returns was not open; a relay ends
-- in the title that it belongs to, and its native socket is no descriptor of the shim; an installation
-- that makes the shim accept finds no descriptor owned.
pub data Step (s : Shim) : Shim → Type 0 where
  call_socket :
      (a : Answers) (domain type : ℕ)
      → Fresh s.lwip (lwip_answer a type)
      → Fresh s.native a.real_socket
      → Step s (socket a domain type s).2
  call_accept :
      (a : Answers) (nat : ℤ) (no_len : Bool) (fd : ℕ)
      → Fresh s.lwip a.lwip_socket
      → Fresh s.native a.real_socket
      → Step s (accept a nat no_len fd s).2
  call_close : (lw nat : ℤ) (fd : ℕ) → Step s (socketclose lw nat fd s).2
  call_close_all : (lw : ℕ → ℤ) (nat : ℤ) → Step s (socketclose_all lw nat s).2
  call_bind : (a : BindAnswers) (fd : ℕ) (addr : Address) → Step s (bind a fd addr s).2
  call_nssl :
      (bridged : Bool) (b : Bridge) (p : Peer) (fd : ℕ)
      → Fresh s.native b.listener
      → Step s (nssl_create_connection bridged b p fd s).1
  relay_ends :
      (nat lw : ℤ) (fd x : ℕ)
      → s.fate x ≡ relayed
      → (s.accepting_sockets ≡ true → s.open_mask fd ≡ false)
      → Step s (relay_close nat lw fd x s)
  call_quiesce : Step s (quiesce s)
  call_drain : (lw : ℕ → ℤ) → Step s (drain lw s)
  title_begins : (native lwip : ℕ → Bool) → Step s (begin_title native lwip s)
  call_install :
      (installed registers : Bool)
      → ((installed && s.accepting_sockets) ≡ false → (fd : ℕ) → s.open_mask fd ≡ false)
      → Step s (shim_install installed registers s)

pub data Reach (s : Shim) : Shim → Type 0 where
  here : Reach s s
  next : {t u : Shim} → Reach s t → Step t u → Reach s u

quiesce-Holds : (s : Shim) → Holds s → Holds (quiesce s)
unfolding quiesce
quiesce-Holds s h = same-IsOwned h s.native false (λ fd acc own. absurd (ground arith))

drain-Holds : (lw : ℕ → ℤ) (s : Shim) → Holds s → Holds (drain lw s)
drain-Holds lw s h =
    let (o, l) = drain-closes_all lw s h in
    empty-IsOwned _ _ _ _ _ _ o (λ x p q. absurd (ground (arith, l x q)))

Step-Holds : {s t : Shim} → Step s t → Holds s → Holds t
Step-Holds {s} (call_socket a domain type fl fn) h = socket-Holds a domain type s h fl fn
Step-Holds {s} (call_accept a nat no_len fd fl fn) h = accept-Holds a nat no_len fd s h fl fn
Step-Holds {s} (call_close lw nat fd) h = socketclose-Holds lw nat fd s h
Step-Holds {s} (call_close_all lw nat) h = socketclose_all-Holds lw nat s h
Step-Holds {s} (call_bind a fd addr) h = bind-Holds a fd addr s h
Step-Holds {s} (call_nssl bridged b p fd f) h = nssl_create_connection-Holds bridged b p fd s f h
Step-Holds {s} (relay_ends nat lw fd x r free) h = relay_close-Holds nat lw fd x s r free h
Step-Holds {s} call_quiesce h = quiesce-Holds s h
Step-Holds {s} (call_drain lw) h = drain-Holds lw s h
Step-Holds {s} (title_begins native lwip) h = begin_title-Holds native lwip s
Step-Holds {s} (call_install installed registers n) h = shim_install-Holds installed registers s n h

-- From a state that holds the invariant, calls of `socket`, `accept`, `bind`, `socketclose`,
-- `socketclose_all` and `NSSLCreateConnection`, the ends of relays, `nsysnet_shim_quiesce`,
-- `nsysnet_shim_drain_owned_sockets`, `nsysnet_shim_begin_title` and `nsysnet_shim_install`, in any order
-- and with any answers, failed closes included, lead to states that hold it: an owned descriptor is one of
-- the 32 and has an open lwIP socket behind it, which the shim has not let go of, and, while the shim
-- accepts, an open native placeholder; no two descriptors share a socket; and each open lwIP socket has
-- its descriptor, but for those whose close has failed, which a relay has, or which are of an earlier
-- title. Conditions: a socket that a stack returns was not open before; a relay ends in the title that it
-- belongs to, and its native socket is no descriptor of the shim; and an installation that makes the shim
-- accept finds no descriptor owned.
pub Reach-IsOwned : {s t : Shim} → Reach s t → Holds s → Holds t
Reach-IsOwned here h = h
Reach-IsOwned (next r step) h = Step-Holds step (Reach-IsOwned r h)
