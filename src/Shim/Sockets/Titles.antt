-- ===== src/Shim/Sockets/Titles.antt =====
-- aroma_module/nsysnet_shim.c: what else changes the table: the start of a title,
-- `nsysnet_shim_begin_title` and `nsysnet_shim_install`, and `NSSLCreateConnection`, which gives a socket to
-- the native stack or to a relay. What the stacks answer is an argument; the relay's threads, the result of
-- NSSL itself and the patches that an installation registers are left out.
use ax88179_aroma_driver.Base.{
  ℕ, ◌+◌, Bool, true, false, not, Option, none, some, ◌==◌, if◌then◌else◌, ℤ, pos, negsuc,
  minus_one, eq_nat, is_neg,
}
use ax88179_aroma_driver.Shim.Sockets.{
  update, fresh_compat, relayed, old_title, Shim, untrack_fd, is_foreign, native_open, native_close,
  lwip_close,
}

-- `nsysnet_shim_begin_title`, as far as the table goes: what an earlier title has left is forgotten.
-- `native` and `lwip` say which sockets both stacks have open in the new title's process. The relays that
-- it stops first end by `relay_close`.
unfoldable pub begin_title : (ℕ → Bool) → (ℕ → Bool) → Shim → Shim
begin_title native lwip s = record s {
  accepting_sockets = false;
  open_mask = λ _. false;
  mapped_fd = λ _. none;
  ax_activity_pending = 0;
  ftp_native_bind_ip = 0;
  ftp_ax_redirect_active = false;
  ftp_restart_mask = λ _. false;
  nssl_public_mask = λ _. false;
  nssl_connection_by_fd = λ _. minus_one;
  compat_sock = λ _. fresh_compat;
  native = native;
  lwip = lwip;
  fate = λ _. old_title;
}

-- `nsysnet_shim_install`: `installed` is the file's flag, and `registers` says that the patches are
-- registered.
unfoldable pub shim_install : Bool → Bool → Shim → Shim
shim_install true registers s = record s { accepting_sockets = true }
shim_install false registers s = record s { open_mask = λ _. false; accepting_sockets = registers }

-- The descriptor is the title's own again, without the lwIP socket behind it.
unfoldable pub release_fd : ℕ → Shim → Shim
release_fd fd s = record (untrack_fd s fd) { mapped_fd = update s.mapped_fd fd none }

abbrev pub hand_to_relay : Option ℕ → Shim → Shim
hand_to_relay none s = s
hand_to_relay (some x) s = record s { fate = update s.fate x relayed }

-- What both stacks answer: lwIP to `lwip_getpeername`, with the family, and to the close; nsysnet to
-- `connect`, with its error.
pub record Peer : Type 0 where
  pub getpeername : ℤ
  pub family : ℕ
  pub real_connect : ℤ
  pub native_error : ℕ
  pub lwip_close : ℤ

-- `promote_ax_socket_to_native`
unfoldable pub promote_ax_socket_to_native : Peer → ℕ → Shim → ℤ × Shim
unfolding release_fd
promote_ax_socket_to_native p fd s =
    if is_foreign s fd
    then (pos 0, s)
    else if not (eq_nat p.getpeername 0)
    then (minus_one, s)
    else if not (p.family == 2)
    then (negsuc 1, s)
    else if not (eq_nat p.real_connect 0)
    then (negsuc (99 + p.native_error), s)
    else (pos 1, lwip_close (release_fd fd s) p.lwip_close (s.mapped_fd fd))

-- What a bridge meets: the slot of a relay, the listener on the loopback and the calls on it.
pub record Bridge : Type 0 where
  pub getpeername : ℤ
  pub family : ℕ
  pub has_slot : Bool
  pub listener : ℤ
  pub inet_pton : ℤ
  pub real_bind : ℤ
  pub real_listen : ℤ
  pub real_getsockname : ℤ
  pub real_connect : ℤ
  pub native_error : ℕ
  pub accepted : ℤ
  pub real_close : ℤ

-- The socket that `real_accept` gives is the relay's, and so is the lwIP socket.
unfoldable pub relay : ℤ → ℕ → Shim → ℤ × Shim
unfolding release_fd
relay accepted fd s =
    (pos 1, hand_to_relay (s.mapped_fd fd) (native_open (release_fd fd s) accepted))

-- With the listener `l` open; it is closed on every path.
unfoldable pub bridge_on : Bridge → ℕ → ℕ → Shim → ℤ × Shim
unfolding relay
bridge_on b fd l s =
    let closed = native_close (native_open s (pos l)) b.real_close l in
    if not (eq_nat b.inet_pton 1)
    then (negsuc 4, closed)
    else if not (eq_nat b.real_bind 0)
    then (negsuc (99 + b.native_error), closed)
    else if not (eq_nat b.real_listen 0)
    then (negsuc (199 + b.native_error), closed)
    else if not (eq_nat b.real_getsockname 0)
    then (negsuc (299 + b.native_error), closed)
    else if not (eq_nat b.real_connect 0)
    then (negsuc (399 + b.native_error), closed)
    else if is_neg b.accepted
    then (negsuc (499 + b.native_error), closed)
    else relay b.accepted fd closed

unfoldable pub bridge_listener : Bridge → ℕ → Shim → ℤ → ℤ × Shim
unfolding bridge_on
bridge_listener b fd s (negsuc n) = (negsuc 3, s)
bridge_listener b fd s (pos l) = bridge_on b fd l s

-- `bridge_ax_socket_to_nssl`
unfoldable pub bridge_ax_socket_to_nssl : Bridge → ℕ → Shim → ℤ × Shim
unfolding bridge_listener
bridge_ax_socket_to_nssl b fd s =
    if is_foreign s fd
    then (pos 0, s)
    else if not (eq_nat b.getpeername 0)
    then (minus_one, s)
    else if not (b.family == 2)
    then (negsuc 1, s)
    else if not b.has_slot
    then (negsuc 2, s)
    else bridge_listener b fd s b.listener

-- `NSSLCreateConnection`, up to the call of NSSL's own; `bridged` is `nssl_bridge_enabled`.
unfoldable pub nssl_create_connection : Bool → Bridge → Peer → ℕ → Shim → ℤ × Shim
unfolding bridge_ax_socket_to_nssl promote_ax_socket_to_native
nssl_create_connection true b p fd s = bridge_ax_socket_to_nssl b fd s
nssl_create_connection false b p fd s = promote_ax_socket_to_native p fd s

-- The end of a relay: it closes its native socket `fd` and its lwIP socket `x`; `nat` and `lw` are the
-- answers.
unfoldable pub relay_close : ℤ → ℤ → ℕ → ℕ → Shim → Shim
relay_close nat lw fd x s = lwip_close (native_close s nat fd) lw (some x)
