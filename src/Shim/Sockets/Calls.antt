-- ===== src/Shim/Sockets/Calls.antt =====
-- aroma_module/nsysnet_shim.c: the calls on a descriptor that change the table, `socketclose`,
-- `socketclose_all`, `bind` with `ftp_rewrite_bind_to_ax`, `accept`, `nsysnet_shim_quiesce` and
-- `nsysnet_shim_drain_owned_sockets`.
use ax88179_aroma_driver.Base.{
  ℕ, zero, suc, Bool, true, false, not, ◌||◌, ◌&&◌, Option, none, some, ltb, leb, ◌==◌,
  if◌then◌else◌, ℤ, pos, negsuc, minus_one, eq_nat,
}
use ax88179_aroma_driver.Shim.Sockets.{
  update, fresh_compat, Options, Shim, Errno, native_call, from_lwip, eafnosupport, efault, Result,
  untrack_fd, is_foreign, native_open, native_close, lwip_open, lwip_close, Answers, place,
}

-- What the shim forgets of a native descriptor that is closed; `nssl_relay_detach_public_fd` is the
-- relay's own matter.
unfoldable pub forget_native : Shim → ℕ → Shim
forget_native s fd =
    if ltb fd 32
    then record s {
      ftp_restart_mask = update s.ftp_restart_mask fd false;
      nssl_public_mask = update s.nssl_public_mask fd false;
      nssl_connection_by_fd = update s.nssl_connection_by_fd fd minus_one;
    }
    else s

-- `socketclose` of a descriptor that is not negative: `lw` and `nat` are the answers of lwIP and of
-- nsysnet.
unfoldable pub socketclose : ℤ → ℤ → ℕ → Shim → Result
socketclose lw nat fd s =
    if is_foreign s fd
    then (nat, native_call, native_close (forget_native s fd) nat fd)
    else if eq_nat lw 0
    then (lw, from_lwip, native_close (untrack_fd (lwip_close s lw (s.mapped_fd fd)) fd) nat fd)
    else (lw, from_lwip, s)

-- One round of the loop of `socketclose_all`; `lw` is the answer to the close.
unfoldable pub close_one : ℤ → Bool → ℕ → Shim → Shim
close_one lw listed fd s = if listed then lwip_close s lw (s.mapped_fd fd) else s

-- The loop that closes the lwIP sockets of a mask, from descriptor `fd` on; `lw` answers each close.
unfoldable pub close_each : (ℕ → ℤ) → (ℕ → Bool) → ℕ → ℕ → Shim → Shim
close_each lw mask zero fd s = s
close_each lw mask (suc n) fd s = close_each lw mask n (suc fd) (close_one (lw fd) (mask fd) fd s)

abbrev pub forget_all : Shim → Shim
forget_all s = record s {
  ftp_restart_mask = λ _. false;
  nssl_public_mask = λ _. false;
  nssl_connection_by_fd = λ _. minus_one;
}

-- nsysnet closes every native socket, where its answer is 0.
abbrev pub native_close_all : ℤ → Shim → Shim
native_close_all nat s = if eq_nat nat 0 then record s { native = λ _. false } else s

unfoldable pub socketclose_all : (ℕ → ℤ) → ℤ → Shim → Result
socketclose_all lw nat s =
    let s' = forget_all s in
    if not s.accepting_sockets then (nat, native_call, native_close_all nat s') else (
      nat,
      native_call,
      native_close_all nat (close_each lw s.open_mask 32 0 (record s' { open_mask = λ _. false })),
    )

-- An address as the title gives it; `sockaddr_to_lwip` takes it if its family is AF_INET and its
-- length is 8 at least. Port and address are in network order, as the machine's own.
pub record Address : Type 0 where
  pub given : Bool
  pub len : ℕ
  pub family : ℕ
  pub port : ℕ
  pub ip : ℕ

abbrev pub is_inet : Address → Bool
is_inet a = a.given && (leb 8 a.len && a.family == 2)

-- `ftp_rewrite_bind_to_ax`: the address that is bound. `stream` says that lwIP knows the socket as
-- one of SOCK_STREAM; `ax_ip` is 0 without an address.
unfoldable pub ftp_rewrite : Bool → ℕ → ℕ → ℕ → Shim → ℕ × Shim
ftp_rewrite stream ax_ip port ip s =
    if not stream || ax_ip == 0
    then (ip, s)
    else if port == 21
    then (ax_ip, record s { ftp_native_bind_ip = ip; ftp_ax_redirect_active = true })
    else if port == 0 && (s.ftp_ax_redirect_active && ip == s.ftp_native_bind_ip)
    then (ax_ip, s)
    else (ip, s)

-- What `bind` meets: lwIP's answers to close and bind, nsysnet's to bind.
pub record BindAnswers : Type 0 where
  pub lwip_close : ℤ
  pub lwip_bind : ℤ
  pub real_bind : ℤ
  pub stream : Bool
  pub ax_ip : ℕ

-- `bind`; the last part is the address that is bound with lwIP, if any.
unfoldable pub bind : BindAnswers → ℕ → Address → Shim → ℤ × Errno × Shim × Option ℕ
bind a fd addr s =
    if is_foreign s fd
    then (a.real_bind, native_call, s, none)
    else if not (is_inet addr)
    then (minus_one, eafnosupport, s, none)
    else if addr.port == 4299
    then (
      a.real_bind,
      native_call,
      untrack_fd (lwip_close s a.lwip_close (s.mapped_fd fd)) fd,
      none,
    )
    else (let (ip, s') = ftp_rewrite a.stream a.ax_ip addr.port addr.ip s in
        (a.lwip_bind, from_lwip, s', some ip))

abbrev pub accepted_options : Options
accepted_options = record { rcvbuf = some 8192; sndbuf = some 8192; broadcast = none }

-- What follows `lwip_accept`.
unfoldable pub accept_on : Answers → Shim → ℤ → Result
accept_on a s (negsuc n) = (negsuc n, from_lwip, s)
accept_on a s (pos x) = place a (lwip_open s x accepted_options) x a.real_socket

-- `accept`; `nat` is nsysnet's answer, `no_len` says that `addr` is given and `addrlen` is not, and
-- `a.lwip_socket` is what `lwip_accept` returns.
unfoldable pub accept : Answers → ℤ → Bool → ℕ → Shim → Result
accept a nat no_len fd s =
    if is_foreign s fd
    then (nat, native_call, native_open s nat)
    else if no_len
    then (minus_one, efault, s)
    else accept_on a s a.lwip_socket

-- `nsysnet_shim_quiesce`, without the flag of the probe.
unfoldable pub quiesce : Shim → Shim
quiesce s = record s { accepting_sockets = false }

-- One round of the loop of `nsysnet_shim_drain_owned_sockets`. The shutdown before the close, whose answer
-- is not looked at, leaves the socket open.
unfoldable pub drain_one : ℤ → Bool → ℕ → Shim → Shim
drain_one lw listed fd s =
    if listed
    then record (lwip_close s lw (s.mapped_fd fd)) {
      mapped_fd = update s.mapped_fd fd none;
      compat_sock = update s.compat_sock fd fresh_compat;
    }
    else s

unfoldable pub drain_each : (ℕ → ℤ) → (ℕ → Bool) → ℕ → ℕ → Shim → Shim
drain_each lw mask zero fd s = s
drain_each lw mask (suc n) fd s = drain_each lw mask n (suc fd) (drain_one (lw fd) (mask fd) fd s)

unfoldable pub drain : (ℕ → ℤ) → Shim → Shim
drain lw s = drain_each lw s.open_mask 32 0 (record s { open_mask = λ _. false })
