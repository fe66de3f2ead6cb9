-- ===== src/Shim/Sockets.antt =====
-- aroma_module/nsysnet_shim.c: the descriptors of the shim: `track_fd`, `untrack_fd`, `is_foreign`,
-- `socket`, `socketclose`, `socketclose_all`, `bind`, `accept`, `nsysnet_shim_quiesce` and
-- `nsysnet_shim_drain_owned_sockets`; Shim/Sockets/Titles has the starts of titles and NSSL.
-- A bit mask is a function of the descriptor. What lwIP and nsysnet answer is an argument; `native`
-- and `lwip` say which of their sockets are open, as far as the shim's calls open and close them, without
-- those of the proxy of wiiload and of PTR queries, and `fate` says why the shim has let go of one.
pub mod Calls
pub mod Titles
pub mod Owned
use ax88179_aroma_driver.Base.{
  ℕ, zero, suc, ◌+◌, ◌*◌, ◌/◌, ◌%◌, ◌^◌, ◌-◌, Bool, true, false, not, ◌||◌, ◌&&◌, Option, none,
  some, ltb, leb, ◌==◌, if◌then◌else◌, ℤ, pos, negsuc, is_neg, minus_one, eq_nat,
}

abbrev pub update {ℓ} : {A : Type ℓ} → (ℕ → A) → ℕ → A → ℕ → A
update f i a j = if i == j then a else f j

-- `struct compat_sock_state`; `sol_flags` is its mask of options.
pub record Compat : Type 0 where
  pub sol_flags : ℕ
  pub tcp_ackdelay : ℤ
  pub tcp_noackdelay : ℤ
  pub tcp_maxseg : ℤ
  pub tcp_unknown : ℤ
  pub linger_on : ℤ
  pub linger_secs : ℤ
  pub sndbuf : ℤ
  pub rcvbuf : ℤ

-- `compat_state_reset`
abbrev pub fresh_compat : Compat
fresh_compat = record {
  sol_flags = 0;
  tcp_ackdelay = pos 0;
  tcp_noackdelay = pos 0;
  tcp_maxseg = pos 1460;
  tcp_unknown = pos 0;
  linger_on = pos 0;
  linger_secs = pos 0;
  sndbuf = pos 8192;
  rcvbuf = pos 8192;
}

-- The options that the shim sets on a socket of lwIP; `none` is lwIP's own value.
pub record Options : Type 0 where
  pub rcvbuf : Option ℕ
  pub sndbuf : Option ℕ
  pub broadcast : Option ℕ

-- Who sees to a socket of lwIP: the shim, or nobody of the shim any more, since its close has failed and
-- the code does not look at that, since the relay of NSSL has it, or since it is of an earlier title.
pub data Fate : Type 0 where
  held : Fate
  unclosed : Fate
  relayed : Fate
  old_title : Fate

pub record Shim : Type 0 where
  pub open_mask : ℕ → Bool
  pub mapped_fd : ℕ → Option ℕ
  pub accepting_sockets : Bool
  pub force_native : Bool
  pub stack_ready : Bool
  pub compat_sock : ℕ → Compat
  pub ftp_restart_mask : ℕ → Bool
  pub ftp_native_bind_ip : ℕ
  pub ftp_ax_redirect_active : Bool
  pub nssl_public_mask : ℕ → Bool
  pub nssl_connection_by_fd : ℕ → ℤ
  pub ax_activity_pending : ℕ
  pub native : ℕ → Bool
  pub lwip : ℕ → Bool
  pub fate : ℕ → Fate
  pub options : ℕ → Options

-- What a call leaves in errno: -1 for a native call, a value of its own, or the one of lwIP.
pub data Errno : Type 0 where
  native_call : Errno
  from_lwip : Errno
  emfile : Errno
  eafnosupport : Errno
  efault : Errno

-- A call's result, errno, and the shim behind it.
abbrev pub Result : Type 0
Result = ℤ × Errno × Shim

unfoldable pub track_fd : Shim → ℕ → ℕ → Shim
track_fd s fd lwfd = record s {
  compat_sock = update s.compat_sock fd fresh_compat;
  mapped_fd = update s.mapped_fd fd (some lwfd);
  open_mask = update s.open_mask fd true;
}

unfoldable pub untrack_fd : Shim → ℕ → Shim
untrack_fd s fd = record s { open_mask = update s.open_mask fd false }

-- `is_foreign`, of a descriptor that is not negative.
abbrev pub is_foreign : Shim → ℕ → Bool
is_foreign s fd = not s.accepting_sockets || not (ltb fd 32 && s.open_mask fd)

-- nsysnet answers a call that opens a socket, or closes one: a result below 0 changes nothing.
unfoldable pub native_open : Shim → ℤ → Shim
native_open s (negsuc n) = s
native_open s (pos fd) = record s { native = update s.native fd true }

unfoldable pub native_close : Shim → ℤ → ℕ → Shim
native_close s rc fd = if eq_nat rc 0 then record s { native = update s.native fd false } else s

unfoldable pub lwip_open : Shim → ℕ → Options → Shim
lwip_open s x o = record s {
  lwip = update s.lwip x true;
  options = update s.options x o;
  fate = update s.fate x held;
}

-- A close that fails leaves the socket open, and the callers go on without it.
unfoldable pub lwip_close : Shim → ℤ → Option ℕ → Shim
lwip_close s rc none = s
lwip_close s rc (some x) =
    if eq_nat rc 0
    then record s { lwip = update s.lwip x false }
    else record s { fate = update s.fate x unclosed }

-- What is answered while a socket is made: by `lwip_socket` for the type as it is and without its
-- upper bits, by nsysnet's `socket`, and by the two calls that close what is not needed.
pub record Answers : Type 0 where
  pub lwip_socket : ℤ
  pub lwip_retry : ℤ
  pub real_socket : ℤ
  pub lwip_close : ℤ
  pub real_close : ℤ

-- The options of a fresh socket: SOCK_STREAM is 1 and SOCK_DGRAM 2.
abbrev pub fresh_options : ℕ → Options
fresh_options type = record {
  rcvbuf = some 8192;
  sndbuf = if type % 16 == 1 then some 8192 else none;
  broadcast = if type % 16 == 2 then some 1 else none;
}

-- No native placeholder in the table's range: what was opened is closed again.
unfoldable pub refuse_placeholder : Answers → Shim → ℕ → ℤ → Result
refuse_placeholder a s x (negsuc n) = (minus_one, emfile, lwip_close s a.lwip_close (some x))
refuse_placeholder a s x (pos fd) =
    (minus_one, emfile, lwip_close (native_close s a.real_close fd) a.lwip_close (some x))

-- The placeholder for the open lwIP socket `x`.
unfoldable pub place : Answers → Shim → ℕ → ℤ → Result
place a s x (negsuc n) = refuse_placeholder a s x (negsuc n)
place a s x (pos fd) =
    let s' = native_open s (pos fd) in
    if leb 32 fd then refuse_placeholder a s' x (pos fd) else (pos fd, from_lwip, track_fd s' fd x)

-- The activity flag goes from 0 to 1.
abbrev pub note_activity : Shim → Shim
note_activity s = record s {
  ax_activity_pending = if s.ax_activity_pending == 0 then 1 else s.ax_activity_pending;
}

-- A descriptor that is returned has noted the activity; an error has not.
abbrev pub noted : Result → Result
noted (pos fd, e, s) = (pos fd, e, note_activity s)
noted (negsuc n, e, s) = (negsuc n, e, s)

-- `lwip_socket`, with the retry for a type that has upper bits.
abbrev pub lwip_answer : Answers → ℕ → ℤ
lwip_answer a type = if is_neg a.lwip_socket && leb 16 type then a.lwip_retry else a.lwip_socket

unfoldable pub socket_on : Answers → ℕ → Shim → ℤ → Result
socket_on a type s (negsuc n) = (negsuc n, from_lwip, s)
socket_on a type s (pos x) = noted (place a (lwip_open s x (fresh_options type)) x a.real_socket)

abbrev pub goes_native : Shim → ℕ → Bool
goes_native s domain =
    s.force_native || (not s.accepting_sockets || (not s.stack_ready || not (domain == 2)))

-- `socket`, with a type that is not negative.
unfoldable pub socket : Answers → ℕ → ℕ → Shim → Result
socket a domain type s =
    if goes_native s domain
    then (a.real_socket, native_call, native_open s a.real_socket)
    else socket_on a type s (lwip_answer a type)
