-- ===== src/Shim/Options/Set.antt =====
-- aroma_module/nsysnet_shim.c: `setsockopt`.
use ax88179_aroma_driver.Base.{
  ℕ, true, false, not, ◌||◌, Option, none, some, ltb, if◌then◌else◌, ℤ, pos, is_neg,
}
use ax88179_aroma_driver.Shim.Sockets.{Shim, is_foreign}
use ax88179_aroma_driver.Shim.Options.{
  LwipCall, socket_opt_to_lwip, ip_opt_to_lwip, SocketOption, socket_option, TcpOption, tcp_option,
  Level, level_of, Reply, refuse, answered, Value, with_int, is_zero, set_flag, change, too_large,
  zero_or_less, kept_if, so_sndbuf, so_rcvbuf, tcp_nodelay, set_nonblocking, nbio, bio, nonblock,
  flag, noslowstart, sndbuf, rcvbuf, low_water, maxmsg, linger, rxdata, txdata, myaddr, hopcnt,
  other, nodelay, ackdelaytime, noackdelay, unknown, maxseg, no_option, socket_level, ip_level,
  tcp_level, no_level, native_call, einval, enoprotoopt, nothing,
}

unfoldable pub set_linger : Option (ℤ × ℤ) → ℕ → ℕ → Shim → Reply
set_linger none len fd s = refuse einval s
set_linger (some (on, secs)) len fd s =
    if ltb len 8 || is_neg secs
    then refuse einval s
    else answered (pos 0) (
        change fd
          (λ c. record c { linger_on = if is_zero on then pos 0 else pos 1; linger_secs = secs }) s)

-- SO_MAXMSG and TCP_MAXSEG.
unfoldable pub set_maxseg : ℕ → Shim → ℤ → Reply
set_maxseg fd s v =
    if zero_or_less v
    then refuse einval s
    else answered (pos 0) (change fd (λ c. record c { tcp_maxseg = v }) s)

module _ (lwip : LwipCall → ℤ) where
  unfoldable pub set_sndbuf : ℕ → Shim → ℤ → Reply
  set_sndbuf fd s v =
      let s' = change fd (λ c. record c { sndbuf = v }) s in
      if too_large v
      then refuse einval s
      else if is_neg v
      then answered (pos 0) s'
      else kept_if (lwip (so_sndbuf v)) s s'

  unfoldable pub set_rcvbuf : ℕ → Shim → ℤ → Reply
  set_rcvbuf fd s v =
      if too_large v
      then refuse einval s
      else kept_if (lwip (so_rcvbuf v)) s (change fd (λ c. record c { rcvbuf = v }) s)

  -- An option that goes to lwIP, or has no counterpart there.
  unfoldable pub forward : Option LwipCall → Shim → Reply
  forward none s = refuse enoprotoopt s
  forward (some c) s = answered (lwip c) s

  -- `setsockopt` at the level of sockets.
  unfoldable pub set_socket : SocketOption → ℕ → Value → ℕ → Shim → Reply
  unfolding with_int set_linger set_maxseg set_sndbuf set_rcvbuf forward
  set_socket nbio n v fd s = answered (lwip (set_nonblocking true)) s
  set_socket bio n v fd s = answered (lwip (set_nonblocking false)) s
  set_socket nonblock n v fd s =
      with_int v.optval v.optlen s (λ x. answered (lwip (set_nonblocking (not (is_zero x)))) s)
  set_socket (flag k) n v fd s = with_int v.optval v.optlen s (λ x.
      answered (pos 0)
        (change fd (λ c. record c { sol_flags = set_flag k (not (is_zero x)) c.sol_flags }) s))
  set_socket noslowstart n v fd s = with_int v.optval v.optlen s (λ x. answered (pos 0) s)
  set_socket sndbuf n v fd s = with_int v.optval v.optlen s (set_sndbuf fd s)
  set_socket rcvbuf n v fd s = with_int v.optval v.optlen s (set_rcvbuf fd s)
  set_socket low_water n v fd s = refuse enoprotoopt s
  set_socket maxmsg n v fd s = with_int v.optval v.optlen s (set_maxseg fd s)
  set_socket linger n v fd s = set_linger v.optval v.optlen fd s
  set_socket rxdata n v fd s = refuse enoprotoopt s
  set_socket txdata n v fd s = refuse enoprotoopt s
  set_socket myaddr n v fd s = refuse enoprotoopt s
  set_socket hopcnt n v fd s = forward (socket_opt_to_lwip n) s
  set_socket other n v fd s = forward (socket_opt_to_lwip n) s

  -- `setsockopt` at the level of TCP.
  unfoldable pub set_tcp : TcpOption → Value → ℕ → Shim → Reply
  unfolding with_int set_maxseg
  set_tcp nodelay v fd s = answered (lwip tcp_nodelay) s
  set_tcp ackdelaytime v fd s =
      with_int v.optval v.optlen s
        (λ x. answered (pos 0) (change fd (λ c. record c { tcp_ackdelay = x }) s))
  set_tcp noackdelay v fd s =
      with_int v.optval v.optlen s
        (λ x. answered (pos 0) (change fd (λ c. record c { tcp_noackdelay = x }) s))
  set_tcp unknown v fd s =
      with_int v.optval v.optlen s
        (λ x. answered (pos 0) (change fd (λ c. record c { tcp_unknown = x }) s))
  set_tcp maxseg v fd s = with_int v.optval v.optlen s (set_maxseg fd s)
  set_tcp no_option v fd s = refuse enoprotoopt s

  unfoldable pub set_at : Level → ℕ → Value → ℕ → Shim → Reply
  unfolding set_socket set_tcp forward
  set_at socket_level n v fd s = set_socket (socket_option n) n v fd s
  set_at ip_level n v fd s = forward (ip_opt_to_lwip n) s
  set_at tcp_level n v fd s = set_tcp (tcp_option n) v fd s
  set_at no_level n v fd s = refuse enoprotoopt s

  -- `setsockopt`; `native` is what nsysnet answers.
  unfoldable pub setsockopt : ℤ → ℕ → ℤ → ℕ → Value → Shim → Reply
  unfolding set_at
  setsockopt native fd level name v s =
      if is_foreign s fd
      then record { result = native; errno = native_call; written = nothing; shim = s }
      else set_at (level_of level) name v fd s
