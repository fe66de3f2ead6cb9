-- ===== src/Shim/Options/Get.antt =====
-- aroma_module/nsysnet_shim.c: `getsockopt` and `errno_to_nsn`.
use ax88179_aroma_driver.Base.{
  ℕ, suc, Bool, false, not, ◌&&◌, Option, none, some, List, [], ◌∷◌, ◌==◌, if◌then◌else◌, ℤ, pos,
  is_neg, eq_nat,
}
use ax88179_aroma_driver.Shim.Sockets.{Shim, is_foreign}
use ax88179_aroma_driver.Shim.Options.{
  LwipCall, socket_opt_to_lwip, ip_opt_to_lwip, SocketOption, socket_option, TcpOption, tcp_option,
  Level, level_of, Reply, refuse, answered, wrote, is_zero, flag_value, same_int, at_least,
  so_txdata, tcp_nodelay, get_flags, bytes_readable, nbio, bio, nonblock, flag, noslowstart, sndbuf,
  rcvbuf, low_water, maxmsg, linger, rxdata, txdata, myaddr, hopcnt, other, nodelay, ackdelaytime,
  noackdelay, unknown, maxseg, no_option, socket_level, ip_level, tcp_level, no_level, native_call,
  from_lwip, einval, enoprotoopt, nothing, int, linger_of, by_lwip,
}

-- The title's room for a value: whether `optval` is not null, and what `optlen` points to.
pub record Room : Type 0 where
  pub optval : Bool
  pub optlen : Option ℕ

abbrev pub has_room : Room → ℕ → Bool
has_room r n = r.optval && at_least r.optlen n

-- `compat_get_int`
unfoldable pub get_int : Room → ℤ → Shim → Reply
get_int r v s = if has_room r 4 then wrote (int v) s else refuse einval s

-- `errno_to_nsn`; `errors` and `others` have newlib's numbers, which stand in its header.
unfoldable pub index_of : List ℤ → ℕ → ℤ → Option ℕ
index_of [] i e = none
index_of (x ∷ xs) i e = let rest = index_of xs (suc i) e in if same_int x e then some i else rest

unfoldable pub look_up : List (ℤ × ℕ) → ℤ → ℕ
look_up [] e = 23
look_up ((x, n) ∷ xs) e = let rest = look_up xs e in if same_int x e then n else rest

unfoldable pub errno_to_nsn : List ℤ → List (ℤ × ℕ) → ℤ → ℤ
unfolding index_of look_up
errno_to_nsn errors others e = elim (index_of errors 0 e) [
  | some i ↦ pos i
  | none ↦ pos (look_up others e)
]

-- What lwIP answers and writes, whether the flags that it gives have O_NONBLOCK, the address of the
-- interface, and the translation of an errno.
module _ (lwip value : LwipCall → ℤ) (is_nonblocking : Bool) (my_ip : ℕ) (to_nsn : ℤ → ℤ) where
  -- An option that lwIP answers.
  unfoldable pub ask : Option LwipCall → Bool → Room → Shim → Reply
  ask none is_error r s = refuse enoprotoopt s
  ask (some c) is_error r s = record {
    result = lwip c;
    errno = from_lwip;
    written =
        if eq_nat (lwip c) 0
        then by_lwip (if is_error && has_room r 4 then to_nsn (value c) else value c)
        else nothing;
    shim = s;
  }

  unfoldable pub get_nonblock : Room → Shim → Reply
  get_nonblock r s =
      if not (has_room r 4)
      then refuse einval s
      else if is_neg (lwip get_flags)
      then refuse from_lwip s
      else wrote (int (if is_nonblocking then pos 1 else pos 0)) s

  unfoldable pub get_rxdata : Room → Shim → Reply
  get_rxdata r s =
      if not (has_room r 4)
      then refuse einval s
      else if eq_nat (lwip bytes_readable) 0
      then wrote (int (value bytes_readable)) s
      else answered (lwip bytes_readable) s

  unfoldable pub get_txdata : Room → Shim → Reply
  unfolding get_int
  get_txdata r s =
      if eq_nat (lwip so_txdata) 0
      then get_int r (value so_txdata) s
      else answered (lwip so_txdata) s

  unfoldable pub get_linger : Room → ℕ → Shim → Reply
  get_linger r fd s =
      let c = s.compat_sock fd in
      if has_room r 8
      then wrote (linger_of (if is_zero c.linger_on then pos 0 else pos 0x80) c.linger_secs) s
      else refuse einval s

  -- `getsockopt` at the level of sockets.
  unfoldable pub get_socket : SocketOption → ℕ → Room → ℕ → Shim → Reply
  unfolding get_int ask get_nonblock get_rxdata get_txdata get_linger
  get_socket nbio n r fd s = refuse enoprotoopt s
  get_socket bio n r fd s = refuse enoprotoopt s
  get_socket nonblock n r fd s = get_nonblock r s
  get_socket (flag k) n r fd s = get_int r (flag_value k (s.compat_sock fd).sol_flags) s
  get_socket noslowstart n r fd s = refuse enoprotoopt s
  get_socket sndbuf n r fd s = get_int r (s.compat_sock fd).sndbuf s
  get_socket rcvbuf n r fd s = get_int r (s.compat_sock fd).rcvbuf s
  get_socket low_water n r fd s = get_int r (pos 0) s
  get_socket maxmsg n r fd s = get_int r (s.compat_sock fd).tcp_maxseg s
  get_socket linger n r fd s = get_linger r fd s
  get_socket rxdata n r fd s = get_rxdata r s
  get_socket txdata n r fd s = get_txdata r s
  get_socket myaddr n r fd s = get_int r (pos my_ip) s
  get_socket hopcnt n r fd s = get_int r (pos 0) s
  get_socket other n r fd s = ask (socket_opt_to_lwip n) (n == 0x1007) r s

  -- `getsockopt` at the level of TCP.
  unfoldable pub get_tcp : TcpOption → Room → ℕ → Shim → Reply
  unfolding get_int ask
  get_tcp nodelay r fd s = ask (some tcp_nodelay) false r s
  get_tcp ackdelaytime r fd s = get_int r (s.compat_sock fd).tcp_ackdelay s
  get_tcp noackdelay r fd s = get_int r (s.compat_sock fd).tcp_noackdelay s
  get_tcp unknown r fd s = get_int r (s.compat_sock fd).tcp_unknown s
  get_tcp maxseg r fd s = get_int r (s.compat_sock fd).tcp_maxseg s
  get_tcp no_option r fd s = refuse enoprotoopt s

  unfoldable pub get_at : Level → ℕ → Room → ℕ → Shim → Reply
  unfolding get_socket get_tcp ask
  get_at socket_level n r fd s = get_socket (socket_option n) n r fd s
  get_at ip_level n r fd s = ask (ip_opt_to_lwip n) false r s
  get_at tcp_level n r fd s = get_tcp (tcp_option n) r fd s
  get_at no_level n r fd s = refuse enoprotoopt s

  -- `getsockopt`; `native` is what nsysnet answers.
  unfoldable pub getsockopt : ℤ → ℕ → ℤ → ℕ → Room → Shim → Reply
  unfolding get_at
  getsockopt native fd level name r s =
      if is_foreign s fd
      then record { result = native; errno = native_call; written = nothing; shim = s }
      else get_at (level_of level) name r fd s
