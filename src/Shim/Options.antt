-- ===== src/Shim/Options.antt =====
-- aroma_module/nsysnet_shim.c: `setsockopt`, `getsockopt` and the compatibility state behind them. What
-- nsysnet and lwIP answer is an argument. An option's value is the first two ints at `optval`, which
-- hold a `struct linger`.
pub mod Set
pub mod Get
pub mod Kept
mod Tests
use ax88179_aroma_driver.Base.{
  ℕ, zero, suc, ◌+◌, ◌-◌, ◌^◌, Bool, true, false, not, ◌||◌, ◌&&◌, Option, none, some, List, [],
  ◌∷◌, ltb, leb, ◌==◌, if◌then◌else◌, ℤ, pos, negsuc, is_neg, minus_one, eq_nat, bit,
}
use ax88179_aroma_driver.Shim.Sockets.{Compat, Shim, update, is_foreign}

-- lwIP's options, and its two other calls that serve one.
pub data LwipCall : Type 0 where
  so_reuseaddr : LwipCall
  so_keepalive : LwipCall
  so_broadcast : LwipCall
  so_error : LwipCall
  so_type : LwipCall
  so_sndbuf : ℤ → LwipCall
  so_rcvbuf : ℤ → LwipCall
  so_txdata : LwipCall
  ip_tos : LwipCall
  ip_ttl : LwipCall
  ip_multicast_if : LwipCall
  ip_multicast_ttl : LwipCall
  ip_multicast_loop : LwipCall
  ip_add_membership : LwipCall
  ip_drop_membership : LwipCall
  tcp_nodelay : LwipCall
  set_nonblocking : Bool → LwipCall
  get_flags : LwipCall
  bytes_readable : LwipCall

-- `socket_opt_to_lwip`
unfoldable pub socket_opt_to_lwip : ℕ → Option LwipCall
socket_opt_to_lwip n =
    if n == 0x0004
    then some so_reuseaddr
    else if n == 0x0008
    then some so_keepalive
    else if n == 0x0020
    then some so_broadcast
    else if n == 0x1007
    then some so_error
    else if n == 0x1008
    then some so_type
    else none

-- `ip_opt_to_lwip`
unfoldable pub ip_opt_to_lwip : ℕ → Option LwipCall
ip_opt_to_lwip n =
    if n == 3
    then some ip_tos
    else if n == 4
    then some ip_ttl
    else if n == 9
    then some ip_multicast_if
    else if n == 10
    then some ip_multicast_ttl
    else if n == 11
    then some ip_multicast_loop
    else if n == 12
    then some ip_add_membership
    else if n == 13
    then some ip_drop_membership
    else none

-- The names of the options of a level that the two calls tell apart; `flag k` has the number 2^k.
pub data SocketOption : Type 0 where
  nbio : SocketOption
  bio : SocketOption
  nonblock : SocketOption
  flag : ℕ → SocketOption
  noslowstart : SocketOption
  sndbuf : SocketOption
  rcvbuf : SocketOption
  low_water : SocketOption
  maxmsg : SocketOption
  linger : SocketOption
  rxdata : SocketOption
  txdata : SocketOption
  myaddr : SocketOption
  hopcnt : SocketOption
  other : SocketOption

unfoldable pub socket_option : ℕ → SocketOption
socket_option n =
    if n == 0x1014
    then nbio
    else if n == 0x1015
    then bio
    else if n == 0x1016
    then nonblock
    else if n == 0x0010
    then flag 4
    else if n == 0x0100
    then flag 8
    else if n == 0x0200
    then flag 9
    else if n == 0x0400
    then flag 10
    else if n == 0x4000
    then noslowstart
    else if n == 0x1001
    then sndbuf
    else if n == 0x1002
    then rcvbuf
    else if (n == 0x1003) || (n == 0x1004)
    then low_water
    else if n == 0x1010
    then maxmsg
    else if n == 0x0080
    then linger
    else if n == 0x1011
    then rxdata
    else if n == 0x1012
    then txdata
    else if n == 0x1013
    then myaddr
    else if n == 0x1009
    then hopcnt
    else other

pub data TcpOption : Type 0 where
  nodelay : TcpOption
  ackdelaytime : TcpOption
  noackdelay : TcpOption
  unknown : TcpOption
  maxseg : TcpOption
  no_option : TcpOption

unfoldable pub tcp_option : ℕ → TcpOption
tcp_option n =
    if n == 0x2004
    then nodelay
    else if n == 0x2001
    then ackdelaytime
    else if n == 0x2002
    then noackdelay
    else if n == 0x2005
    then unknown
    else if n == 0x2003
    then maxseg
    else no_option

-- NSN_SOL_SOCKET, IPPROTO_IP and NSN_SOL_TCP.
pub data Level : Type 0 where
  socket_level : Level
  ip_level : Level
  tcp_level : Level
  no_level : Level

unfoldable pub level_of : ℤ → Level
level_of (negsuc n) = if n == 0 then socket_level else no_level
level_of (pos n) = if n == 0 then ip_level else if n == 6 then tcp_level else no_level

pub data Errno : Type 0 where
  native_call : Errno
  from_lwip : Errno
  einval : Errno
  enoprotoopt : Errno

-- What is written at `optval`, with its length at `optlen`; `by_lwip` is what lwIP writes itself.
pub data Written : Type 0 where
  nothing : Written
  int : ℤ → Written
  linger_of : ℤ → ℤ → Written
  by_lwip : ℤ → Written

pub record Reply : Type 0 where
  pub result : ℤ
  pub errno : Errno
  pub written : Written
  pub shim : Shim

abbrev pub refuse : Errno → Shim → Reply
refuse e s = record { result = minus_one; errno = e; written = nothing; shim = s }

abbrev pub answered : ℤ → Shim → Reply
answered r s = record { result = r; errno = from_lwip; written = nothing; shim = s }

abbrev pub wrote : Written → Shim → Reply
wrote w s = record { result = pos 0; errno = from_lwip; written = w; shim = s }

-- `optval` and `optlen`.
pub record Value : Type 0 where
  pub optval : Option (ℤ × ℤ)
  pub optlen : ℕ

-- `compat_set_int`, and what the caller does with the int.
unfoldable pub with_int : Option (ℤ × ℤ) → ℕ → Shim → (ℤ → Reply) → Reply
with_int none len s k = refuse einval s
with_int (some (x, y)) len s k = if ltb len 4 then refuse einval s else k x

abbrev pub is_zero : ℤ → Bool
is_zero v = eq_nat v 0

-- `compat_flag_set`, on the flag 2^k of a descriptor below 32.
unfoldable pub set_flag : ℕ → Bool → ℕ → ℕ
set_flag k true x = if bit x k then x else x + 2 ^ k
set_flag k false x = if bit x k then x - 2 ^ k else x

-- `compat_flag_value`
unfoldable pub flag_value : ℕ → ℕ → ℤ
flag_value k x = if bit x k then pos (2 ^ k) else pos 0

abbrev pub change : ℕ → (Compat → Compat) → Shim → Shim
change fd f s = record s { compat_sock = update s.compat_sock fd (f (s.compat_sock fd)) }

abbrev pub same_int : ℤ → ℤ → Bool
same_int (pos m) (pos n) = m == n
same_int (negsuc m) (negsuc n) = m == n
same_int (pos m) (negsuc n) = false
same_int (negsuc m) (pos n) = false

abbrev pub at_least : Option ℕ → ℕ → Bool
at_least none n = false
at_least (some m) n = leb n m

-- `value > 65535`, and `value <= 0`
abbrev pub too_large : ℤ → Bool
too_large (pos n) = ltb 65535 n
too_large (negsuc n) = false

abbrev pub zero_or_less : ℤ → Bool
zero_or_less (pos n) = n == 0
zero_or_less (negsuc n) = true

-- lwIP's answer to a setter, and the state where it is 0.
abbrev pub kept_if : ℤ → Shim → Shim → Reply
kept_if r s s' = if eq_nat r 0 then answered (pos 0) s' else answered r s
