-- ===== src/Shim/Options/Kept.antt =====
-- The options that the shim keeps itself: what `getsockopt` gives back after `setsockopt`.
use ax88179_aroma_driver.Base.{
  ℕ, arith, ◌≤◌, ◌≡◌, refl, sym, ap, ◌∙◌, Bool, true, false, not, ◌&&◌, some, ◌==◌, if◌then◌else◌,
  ℤ, pos, negsuc, le→leb, Bool-cases, inl, inr, ==_iff,
}
use ax88179_aroma_driver.Shim.Sockets.{Compat, Shim, is_foreign}
use ax88179_aroma_driver.Shim.Options.{
  LwipCall, Written, int, linger_of, Value, Reply, wrote, change, is_zero, set_flag, flag_value,
  with_int, level_of, socket_option, tcp_option,
}
use ax88179_aroma_driver.Shim.Options.Set.{
  setsockopt, set_at, set_socket, set_tcp, set_linger, set_maxseg, set_sndbuf, set_rcvbuf,
}
use ax88179_aroma_driver.Shim.Options.Get.{
  Room, getsockopt, get_at, get_socket, get_tcp, get_int, get_linger,
}

pub data KeptOption : Type 0 where
  nsn_so_dontroute : KeptOption
  nsn_so_oobinline : KeptOption
  nsn_so_tcpsack : KeptOption
  nsn_so_winscale : KeptOption
  nsn_so_sndbuf : KeptOption
  nsn_so_rcvbuf : KeptOption
  nsn_so_maxmsg : KeptOption
  nsn_so_linger : KeptOption
  nsn_tcp_ackdelaytime : KeptOption
  nsn_tcp_noackdelay : KeptOption
  nsn_tcp_maxseg : KeptOption
  nsn_tcp_unknown : KeptOption

abbrev pub level : KeptOption → ℤ
level nsn_tcp_ackdelaytime = pos 6
level nsn_tcp_noackdelay = pos 6
level nsn_tcp_maxseg = pos 6
level nsn_tcp_unknown = pos 6
level _ = negsuc 0

abbrev pub number : KeptOption → ℕ
number nsn_so_dontroute = 0x0010
number nsn_so_oobinline = 0x0100
number nsn_so_tcpsack = 0x0200
number nsn_so_winscale = 0x0400
number nsn_so_sndbuf = 0x1001
number nsn_so_rcvbuf = 0x1002
number nsn_so_maxmsg = 0x1010
number nsn_so_linger = 0x0080
number nsn_tcp_ackdelaytime = 0x2001
number nsn_tcp_noackdelay = 0x2002
number nsn_tcp_maxseg = 0x2003
number nsn_tcp_unknown = 0x2005

-- SO_MAXMSG and TCP_MAXSEG are two names of one value.
abbrev pub stored_at : KeptOption → ℕ
stored_at nsn_so_maxmsg = 0x2003
stored_at k = number k

abbrev pub same : KeptOption → KeptOption → Bool
same k k' = stored_at k == stored_at k'

-- A flag reads as its own bit, the linger flag as 0x80, and another value as it was set.
abbrev pub shown_flag : ℕ → ℤ → ℤ
shown_flag n x = if is_zero x then pos 0 else pos n

abbrev pub shown : KeptOption → ℤ → ℤ → Written
shown nsn_so_dontroute x y = int (shown_flag 0x0010 x)
shown nsn_so_oobinline x y = int (shown_flag 0x0100 x)
shown nsn_so_tcpsack x y = int (shown_flag 0x0200 x)
shown nsn_so_winscale x y = int (shown_flag 0x0400 x)
shown nsn_so_linger x y = linger_of (shown_flag 0x0080 x) y
shown k x y = int x

-- What the state gives back, and what a new value makes of it.
abbrev visible : KeptOption → Compat → Written
visible nsn_so_dontroute c = int (flag_value 4 c.sol_flags)
visible nsn_so_oobinline c = int (flag_value 8 c.sol_flags)
visible nsn_so_tcpsack c = int (flag_value 9 c.sol_flags)
visible nsn_so_winscale c = int (flag_value 10 c.sol_flags)
visible nsn_so_sndbuf c = int c.sndbuf
visible nsn_so_rcvbuf c = int c.rcvbuf
visible nsn_so_maxmsg c = int c.tcp_maxseg
visible nsn_so_linger c = linger_of (if is_zero c.linger_on then pos 0 else pos 0x80) c.linger_secs
visible nsn_tcp_ackdelaytime c = int c.tcp_ackdelay
visible nsn_tcp_noackdelay c = int c.tcp_noackdelay
visible nsn_tcp_maxseg c = int c.tcp_maxseg
visible nsn_tcp_unknown c = int c.tcp_unknown

abbrev put : KeptOption → ℤ → ℤ → Compat → Compat
put nsn_so_dontroute x y c = record c { sol_flags = set_flag 4 (not (is_zero x)) c.sol_flags }
put nsn_so_oobinline x y c = record c { sol_flags = set_flag 8 (not (is_zero x)) c.sol_flags }
put nsn_so_tcpsack x y c = record c { sol_flags = set_flag 9 (not (is_zero x)) c.sol_flags }
put nsn_so_winscale x y c = record c { sol_flags = set_flag 10 (not (is_zero x)) c.sol_flags }
put nsn_so_sndbuf x y c = record c { sndbuf = x }
put nsn_so_rcvbuf x y c = record c { rcvbuf = x }
put nsn_so_maxmsg x y c = record c { tcp_maxseg = x }
put nsn_so_linger x y c = record c {
  linger_on = if is_zero x then pos 0 else pos 1;
  linger_secs = y;
}
put nsn_tcp_ackdelaytime x y c = record c { tcp_ackdelay = x }
put nsn_tcp_noackdelay x y c = record c { tcp_noackdelay = x }
put nsn_tcp_maxseg x y c = record c { tcp_maxseg = x }
put nsn_tcp_unknown x y c = record c { tcp_unknown = x }

abbrev pub room : ℕ → Room
room len = record { optval = true; optlen = some len }

abbrev pub value : ℤ → ℤ → ℕ → Value
value x y len = record { optval = some (x, y); optlen = len }

module _ (lwip answer : LwipCall → ℤ) (is_nonblocking : Bool) (my_ip : ℕ) (to_nsn : ℤ → ℤ)
    (native : ℤ) where
  getsockopt-visible :
      (k : KeptOption) (fd len : ℕ) (s : Shim)
      → is_foreign s fd ≡ false
      → 8 ≤ len
      → getsockopt lwip answer is_nonblocking my_ip to_nsn native fd
          (level k)
          (number k)
          (room len)
          s
        ≡ wrote (visible k (s.compat_sock fd)) s
  unfolding getsockopt get_at get_socket get_tcp get_int get_linger level_of socket_option
      tcp_option
  getsockopt-visible nsn_so_linger fd len s h b = rw (h, le→leb 8 len b) refl
  getsockopt-visible k fd len s h b = rw (h, le→leb 4 len (omega arith)) refl

  setsockopt-put :
      (k : KeptOption) (fd len : ℕ) (x y : ℤ) (s : Shim)
      → is_foreign s fd ≡ false
      → (setsockopt lwip native fd (level k) (number k) (value x y len) s).result ≡ pos 0
      → (setsockopt lwip native fd (level k) (number k) (value x y len) s).shim
        ≡ change fd (put k x y) s
  unfolding setsockopt set_at set_socket set_tcp set_linger set_maxseg set_sndbuf set_rcvbuf
      with_int level_of socket_option tcp_option
  setsockopt-put k fd len x y s h r = ground arith

visible-put :
    (k k' : KeptOption) (x y : ℤ) (c : Compat)
    → visible k' (put k x y c) ≡ (if same k k' then shown k' x y else visible k' c)
unfolding set_flag flag_value
visible-put k k' x y c = ground arith

change-visible :
    (k k' : KeptOption) (fd fd' : ℕ) (x y : ℤ) (s : Shim)
    → visible k' ((change fd (put k x y) s).compat_sock fd')
      ≡ (if (fd == fd') && same k k' then shown k' x y else visible k' (s.compat_sock fd'))
change-visible k k' fd fd' x y s = elim (Bool-cases (fd == fd')) [
  | inl e ↦ rw e (
      visible-put k k' x y (s.compat_sock fd)
      ∙ ap (λ c. if same k k' then shown k' x y else visible k' (s.compat_sock c))
          ((==_iff fd fd').0 e))
  | inr ne ↦ rw ne refl
]

module _ (lwip lwip' answer : LwipCall → ℤ) (is_nonblocking : Bool) (my_ip : ℕ) (to_nsn : ℤ → ℤ)
    (native : ℤ) where
  abbrev pub set_kept : KeptOption → ℕ → ℤ → ℤ → ℕ → Shim → Reply
  set_kept k fd x y len s = setsockopt lwip native fd (level k) (number k) (value x y len) s

  abbrev pub get_kept : KeptOption → ℕ → ℕ → Shim → Written
  get_kept k fd len s =
      (getsockopt lwip' answer is_nonblocking my_ip to_nsn native fd (level k) (number k) (room len)
        s).written

  get_kept-visible :
      (k : KeptOption) (fd len : ℕ) (s : Shim)
      → is_foreign s fd ≡ false
      → 8 ≤ len
      → get_kept k fd len s ≡ visible k (s.compat_sock fd)
  get_kept-visible k fd len s h b =
      ap (λ r. r.written)
        (getsockopt-visible lwip' answer is_nonblocking my_ip to_nsn native k fd len s h b)

  -- After a `setsockopt` of one of the options that the shim keeps, on a descriptor of its own, that
  -- returns 0, `getsockopt` of any of these options on any of its descriptors, with room for 8 bytes,
  -- gives back the new value where descriptor and option are those that were set (SO_MAXMSG and TCP_MAXSEG
  -- are one; a flag reads as its own bit, SO_LINGER's as 0x80), and otherwise what it gave before; whatever
  -- lwIP and nsysnet answer.
  pub getsockopt-setsockopt :
      (k k' : KeptOption) (fd fd' len len' : ℕ) (x y : ℤ) (s : Shim)
      → is_foreign s fd ≡ false
      → is_foreign s fd' ≡ false
      → 8 ≤ len'
      → (set_kept k fd x y len s).result ≡ pos 0
      → get_kept k' fd' len' (set_kept k fd x y len s).shim
        ≡ (if (fd == fd') && same k k' then shown k' x y else get_kept k' fd' len' s)
  getsockopt-setsockopt k k' fd fd' len len' x y s h h' b r =
      ap (get_kept k' fd' len')
        (setsockopt-put lwip answer is_nonblocking my_ip to_nsn native k fd len x y s h r)
      ∙ (get_kept-visible k' fd' len' (change fd (put k x y) s) h' b
          ∙ (change-visible k k' fd fd' x y s
              ∙ ap (λ w. if (fd == fd') && same k k' then shown k' x y else w)
                  (sym (get_kept-visible k' fd' len' s h' b))))
