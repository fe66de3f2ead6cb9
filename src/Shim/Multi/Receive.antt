-- ===== src/Shim/Multi/Receive.antt =====
-- aroma_module/nsysnet_shim.c: `recvfrom_multi` on a descriptor of the shim. What the clock, lwIP's
-- select and its recvfrom answer in each round is an argument.
pub mod Safe
pub mod Overflow
use ax88179_aroma_driver.Base.{
  ℕ, zero, suc, ◌+◌, ◌*◌, ◌/◌, ◌%◌, ◌^◌, ◌-◌, Bool, true, false, not, ◌||◌, ◌&&◌, Option, none,
  some, List, [], ◌∷◌, length, ltb, leb, ◌==◌, if◌then◌else◌, ℤ, pos, negsuc, is_neg, minus_one,
  set,
}
use ax88179_aroma_driver.Base.Outcome.{Outcome, ok, refused, fault, ◌>>=◌}
use ax88179_aroma_driver.Shim.Multi.{
  u32_mod, ipc_ptr_ok, ipc_pad, pad_array, Errno, clear, from_lwip, Sockaddr, clear_results,
}

-- `struct nsn_recvfrom_multi_buffers`: addresses, sizes in bytes, and the arrays' entries.
pub record ReceiveBuffers : Type 0 where
  pub self : ℕ
  pub buffer : ℕ
  pub bufferlen : ℕ
  pub froms_at : ℕ
  pub froms : List Sockaddr
  pub fromslen : ℕ
  pub results_at : ℕ
  pub results : List ℤ
  pub resultslen : ℕ

pub record Timeval : Type 0 where
  pub sec : ℤ
  pub usec : ℤ

-- What one round meets: whether the deadline has passed, the answers of select and of recvfrom,
-- whether that one's error is EWOULDBLOCK, and the sender.
pub record Round : Type 0 where
  pub expired : Bool
  pub ready : ℤ
  pub rc : ℤ
  pub would_block : Bool
  pub from : Sockaddr

pub record ReceiveDone : Type 0 where
  pub rc : ℤ
  pub errno : Errno
  pub results : List ℤ
  pub froms : List Sockaddr

-- `a[i] = v`
unfoldable pub store {ℓ} : {A : Type ℓ} → List A → ℕ → A → Outcome (List A)
store xs i v = if ltb i (length xs) then ok (set xs i v) else fault

-- `i == 0 ? -1 : i`
abbrev pub count_or_error : ℕ → ℤ
count_or_error i = if i == 0 then minus_one else pos i

-- The loop ends in round `i`, with this entry, result and errno.
unfoldable pub stop : List ℤ → List Sockaddr → ℕ → ℤ → ℤ → Errno → Outcome ReceiveDone
unfolding store
stop results froms i v rc errno =
    store results i v >>= λ rs. ok (record { rc = rc; errno = errno; results = rs; froms = froms })

-- How the wait of a round ends: a datagram is there (or no timeout is given), the time has run out,
-- or select failed.
pub data Wait : Type 0 where
  go_on : Wait
  timed_out : Wait
  select_failed : Wait

abbrev pub after_select : ℤ → Wait
after_select (pos n) = if n == 0 then timed_out else go_on
after_select (negsuc n) = select_failed

unfoldable pub wait : Bool → Round → Wait
wait false r = go_on
wait true r = if r.expired then timed_out else after_select r.ready

-- What follows `lwip_recvfrom`: the entries of this datagram and the rest of the loop, or the end.
unfoldable pub after_receive :
    (List ℤ → List Sockaddr → Outcome ReceiveDone)
    → List ℤ
    → List Sockaddr
    → ℕ
    → Round
    → ℤ
    → Outcome ReceiveDone
unfolding store stop
after_receive again results froms i r (pos n) =
    store results i (pos n) >>= λ rs. store froms i r.from >>= λ fs. again rs fs
after_receive again results froms i r (negsuc n) =
    if r.would_block
    then stop results froms i (negsuc n) (pos i) clear
    else stop results froms i (negsuc n) (count_or_error i) from_lwip

-- One round; lwIP may write `datagram_len` bytes at `i * datagram_len`.
unfoldable pub receive_round :
    (List ℤ → List Sockaddr → Outcome ReceiveDone)
    → ℕ
    → ℕ
    → List ℤ
    → List Sockaddr
    → ℕ
    → Round
    → Wait
    → Outcome ReceiveDone
unfolding after_receive stop
receive_round again bufferlen datagram_len results froms i r timed_out =
    stop results froms i minus_one (pos i) clear
receive_round again bufferlen datagram_len results froms i r select_failed =
    stop results froms i minus_one (count_or_error i) from_lwip
receive_round again bufferlen datagram_len results froms i r go_on =
    if ltb bufferlen (i * datagram_len + datagram_len)
    then fault
    else after_receive again results froms i r r.rc

unfoldable pub receive_loop :
    (ℕ → Round) → Bool → ℕ → ℕ → ℕ → ℕ → List ℤ → List Sockaddr → Outcome ReceiveDone
unfolding receive_round wait
receive_loop rounds timed bufferlen datagram_len zero i results froms =
    ok (record { rc = pos i; errno = clear; results = results; froms = froms })
receive_loop rounds timed bufferlen datagram_len (suc n) i results froms =
    receive_round (λ rs fs. receive_loop rounds timed bufferlen datagram_len n (suc i) rs fs)
      bufferlen datagram_len results froms i (rounds i) (wait timed (rounds i))

-- `tv_usec >= 1000000`
abbrev pub too_long : ℤ → Bool
too_long (pos n) = leb 1000000 n
too_long (negsuc n) = false

abbrev pub bad_timeout : Option Timeval → Bool
bad_timeout none = false
bad_timeout (some t) = is_neg t.sec || (is_neg t.usec || too_long t.usec)

abbrev pub is_timed : Option Timeval → Bool
is_timed none = false
is_timed (some t) = true

abbrev pub receive_aligned : ReceiveBuffers → Bool
receive_aligned b =
    ipc_ptr_ok b.self
    && (ipc_ptr_ok b.buffer && (ipc_ptr_ok b.froms_at && ipc_ptr_ok b.results_at))
    && (b.bufferlen % 64 == 0 && (b.fromslen % 64 == 0 && b.resultslen % 64 == 0))

unfoldable pub receive_fits : ReceiveBuffers → ℕ → ℕ → Bool
receive_fits b count bytes = not (
    ltb b.bufferlen (ipc_pad bytes)
    || (ltb b.fromslen (pad_array count 16) || ltb b.resultslen (pad_array count 4)))

-- The part behind the checks on pointers and alignment.
unfoldable pub receive_checked : (ℕ → Round) → Bool → ReceiveBuffers → ℕ → ℕ → Outcome ReceiveDone
receive_checked rounds timed b datagram_len count =
    if leb u32_mod (datagram_len * count) || not (receive_fits b count (datagram_len * count))
    then refused
    else (clear_results count b.results >>= λ rs.
        receive_loop rounds timed b.bufferlen datagram_len count 0 rs b.froms)

unfoldable pub receive_counted :
    (ℕ → Round) → Option Timeval → ReceiveBuffers → ℕ → ℕ → Outcome ReceiveDone
receive_counted rounds timeout b datagram_len zero =
    ok (record { rc = pos 0; errno = clear; results = b.results; froms = b.froms })
receive_counted rounds timeout b datagram_len (suc n) =
    if not (receive_aligned b)
    then refused
    else receive_checked rounds (is_timed timeout) b datagram_len (suc n)

-- `recvfrom_multi` on a descriptor of the shim, with `b` not null.
unfoldable pub recvfrom_multi :
    (ℕ → Round) → Option Timeval → ReceiveBuffers → ℤ → ℤ → Outcome ReceiveDone
unfolding receive_counted
recvfrom_multi rounds timeout b (pos datagram_len) (pos count) =
    if bad_timeout timeout then refused else receive_counted rounds timeout b datagram_len count
recvfrom_multi rounds timeout b datagram_len count = refused
