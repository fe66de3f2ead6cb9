-- ===== src/Shim/Select.antt =====
-- aroma_module/nsysnet_shim.c: `select` over both stacks and `lwip_select_bits`. A set of descriptors
-- is a function of the descriptor, and the three sets are a function of their kind, `none` where the
-- title gives no set. What nsysnet's select and lwIP's answer in each round of the loop, and the clock, is
-- an argument.
pub mod Bits
pub mod Exact
pub mod Ends
pub mod Ready
pub mod Bounded
mod Tests
use ax88179_aroma_driver.Base.{
  ℕ, zero, suc, ◌+◌, ◌*◌, ◌/◌, Bool, true, false, not, ◌&&◌, ◌||◌, Option, none, some, ltb, leb,
  ◌==◌, if◌then◌else◌, ℤ, pos, negsuc, is_neg, minus_one,
}
use ax88179_aroma_driver.Shim.Sockets.{Shim, update}
use ax88179_aroma_driver.Shim.Multi.Receive.{Timeval, bad_timeout}

pub data Kind : Type 0 where
  read : Kind
  write : Kind
  except : Kind

abbrev pub Bits : Type 0
Bits = ℕ → Bool

abbrev pub Sets : Type 0
Sets = Kind → Option Bits

-- A call of a stack's select, and what it answers.
pub record Query : Type 0 where
  pub nfds : ℕ
  pub sets : Sets

pub record Answer : Type 0 where
  pub rc : ℤ
  pub sets : Sets

abbrev pub in_set : Option Bits → ℕ → Bool
in_set none i = false
in_set (some f) i = f i

abbrev pub over : (Bits → Bits) → Option Bits → Option Bits
over g none = none
over g (some f) = some (g f)

-- `FD_SET(fd, …)` in the loop of `lwip_select_bits`.
unfoldable pub put : Bool → Option ℕ → Bits → Bits
put true (some x) m = update m x true
put true none m = m
put false o m = m

unfoldable pub fill_set : ℕ → Bits → (ℕ → Option ℕ) → Bits → Bits
unfolding put
fill_set zero want mapped f = λ x. false
fill_set (suc i) want mapped f = put (want i && f i) (mapped i) (fill_set i want mapped f)

-- `ln`, the first descriptor that lwIP need not look at.
unfoldable pub raise : Bool → Option ℕ → ℕ → ℕ
raise true (some x) ln = if leb ln x then x + 1 else ln
raise true none ln = ln
raise false o ln = ln

unfoldable pub limit : ℕ → Bits → (ℕ → Option ℕ) → ℕ → ℕ
unfolding raise
limit zero want mapped ln = ln
limit (suc i) want mapped ln = raise (want i) (mapped i) (limit i want mapped ln)

-- `FD_ISSET(stack_fd(i), …)`
abbrev pub seen : Option ℕ → Bits → Bool
seen none got = false
seen (some x) got = got x

abbrev pub collect : ℕ → Bits → (ℕ → Option ℕ) → Bits → Bits
collect nfds want mapped got i = ltb i nfds && (want i && seen (mapped i) got)

abbrev pub to_query : ℕ → ℕ → Bits → (ℕ → Option ℕ) → Sets → Query
to_query offset nfds want mapped sets = record {
  nfds = limit nfds want mapped offset;
  sets = λ k. over (fill_set nfds want mapped) (sets k);
}

-- The end of `lwip_select_bits`: the sets as they were, or what lwIP found.
unfoldable pub from_answer : ℕ → Bits → (ℕ → Option ℕ) → Sets → Answer → Answer
from_answer nfds want mapped sets a =
    if is_neg a.rc then record { rc = a.rc; sets = sets } else record {
      rc = a.rc;
      sets = λ k. over (λ f. collect nfds want mapped (in_set (a.sets k))) (sets k);
    }

-- `lwip_select_bits`; `offset` is LWIP_SOCKET_OFFSET.
unfoldable pub lwip_select_bits : (Query → Answer) → ℕ → ℕ → Bits → (ℕ → Option ℕ) → Sets → Answer
unfolding from_answer
lwip_select_bits lwip_select offset nfds want mapped sets =
    from_answer nfds want mapped sets (lwip_select (to_query offset nfds want mapped sets))

-- One round: the two calls and the clock behind them.
pub record Round : Type 0 where
  pub native : Query → Answer
  pub lwip : Query → Answer
  pub now : ℕ

pub data Errno : Type 0 where
  einval : Errno
  ebadf : Errno
  native_call : Errno
  from_lwip : Errno

pub record Reply : Type 0 where
  pub result : ℤ
  pub errno : Errno
  pub sets : Sets
  pub shim : Shim

-- `rc > 0 ? rc : 0`, and `rc > 0`.
abbrev pub amount : ℤ → ℕ
amount (pos n) = n
amount (negsuc n) = 0

abbrev pub is_positive : ℤ → Bool
is_positive rc = not (amount rc == 0)

abbrev pub emptied : Sets → Sets
emptied sets k = over (λ f i. false) (sets k)

abbrev pub restrict : Bits → Sets → Sets
restrict m sets k = over (λ f i. f i && m i) (sets k)

-- What both stacks found.
abbrev pub merge : Answer → Answer → Sets → Sets
merge n l sets k =
    over
      (λ f i.
        (is_positive n.rc && in_set (n.sets k) i) || (is_positive l.rc && in_set (l.sets k) i))
      (sets k)

-- `want`, within the 32 bits that `nfds` leaves.
abbrev pub wanted : ℕ → Sets → Bits
wanted nfds sets i =
    ltb i nfds && (in_set (sets read) i || (in_set (sets write) i || in_set (sets except) i))

-- Two masks of 32 bits are equal; a mask is not 0.
abbrev pub same_bit : Bool → Bool → Bool
same_bit true b = b
same_bit false b = not b

abbrev pub same_bits : ℕ → Bits → Bits → Bool
same_bits zero f g = true
same_bits (suc n) f g = same_bit (f n) (g n) && same_bits n f g

abbrev pub any_bit : ℕ → Bits → Bool
any_bit zero f = false
any_bit (suc n) f = f n || any_bit n f

-- A listener of FTPiiU has to be opened again.
unfoldable pub restart : Bits → Sets → Shim → Reply
restart want sets s = record {
  result = minus_one;
  errno = ebadf;
  sets = emptied sets;
  shim = record s {
    ftp_restart_mask = λ i. s.ftp_restart_mask i && not (want i && s.ftp_restart_mask i);
  };
}

-- `nfds < 0 || nfds > 32`
abbrev pub bad_nfds : ℤ → Bool
bad_nfds (pos n) = ltb 32 n
bad_nfds (negsuc n) = true

-- The deadline in ticks, of which `per_ms` make a millisecond.
abbrev pub deadline_of : ℕ → ℕ → Option Timeval → Option ℕ
deadline_of per_ms start none = none
deadline_of per_ms start (some t) =
    some (start + (amount t.sec * 1000 + amount t.usec / 1000) * per_ms)

module _ (offset : ℕ) (rounds : ℕ → Round) where
  -- The end of round `j` in the loop over both stacks, or the next one.
  unfoldable pub decide : Sets → Shim → Option ℕ → ℕ → Answer → Answer → Option Reply → Option Reply
  decide sets s deadline now n l again =
      if is_neg n.rc
      then some (record { result = minus_one; errno = native_call; sets = sets; shim = s })
      else if is_neg l.rc
      then some (record { result = minus_one; errno = from_lwip; sets = sets; shim = s })
      else if is_positive n.rc || is_positive l.rc
      then some (record {
        result = pos (amount n.rc + amount l.rc);
        errno = from_lwip;
        sets = merge n l sets;
        shim = s;
      })
      else elim deadline [
        | none ↦ again
        | some d ↦
            if leb d now
            then some (record { result = pos 0; errno = from_lwip; sets = emptied sets; shim = s })
            else again
      ]

  -- The loop over both stacks from round `j` on, for `fuel` rounds.
  unfoldable pub poll_both : ℕ → Bits → Bits → Sets → Shim → Option ℕ → ℕ → ℕ → Option Reply
  unfolding decide lwip_select_bits
  poll_both nfds want nat sets s deadline zero j = none
  poll_both nfds want nat sets s deadline (suc fuel) j =
      let again = poll_both nfds want nat sets s deadline fuel (suc j) in
      decide sets s deadline (rounds j).now
        ((rounds j).native (record { nfds = nfds; sets = restrict nat sets }))
        (lwip_select_bits (rounds j).lwip offset nfds (λ i. want i && not (nat i)) s.mapped_fd
          (restrict (λ i. not (nat i)) sets))
        again

  -- All descriptors are lwIP's.
  unfoldable pub only_lwip : ℕ → Bits → Sets → Shim → Reply
  unfolding lwip_select_bits
  only_lwip nfds want sets s =
      let a = lwip_select_bits (rounds 0).lwip offset nfds want s.mapped_fd sets in
      record { result = a.rc; errno = from_lwip; sets = a.sets; shim = s }

  -- All descriptors are nsysnet's.
  unfoldable pub only_native : ℕ → Sets → Shim → Reply
  only_native nfds sets s =
      let a = (rounds 0).native (record { nfds = nfds; sets = sets }) in
      record { result = a.rc; errno = native_call; sets = a.sets; shim = s }

  -- The choice between the stacks.
  unfoldable pub select_among : ℕ → Bits → Bits → Sets → Shim → Option ℕ → ℕ → Option Reply
  unfolding only_native only_lwip poll_both
  select_among nfds want nat sets s deadline fuel =
      if same_bits 32 nat want
      then some (only_native nfds sets s)
      else if same_bits 32 nat (λ i. false)
      then some (only_lwip nfds want sets s)
      else poll_both nfds want nat sets s deadline fuel 0

  -- `select`, at time `start`.
  unfoldable pub select : ℕ → ℕ → ℤ → Sets → Option Timeval → Shim → ℕ → Option Reply
  unfolding restart select_among
  select per_ms start nfds sets timeout s fuel =
      let want = wanted (amount nfds) sets in
      if bad_nfds nfds || bad_timeout timeout
      then some (record { result = minus_one; errno = einval; sets = sets; shim = s })
      else if any_bit 32 (λ i. want i && s.ftp_restart_mask i)
      then some (restart want sets s)
      else select_among (amount nfds) want (λ i. want i && not (s.open_mask i)) sets s
          (deadline_of per_ms start timeout) fuel
