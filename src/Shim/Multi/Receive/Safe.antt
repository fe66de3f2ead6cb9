-- ===== src/Shim/Multi/Receive/Safe.antt =====
-- The accesses of `recvfrom_multi` to the title's arrays, and what it fills in.
use ax88179_aroma_driver.Base.{
  ℕ, zero, suc, ◌+◌, ◌*◌, ◌^◌, ◌≤◌, ◌<◌, ◌≡◌, refl, ◌∙◌, ◌⊎◌, inl, inr, Bool, true, false, not,
  Option, some, List, arith, Bool-cases, get_elem?, get_elem?-set_self, get_elem?-set_ne, lt→ltb,
  length, length-set, ltb, leb, ℤ, pos, negsuc, minus_one, set,
}
use native.Mathlib.Nat.{mul_comm}
use native.Mathlib.Decide.{dec_lt}
use ax88179_aroma_driver.Base.Outcome.{Sound, Sound-bind, Sound-if, Outcome, ok, refused}
use ax88179_aroma_driver.Shim.Multi.{u32_mod, Errno, clear, from_lwip, Sockaddr, clear_results}
use ax88179_aroma_driver.Shim.Multi.Send.{clear_results-Sound, ipc_pad-le}
use ax88179_aroma_driver.Shim.Multi.Receive.{
  ReceiveBuffers, Timeval, Round, ReceiveDone, store, count_or_error, stop, Wait, go_on, timed_out,
  select_failed, wait, after_receive, receive_round, receive_loop, bad_timeout, is_timed,
  receive_aligned, receive_fits, receive_checked, recvfrom_multi,
}

-- The arrays have the sizes that the struct names.
pub record IsBacked (b : ReceiveBuffers) : Type 0 where
  pub froms_size : length b.froms * 16 ≡ b.fromslen
  pub results_size : length b.results * 4 ≡ b.resultslen

slot-le : (i n k size : ℕ) → (i + suc n) * k ≤ size → i * k + k ≤ size
slot-le i n k size h = grind arith

module _ (rounds : ℕ → Round) where
  -- The first `k` entries are those of the first `k` rounds.
  abbrev pub Filled : ℕ → List ℤ → List Sockaddr → Type 0
  Filled k results froms =
      (j : ℕ)
      → j < k
      → (get_elem? results j ≡ some (rounds j).rc) × (get_elem? froms j ≡ some (rounds j).from)

  -- The end of a receive: a count of datagrams that are filled in, or -1 with none.
  abbrev pub Received : ℕ → ReceiveDone → Type 0
  Received n d =
      (k : ℕ) × (k ≤ n)
      × ((d.rc ≡ pos k) ⊎ ((d.rc ≡ minus_one) × (k ≡ 0)))
      × Filled k d.results d.froms

  Filled-set :
      (k : ℕ) (results : List ℤ) (froms : List Sockaddr) (v : ℤ)
      → Filled k results froms
      → Filled k (set results k v) froms
  Filled-set k results froms v f j h =
      (get_elem?-set_ne results v (λ e. absurd (omega arith)) ∙ (f j h).0, (f j h).1)

  Filled-suc :
      (k : ℕ) (results : List ℤ) (froms : List Sockaddr)
      → k < length results
      → k < length froms
      → Filled k results froms
      → Filled (suc k) (set results k (rounds k).rc) (set froms k (rounds k).from)
  Filled-suc k results froms hr hf f j h = elim (dec_lt j k) [
    | yes below ↦ (
      get_elem?-set_ne results (rounds k).rc (λ e. absurd (omega arith)) ∙ (f j below).0,
      get_elem?-set_ne froms (rounds k).from (λ e. absurd (omega arith)) ∙ (f j below).1,
    )
    | no last ↦
        let same : j ≡ k = omega arith in
        rw same (
          get_elem?-set_self results k (rounds k).rc hr,
          get_elem?-set_self froms k (rounds k).from hf,
        )
  ]

  store-in {ℓ} :
      {A : Type ℓ} (xs : List A) (i : ℕ) (v : A) → i < length xs → store xs i v ≡ ok (set xs i v)
  unfolding store
  store-in xs i v h = rw (lt→ltb i (length xs) h)

  stop-Received :
      (n i : ℕ) (results : List ℤ) (froms : List Sockaddr) (v rc : ℤ) (errno : Errno)
      → i < length results
      → i ≤ n
      → Filled i results froms
      → (rc ≡ pos i) ⊎ ((rc ≡ minus_one) × (i ≡ 0))
      → Sound (Received n) (stop results froms i v rc errno)
  unfolding stop
  stop-Received n i results froms v rc errno h le f r =
      rw (store-in results i v h) (i, le, r, Filled-set i results froms v f)

  count_or_error-eq :
      (i : ℕ) → (count_or_error i ≡ pos i) ⊎ ((count_or_error i ≡ minus_one) × (i ≡ 0))
  count_or_error-eq i = ground arith

  module _ (total : ℕ) where
    after_receive-Received :
        (again : List ℤ → List Sockaddr → Outcome ReceiveDone) (results : List ℤ)
        (froms : List Sockaddr) (i : ℕ) (rc : ℤ)
        → rc ≡ (rounds i).rc
        → i < length results
        → i < length froms
        → i ≤ total
        → Filled i results froms
        → ((rs : List ℤ) (fs : List Sockaddr)
            → length rs ≡ length results
            → length fs ≡ length froms
            → Filled (suc i) rs fs
            → Sound (Received total) (again rs fs))
        → Sound (Received total) (after_receive again results froms i (rounds i) rc)
    unfolding after_receive
    after_receive-Received again results froms i (pos r) e hr hf le f k =
        rw (store-in results i (pos r) hr, store-in froms i (rounds i).from hf)
          (k (set results i (pos r)) (set froms i (rounds i).from) (length-set results i (pos r))
            (length-set froms i (rounds i).from) (rw e (Filled-suc i results froms hr hf f)))
    after_receive-Received again results froms i (negsuc m) e hr hf le f k =
        Sound-if _ (rounds i).would_block _ _
          (stop-Received total i results froms (negsuc m) (pos i) clear hr le f (inl refl))
          (stop-Received total i results froms (negsuc m) (count_or_error i) from_lwip hr le f
            (count_or_error-eq i))

    receive_round-Received :
        (again : List ℤ → List Sockaddr → Outcome ReceiveDone) (bufferlen datagram_len : ℕ)
        (results : List ℤ) (froms : List Sockaddr) (i : ℕ) (w : Wait)
        → i * datagram_len + datagram_len ≤ bufferlen
        → i < length results
        → i < length froms
        → i ≤ total
        → Filled i results froms
        → ((rs : List ℤ) (fs : List Sockaddr)
            → length rs ≡ length results
            → length fs ≡ length froms
            → Filled (suc i) rs fs
            → Sound (Received total) (again rs fs))
        → Sound
            (Received total)
            (receive_round again bufferlen datagram_len results froms i (rounds i) w)
    unfolding receive_round
    receive_round-Received again bufferlen datagram_len results froms i timed_out room hr hf le f
          k =
        stop-Received total i results froms minus_one (pos i) clear hr le f (inl refl)
    receive_round-Received again bufferlen datagram_len results froms i select_failed room hr hf le
          f k =
        stop-Received total i results froms minus_one (count_or_error i) from_lwip hr le f
          (count_or_error-eq i)
    receive_round-Received again bufferlen datagram_len results froms i go_on room hr hf le f k =
        rw inside (after_receive-Received again results froms i (rounds i).rc refl hr hf le f k)
      where
        inside : ltb bufferlen (i * datagram_len + datagram_len) ≡ false
        inside = ground arith

    receive_loop-Received :
        (timed : Bool) (bufferlen datagram_len n i : ℕ) (results : List ℤ) (froms : List Sockaddr)
        → i + n ≡ total
        → total * datagram_len ≤ bufferlen
        → total ≤ length results
        → total ≤ length froms
        → Filled i results froms
        → Sound
            (Received total)
            (receive_loop rounds timed bufferlen datagram_len n i results froms)
    unfolding receive_loop
    receive_loop-Received timed bufferlen datagram_len zero i results froms e room hr hf f =
        (i, omega arith, inl refl, f)
    receive_loop-Received timed bufferlen datagram_len (suc n) i results froms e room hr hf f =
        receive_round-Received _ bufferlen datagram_len results froms i (wait timed (rounds i))
          (slot-le i n datagram_len bufferlen (rw e room)) (omega arith) (omega arith) (omega arith)
          f
          (λ rs fs er ef f'.
            receive_loop-Received timed bufferlen datagram_len n (suc i) rs fs (omega arith) room
              (omega arith) (omega arith) f')

  receive_fits-enough :
      (b : ReceiveBuffers) (n bytes : ℕ)
      → IsBacked b
      → bytes + 64 ≤ u32_mod
      → n < 2 ^ 27
      → receive_fits b n bytes ≡ true
      → (bytes ≤ b.bufferlen) × (n ≤ length b.froms) × (n ≤ length b.results)
  unfolding receive_fits
  receive_fits-enough b n bytes v small few h =
      let pad_in = ipc_pad-le bytes small in
      let froms_in = ipc_pad-le (n * 16) (omega arith) in
      let results_in = ipc_pad-le (n * 4) (omega arith) in ground arith

  receive_checked-Received :
      (timed : Bool) (b : ReceiveBuffers) (datagram_len n : ℕ)
      → IsBacked b
      → datagram_len * n + 64 ≤ u32_mod
      → n < 2 ^ 27
      → Sound (Received n) (receive_checked rounds timed b datagram_len n)
  unfolding receive_checked
  receive_checked-Received timed b datagram_len n v small few =
      elim (Bool-cases (receive_fits b n (datagram_len * n))) [
        | inl e ↦
            let (room, froms, results) = receive_fits-enough b n (datagram_len * n) v small few e in
            rw (below, e)
              (Sound-bind _ _ (clear_results n b.results) _
                (clear_results-Sound n b.results results)
                (λ rs size.
                  receive_loop-Received n timed b.bufferlen datagram_len n 0 rs b.froms
                    (omega arith) (omega (arith, mul_comm n datagram_len)) (omega arith) froms
                    (λ j h. elim h [ ])))
        | inr e ↦ rw (below, e) tt
      ]
    where
      below : leb u32_mod (datagram_len * n) ≡ false
      below = ground arith

  -- `recvfrom_multi`, where all the datagrams take at most 2^32 - 64 bytes and `count` is below 2^27:
  -- no access leaves the title's arrays, whatever the struct's sizes and addresses, the clock and
  -- lwIP's answers are; and a result of `k` says that the first `k` entries of `results` and `froms`
  -- are those of the first `k` datagrams, while any other result is -1, with no datagram taken.
  pub recvfrom_multi-Received :
      (timeout : Option Timeval) (b : ReceiveBuffers) (datagram_len count : ℕ)
      → IsBacked b
      → datagram_len * count + 64 ≤ u32_mod
      → count < 2 ^ 27
      → Sound (Received count) (recvfrom_multi rounds timeout b (pos datagram_len) (pos count))
  unfolding recvfrom_multi
  recvfrom_multi-Received timeout b datagram_len zero v small few =
      Sound-if _ (bad_timeout timeout) refused _ tt (0, omega arith, inl refl, λ j h. elim h [ ])
  recvfrom_multi-Received timeout b datagram_len (suc n) v small few =
      Sound-if _ (bad_timeout timeout) refused _ tt (
        Sound-if _ (not (receive_aligned b)) refused _ tt
          (receive_checked-Received (is_timed timeout) b datagram_len (suc n) v small few))
