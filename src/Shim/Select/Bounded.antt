-- ===== src/Shim/Select/Bounded.antt =====
-- The end of `select`'s loop over both stacks, by its clock.
use ax88179_aroma_driver.Base.{
  ℕ, zero, suc, arith, ◌+◌, ◌*◌, ◌/◌, ◌≤◌, ◌≡◌, refl, Bool, true, false, ◌&&◌, ◌||◌, not, Option,
  some, leb, if◌then◌else◌, ℤ, is_neg,
}
use native.Mathlib.Nat.{mul-le-mul_right, le_trans}
use ax88179_aroma_driver.Shim.Sockets.{Shim}
use ax88179_aroma_driver.Shim.Multi.Receive.{Timeval, bad_timeout}
use ax88179_aroma_driver.Shim.Select.{
  Bits, Sets, Answer, Round, Reply, amount, is_positive, restrict, lwip_select_bits, wanted,
  same_bits, any_bit, decide, poll_both, select_among, bad_nfds, select,
}

abbrev pub Returns : Option Reply → Type 0
Returns o = (r : Reply) × (o ≡ some r)

Returns-if :
    (b : Bool) (r : Reply) (o : Option Reply)
    → (b ≡ false → Returns o)
    → Returns (if b then some r else o)
Returns-if true r o h = (r, refl)
Returns-if false r o h = h refl

later : (d now : ℕ) → leb d now ≡ false → now + 1 ≤ d
later d now h = ground arith

span : (ms f per_ms : ℕ) → ms ≤ 2 * f → ms * per_ms ≤ f * (2 * per_ms)
span ms f per_ms h = le_trans (mul-le-mul_right per_ms h) (omega arith)

-- The timeout in milliseconds, as the code cuts it.
abbrev pub millis : Timeval → ℕ
millis t = amount t.sec * 1000 + amount t.usec / 1000

module _ (offset : ℕ) (rounds : ℕ → Round) (sets : Sets) (s : Shim) where
  decide-Returns :
      (d now : ℕ) (n l : Answer) (again : Option Reply)
      → (leb d now ≡ false → Returns again)
      → Returns (decide offset rounds sets s (some d) now n l again)
  unfolding decide
  decide-Returns d now n l again h = Returns-if (is_neg n.rc) _ _ (λ a.
      Returns-if (is_neg l.rc) _ _ (λ b.
        Returns-if (is_positive n.rc || is_positive l.rc) _ _ (λ c. Returns-if (leb d now) _ _ h)))

  abbrev n_answer : ℕ → Bits → ℕ → Answer
  n_answer nfds nat j = (rounds j).native (record { nfds = nfds; sets = restrict nat sets })

  abbrev l_answer : ℕ → Bits → Bits → ℕ → Answer
  l_answer nfds want nat j =
      lwip_select_bits (rounds j).lwip offset nfds (λ i. want i && not (nat i)) s.mapped_fd
        (restrict (λ i. not (nat i)) sets)

  -- The clock moves on by `gap` in each round, and `f` gaps reach the deadline.
  poll_both-Returns :
      (gap : ℕ) (nfds : ℕ) (want nat : Bits) (d : ℕ)
      → ((j : ℕ) → (rounds j).now + gap ≤ (rounds (suc j)).now)
      → (f j : ℕ) → d ≤ (rounds j).now + f * gap
      → Returns (poll_both offset rounds nfds want nat sets s (some d) (suc f) j)
  unfolding poll_both
  poll_both-Returns gap nfds want nat d moves zero j h =
      decide-Returns d (rounds j).now (n_answer nfds nat j) (l_answer nfds want nat j)
        (poll_both offset rounds nfds want nat sets s (some d) zero (suc j))
        (λ late. let l = later d (rounds j).now late in absurd (omega arith))
  poll_both-Returns gap nfds want nat d moves (suc f) j h =
      decide-Returns d (rounds j).now (n_answer nfds nat j) (l_answer nfds want nat j)
        (poll_both offset rounds nfds want nat sets s (some d) (suc f) (suc j))
        (λ late.
          let m = moves j in poll_both-Returns gap nfds want nat d moves f (suc j) (omega arith))

  select_among-Returns :
      (per_ms start nfds : ℕ) (want nat : Bits) (t : Timeval) (f : ℕ)
      → start ≤ (rounds 0).now
      → ((j : ℕ) → (rounds j).now + 2 * per_ms ≤ (rounds (suc j)).now)
      → millis t ≤ 2 * f
      → Returns (
          select_among offset rounds nfds want nat sets s
            (some (start + millis t * per_ms))
            (suc f))
  unfolding select_among
  select_among-Returns per_ms start nfds want nat t f first moves enough =
      Returns-if (same_bits 32 nat want) _ _ (λ a.
        Returns-if (same_bits 32 nat (λ i. false)) _ _ (λ b.
          let reach = span (millis t) f per_ms enough in
          poll_both-Returns (2 * per_ms) nfds want nat (start + millis t * per_ms) moves f 0
            (omega arith)))

  -- With a timeout, and a clock that starts at `start` and moves on by 2 ms or more in each round,
  -- `select` returns within one more round than half the timeout's milliseconds, whatever the stacks answer.
  pub select-Returns :
      (per_ms start : ℕ) (nfds : ℤ) (t : Timeval) (f : ℕ)
      → start ≤ (rounds 0).now
      → ((j : ℕ) → (rounds j).now + 2 * per_ms ≤ (rounds (suc j)).now)
      → millis t ≤ 2 * f
      → Returns (select offset rounds per_ms start nfds sets (some t) s (suc f))
  unfolding select
  select-Returns per_ms start nfds t f first moves enough =
      let want = wanted (amount nfds) sets in
      Returns-if (bad_nfds nfds || bad_timeout (some t)) _ _ (λ a.
        Returns-if (any_bit 32 (λ i. want i && s.ftp_restart_mask i)) _ _ (λ b.
          select_among-Returns per_ms start (amount nfds) want (λ i. want i && not (s.open_mask i))
            t f first moves enough))
