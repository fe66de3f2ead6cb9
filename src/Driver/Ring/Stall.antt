-- ===== src/Driver/Ring/Stall.antt =====
-- A slot that could not be armed again: what becomes of the ring.
use ax88179_aroma_driver.Base.{
  ℕ, ◌≤◌, ◌≡◌, ◌≢◌, refl, ap, inl, inr, Bool, true, false, not, some, List, [], ◌∷◌, arith,
  Bool-cases, le→ltb, ℤ, ltb, ◌==◌, if◌then◌else◌, ◌>>=◌,
}
use ax88179_aroma_driver.Driver.Rx.{nothing, receive_loop, receive_buffered}
use ax88179_aroma_driver.Driver.Ring.{
  idle, Ring, slot_at, Completion, callback, callbacks, not_yet, is_done, take_completed, retry,
  ensure_started, Uhs, next_aggregate, receive_parsed, after_take, after_parse, receive,
}

-- The slot to be consumed next is idle: nothing is under way that would ever complete it.
pub record IsStalled (r : Ring) : Type 0 where
  pub up : r.started ≡ true
  pub linked : r.medium ≢ 0
  pub used_up : r.rx.rx_frames ≤ r.rx.rx_next
  pub armed_not : (slot_at r r.rx_consume).state ≡ idle

callback-IsStalled : (r : Ring) (c : Completion) → IsStalled r → IsStalled (callback r c)
unfolding callback
callback-IsStalled r c s = ground arith

callbacks-IsStalled : (r : Ring) (cs : List Completion) → IsStalled r → IsStalled (callbacks r cs)
unfolding callbacks
callbacks-IsStalled r [] s = s
callbacks-IsStalled r (c ∷ cs) s = callbacks-IsStalled (callback r c) cs (callback-IsStalled r c s)

take_completed_idle :
    (rc : ℤ) (r : Ring)
    → (slot_at r r.rx_consume).state ≡ idle
    → take_completed rc r ≡ some (not_yet, r)
unfolding take_completed
take_completed_idle rc r s = rw (ap (λ x. not (is_done x)) s)

receive_parsed_used_up :
    (max_length : ℕ) (r : Ring)
    → 14 ≤ max_length
    → r.rx.rx_frames ≤ r.rx.rx_next
    → receive_parsed max_length r ≡ some (nothing, r)
unfolding receive_parsed receive_buffered receive_loop
receive_parsed_used_up max_length r room h =
    rw (le→ltb max_length 14 room) (rw (le→ltb r.rx.rx_next r.rx.rx_frames h))

after_idle : Ring → List Completion → ℕ → Ring
after_idle r wait timeout_us = if ltb 0 timeout_us then callbacks r wait else r

after_idle-IsStalled :
    (r : Ring) (wait : List Completion) (timeout_us : ℕ)
    → IsStalled r
    → IsStalled (after_idle r wait timeout_us)
unfolding after_idle
after_idle-IsStalled r wait timeout_us s = elim (Bool-cases (ltb 0 timeout_us)) [
  | inl e ↦ rw e (callbacks-IsStalled r wait s)
  | inr e ↦ rw e s
]

retry-idle :
    (rc : ℤ) (wait : List Completion) (timeout_us : ℕ) (r : Ring)
    → IsStalled r
    → retry rc wait timeout_us not_yet r ≡ some (not_yet, after_idle r wait timeout_us)
unfolding retry after_idle
retry-idle rc wait timeout_us r s = elim (Bool-cases (ltb 0 timeout_us)) [
  | inl e ↦
      rw e (take_completed_idle rc (callbacks r wait) (callbacks-IsStalled r wait s).armed_not)
  | inr e ↦ rw e
]

ensure_started_up :
    (b : Bool) (rcs : ℕ → ℤ) (r : Ring) → b ≡ true → ensure_started b rcs r ≡ (true, r)
unfolding ensure_started
ensure_started_up true rcs r e = refl
ensure_started_up false rcs r e = cc

next_aggregate-idle :
    (uhs : Uhs) (timeout_us : ℕ) (r : Ring)
    → IsStalled r
    → next_aggregate uhs timeout_us r ≡ some (not_yet, after_idle r uhs.wait timeout_us)
unfolding next_aggregate
next_aggregate-idle uhs timeout_us r s = rw (ensure_started_up r.started uhs.starts r s.up) (
    rw (take_completed_idle uhs.first r s.armed_not, ◌>>=◌)
      (retry-idle uhs.second uhs.wait timeout_us r s))

-- `ax88179_receive` on a ring whose next slot is idle, with the link up, the ring started and the
-- last aggregate used up, delivers nothing, whatever UHS answers and whatever transfers complete
-- in the wait; and it leaves such a ring, so that no later call delivers anything either.
pub receive-IsStalled :
    (uhs : Uhs) (timeout_us max_length : ℕ) (r : Ring)
    → 14 ≤ max_length
    → IsStalled r
    → (r' : Ring) × (receive uhs timeout_us max_length r ≡ some (nothing, r')) × IsStalled r'
unfolding receive after_parse after_take
receive-IsStalled uhs timeout_us max_length r room s = (
  after_idle r uhs.wait timeout_us,
  rw (le→ltb max_length 14 room) (
      rw linked (
        rw (receive_parsed_used_up max_length r room s.used_up, ◌>>=◌)
          (rw (next_aggregate-idle uhs timeout_us r s, ◌>>=◌)))),
  after_idle-IsStalled r uhs.wait timeout_us s,
)
  where
    linked : (r.medium == 0) ≡ false
    linked = ground (arith, s.linked)
