-- ===== src/Module/Worker/Recovery.antt =====
-- What `recover_adapter` takes and gives back.
use ax88179_aroma_driver.Base.{ℕ, ◌≡◌, arith, Bool, true, false, inl, inr, Bool-cases, eq_nat, ◌+◌}
use ax88179_aroma_driver.Net.Session.{Net, start, poll}
use ax88179_aroma_driver.Net.Session.Run.{starts}
use ax88179_aroma_driver.Module.Run.{Ends, Rounds, Ends-bind, loop-Ends}
use ax88179_aroma_driver.Module.Worker.{opened, slept, Worker, Look, Attempt, note, after}
use ax88179_aroma_driver.Module.Worker.Orderly.{
  At, IsOrderly, At-IsOrderly, poll-active, look-active, stop-active, start-At,
}
use ax88179_aroma_driver.Module.Worker.Recover.{
  wait_healthy, with_candidate, try_adapter, attempt, retire, recover_adapter, seen, look_again,
  look_round, settle, drop_candidate,
}

-- `recover_adapter`, from a loss on: `ac` says whether the shim accepts.
module _ (n : Net) (ac : Bool) where
  -- The new adapter with its interface, not yet the worker's.
  abbrev Candidate : Worker → Type 0
  Candidate s = At n true true ac false false s × (s.has_ax ≡ false)

  -- No adapter.
  abbrev Bare : Worker → Type 0
  Bare s = At n false false ac false false s × (s.has_ax ≡ false)

  abbrev Healthy : Bool → Worker → Type 0
  Healthy true s = At n true true ac false true s × (s.has_ax ≡ true)
  Healthy false s = Candidate s

  abbrev pub Recovered : Bool → Worker → Type 0
  Recovered true s = At n true true ac false true s × (s.has_ax ≡ true)
  Recovered false s = Bare s

  look_round-Ends :
      (deadline : ℕ) (l : Look) (s : Worker)
      → Candidate s
      → Ends (IsOrderly n) (Rounds Candidate Healthy) (look_round deadline l s)
  unfolding look_round look_again seen
  look_round-Ends d l s h =
      ground (arith, poll-active l.poll s.net, look-active l.address (poll l.poll s.net).net)

  settle-Ends :
      (healthy : Bool) (s : Worker)
      → Healthy healthy s
      → Ends (IsOrderly n) (Rounds Bare Recovered) (settle healthy s)
  unfolding settle
  settle-Ends true s h = h
  settle-Ends false s h = ground (arith, stop-active s.net)

  module _ (ticks : ℕ → ℕ) (fuel : ℕ) where
    wait_healthy-Ends :
        (a : Attempt) (s : Worker)
        → Candidate s
        → Ends (IsOrderly n) (Rounds Bare Recovered) (wait_healthy ticks fuel a s)
    unfolding wait_healthy
    wait_healthy-Ends a s h =
        Ends-bind (IsOrderly n) Healthy (Rounds Bare Recovered) _ settle
          (loop-Ends (IsOrderly n) Candidate Healthy _ (λ t k. At-IsOrderly n t k.0)
            (λ j t k. look_round-Ends (a.begun + ticks 35000) (a.looks j) t k) fuel 0 s h)
          settle-Ends

    drop-Ends :
        (s : Worker)
        → At n true false ac false false s
        → s.has_ax ≡ false
        → Ends (IsOrderly n) (Rounds Bare Recovered) (drop_candidate s)
    unfolding drop_candidate
    drop-Ends s h k = ground arith

    try_adapter-Ends :
        (a : Attempt) (s : Worker)
        → At n true false ac false false s
        → s.has_ax ≡ false
        → Ends (IsOrderly n) (Rounds Bare Recovered) (try_adapter ticks fuel a true s)
    unfolding try_adapter with_candidate
    try_adapter-Ends a s h k = elim (Bool-cases (eq_nat (start true a.start s.net).result 0)) [
      | inl e ↦ rw e (
          wait_healthy-Ends a (after (starts true a.start) s)
            (start-At n ac false false a.start true s h e, k))
      | inr e ↦ rw e (
          drop-Ends (after (starts true a.start) s) (start-At n ac false false a.start false s h e)
            k)
    ]

    attempt-Ends :
        (a : Attempt) (s : Worker)
        → Bare s
        → Ends (IsOrderly n) (Rounds Bare Recovered) (attempt ticks fuel a s)
    unfolding attempt
    attempt-Ends a s h = elim (Bool-cases a.stopping) [
      | inl e ↦ rw e h
      | inr e ↦ elim (Bool-cases a.opens) [
        | inl o ↦
            rw (e, o)
              (try_adapter-Ends a (note (opened true) (note (slept 1000) s)) (ground arith) h.1)
        | inr o ↦ rw (e, o) (ground arith)
      ]
    ]

    pub recover_adapter-Ends :
        (tries : ℕ → Attempt) (s : Worker)
        → At n true true ac false true s
        → s.has_ax ≡ true
        → Ends (IsOrderly n) Recovered (recover_adapter ticks fuel tries s)
    unfolding recover_adapter retire
    recover_adapter-Ends tries s h k = rw k (
        loop-Ends (IsOrderly n) Bare Recovered _ (λ t b. At-IsOrderly n t b.0)
          (λ j t b. attempt-Ends (tries j) t b) fuel 0 _ (ground (arith, stop-active s.net)))
