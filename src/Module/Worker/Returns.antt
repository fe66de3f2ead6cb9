-- ===== src/Module/Worker/Returns.antt =====
-- The worker comes to its end.
use ax88179_aroma_driver.Base.{
  ℕ, ◌≡◌, ◌≤◌, ◌<◌, arith, Bool, true, false, ◌⊎◌, inl, inr, Bool-cases, [], ℤ, eq_nat, ◌+◌,
}
use ax88179_aroma_driver.Net.Session.{poll, start}
use ax88179_aroma_driver.Net.Session.Run.{polls}
use ax88179_aroma_driver.Module.Run.{
  chain, Ends, Returns, Leaves, Returns-Ends, Returns-bind, loop-Returns,
}
use ax88179_aroma_driver.Module.Worker.{
  Config, Worker, Look, Attempt, Round, World, note, after, is_lost, log_opened, installed,
}
use ax88179_aroma_driver.Module.Worker.Orderly.{IsOrderly, IsIdle}
use ax88179_aroma_driver.Module.Worker.Ending.{run_network-Orderly}
use ax88179_aroma_driver.Module.Worker.Recover.{
  wait_healthy, with_candidate, try_adapter, attempt, retire, recover_adapter, seen, look_again,
  look_round, settle, drop_candidate,
}
use ax88179_aroma_driver.Module.Worker.Main.{
  guard_round, dhcp_seen, dhcp_polled, dhcp_round, wait_ftp, wait_next, end_ftp, show_ip, handed,
  first_handoff, install, retried, retry_ftp, recovered, retire_proxy, lose_adapter, serve,
  main_round, leave_adapter, leave_adapter_in_use, leave_net, keep_polling, set_up, with_dhcp,
  with_net, with_adapter, with_guard, run_network,
}

-- The round at which a loop ends: `stopping` is set, or the clock has passed the deadline.
abbrev pub IsLast : ℕ → Look → Type 0
IsLast deadline l = (l.stopping ≡ true) ⊎ (deadline ≤ l.now)

-- Within `fuel` attempts `stopping` is set, and each wait for an address has its last round.
abbrev pub Stops : (ℕ → ℕ) → ℕ → (ℕ → Attempt) → Type 0
Stops ticks fuel tries =
    ((i : ℕ) × (i < fuel) × ((tries i).stopping ≡ true))
    × ((i : ℕ) → (k : ℕ) × (k < fuel) × IsLast ((tries i).begun + ticks 35000) ((tries i).looks k))

look_round-Returns : (d : ℕ) (l : Look) (s : Worker) → Returns (look_round d l s)
unfolding look_round look_again seen
look_round-Returns d l s = ground arith

look_round-Leaves : (d : ℕ) (l : Look) → IsLast d l → (s : Worker) → Leaves (look_round d l s)
unfolding look_round
look_round-Leaves d l h s = ground arith

settle-Returns : (b : Bool) (s : Worker) → Returns (settle b s)
unfolding settle
settle-Returns true s = tt
settle-Returns false s = tt

module _ (ticks : ℕ → ℕ) (fuel : ℕ) where
  attempt-Returns :
      (a : Attempt) (k : ℕ)
      → k < fuel
      → IsLast (a.begun + ticks 35000) (a.looks k)
      → (s : Worker) → Returns (attempt ticks fuel a s)
  unfolding attempt try_adapter with_candidate wait_healthy drop_candidate
  attempt-Returns a k lt h s = elim (Bool-cases a.stopping) [
    | inl e ↦ rw e tt
    | inr e ↦ elim (Bool-cases a.opens) [
      | inr o ↦ rw (e, o) tt
      | inl o ↦ elim (Bool-cases (eq_nat (start true a.start s.net).result 0)) [
        | inr r ↦ rw (e, o, r) tt
        | inl r ↦
            rw (e, o, r)
              (Returns-bind _ settle
                (loop-Returns (λ j. look_round (a.begun + ticks 35000) (a.looks j)) k
                  (λ j t. look_round-Returns (a.begun + ticks 35000) (a.looks j) t)
                  (look_round-Leaves (a.begun + ticks 35000) (a.looks k) h) fuel 0 _ (omega arith)
                  (omega arith))
                settle-Returns)
      ]
    ]
  ]

  attempt-Leaves :
      (a : Attempt) → a.stopping ≡ true → (s : Worker) → Leaves (attempt ticks fuel a s)
  unfolding attempt
  attempt-Leaves a e s = rw e tt

  recover_adapter-Returns :
      (tries : ℕ → Attempt)
      → Stops ticks fuel tries
      → (s : Worker) → Returns (recover_adapter ticks fuel tries s)
  unfolding recover_adapter retire
  recover_adapter-Returns tries ((i, lt, e), looks) s =
      let rest =
        loop-Returns (λ j. attempt ticks fuel (tries j)) i
          (λ j t. let (k, less, h) = looks j in attempt-Returns (tries j) k less h t)
          (attempt-Leaves (tries i) e) fuel 0 in
      elim (Bool-cases s.has_ax) [
        | inl b ↦ rw b (rest _ (omega arith) (omega arith))
        | inr b ↦ rw b (rest _ (omega arith) (omega arith))
      ]

  module _ (c : Config) where
    serve-Returns : (r : Round) (m : ℤ) (s : Worker) → Returns (serve c ticks fuel r m s)
    unfolding serve show_ip retry_ftp retried end_ftp wait_next
    serve-Returns r m s = ground arith

    recovered-Returns :
        (r : Round) (ok : Bool) (s : Worker) → Returns (recovered c ticks fuel r ok s)
    unfolding recovered wait_ftp
    recovered-Returns r ok s = ground arith

    main_round-Returns :
        (r : Round)
        → Stops ticks fuel r.attempts
        → (s : Worker) → Returns (main_round c ticks fuel r s)
    unfolding main_round lose_adapter retire_proxy show_ip
    main_round-Returns r ends s = elim (Bool-cases r.stopping) [
      | inl e ↦ rw e tt
      | inr e ↦ elim (Bool-cases (is_lost (poll r.poll s.net).result)) [
        | inl l ↦
            rw (e, l)
              (Returns-bind _ _ (recover_adapter-Returns r.attempts ends _) (recovered-Returns r))
        | inr l ↦ rw (e, l) (serve-Returns r (poll r.poll s.net).result (after (polls r.poll) s))
      ]
    ]

    main_round-Leaves :
        (r : Round) → r.stopping ≡ true → (s : Worker) → Leaves (main_round c ticks fuel r s)
    unfolding main_round
    main_round-Leaves r e s = rw e tt

    leave-Returns :
        (x : ℤ) (b d : Bool) (s : Worker)
        → Returns (chain (λ _. leave_adapter_in_use c ticks fuel d) (leave_net c ticks fuel x b s))
    unfolding leave_adapter_in_use leave_net leave_adapter
    leave-Returns x b d s = ground arith

    first_handoff-Returns : (w : World) (s : Worker) → Returns (first_handoff c ticks w s)
    unfolding first_handoff handed wait_ftp
    first_handoff-Returns w s = ground arith

    install-Returns : (w : World) (s : Worker) → Returns (install c ticks w s)
    unfolding install
    install-Returns w s = elim (Bool-cases w.installs) [
      | inl e ↦ rw e (
          Returns-bind (first_handoff c ticks w (note (installed true) s)) _
            (first_handoff-Returns w _) (λ u t. tt))
      | inr e ↦ rw e tt
    ]

    keep_polling-Returns :
        (w : World) (j : ℕ)
        → j < fuel
        → (w.rounds j).stopping ≡ true
        → ((i : ℕ) → Stops ticks fuel (w.rounds i).attempts)
        → (s : Worker) → Returns (keep_polling c ticks fuel w s)
    unfolding keep_polling
    keep_polling-Returns w j lt e ends s =
        Returns-bind _ _
          (loop-Returns (λ i. main_round c ticks fuel (w.rounds i)) j
            (λ i t. main_round-Returns (w.rounds i) (ends i) t) (main_round-Leaves (w.rounds j) e)
            fuel 0 s (omega arith) (omega arith))
          (λ u t. leave-Returns w.shutdown w.title_ending w.title_ending _)

    dhcp_round-Returns : (d : ℕ) (l : Look) (s : Worker) → Returns (dhcp_round d l s)
    unfolding dhcp_round dhcp_polled dhcp_seen
    dhcp_round-Returns d l s = ground arith

    dhcp_round-Leaves : (d : ℕ) (l : Look) → d ≤ l.now → (s : Worker) → Leaves (dhcp_round d l s)
    unfolding dhcp_round
    dhcp_round-Leaves d l h s = ground arith

    guard_round-Returns :
        (stopping : ℕ → Bool) (j : ℕ) (s : Worker) → Returns (guard_round stopping j s)
    unfolding guard_round
    guard_round-Returns stopping j s = ground arith

    guard_round-Leaves : (stopping : ℕ → Bool) (s : Worker) → Leaves (guard_round stopping 20 s)
    unfolding guard_round
    guard_round-Leaves stopping s = tt

    module _ (w : World) (in_time : (j : ℕ) × (j < fuel) × (w.begun + ticks 30000 ≤ (w.dhcp j).now))
        (told : (j : ℕ) × (j < fuel) × ((w.rounds j).stopping ≡ true))
        (recoveries : (i : ℕ) → Stops ticks fuel (w.rounds i).attempts) where
      with_dhcp-Returns : (b : Bool) (s : Worker) → Returns (with_dhcp c ticks fuel w b s)
      unfolding with_dhcp set_up
      with_dhcp-Returns true s =
          Returns-bind _ _ (install-Returns w _)
            (λ u t. keep_polling-Returns w told.0 told.1 told.2 recoveries t)
      with_dhcp-Returns false s = tt

      with_net-Returns : (s : Worker) → Returns (with_net c ticks fuel w s)
      unfolding with_net
      with_net-Returns s =
          let (j, lt, late) = in_time in
          Returns-bind _ (with_dhcp c ticks fuel w)
            (loop-Returns (λ i. dhcp_round (w.begun + ticks 30000) (w.dhcp i)) j
              (λ i t. dhcp_round-Returns (w.begun + ticks 30000) (w.dhcp i) t)
              (dhcp_round-Leaves (w.begun + ticks 30000) (w.dhcp j) late) fuel 0 s (omega arith)
              (omega arith))
            with_dhcp-Returns

      with_adapter-Returns : (b : Bool) (s : Worker) → Returns (with_adapter c ticks fuel w b s)
      unfolding with_adapter
      with_adapter-Returns false s = tt
      with_adapter-Returns true s = elim (Bool-cases (eq_nat (start true w.start s.net).result 0)) [
        | inl e ↦ rw e (with_net-Returns _)
        | inr e ↦ rw e tt
      ]

      with_guard-Returns : (b : Bool) (s : Worker) → Returns (with_guard c ticks fuel w b s)
      unfolding with_guard
      with_guard-Returns false s = tt
      with_guard-Returns true s = with_adapter-Returns w.opens _

      run_network-Ends : (s : Worker) → Returns (run_network c ticks fuel w s)
      unfolding run_network
      run_network-Ends s =
          Returns-bind _ _
            (loop-Returns (guard_round w.stopping) 20 (guard_round-Returns w.stopping)
              (guard_round-Leaves w.stopping) 21 0 (note log_opened s) (omega arith) (omega arith))
            (λ go t. Returns-bind _ _ (with_guard-Returns go t) (λ u t'. tt))

-- The worker comes to its end, and leaves nothing in use, if within `fuel` rounds the clock passes the 30
-- seconds of DHCP, the main loop finds `stopping` set, each recovery does too, and each wait of a recovery
-- for an address finds it set or its 35 seconds over.
pub run_network-Returns :
    (c : Config) (ticks : ℕ → ℕ) (fuel : ℕ) (w : World) (s : Worker)
    → s.calls ≡ []
    → s.net.active ≡ false
    → ((j : ℕ) × (j < fuel) × (w.begun + ticks 30000 ≤ (w.dhcp j).now))
    → ((j : ℕ) × (j < fuel) × ((w.rounds j).stopping ≡ true))
    → ((i : ℕ) → Stops ticks fuel (w.rounds i).attempts)
    → Ends (λ _. ⊥) (λ _. IsIdle s.net) (run_network c ticks fuel w s)
run_network-Returns c ticks fuel w s e i in_time told recoveries =
    Returns-Ends (IsOrderly s.net) (λ _. IsIdle s.net) (run_network c ticks fuel w s)
      (run_network-Ends ticks fuel c w in_time told recoveries s)
      (run_network-Orderly c ticks fuel w s e i)
