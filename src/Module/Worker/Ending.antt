-- ===== src/Module/Worker/Ending.antt =====
-- The worker's calls, from its guard to its end.
use ax88179_aroma_driver.Base.{
  ℕ, ◌≡◌, refl, arith, Bool, true, false, not, ◌&&◌, ◌⊎◌, inl, inr, Bool-cases, Option, none, some,
  [], ℤ, eq_nat, ◌+◌,
}
use ax88179_aroma_driver.Net.Session.{Net, Poll, poll, start, forget, set_lease_mode}
use ax88179_aroma_driver.Net.Session.Run.{starts, polls}
use ax88179_aroma_driver.Module.Run.{chain, loop, Ends, Rounds, Ends-weaken, Ends-bind, loop-Ends}
use ax88179_aroma_driver.Module.Worker.{
  Config, log_opened, log_closed, installed, proxy_started, accepting_stopped, Worker, Look, Round,
  World, note, after, is_lost, is_positive, when_call,
}
use ax88179_aroma_driver.Module.Worker.Orderly.{
  At, IsOrderly, IsIdle, placed, At-IsOrderly, poll-active, look-active, stop-active,
  abandon-active, start-At,
}
use ax88179_aroma_driver.Module.Worker.Recover.{recover_adapter}
use ax88179_aroma_driver.Module.Worker.Recovery.{Recovered, recover_adapter-Ends}
use ax88179_aroma_driver.Module.Worker.Main.{
  guard_round, dhcp_seen, dhcp_polled, dhcp_round, wait_ftp, wait_next, end_ftp, show_ip, handed,
  first_handoff, install, retried, retry_ftp, recovered, retire_proxy, lose_adapter, serve,
  main_round, leave_adapter, leave_adapter_in_use, leave_net, keep_polling, set_up, with_dhcp,
  with_net, with_adapter, with_guard, run_network,
}

module _ (n : Net) (c : Config) (ticks : ℕ → ℕ) where
  -- The main loop's rounds: the proxy runs only where the settings ask for it.
  abbrev IsReady : Bool → Bool → Worker → Type 0
  IsReady ac pr s =
      At n true true ac pr true s × (s.has_ax ≡ true) × ((pr && not c.wiiload_proxy) ≡ false)

  abbrev Ready : Worker → Type 0
  Ready s = (ac : Bool) × ((pr : Bool) × IsReady ac pr s)

  -- Behind the main loop, with the adapter or without one.
  abbrev Over : Worker → Type 0
  Over s =
      (d : Bool) × ((ac : Bool) × ((pr : Bool) × ((lo : Bool) × (At n d d ac pr lo s
              × (s.has_ax ≡ d)))))

  retry_ftp-Ready :
      (ac pr : Bool) (r : Round) (s : Worker)
      → IsReady ac pr s
      → Ends (λ _. ⊥) (λ _. IsReady ac pr) (retry_ftp c ticks r s)
  unfolding retry_ftp retried end_ftp wait_next
  retry_ftp-Ready ac pr r s h = ground arith

  serve-Ready :
      (fuel : ℕ) (ac pr : Bool) (r : Round) (m : ℤ) (s : Worker)
      → IsReady ac pr s
      → Ends (IsOrderly n) (Rounds (IsReady ac pr) (λ _. IsReady ac pr)) (serve c ticks fuel r m s)
  unfolding serve show_ip retry_ftp retried end_ftp wait_next
  serve-Ready fuel ac pr r m s h = ground (arith, look-active r.address s.net)

  recovered-Ready :
      (fuel : ℕ) (ac : Bool) (r : Round) (ok : Bool) (s : Worker)
      → Recovered n ac ok s
      → Ends (IsOrderly n) (Rounds Ready (λ _. Over)) (recovered c ticks fuel r ok s)
  unfolding recovered wait_ftp
  recovered-Ready fuel ac r true s h = elim (Bool-cases c.wiiload_proxy) [
    | inl e ↦ elim (Bool-cases c.ftp_handoff) [
      | inl f ↦ rw (e, f) (ac, (true, ground arith))
      | inr f ↦ rw (e, f) (ac, (true, ground arith))
    ]
    | inr e ↦ elim (Bool-cases c.ftp_handoff) [
      | inl f ↦ rw (e, f) (ac, (false, ground arith))
      | inr f ↦ rw (e, f) (ac, (false, ground arith))
    ]
  ]
  recovered-Ready fuel ac r false s h = (false, (ac, (false, (false, h))))

  retire_proxy-Ready :
      (fuel : ℕ) (ac pr : Bool) (s : Worker)
      → IsReady ac pr s
      → Ends (IsOrderly n) (λ _. IsReady ac false) (retire_proxy c ticks fuel s)
  unfolding retire_proxy show_ip
  retire_proxy-Ready fuel ac pr s h = ground arith

  lose_adapter-Ready :
      (fuel : ℕ) (ac pr : Bool) (r : Round) (s : Worker)
      → IsReady ac pr s
      → Ends (IsOrderly n) (Rounds Ready (λ _. Over)) (lose_adapter c ticks fuel r s)
  unfolding lose_adapter
  lose_adapter-Ready fuel ac pr r s h =
      Ends-bind (IsOrderly n) (λ _. IsReady ac false) (Rounds Ready (λ _. Over))
        (retire_proxy c ticks fuel s) _ (retire_proxy-Ready fuel ac pr s h)
        (λ u t k.
          Ends-bind (IsOrderly n) (Recovered n ac) (Rounds Ready (λ _. Over))
            (recover_adapter ticks fuel r.attempts t) _
            (recover_adapter-Ends n ac ticks fuel r.attempts t k.0 k.1) (recovered-Ready fuel ac r))

  IsReady-Over : (ac pr : Bool) (s : Worker) → IsReady ac pr s → Over s
  IsReady-Over ac pr s h = (true, (ac, (pr, (true, (h.0, h.1)))))

  IsReady-Rounds :
      (ac pr : Bool) (o : Option (Unit {0})) (s : Worker)
      → Rounds (IsReady ac pr) (λ _. IsReady ac pr) o s
      → Rounds Ready (λ _. Over) o s
  IsReady-Rounds ac pr none s h = (ac, (pr, h))
  IsReady-Rounds ac pr (some u) s h = IsReady-Over ac pr s h

  serve-Rounds :
      (fuel : ℕ) (ac pr : Bool) (r : Round) (m : ℤ) (s : Worker)
      → IsReady ac pr s
      → Ends (IsOrderly n) (Rounds Ready (λ _. Over)) (serve c ticks fuel r m s)
  serve-Rounds fuel ac pr r m s h =
      Ends-weaken (IsOrderly n) _ _ (serve c ticks fuel r m s) (serve-Ready fuel ac pr r m s h)
        (IsReady-Rounds ac pr)

  poll-Ready :
      (ac pr : Bool) (p : Poll) (s : Worker) → IsReady ac pr s → IsReady ac pr (after (polls p) s)
  poll-Ready ac pr p s h = ground (arith, poll-active p s.net)

  main_round-Ready :
      (fuel : ℕ) (r : Round) (s : Worker)
      → Ready s
      → Ends (IsOrderly n) (Rounds Ready (λ _. Over)) (main_round c ticks fuel r s)
  unfolding main_round
  main_round-Ready fuel r s (ac, (pr, h)) = elim (Bool-cases r.stopping) [
    | inl e ↦ rw e (IsReady-Over ac pr s h)
    | inr e ↦
        let polled = poll-Ready ac pr r.poll s h in
        elim (Bool-cases (is_lost (poll r.poll s.net).result)) [
          | inl l ↦ rw (e, l) (lose_adapter-Ready fuel ac pr r (after (polls r.poll) s) polled)
          | inr l ↦
              rw (e, l)
                (serve-Rounds fuel ac pr r (poll r.poll s.net).result (after (polls r.poll) s)
                  polled)
        ]
  ]

  leave_adapter-Idle :
      (fuel : ℕ) (ending d lo : Bool) (s : Worker)
      → At n d false false false lo s
      → s.has_ax ≡ d
      → Ends
          (IsOrderly n)
          (λ _. At n false false false false lo)
          (leave_adapter_in_use c ticks fuel ending s)
  unfolding leave_adapter_in_use leave_adapter
  leave_adapter-Idle fuel ending d lo s h k = ground arith

  leave_net-At :
      (fuel : ℕ) (x : ℤ) (ending d lo : Bool) (s : Worker)
      → At n d d false false lo s
      → s.has_ax ≡ d
      → Ends
          (IsOrderly n)
          (λ _ t. At n d false false false lo t × (t.has_ax ≡ d))
          (leave_net c ticks fuel x ending s)
  unfolding leave_net
  leave_net-At fuel x ending d lo s h k = ground (arith, stop-active s.net, abandon-active x s.net)

  -- Nothing but the log's socket is left.
  abbrev Quiet : Worker → Type 0
  Quiet t = (lo : Bool) × At n false false false false lo t

  stop-Quiet :
      (fuel : ℕ) (w : World) (s : Worker)
      → Over s
      → Ends
          (IsOrderly n)
          (λ _. Quiet)
          (chain
            (λ _. leave_adapter_in_use c ticks fuel w.title_ending)
            (leave_net c ticks fuel w.shutdown w.title_ending (note accepting_stopped s)))
  stop-Quiet fuel w s (d, (ac, (pr, (lo, (h, k))))) =
      Ends-bind (IsOrderly n) (λ _ t. At n d false false false lo t × (t.has_ax ≡ d)) (λ _. Quiet)
        (leave_net c ticks fuel w.shutdown w.title_ending (note accepting_stopped s))
        (λ _. leave_adapter_in_use c ticks fuel w.title_ending)
        (leave_net-At fuel w.shutdown w.title_ending d lo (note accepting_stopped s) (ground arith)
          k)
        (λ u t (h', k').
          Ends-weaken (IsOrderly n) (λ _. At n false false false false lo) (λ _. Quiet)
            (leave_adapter_in_use c ticks fuel w.title_ending t)
            (leave_adapter-Idle fuel w.title_ending d lo t h' k') (λ _ t' m. (lo, m)))

  keep_polling-Quiet :
      (fuel : ℕ) (w : World) (s : Worker)
      → Ready s
      → Ends (IsOrderly n) (λ _. Quiet) (keep_polling c ticks fuel w s)
  unfolding keep_polling
  keep_polling-Quiet fuel w s h =
      Ends-bind (IsOrderly n) (λ _. Over) _
        (loop (λ j. main_round c ticks fuel (w.rounds j)) fuel 0 s) _
        (loop-Ends (IsOrderly n) Ready (λ _. Over) _ (λ t k. At-IsOrderly n t k.1.1.0)
          (λ j t k. main_round-Ready fuel (w.rounds j) t k) fuel 0 s h)
        (λ u t k. stop-Quiet fuel w t k)

  -- Behind DHCP.
  abbrev IsConnected : Worker → Type 0
  IsConnected s = At n true true false false true s × (s.has_ax ≡ true)

  first_handoff-Ready :
      (ac pr : Bool) (w : World) (s : Worker)
      → IsReady ac pr s
      → Ends (IsOrderly n) (λ _. IsReady ac pr) (first_handoff c ticks w s)
  unfolding first_handoff handed wait_ftp
  first_handoff-Ready ac pr w s h = elim (Bool-cases c.ftp_handoff) [
    | inl e ↦ elim (Bool-cases (is_positive w.handoff)) [
      | inl p ↦ rw (e, p) (ground arith)
      | inr p ↦ rw (e, p) (ground arith)
    ]
    | inr e ↦ rw e h
  ]

  start_proxy-Ready :
      (ac : Bool) (s : Worker)
      → IsReady ac false s
      → Ends (IsOrderly n) (λ _. Ready) (when_call c.wiiload_proxy proxy_started s)
  start_proxy-Ready ac s h = elim (Bool-cases c.wiiload_proxy) [
    | inl e ↦ rw e (ac, (true, ground arith))
    | inr e ↦ rw e (ac, (false, ground arith))
  ]

  install-Ready :
      (w : World) (s : Worker)
      → IsConnected s
      → Ends (IsOrderly n) (λ _. Ready) (install c ticks w s)
  unfolding install
  install-Ready w s h = elim (Bool-cases w.installs) [
    | inl e ↦ rw e (
        Ends-bind (IsOrderly n) (λ _. IsReady true false) (λ _. Ready)
          (first_handoff c ticks w (note (installed true) s)) _
          (first_handoff-Ready true false w (note (installed true) s) (ground arith))
          (λ u t k. start_proxy-Ready true t k))
    | inr e ↦ rw e (false, (false, ground arith))
  ]

  with_dhcp-Quiet :
      (fuel : ℕ) (w : World) (found : Bool) (s : Worker)
      → IsConnected s
      → Ends (IsOrderly n) (λ _. Quiet) (with_dhcp c ticks fuel w found s)
  unfolding with_dhcp set_up
  with_dhcp-Quiet fuel w true s h =
      let vars = record s {
        ftp_handoff_pending = false;
        ftp_handoff_next = 0;
        ftp_handoff_deadline = 0;
        previous_ip = none;
      } in
      Ends-bind (IsOrderly n) (λ _. Ready) (λ _. Quiet) (install c ticks w vars) _
        (install-Ready w vars h) (λ u t k. keep_polling-Quiet fuel w t k)
  with_dhcp-Quiet fuel w false s h = (true, ground (arith, stop-active s.net))

  dhcp_round-Connected :
      (deadline : ℕ) (l : Look) (s : Worker)
      → IsConnected s
      → Ends (IsOrderly n) (Rounds IsConnected (λ _. IsConnected)) (dhcp_round deadline l s)
  unfolding dhcp_round dhcp_polled dhcp_seen
  dhcp_round-Connected d l s h =
      ground (arith, poll-active l.poll s.net, look-active l.address (poll l.poll s.net).net)

  with_net-Quiet :
      (fuel : ℕ) (w : World) (s : Worker)
      → IsConnected s
      → Ends (IsOrderly n) (λ _. Quiet) (with_net c ticks fuel w s)
  unfolding with_net
  with_net-Quiet fuel w s h =
      Ends-bind (IsOrderly n) (λ _. IsConnected) (λ _. Quiet)
        (loop (λ j. dhcp_round (w.begun + ticks 30000) (w.dhcp j)) fuel 0 s) _
        (loop-Ends (IsOrderly n) IsConnected (λ _. IsConnected) _ (λ t k. At-IsOrderly n t k.0)
          (λ j t k. dhcp_round-Connected (w.begun + ticks 30000) (w.dhcp j) t k) fuel 0 s h)
        (with_dhcp-Quiet fuel w)

  with_adapter-Quiet :
      (fuel : ℕ) (w : World) (found : Bool) (s : Worker)
      → At n found false false false true s
      → Ends (IsOrderly n) (λ _. Quiet) (with_adapter c ticks fuel w found s)
  unfolding with_adapter
  with_adapter-Quiet fuel w false s h = (true, h)
  with_adapter-Quiet fuel w true s h =
      let on = record s { has_ax = true } in
      elim (Bool-cases (eq_nat (start true w.start s.net).result 0)) [
        | inl e ↦ rw e (
            with_net-Quiet fuel w (after (starts true w.start) on)
              (start-At n false false true w.start true on h e, refl))
        | inr e ↦
            let failed = start-At n false false true w.start false on h e in
            rw e (true, ground arith)
      ]

  -- Before the patch.
  abbrev IsStarting : Worker → Type 0
  IsStarting s =
      (placed n s.calls
        ≡ some (record {
          net = s.net;
          is_patched = false;
          has_adapter = false;
          is_accepting = false;
          has_proxy = false;
          is_logging = true;
        }))
      × (s.net.active ≡ false)

  abbrev Finishing : Worker → Type 0
  Finishing s = IsStarting s ⊎ Quiet s

  guard_round-Starting :
      (stopping : ℕ → Bool) (j : ℕ) (s : Worker)
      → IsStarting s
      → Ends (IsOrderly n) (Rounds IsStarting (λ _. IsStarting)) (guard_round stopping j s)
  unfolding guard_round
  guard_round-Starting stopping j s h = ground arith

  with_guard-Finishing :
      (fuel : ℕ) (w : World) (go : Bool) (s : Worker)
      → IsStarting s
      → Ends (IsOrderly n) (λ _. Finishing) (with_guard c ticks fuel w go s)
  unfolding with_guard forget set_lease_mode
  with_guard-Finishing fuel w false s h = inl h
  with_guard-Finishing fuel w true s h =
      Ends-weaken (IsOrderly n) (λ _. Quiet) (λ _. Finishing) _
        (with_adapter-Quiet fuel w w.opens _ (ground arith)) (λ _ t k. inr k)

  end-IsIdle : (s : Worker) → Finishing s → IsIdle n (note log_closed s)
  end-IsIdle s (inl h) = (false, ground arith, h.1)
  end-IsIdle s (inr (lo, h)) = (true, ground arith, h.1)

  run_network-Idle :
      (fuel : ℕ) (w : World) (s : Worker)
      → s.calls ≡ []
      → s.net ≡ n
      → n.active ≡ false
      → Ends (IsOrderly n) (λ _. IsIdle n) (run_network c ticks fuel w s)
  unfolding run_network
  run_network-Idle fuel w s e k i =
      Ends-bind (IsOrderly n) (λ _. IsStarting) (λ _. IsIdle n)
        (loop (guard_round w.stopping) 21 0 (note log_opened s)) _
        (loop-Ends (IsOrderly n) IsStarting (λ _. IsStarting) _ (λ t m. (_, m.0))
          (guard_round-Starting w.stopping) 21 0 (note log_opened s) (ground arith))
        (λ go t m.
          Ends-bind (IsOrderly n) (λ _. Finishing) (λ _. IsIdle n) (with_guard c ticks fuel w go t)
            _ (with_guard-Finishing fuel w go t m) (λ u t' m'. end-IsIdle t' m'))

-- The worker, from a title's start with no interface on: at every point of its run, for any settings,
-- answers, clock and times at which it is told to stop, each of its calls so far is in its place. The
-- adapter is opened only behind the patch and while it holds none, and given back with no interface on
-- it; the interface starts only on an open adapter, and is polled only while it runs; the shim and the
-- proxy start on a running interface, and are stopped before descriptors are drained or the title's
-- stack is abandoned. If the run ends, on any path, nothing is left in use: no adapter, no interface, no
-- shim, no proxy and no socket of the log.
pub run_network-Orderly :
    (c : Config) (ticks : ℕ → ℕ) (fuel : ℕ) (w : World) (s : Worker)
    → s.calls ≡ []
    → s.net.active ≡ false
    → Ends (IsOrderly s.net) (λ _. IsIdle s.net) (run_network c ticks fuel w s)
run_network-Orderly c ticks fuel w s e i = run_network-Idle s.net c ticks fuel w s e refl i
