-- ===== src/Module/Worker/Main.antt =====
-- aroma_module/main.c: `run_network`, the worker from its guard to its end.
use ax88179_aroma_driver.Base.{
  ℕ, ◌+◌, Bool, true, false, not, ◌&&◌, ◌||◌, Option, none, some, ltb, leb, eq_nat, is_neg,
  if◌then◌else◌, ℤ,
}
use ax88179_aroma_driver.Net.Session.Run.{starts, polls, sets, stops, forgets}
use ax88179_aroma_driver.Module.Run.{ended, ◌>>=◌, ◌>>◌, pure, loop}
use ax88179_aroma_driver.Module.Worker.{
  Config, M, log_opened, log_closed, configured, patched, opened, closed, abandoned, installed,
  handed_off, proxy_started, proxy_stopped, proxy_polled, accepting_stopped, drained, slept, call,
  when_call, call_net, do_net, call_address, set_ax, Look, Round, World, is_positive, is_lost,
  abandon_net, eq_ip,
}
use ax88179_aroma_driver.Module.Worker.Recover.{recover_adapter}

-- The guard before the adapter is opened, `startup_delay_ms` of 2000 in rounds of 100; the result says
-- that the worker goes on.
unfoldable pub guard_round : (ℕ → Bool) → ℕ → M (Option Bool)
guard_round stopping j =
    if leb 20 j
    then pure (some true)
    else if stopping j
    then pure (some false)
    else (do call (slept 100); pure none)

-- A round of the wait for an address, behind the poll; `dhcp_done` is the result. The loop's condition
-- ends it once that is set.
unfoldable pub dhcp_seen : ℕ → Look → Option ℕ → M (Option Bool)
dhcp_seen deadline l (some ip) = do when_call (ltb l.later deadline) (slept 100); pure (some true)
dhcp_seen deadline l none =
    if leb deadline l.later then pure (some false) else (do call (slept 100); pure none)

unfoldable pub dhcp_polled : ℕ → Look → Bool → M (Option Bool)
unfolding dhcp_seen
dhcp_polled deadline l true = dhcp_seen deadline l none
dhcp_polled deadline l false = do ip ← call_address l.address; dhcp_seen deadline l ip

unfoldable pub dhcp_round : ℕ → Look → M (Option Bool)
unfolding dhcp_polled
dhcp_round deadline l =
    if not (ltb l.now deadline)
    then pure (some false)
    else (do n ← call_net (polls l.poll); dhcp_polled deadline l (is_neg n))

-- `ftp_handoff_pending = 1`, with the next try and the end of the window.
unfoldable pub wait_ftp : ℕ → ℕ → M (Unit {0})
wait_ftp next deadline s = ended tt (record s {
  ftp_handoff_pending = true;
  ftp_handoff_next = next;
  ftp_handoff_deadline = deadline;
})

-- The next try.
unfoldable pub wait_next : ℕ → M (Unit {0})
wait_next next s = ended tt (record s { ftp_handoff_next = next })

unfoldable pub end_ftp : M (Unit {0})
end_ftp s = ended tt (record s { ftp_handoff_pending = false })

-- The loop's round behind the address: the log's socket goes over to a new one.
unfoldable pub show_ip : Option ℕ → M (Unit {0})
show_ip none s = ended tt (record s { previous_ip = none })
show_ip (some ip) s =
    if eq_ip s.previous_ip ip
    then ended tt s
    else (do call log_closed; call log_opened) (record s { previous_ip = some ip })

module _ (c : Config) (ticks : ℕ → ℕ) where
  unfoldable pub handed : World → Bool → M (Unit {0})
  unfolding wait_ftp
  handed w true = pure tt
  handed w false = wait_ftp (w.now + ticks 250) (w.now + ticks 15000)

  unfoldable pub first_handoff : World → M (Unit {0})
  unfolding handed
  first_handoff w =
      if c.ftp_handoff
      then (do call (handed_off w.handoff); handed w (is_positive w.handoff))
      else pure tt

  -- `nsysnet_shim_install` and what follows it.
  unfoldable pub install : World → M (Unit {0})
  unfolding first_handoff
  install w =
      if w.installs
      then (do call (installed true); first_handoff w; when_call c.wiiload_proxy proxy_started)
      else call (installed false)

  unfoldable pub retried : Round → Bool → M (Unit {0})
  unfolding end_ftp wait_next
  retried r true = end_ftp
  retried r false = wait_next (r.now + ticks 250)

  -- The delayed handoff in a round.
  unfoldable pub retry_ftp : Round → M (Unit {0})
  unfolding retried
  retry_ftp r s =
      if c.ftp_handoff && (s.ftp_handoff_pending && leb s.ftp_handoff_next r.now)
      then (do
        call (handed_off r.handoff)
        retried r (is_positive r.handoff || leb s.ftp_handoff_deadline r.now))
          s
      else ended tt s

  module _ (fuel : ℕ) where
    -- Behind `recover_adapter`; the result is the loop's end with `ax` null, if it has failed.
    unfoldable pub recovered : Round → Bool → M (Option (Unit {0}))
    unfolding wait_ftp
    recovered r false = pure (some tt)
    recovered r true = do
      when_call c.wiiload_proxy proxy_started
      if c.ftp_handoff then wait_ftp r.now (r.now + ticks 15000) else pure tt
      pure none

    -- The proxy's sockets are tied to the interface that goes, and so is the address.
    unfoldable pub retire_proxy : M (Unit {0})
    unfolding show_ip
    retire_proxy = do when_call c.wiiload_proxy proxy_stopped; show_ip none

    unfoldable pub lose_adapter : Round → M (Option (Unit {0}))
    unfolding retire_proxy recovered
    lose_adapter r = do retire_proxy; ok ← recover_adapter ticks fuel r.attempts; recovered r ok

    unfoldable pub serve : Round → ℤ → M (Option (Unit {0}))
    unfolding retry_ftp show_ip
    serve r n = do
      when_call c.wiiload_proxy proxy_polled
      retry_ftp r
      ip ← call_address r.address
      show_ip ip
      when_call (is_neg n) (slept 1)
      pure (if r.exits then some tt else none)

    -- A round of the main loop.
    unfoldable pub main_round : Round → M (Option (Unit {0}))
    unfolding lose_adapter serve
    main_round r =
        if r.stopping
        then pure (some tt)
        else (do n ← call_net (polls r.poll); if is_lost n then lose_adapter r else serve r n)

    -- The end behind the main loop.
    unfoldable pub leave_adapter : Bool → Bool → M (Unit {0})
    leave_adapter true true = do call abandoned; set_ax false
    leave_adapter true false = do call closed; set_ax false
    leave_adapter false ending = pure tt

    unfoldable pub leave_net : ℤ → Bool → M (Unit {0})
    leave_net r true = abandon_net r
    leave_net r false = do call drained; do_net stops; pure tt

    unfoldable pub leave_adapter_in_use : Bool → M (Unit {0})
    unfolding leave_adapter
    leave_adapter_in_use ending s = leave_adapter s.has_ax ending s

    -- From the main loop on; the label `cleanup` is in `run_network`.
    unfoldable pub keep_polling : World → M (Unit {0})
    unfolding main_round leave_net leave_adapter_in_use
    keep_polling w = do
      loop (λ j. main_round (w.rounds j)) fuel 0
      call accepting_stopped
      leave_net w.shutdown w.title_ending
      leave_adapter_in_use w.title_ending

    -- The variables of the main loop.
    unfoldable pub set_up : M (Unit {0})
    set_up s = ended tt (record s {
      ftp_handoff_pending = false;
      ftp_handoff_next = 0;
      ftp_handoff_deadline = 0;
      previous_ip = none;
    })

    -- With an address, or without one in time.
    unfoldable pub with_dhcp : World → Bool → M (Unit {0})
    unfolding set_up install keep_polling
    with_dhcp w true = do set_up; install w; keep_polling w
    with_dhcp w false = do do_net stops; call closed

    unfoldable pub with_net : World → M (Unit {0})
    unfolding dhcp_round with_dhcp
    with_net w = do
      done ← loop (λ j. dhcp_round (w.begun + ticks 30000) (w.dhcp j)) fuel 0
      with_dhcp w done

    unfoldable pub with_adapter : World → Bool → M (Unit {0})
    unfolding with_net
    with_adapter w false = pure tt
    with_adapter w true = do
      set_ax true
      r ← call_net (starts true w.start)
      if eq_nat r 0 then with_net w else call closed

    unfoldable pub with_guard : World → Bool → M (Unit {0})
    unfolding with_adapter
    with_guard w false = pure tt
    with_guard w true = do
      call (configured c)
      do_net (sets c.keep_first)
      do_net forgets
      call patched
      call (opened w.opens)
      with_adapter w w.opens

    -- `run_network`
    unfoldable pub run_network : World → M (Unit {0})
    unfolding guard_round with_guard
    run_network w = do
      call log_opened
      go ← loop (guard_round w.stopping) 21 0
      with_guard w go
      call log_closed
