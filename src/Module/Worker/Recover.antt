-- ===== src/Module/Worker/Recover.antt =====
-- aroma_module/main.c: `recover_adapter`, after the adapter has been unplugged.
use ax88179_aroma_driver.Base.{
  ℕ, ◌+◌, Bool, true, false, not, ◌||◌, Option, none, some, ltb, eq_nat, if◌then◌else◌, ℤ,
}
use ax88179_aroma_driver.Net.Session.Run.{starts, polls, stops}
use ax88179_aroma_driver.Module.Run.{◌>>=◌, ◌>>◌, pure, loop}
use ax88179_aroma_driver.Module.Worker.{
  M, log_opened, log_closed, opened, closed, forced_cold, slept, call, call_net, do_net,
  call_address, set_ax, Look, Attempt, is_lost,
}

-- The round of the inner loop behind the poll: an address makes the new adapter the worker's.
unfoldable pub seen : Option ℕ → M (Option Bool)
seen (some ip) = do set_ax true; call log_opened; pure (some true)
seen none = do call (slept 20); pure none

unfoldable pub look_again : Look → Bool → M (Option Bool)
unfolding seen
look_again l true = pure (some false)
look_again l false = do ip ← call_address l.address; seen ip

-- A round of the inner loop; its result is `healthy`.
unfoldable pub look_round : ℕ → Look → M (Option Bool)
unfolding look_again
look_round deadline l =
    if l.stopping || not (ltb l.now deadline)
    then pure (some false)
    else do n ← call_net (polls l.poll); look_again l (is_lost n)

-- The end of an attempt with the interface started.
unfoldable pub settle : Bool → M (Option Bool)
settle true = pure (some true)
settle false = do do_net stops; call closed; call forced_cold; pure none

-- The end of an attempt whose `ax_net_start` has failed.
unfoldable pub drop_candidate : M (Option Bool)
drop_candidate = do call closed; call forced_cold; pure none

module _ (ticks : ℕ → ℕ) (fuel : ℕ) where
  unfoldable pub wait_healthy : Attempt → M (Option Bool)
  unfolding look_round settle
  wait_healthy a = do
    healthy ← loop (λ j. look_round (a.begun + ticks 35000) (a.looks j)) fuel 0
    settle healthy

  -- An attempt, with what `ax_net_start` answers.
  unfoldable pub with_candidate : Attempt → ℤ → M (Option Bool)
  unfolding wait_healthy
  with_candidate a r = if eq_nat r 0 then wait_healthy a else drop_candidate

  unfoldable pub try_adapter : Attempt → Bool → M (Option Bool)
  unfolding with_candidate
  try_adapter a false = pure none
  try_adapter a true = do r ← call_net (starts true a.start); with_candidate a r

  -- A round of the loop; `some true` is the result 0, and `some false` is -1.
  unfoldable pub attempt : Attempt → M (Option Bool)
  unfolding try_adapter
  attempt a =
      if a.stopping
      then pure (some false)
      else do call (slept 1000); call (opened a.opens); try_adapter a a.opens

  -- `if (*current)`
  unfoldable pub retire : Bool → M (Unit {0})
  retire true = do do_net stops; call closed; set_ax false
  retire false = pure tt

  -- `recover_adapter`
  unfoldable pub recover_adapter : (ℕ → Attempt) → M Bool
  unfolding attempt retire
  recover_adapter attempts s =
      (do
        call log_closed
        retire s.has_ax
        call forced_cold
        loop (λ j. attempt (attempts j)) fuel 0)
        s
