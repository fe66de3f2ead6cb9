-- ===== src/Net/Port/Tests.antt =====
-- A wait that a message ends in its third round.
use ax88179_aroma_driver.Base.{ℕ, arith, ◌≡◌, refl, Option, none, some, ◌==◌, if◌then◌else◌}
use ax88179_aroma_driver.Net.Port.{got, wait_round, wait_loop, wait}
use ax88179_aroma_driver.Net.Port.Waits.{Ends, wait-Ends}

abbrev arrives : ℕ → Option ℕ
arrives j = if j == 2 then some 7 else none

abbrev ms : ℕ → ℕ
ms j = j

wait-Ends_example : Ends arrives ms 5 (wait 0 arrives ms 5 6)
wait-Ends_example =
    wait-Ends arrives ms 5 0 (λ e. absurd (omega arith)) (omega arith) (omega arith)
      (λ j. omega arith) (λ j. omega arith)

wait_gets : wait 0 arrives ms 5 6 ≡ some (got 7 2)
unfolding wait wait_loop wait_round
wait_gets = refl
