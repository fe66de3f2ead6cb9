-- ===== src/Module/Watchdog/Tests.antt =====
-- The watchdog at concrete inputs.
use ax88179_aroma_driver.Base.{ℕ, ◌≡◌, refl, Bool, false, some, leb}
use ax88179_aroma_driver.Module.Watchdog.{told, last_mark, report, run_watchdog, stuck}

-- The adapter is open, and the poll loop not reached.
abbrev marks : ℕ → Bool
marks i = leb i 11

run_watchdog_runs : run_watchdog (λ i. false) marks ≡ stuck (some 11)
unfolding run_watchdog told report last_mark
run_watchdog_runs = refl
