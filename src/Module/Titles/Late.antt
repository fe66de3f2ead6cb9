-- ===== src/Module/Titles/Late.antt =====
-- A worker that needs longer for its end than the hook waits.
use ax88179_aroma_driver.Base.{ℕ, zero, suc, ◌≤◌, ◌+◌, ◌≡◌, arith, Bool, true, false}
use ax88179_aroma_driver.Module.Titles.{
  live, Titles, wait, Answers, start_watchdog, start_worker, application_starts, stop_watchdog,
  stop_after_all_application_ends,
}

-- No check finds the thread terminated.
wait-live :
    (ends : ℕ → Bool) (n i : ℕ) → ((j : ℕ) → j ≤ i + n → ends j ≡ false) → wait ends n i live ≡ live
unfolding wait
wait-live ends zero i h = rw (h i (omega arith))
wait-live ends (suc n) i h =
    rw (h i (omega arith)) (wait-live ends n (suc i) (λ j k. h j (omega arith)))

start_worker-Overlaps :
    (a : Answers) (s : Titles)
    → a.creates_worker ≡ true
    → s.worker ≡ live
    → ((start_worker a s).overlapped ≡ true) × ((start_worker a s).stopping ≡ false)
unfolding start_worker start_watchdog
start_worker-Overlaps a s c l = ground arith

ends-live :
    (w d : ℕ → Bool) (s : Titles)
    → s.started ≡ true
    → s.worker ≡ live
    → ((j : ℕ) → j ≤ 200 → w j ≡ false)
    → let t = stop_after_all_application_ends w d s in
      (t.worker ≡ live) × (t.started ≡ false) × (t.menu_seen ≡ s.menu_seen)
unfolding stop_after_all_application_ends stop_watchdog
ends-live w d s b l late = let still = wait-live w 200 0 late in ground arith

starts_again :
    (id : ℕ) (a : Answers) (s : Titles)
    → s.menu_seen ≡ true
    → s.started ≡ false
    → application_starts id a s ≡ start_worker a (record s { menu_seen = true })
unfolding application_starts
starts_again id a s m b = rw (m, b)

-- A worker that is not terminated at any of the 201 checks that `stop_after_all_application_ends` makes
-- in two seconds is still live behind it; the next `WUMS_APPLICATION_STARTS` for which coreinit creates
-- the thread does so over the live one, and clears `stopping`, which the old worker has not looked at.
pub late-Overlaps :
    (w d : ℕ → Bool) (id : ℕ) (a : Answers) (s : Titles)
    → s.started ≡ true
    → s.menu_seen ≡ true
    → s.worker ≡ live
    → a.creates_worker ≡ true
    → ((j : ℕ) → j ≤ 200 → w j ≡ false)
    → let t = application_starts id a (stop_after_all_application_ends w d s) in
      (t.overlapped ≡ true) × (t.stopping ≡ false)
late-Overlaps w d id a s b m l c late =
    let (still, off, same) = ends-live w d s b l late in
    rw (starts_again id a (stop_after_all_application_ends w d s) (rw same m) off)
      (start_worker-Overlaps a _ c still)
