-- ===== src/Module/Titles/Tests.antt =====
-- The hooks at concrete inputs.
use ax88179_aroma_driver.Base.{ℕ, ◌≡◌, refl, arith, true, false, leb}
use ax88179_aroma_driver.Module.Titles.{
  live, Titles, Answers, application_starts, stop_after_all_application_ends, loaded,
}
use ax88179_aroma_driver.Module.Titles.Single.{
  Valid, here, next, title_starts, title_ends, Reach-Valid,
}
use ax88179_aroma_driver.Module.Titles.Late.{late-Overlaps}

abbrev created : Answers
created = record { creates_worker = true; watchdog_ended = false; creates_watchdog = true }

abbrev menu : ℕ
menu = 0x0005001010040200

abbrev in_menu : Titles
in_menu = record loaded {
  menu_seen = true;
  started = true;
  watchdog_started = true;
  worker = live;
  watchdog = live;
}

-- The loader's title, the Menu, and its end in the third check.
Reach-Valid_example : Valid (
    stop_after_all_application_ends
      (λ i. leb 2 i)
      (λ i. leb 1 i)
      (application_starts menu created (application_starts 1 created loaded)))
Reach-Valid_example = Reach-Valid (
    next (next (next here (title_starts 1 created)) (title_starts menu created))
      (title_ends (λ i. leb 2 i) (λ i. leb 1 i) 2 1 (omega arith) refl (omega arith) refl))

late-Overlaps_example :
    ((application_starts menu created
        (stop_after_all_application_ends (λ i. false) (λ i. true) in_menu)).overlapped
      ≡ true)
    × ((application_starts menu created
          (stop_after_all_application_ends (λ i. false) (λ i. true) in_menu)).stopping
        ≡ false)
late-Overlaps_example =
    late-Overlaps (λ i. false) (λ i. true) menu created in_menu refl refl refl refl (λ j l. refl)
