-- ===== src/Module/Titles/Single.antt =====
-- One worker and one watchdog at a time.
use ax88179_aroma_driver.Base.{
  ℕ, zero, suc, ◌≤◌, ◌+◌, ◌≡◌, arith, refl, inl, inr, Bool-cases, Bool, true, false, [], ◌==◌,
  ==_iff, differ,
}
use ax88179_aroma_driver.Module.Titles.{
  Thread, unused, Titles, is_terminated, is_live, seen, wait, Answers, start_watchdog, start_worker,
  application_starts, stop_watchdog, stop_after_all_application_ends, stop_worker, loaded,
}

-- A struct that is not in use.
abbrev pub IsFree : Thread → Type 0
IsFree t = is_live t ≡ false

seen-IsFree : (t : Thread) → IsFree (seen true t)
seen-IsFree t = ground arith

terminated-IsFree : (t : Thread) → is_terminated t ≡ true → IsFree t
terminated-IsFree t h = ground arith

stays-IsFree : (b : Bool) (t : Thread) → IsFree t → IsFree (seen b t)
stays-IsFree b t h = ground arith

waits-IsFree : (ends : ℕ → Bool) (n i : ℕ) (t : Thread) → IsFree t → IsFree (wait ends n i t)
unfolding wait
waits-IsFree ends zero i t h = stays-IsFree (ends i) t h
waits-IsFree ends (suc n) i t h = elim (Bool-cases (is_terminated (seen (ends i) t))) [
  | inl over ↦ rw over (stays-IsFree (ends i) t h)
  | inr on ↦ rw on (waits-IsFree ends n (suc i) (seen (ends i) t) (stays-IsFree (ends i) t h))
]

-- A thread that ends by a check of the wait is terminated behind it.
pub wait-terminated :
    (ends : ℕ → Bool) (j : ℕ)
    → ends j ≡ true
    → (n i : ℕ) (t : Thread) → i ≤ j
    → j ≤ i + n
    → is_live (wait ends n i t) ≡ false
unfolding wait
wait-terminated ends j e zero i t h k =
    let last : i ≡ j = omega arith in rw (last, e) (seen-IsFree t)
wait-terminated ends j e (suc n) i t h k = elim (Bool-cases (is_terminated (seen (ends i) t))) [
  | inl over ↦ rw over (terminated-IsFree _ over)
  | inr on ↦ elim (Bool-cases (i == j)) [
    | inl last ↦
        let same = (==_iff i j).0 last in
        rw on (waits-IsFree ends n (suc i) _ (rw (same, e) (seen-IsFree t)))
    | inr d ↦
        let other = differ i j d in
        rw on (wait-terminated ends j e n (suc i) _ (omega arith) (omega arith))
  ]
]

-- What holds between two hooks: a thread is live only while its flag is set, and none was created over a
-- live one; before the Menu nothing has been started.
pub record Valid (s : Titles) : Type 0 where
  pub worker_free : s.started ≡ false → IsFree s.worker
  pub watchdog_free : s.watchdog_started ≡ false → IsFree s.watchdog
  pub no_overlap : s.overlapped ≡ false
  pub menu_first :
      s.menu_seen ≡ false
      → (s.started ≡ false)
        × (s.watchdog_started ≡ false)
        × (s.worker ≡ unused)
        × (s.watchdog ≡ unused)
        × (s.events ≡ [])

loaded-Valid : Valid loaded
loaded-Valid = record {
  worker_free = λ h. refl;
  watchdog_free = λ h. refl;
  no_overlap = refl;
  menu_first = λ h. (refl, refl, refl, refl, refl);
}

-- The hooks of WUMS, in any order, and the ends of the threads. Each thread that is told to stop ends
-- within its wait: the worker within 200 checks, and the watchdog within 50.
pub data Step (s : Titles) : Titles → Type 0 where
  title_starts : (id : ℕ) (a : Answers) → Step s (application_starts id a s)
  title_ends :
      (w d : ℕ → Bool) (i j : ℕ)
      → i ≤ 200
      → w i ≡ true
      → j ≤ 50
      → d j ≡ true
      → Step s (stop_after_all_application_ends w d s)
  module_ends : (w : ℕ → Bool) (i : ℕ) → i ≤ 200 → w i ≡ true → Step s (stop_worker w s)
  worker_ends : Step s (record s { worker = seen true s.worker })
  watchdog_ends : Step s (record s { watchdog = seen true s.watchdog })

pub data Reach (s : Titles) : Titles → Type 0 where
  here : Reach s s
  next : {t u : Titles} → Reach s t → Step t u → Reach s u

starts-Valid : (id : ℕ) (a : Answers) (s : Titles) → Valid s → Valid (application_starts id a s)
unfolding application_starts start_worker start_watchdog
starts-Valid id a s h = record {
  worker_free = λ k. ground arith;
  watchdog_free = λ k. ground arith;
  no_overlap = ground arith;
  menu_first = λ k. ground arith;
}

ends-Valid :
    (w d : ℕ → Bool) (i j : ℕ)
    → i ≤ 200
    → w i ≡ true
    → j ≤ 50
    → d j ≡ true
    → (s : Titles) → Valid s
    → Valid (stop_after_all_application_ends w d s)
unfolding stop_after_all_application_ends stop_watchdog
ends-Valid w d i j a b c e s h =
    let worker = wait-terminated w i b 200 0 s.worker (omega arith) (omega arith) in
    let dog = wait-terminated d j e 50 0 s.watchdog (omega arith) (omega arith) in
    record {
      worker_free = λ k. ground arith;
      watchdog_free = λ k. ground arith;
      no_overlap = ground arith;
      menu_first = λ k. ground arith;
    }

module_ends-Valid :
    (w : ℕ → Bool) (i : ℕ) → i ≤ 200 → w i ≡ true → (s : Titles) → Valid s → Valid (stop_worker w s)
unfolding stop_worker
module_ends-Valid w i a b s h =
    let worker = wait-terminated w i b 200 0 s.worker (omega arith) (omega arith) in
    record {
      worker_free = λ k. ground arith;
      watchdog_free = λ k. ground arith;
      no_overlap = ground arith;
      menu_first = λ k. ground arith;
    }

Step-Valid : {s t : Titles} → Step s t → Valid s → Valid t
Step-Valid {s} (title_starts id a) h = starts-Valid id a s h
Step-Valid {s} (title_ends w d i j a b c e) h = ends-Valid w d i j a b c e s h
Step-Valid {s} (module_ends w i a b) h = module_ends-Valid w i a b s h
Step-Valid {s} worker_ends h = record {
  worker_free = λ k. seen-IsFree s.worker;
  watchdog_free = h.watchdog_free;
  no_overlap = h.no_overlap;
  menu_first = λ k. ground arith;
}
Step-Valid {s} watchdog_ends h = record {
  worker_free = h.worker_free;
  watchdog_free = λ k. seen-IsFree s.watchdog;
  no_overlap = h.no_overlap;
  menu_first = λ k. ground arith;
}

-- In every state that the hooks and the ends of the threads lead to from the module as it is loaded, if
-- each thread that an end waits for terminates within that wait: no thread has been created over a live
-- one; a thread lives only while its flag is set; and before a title of the Wii U Menu has started, no
-- thread has been created and the shim has not been called.
pub Reach-Valid : {s : Titles} → Reach loaded s → Valid s
Reach-Valid here = loaded-Valid
Reach-Valid (next r step) = Step-Valid step (Reach-Valid r)
