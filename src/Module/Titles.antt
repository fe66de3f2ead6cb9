-- ===== src/Module/Titles.antt =====
-- aroma_module/main.c: the hooks that WUMS calls at the start and the end of a title, and the two threads
-- that they create and wait for. What coreinit answers is an argument: whether a thread is created, and
-- whether it has ended at each of the checks. The settings of the file on the SD card, the names of the
-- threads and the log are left out.
pub mod Single
pub mod Late
mod Tests
use ax88179_aroma_driver.Base.{
  ℕ, zero, suc, Bool, true, false, not, ◌&&◌, ◌||◌, List, [], ◌∷◌, ◌==◌, if◌then◌else◌,
}

-- A thread's struct: not created yet, in use, or terminated.
pub data Thread : Type 0 where
  unused : Thread
  live : Thread
  terminated : Thread

-- What the hooks do to others: the shim's `nsysnet_shim_begin_title` and `nsysnet_shim_quiesce`, and
-- `OSJoinThread`.
pub data Event : Type 0 where
  title_begun : Event
  quiesced : Event
  worker_joined : Event
  watchdog_joined : Event

-- The file's variables, the structs of both threads, and whether one has been created over a live one.
pub record Titles : Type 0 where
  pub menu_seen : Bool
  pub started : Bool
  pub watchdog_started : Bool
  pub stopping : Bool
  pub title_ending : Bool
  pub worker : Thread
  pub watchdog : Thread
  pub overlapped : Bool
  pub events : List Event

-- `OSIsThreadTerminated`
abbrev pub is_terminated : Thread → Bool
is_terminated unused = false
is_terminated live = false
is_terminated terminated = true

abbrev pub is_live : Thread → Bool
is_live unused = false
is_live live = true
is_live terminated = false

-- The struct at a check, where the thread may have ended since the last one.
abbrev pub seen : Bool → Thread → Thread
seen b unused = unused
seen b live = if b then terminated else live
seen b terminated = terminated

-- The loop that waits for a thread, with `n` checks from check `i` on, and the check behind it.
unfoldable pub wait : (ℕ → Bool) → ℕ → ℕ → Thread → Thread
wait ends zero i t = seen (ends i) t
wait ends (suc n) i t =
    let now = seen (ends i) t in
    let rest = wait ends n (suc i) now in if is_terminated now then now else rest

-- The titles of the Wii U Menu.
unfoldable pub is_wiiu_menu_title : ℕ → Bool
is_wiiu_menu_title id =
    id == 0x0005001010040000 || (id == 0x0005001010040100 || id == 0x0005001010040200)

-- What `OSCreateThread` answers for both threads, and whether the watchdog has ended before.
pub record Answers : Type 0 where
  pub creates_worker : Bool
  pub watchdog_ended : Bool
  pub creates_watchdog : Bool

-- The watchdog's part of a start: its struct is used again only where it is free.
unfoldable pub start_watchdog : Answers → Titles → Titles
start_watchdog a s =
    let dog = seen a.watchdog_ended s.watchdog in
    if (not s.watchdog_started || is_terminated dog) && a.creates_watchdog
    then record s {
      watchdog_started = true;
      watchdog = live;
      overlapped = s.overlapped || is_live dog;
    }
    else record s { watchdog = dog }

-- `WUMS_APPLICATION_STARTS` behind its guards.
unfoldable pub start_worker : Answers → Titles → Titles
unfolding start_watchdog
start_worker a s =
    let begun = record s {
      title_ending = false;
      stopping = false;
      events = title_begun ∷ s.events;
    } in
    if a.creates_worker
    then start_watchdog a (record begun {
      started = true;
      worker = live;
      overlapped = s.overlapped || is_live s.worker;
    })
    else begun

-- `WUMS_APPLICATION_STARTS`
unfoldable pub application_starts : ℕ → Answers → Titles → Titles
unfolding start_worker
application_starts title_id a s =
    if not s.menu_seen && not (is_wiiu_menu_title title_id)
    then s
    else if s.started
    then record s { menu_seen = true }
    else start_worker a (record s { menu_seen = true })

-- The watchdog's part of an end.
unfoldable pub stop_watchdog : (ℕ → Bool) → Titles → Titles
stop_watchdog ends s =
    if s.watchdog_started
    then (let dog = wait ends 50 0 s.watchdog in
        record s {
          watchdog = dog;
          watchdog_started = false;
          events = if is_terminated dog then watchdog_joined ∷ s.events else s.events;
        })
    else s

-- `stop_after_all_application_ends`
unfoldable pub stop_after_all_application_ends : (ℕ → Bool) → (ℕ → Bool) → Titles → Titles
unfolding stop_watchdog
stop_after_all_application_ends worker_ends dog_ends s =
    if not s.started
    then s
    else (let thread = wait worker_ends 200 0 s.worker in
        let s' = stop_watchdog dog_ends (record s {
          title_ending = true;
          stopping = true;
          worker = thread;
          events = if is_terminated thread then worker_joined ∷ s.events else s.events;
        }) in
        record s' { started = false })

-- `stop_worker`
unfoldable pub stop_worker : (ℕ → Bool) → Titles → Titles
stop_worker worker_ends s =
    if not s.started
    then s
    else (let thread = wait worker_ends 200 0 s.worker in
        record s {
          stopping = true;
          worker = thread;
          started = false;
          events =
              if is_terminated thread
              then worker_joined ∷ quiesced ∷ s.events
              else quiesced ∷ s.events;
        })

-- The module as it is loaded.
abbrev pub loaded : Titles
loaded = record {
  menu_seen = false;
  started = false;
  watchdog_started = false;
  stopping = false;
  title_ending = false;
  worker = unused;
  watchdog = unused;
  overlapped = false;
  events = [];
}
