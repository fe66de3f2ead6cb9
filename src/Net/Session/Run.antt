-- ===== src/Net/Session/Run.antt =====
-- Sequences of the operations of net/ax_net.c on the interface, as aroma_module/main.c calls them.
use ax88179_aroma_driver.Base.{Bool, List, [], ◌∷◌, ◌++◌, ℤ, pos}
use ax88179_aroma_driver.Net.Session.{
  Net, Call, Done, Answers, Poll, Address, start, poll, look_up_address, set_lease_mode, stop,
  forget, abandon_title,
}

-- `switches` is the end of a title with its stack running, and `forgets` the start of the next one.
pub data Op : Type 0 where
  starts : Bool → Answers → Op
  polls : Poll → Op
  looks : Address → Op
  sets : Bool → Op
  stops : Op
  switches : ℤ → Op
  forgets : Op

abbrev pub quiet : Net → Done
quiet n = record { result = pos 0; calls = []; net = n }

-- The calls of one operation after those of another.
abbrev pub after : List Call → Done → Done
after cs d = record d { calls = cs ++ d.calls }

abbrev pub step : Op → Net → Done
step (starts given a) n = start given a n
step (polls p) n = poll p n
step (looks a) n = quiet (look_up_address a n)
step (sets b) n = quiet (set_lease_mode b n)
step stops n = stop n
step (switches r) n = after (abandon_title r n).calls (forget (abandon_title r n).net)
step forgets n = forget n

abbrev pub run : List Op → Net → Done
run [] n = quiet n
run (o ∷ os) n = after (step o n).calls (run os (step o n).net)
