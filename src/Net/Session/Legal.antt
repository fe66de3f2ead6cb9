-- ===== src/Net/Session/Legal.antt =====
-- The calls of lwIP over any sequence of operations, against what lwIP asks of their order.
use ax88179_aroma_driver.Base.{
  arith, ◌≡◌, refl, ap, sym, ◌∙◌, Bool, true, false, not, ◌&&◌, Option, none, some, List, [], ◌∷◌,
  ◌++◌, ℤ, if◌then◌else◌,
}
use ax88179_aroma_driver.Net.Session.{
  Net, Call, tcpip_init, tcpip_shutdown, port_reset, netif_add, netif_set_default, netif_set_up,
  netif_set_down, netif_set_link, netif_set_addr, netif_remove, dhcp_start, dhcp_stop,
  dhcp_release_and_stop, dhcp_cleanup, beat_timeout, Done, Answers, Poll, Address, remove_left,
  setup_address, setup_netif, started, start, follow_link, note_link, give_up, is_due, poll,
  look_up_address, set_lease_mode, stop_netif, stop, forget, abandon_title,
}
use ax88179_aroma_driver.Net.Session.Run.{
  Op, starts, polls, looks, sets, stops, switches, forgets, step, run,
}

-- What lwIP keeps: its thread, the interface in its list, the DHCP client's data, and the link.
pub record Stack : Type 0 where
  pub running : Bool
  pub listed : Bool
  pub has_client : Bool
  pub shown_up : Bool

abbrev pub guarded : Bool → Stack → Option Stack
guarded b s = if b then some s else none

-- A call in its place, and `none` for one that is not: an interface is added once and removed once,
-- its DHCP client started once and freed before the interface goes, and the thread runs meanwhile.
abbrev pub answer : Call → Stack → Option Stack
answer tcpip_init s = guarded (not s.running && not s.listed) (record s { running = true })
answer tcpip_shutdown s = guarded s.running (record s { running = false })
answer port_reset s =
    some (record { running = false; listed = false; has_client = false; shown_up = false })
answer (netif_add b) s =
    guarded (s.running && (not s.listed && not s.has_client))
      (record s { listed = b; shown_up = false })
answer netif_set_default s = guarded (s.running && s.listed) s
answer netif_set_up s = guarded (s.running && s.listed) s
answer netif_set_down s = guarded (s.running && s.listed) s
answer (netif_set_link b) s = guarded (s.running && s.listed) (record s { shown_up = b })
answer (netif_set_addr l) s = guarded (s.running && (s.listed && not s.has_client)) s
answer netif_remove s =
    guarded (s.running && (s.listed && not s.has_client))
      (record s { listed = false; shown_up = false })
answer (dhcp_start b) s =
    guarded (s.running && (s.listed && not s.has_client)) (record s { has_client = true })
answer dhcp_stop s = guarded (s.running && s.has_client) s
answer dhcp_release_and_stop s = guarded (s.running && s.has_client) s
answer dhcp_cleanup s = guarded (s.running && s.has_client) (record s { has_client = false })
answer beat_timeout s = guarded s.running s

abbrev pub answer_all : List Call → Option Stack → Option Stack
answer_all cs none = none
answer_all [] (some s) = some s
answer_all (c ∷ cs) (some s) = answer_all cs (answer c s)

-- lwIP's side of the file's variables.
abbrev pub view : Net → Stack
view n = record {
  running = n.initialized;
  listed = n.netif_in_list;
  has_client = n.has_dhcp;
  shown_up = n.netif_in_list && n.last_link_up;
}

-- `active` and `netif_in_list` agree, an interface needs a stack, and a DHCP client an interface.
abbrev pub Coherent : Bool → Bool → Bool → Bool → Type 0
Coherent i false false false = Unit
Coherent true true true d = Unit
Coherent i false false true = ⊥
Coherent i false true d = ⊥
Coherent i true false d = ⊥
Coherent false true true d = ⊥

abbrev pub IsCoherent : Net → Type 0
IsCoherent n = Coherent n.initialized n.active n.netif_in_list n.has_dhcp

abbrev pub Follows : Net → Done → Type 0
Follows n d = (answer_all d.calls (some (view n)) ≡ some (view d.net)) × IsCoherent d.net

stop-Follows : (n : Net) → IsCoherent n → Follows n (stop n)
unfolding stop stop_netif
stop-Follows n h = ground arith

forget-Follows : (n : Net) → Follows n (forget n)
unfolding forget
forget-Follows n = ground arith

start-Follows : (given : Bool) (a : Answers) (n : Net) → IsCoherent n → Follows n (start given a n)
unfolding start setup_netif setup_address started remove_left
start-Follows given a n h = ground arith

poll-Follows : (p : Poll) (n : Net) → IsCoherent n → Follows n (poll p n)
unfolding poll give_up follow_link note_link is_due
poll-Follows p n h = ground arith

switch-Follows : (r : ℤ) (n : Net) → IsCoherent n → Follows n (step (switches r) n)
unfolding abandon_title forget
switch-Follows r n h = ground arith

look-Follows : (a : Address) (n : Net) → IsCoherent n → Follows n (step (looks a) n)
unfolding look_up_address
look-Follows a n h = ground arith

set-Follows : (b : Bool) (n : Net) → IsCoherent n → Follows n (step (sets b) n)
unfolding set_lease_mode
set-Follows b n h = ground arith

step-Follows : (o : Op) (n : Net) → IsCoherent n → Follows n (step o n)
step-Follows (starts given a) n h = start-Follows given a n h
step-Follows (polls p) n h = poll-Follows p n h
step-Follows (looks a) n h = look-Follows a n h
step-Follows (sets b) n h = set-Follows b n h
step-Follows stops n h = stop-Follows n h
step-Follows (switches r) n h = switch-Follows r n h
step-Follows forgets n h = forget-Follows n

answer_all-none : (cs : List Call) → answer_all cs none ≡ none
answer_all-none cs = refl

answer_all-append :
    (cs ds : List Call) (s : Option Stack)
    → answer_all (cs ++ ds) s ≡ answer_all ds (answer_all cs s)
answer_all-append [] ds none = answer_all-none ds
answer_all-append [] ds (some s) = refl
answer_all-append (c ∷ cs) ds none = sym (answer_all-none ds)
answer_all-append (c ∷ cs) ds (some s) = answer_all-append cs ds (answer c s)

-- Over any sequence of starts, polls, address look-ups, changes of the lease mode, stops and changes of
-- title, and whatever lwIP, DHCP and the adapter answer, every call of lwIP is in its place; and
-- `initialized`, `netif_in_list`, the DHCP client's data and `last_link_up` stay what lwIP has, with an
-- interface in its list exactly while `active` is set. The sequence starts in a state where `active` and
-- `netif_in_list` agree, an interface has a stack, and a DHCP client an interface.
pub run-Follows : (os : List Op) (n : Net) → IsCoherent n → Follows n (run os n)
run-Follows [] n h = (refl, h)
run-Follows (o ∷ os) n h =
    let (one, h') = step-Follows o n h in
    let (more, h'') = run-Follows os (step o n).net h' in
    (
      answer_all-append (step o n).calls (run os (step o n).net).calls (some (view n))
          ∙ (ap (answer_all (run os (step o n).net).calls) one ∙ more),
      h'',
    )
