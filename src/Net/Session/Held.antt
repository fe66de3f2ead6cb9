-- ===== src/Net/Session/Held.antt =====
-- The lease that outlives the interface.
use ax88179_aroma_driver.Base.{
  arith, ◌≡◌, ◌≢◌, refl, Bool, true, false, Option, none, some, List, [], ◌∷◌, ◌++◌, ℤ, pos,
}
use ax88179_aroma_driver.Net.Session.{
  Lease, Net, Call, netif_set_addr, dhcp_start, dhcp_release_and_stop, Done, Answers, Poll, Address,
  remove_left, setup_address, setup_netif, started, start, follow_link, note_link, give_up, is_due,
  poll, look_up_address, set_lease_mode, stop_netif, stop, forget, abandon_title,
}
use ax88179_aroma_driver.Net.Session.Run.{
  Op, starts, polls, looks, sets, stops, switches, forgets, step, run,
}

-- A call that leaves the lease with the server, and asks for no other; an address that it sets is the
-- lease's.
abbrev pub Respects : Lease → Call → Type 0
Respects l (netif_set_addr k) = k ≡ l
Respects l (dhcp_start b) = ⊥
Respects l dhcp_release_and_stop = ⊥
Respects l _ = Unit

abbrev pub AllRespect : Lease → List Call → Type 0
AllRespect l [] = Unit
AllRespect l (c ∷ cs) = Respects l c × AllRespect l cs

-- The address that the calls set last.
abbrev pub last_addr : List Call → Option Lease → Option Lease
last_addr [] l = l
last_addr (netif_set_addr k ∷ cs) l = last_addr cs (some k)
last_addr (_ ∷ cs) l = last_addr cs l

abbrev pub Holds : Lease → Net → Type 0
Holds l n = (n.session_lease_mode ≡ true) × ((n.session_lease_valid ≡ true) × (n.session ≡ l))

-- The DHCP client is stopped without a release once the lease is held.
abbrev pub IsKept : Lease → Done → Type 0
IsKept l d = AllRespect l d.calls × Holds l d.net

-- The lease mode stays on.
abbrev pub KeepsMode : List Op → Type 0
KeepsMode [] = Unit
KeepsMode (sets false ∷ os) = ⊥
KeepsMode (_ ∷ os) = KeepsMode os

start-IsKept :
    (l : Lease) (given : Bool) (a : Answers) (n : Net) → Holds l n → IsKept l (start given a n)
unfolding start setup_netif setup_address started remove_left
start-IsKept l given a n h = ground arith

poll-IsKept : (l : Lease) (p : Poll) (n : Net) → Holds l n → IsKept l (poll p n)
unfolding poll give_up follow_link note_link is_due
poll-IsKept l p n h = ground arith

stop-IsKept : (l : Lease) (n : Net) → Holds l n → IsKept l (stop n)
unfolding stop stop_netif
stop-IsKept l n h = ground arith

look-IsKept : (l : Lease) (a : Address) (n : Net) → Holds l n → IsKept l (step (looks a) n)
unfolding look_up_address
look-IsKept l a n h = ground arith

set-IsKept : (l : Lease) (n : Net) → Holds l n → IsKept l (step (sets true) n)
unfolding set_lease_mode
set-IsKept l n h = ground arith

forget-IsKept : (l : Lease) (n : Net) → Holds l n → IsKept l (forget n)
unfolding forget
forget-IsKept l n h = ground arith

switch-IsKept : (l : Lease) (r : ℤ) (n : Net) → Holds l n → IsKept l (step (switches r) n)
unfolding abandon_title forget
switch-IsKept l r n h = ground arith

AllRespect-append :
    (l : Lease) (cs ds : List Call) → AllRespect l cs → AllRespect l ds → AllRespect l (cs ++ ds)
AllRespect-append l [] ds hc hd = hd
AllRespect-append l (c ∷ cs) ds hc hd = (hc.0, AllRespect-append l cs ds hc.1 hd)

-- One operation that is not an end of the lease mode.
step-IsKept :
    (l : Lease) (o : Op) (os : List Op) (n : Net)
    → KeepsMode (o ∷ os)
    → Holds l n
    → IsKept l (step o n) × KeepsMode os
step-IsKept l (starts given a) os n k h = (start-IsKept l given a n h, k)
step-IsKept l (polls p) os n k h = (poll-IsKept l p n h, k)
step-IsKept l (looks a) os n k h = (look-IsKept l a n h, k)
step-IsKept l (sets true) os n k h = (set-IsKept l n h, k)
step-IsKept l (sets false) os n k h = elim k [ ]
step-IsKept l stops os n k h = (stop-IsKept l n h, k)
step-IsKept l (switches r) os n k h = (switch-IsKept l r n h, k)
step-IsKept l forgets os n k h = (forget-IsKept l n h, k)

run-IsKept : (l : Lease) (os : List Op) (n : Net) → KeepsMode os → Holds l n → IsKept l (run os n)
run-IsKept l [] n k h = (tt, h)
run-IsKept l (o ∷ os) n k h =
    let (one, k') = step-IsKept l o os n k h in
    let (calls, held) = run-IsKept l os (step o n).net k' one.1 in
    (AllRespect-append l (step o n).calls (run os (step o n).net).calls one.0 calls, held)

start-restores :
    (l : Lease) (a : Answers) (n : Net)
    → Holds l n
    → n.active ≡ false
    → a.added ≡ true
    → ((start true a n).result ≡ pos 0) × (last_addr (start true a n).calls none ≡ some l)
unfolding start setup_netif setup_address started remove_left
start-restores l a n h i ok = ground arith

look-Holds :
    (a : Address) (n : Net)
    → n.active ≡ true
    → n.session_lease_mode ≡ true
    → n.session_lease_valid ≡ false
    → a.link_up ≡ true
    → a.from_dhcp ≡ true
    → a.lease.ip ≢ 0
    → Holds a.lease (look_up_address a n)
unfolding look_up_address
look-Holds a n h m v u d z = ground arith

-- An address that DHCP supplied, on a link that is up.
abbrev pub offered : Lease → Address
offered l = record { link_up = true; lease = l; from_dhcp = true }

-- In the session lease mode, an address from DHCP that `ax_net_address` sees is kept: over any starts,
-- polls, look-ups, stops and changes of title behind it, with the mode left on, no call starts a DHCP
-- client, gives the lease back or sets another address; and the next start, if the interface is not
-- active and lwIP adds it, succeeds with that address.
pub run-restores :
    (l : Lease) (os : List Op) (n : Net) (a : Answers)
    → n.active ≡ true
    → n.session_lease_mode ≡ true
    → n.session_lease_valid ≡ false
    → l.ip ≢ 0
    → KeepsMode os
    → (run (looks (offered l) ∷ os) n).net.active ≡ false
    → a.added ≡ true
    → AllRespect l (run (looks (offered l) ∷ os) n).calls
      × (((start true a (run (looks (offered l) ∷ os) n).net).result ≡ pos 0)
          × (last_addr (start true a (run (looks (offered l) ∷ os) n).net).calls none ≡ some l))
run-restores l os n a act m v z k i ok =
    let held = look-Holds (offered l) n act m v refl refl z in
    let (calls, h) = run-IsKept l os _ k held in (calls, start-restores l a _ h i ok)
