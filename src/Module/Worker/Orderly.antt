-- ===== src/Module/Worker/Orderly.antt =====
-- The order that the driver, the interface and the shim ask of the worker's calls.
use ax88179_aroma_driver.Base.{
  ◌≡◌, refl, ◌∙◌, arith, Bool, true, false, not, ◌&&◌, Option, none, some, List, [], ◌∷◌,
  if◌then◌else◌, ℤ, eq_nat,
}
use ax88179_aroma_driver.Net.Session.{
  Net, Answers, Poll, Address, start, setup_netif, setup_address, started, poll, give_up, note_link,
  follow_link, is_due, look_up_address, stop, abandon_title,
}
use ax88179_aroma_driver.Net.Session.Run.{
  Op, starts, polls, looks, sets, stops, switches, forgets, step,
}
use ax88179_aroma_driver.Module.Worker.{
  Call, log_opened, log_closed, configured, patched, opened, closed, forced_cold, abandoned, net,
  net_abandoned, installed, handed_off, proxy_started, proxy_stopped, proxy_polled,
  accepting_stopped, drained, slept, Worker, after,
}

-- What the calls have taken and not given back, with the interface's own state.
pub record Use : Type 0 where
  pub net : Net
  pub is_patched : Bool
  pub has_adapter : Bool
  pub is_accepting : Bool
  pub has_proxy : Bool
  pub is_logging : Bool

abbrev pub guarded : Bool → Use → Option Use
guarded b u = if b then some u else none

-- An interface is started on an open adapter, once, and behind the patch; it is polled and asked for
-- its address while it runs, and not stopped under the proxy. It is never switched without an end.
abbrev pub in_order : Op → Use → Bool
in_order (starts given a) u = given && (u.has_adapter && not u.net.active)
in_order (polls p) u = u.net.active
in_order (looks a) u = u.net.active
in_order (sets b) u = true
in_order stops u = not u.has_proxy
in_order (switches r) u = false
in_order forgets u = not u.has_adapter && not u.is_accepting

-- A call in its place, and `none` for one that is not. The adapter is opened once, behind the patch,
-- and given back with no interface on it; the shim and the proxy start on an interface; descriptors are
-- drained, and the interface abandoned, with the shim and the proxy stopped.
abbrev pub place : Call → Use → Option Use
place log_opened u = some (record u { is_logging = true })
place log_closed u = some (record u { is_logging = false })
place (configured c) u = some u
place patched u = guarded (not u.has_adapter) (record u { is_patched = true })
place (opened b) u = guarded (u.is_patched && not u.has_adapter) (record u { has_adapter = b })
place closed u = guarded (u.has_adapter && not u.net.active) (record u { has_adapter = false })
place forced_cold u = guarded (not u.has_adapter) u
place abandoned u = guarded (u.has_adapter && not u.net.active) (record u { has_adapter = false })
place (net o) u = guarded (in_order o u) (record u { net = (step o u.net).net })
place (net_abandoned r) u =
    guarded (not u.is_accepting && not u.has_proxy) (record u { net = (abandon_title r u.net).net })
place (installed b) u = guarded u.net.active (record u { is_accepting = b })
place (handed_off r) u = guarded u.net.active u
place proxy_started u = guarded (u.net.active && not u.has_proxy) (record u { has_proxy = true })
place proxy_stopped u = some (record u { has_proxy = false })
place proxy_polled u = guarded u.net.active u
place accepting_stopped u = some (record u { is_accepting = false; has_proxy = false })
place drained u = guarded (not u.is_accepting && not u.has_proxy) u
place (slept ms) u = some u

abbrev pub then_place : Call → Option Use → Option Use
then_place c none = none
then_place c (some u) = place c u

-- The calls of a worker, the newest first, from a title's start.
abbrev pub placed : Net → List Call → Option Use
placed n [] = some (record {
  net = n;
  is_patched = false;
  has_adapter = false;
  is_accepting = false;
  has_proxy = false;
  is_logging = false;
})
placed n (c ∷ cs) = then_place c (placed n cs)

-- Every call so far is in its place.
abbrev pub IsOrderly : Net → Worker → Type 0
IsOrderly n s = (u : Use) × (placed n s.calls ≡ some u)

-- A point of the worker behind the patch: what is in use, and whether the interface runs.
abbrev pub At : Net → Bool → Bool → Bool → Bool → Bool → Worker → Type 0
At n adapter active accepting proxy logging s =
    (placed n s.calls
      ≡ some (record {
        net = s.net;
        is_patched = true;
        has_adapter = adapter;
        is_accepting = accepting;
        has_proxy = proxy;
        is_logging = logging;
      }))
    × (s.net.active ≡ active)

pub At-IsOrderly : (n : Net) {d i a p l : Bool} (s : Worker) → At n d i a p l s → IsOrderly n s
At-IsOrderly n s h = (_, h.0)

-- Nothing is in use, and no interface runs.
abbrev pub IsIdle : Net → Worker → Type 0
IsIdle n s =
    (b : Bool) × (placed n s.calls
      ≡ some (record {
        net = s.net;
        is_patched = b;
        has_adapter = false;
        is_accepting = false;
        has_proxy = false;
        is_logging = false;
      }))
    × (s.net.active ≡ false)

-- The result of a start says whether the interface runs.
pub start-active :
    (a : Answers) (n : Net)
    → n.active ≡ false
    → (start true a n).net.active ≡ eq_nat (start true a n).result 0
unfolding start setup_netif setup_address started
start-active a n h = ground arith

pub poll-active : (p : Poll) (n : Net) → (poll p n).net.active ≡ n.active
unfolding poll give_up note_link follow_link is_due
poll-active p n = ground arith

pub look-active : (a : Address) (n : Net) → (look_up_address a n).active ≡ n.active
unfolding look_up_address
look-active a n = ground arith

pub stop-active : (n : Net) → (stop n).net.active ≡ false
unfolding stop
stop-active n = ground arith

pub abandon-active : (r : ℤ) (n : Net) → (abandon_title r n).net.active ≡ false
unfolding abandon_title
abandon-active r n = refl

pub start-At :
    (n : Net) (ac : Bool) (pr : Bool) (lo : Bool) (a : Answers) (b : Bool) (s : Worker)
    → At n true false ac pr lo s
    → eq_nat (start true a s.net).result 0 ≡ b
    → At n true b ac pr lo (after (starts true a) s)
start-At n ac pr lo a b s h e =
    (ground (arith, start-active a s.net h.1), start-active a s.net h.1 ∙ e)
