-- ===== src/Net/Session/Beats.antt =====
-- The heartbeat timers: each is a `beat_timeout`, which sets itself again when it runs.
use ax88179_aroma_driver.Base.{
  ℕ, arith, suc, ◌+◌, ◌≡◌, refl, ap, ◌∙◌, Bool, List, [], ◌∷◌, ◌++◌, is_neg, if◌then◌else◌,
}
use ax88179_aroma_driver.Net.Session.{
  Net, Call, tcpip_init, tcpip_shutdown, port_reset, netif_add, netif_set_default, netif_set_up,
  netif_set_down, netif_set_link, netif_set_addr, netif_remove, dhcp_start, dhcp_stop,
  dhcp_release_and_stop, dhcp_cleanup, beat_timeout, Answers, Poll, remove_left, setup_address,
  setup_netif, started, start, follow_link, note_link, give_up, is_due, poll, stop_netif, stop,
}
use ax88179_aroma_driver.Net.Session.Run.{
  Op, starts, polls, looks, sets, stops, switches, forgets, step, run,
}

-- The timers that run after these calls; only the reset of the port drops them.
abbrev pub beats : List Call → ℕ → ℕ
beats [] k = k
beats (port_reset ∷ cs) k = beats cs 0
beats (beat_timeout ∷ cs) k = beats cs (suc k)
beats (_ ∷ cs) k = beats cs k

-- One title.
abbrev pub InTitle : List Op → Type 0
InTitle [] = Unit
InTitle (switches r ∷ os) = ⊥
InTitle (forgets ∷ os) = ⊥
InTitle (_ ∷ os) = InTitle os

-- 1 for a start that succeeds.
abbrev pub succeeds : Op → Net → ℕ
succeeds (starts given a) n = if is_neg (start given a n).result then 0 else 1
succeeds _ n = 0

abbrev pub successes : List Op → Net → ℕ
successes [] n = 0
successes (o ∷ os) n = succeeds o n + successes os (step o n).net

start-beats :
    (given : Bool) (a : Answers) (n : Net) (k : ℕ)
    → beats (start given a n).calls k ≡ k + succeeds (starts given a) n
unfolding start setup_netif setup_address started remove_left
start-beats given a n k = ground arith

poll-beats : (p : Poll) (n : Net) (k : ℕ) → beats (poll p n).calls k ≡ k
unfolding poll give_up follow_link note_link is_due
poll-beats p n k = ground arith

stop-beats : (n : Net) (k : ℕ) → beats (stop n).calls k ≡ k
unfolding stop stop_netif
stop-beats n k = ground arith

beats-append : (cs ds : List Call) (k : ℕ) → beats (cs ++ ds) k ≡ beats ds (beats cs k)
beats-append [] ds k = refl
beats-append (tcpip_init ∷ cs) ds k = beats-append cs ds k
beats-append (tcpip_shutdown ∷ cs) ds k = beats-append cs ds k
beats-append (port_reset ∷ cs) ds k = beats-append cs ds 0
beats-append (netif_add b ∷ cs) ds k = beats-append cs ds k
beats-append (netif_set_default ∷ cs) ds k = beats-append cs ds k
beats-append (netif_set_up ∷ cs) ds k = beats-append cs ds k
beats-append (netif_set_down ∷ cs) ds k = beats-append cs ds k
beats-append (netif_set_link b ∷ cs) ds k = beats-append cs ds k
beats-append (netif_set_addr l ∷ cs) ds k = beats-append cs ds k
beats-append (netif_remove ∷ cs) ds k = beats-append cs ds k
beats-append (dhcp_start b ∷ cs) ds k = beats-append cs ds k
beats-append (dhcp_stop ∷ cs) ds k = beats-append cs ds k
beats-append (dhcp_release_and_stop ∷ cs) ds k = beats-append cs ds k
beats-append (dhcp_cleanup ∷ cs) ds k = beats-append cs ds k
beats-append (beat_timeout ∷ cs) ds k = beats-append cs ds (suc k)

-- One operation within a title.
step-beats :
    (o : Op) (os : List Op) (n : Net) (k : ℕ)
    → InTitle (o ∷ os)
    → (beats (step o n).calls k ≡ k + succeeds o n) × InTitle os
step-beats (starts given a) os n k t = (start-beats given a n k, t)
step-beats (polls p) os n k t = (poll-beats p n k ∙ omega arith, t)
step-beats (looks a) os n k t = (omega arith, t)
step-beats (sets b) os n k t = (omega arith, t)
step-beats stops os n k t = (stop-beats n k ∙ omega arith, t)
step-beats (switches r) os n k t = elim t [ ]
step-beats forgets os n k t = elim t [ ]

-- Within one title, whatever lwIP and the adapter answer, each start that succeeds sets one more
-- heartbeat timer, and no operation takes one away: after any sequence of starts, polls, look-ups,
-- changes of the lease mode and stops there are as many more timers as starts that succeeded.
pub run-beats :
    (os : List Op) (n : Net) (k : ℕ) → InTitle os → beats (run os n).calls k ≡ k + successes os n
run-beats [] n k t = omega arith
run-beats (o ∷ os) n k t =
    let (one, t') = step-beats o os n k t in
    beats-append (step o n).calls (run os (step o n).net).calls k
    ∙ (ap (beats (run os (step o n).net).calls) one
        ∙ (run-beats os (step o n).net (k + succeeds o n) t' ∙ omega arith))
