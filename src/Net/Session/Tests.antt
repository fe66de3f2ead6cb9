-- ===== src/Net/Session/Tests.antt =====
-- The theorems on the interface's state at concrete runs.
use ax88179_aroma_driver.Base.{
  arith, ◌+◌, ◌≡◌, refl, Bool, true, false, none, some, List, [], ◌∷◌, pos,
}
use ax88179_aroma_driver.Net.Session.{
  Lease, Net, Answers, Poll, start, poll, stop, is_due, setup_netif, setup_address, started,
  remove_left, stop_netif, look_up_address, forget, abandon_title, follow_link, note_link, give_up,
}
use ax88179_aroma_driver.Net.Session.Run.{Op, starts, polls, looks, stops, switches, run}
use ax88179_aroma_driver.Net.Session.Legal.{Follows, run-Follows}
use ax88179_aroma_driver.Net.Session.Held.{AllRespect, offered, last_addr, run-restores}
use ax88179_aroma_driver.Net.Session.Lost.{Reports, lost, three_fail, checked, lost-Reports}
use ax88179_aroma_driver.Net.Session.Beats.{beats, successes, run-beats}

abbrev nothing : Lease
nothing = record { ip = 0; netmask = 0; gateway = 0 }

abbrev lease : Lease
lease = record { ip = 0xc0a80107; netmask = 0xffffff00; gateway = 0xc0a80101 }

-- The module as it is loaded.
abbrev fresh : Net
fresh = record {
  initialized = false;
  active = false;
  netif_in_list = false;
  has_dhcp = false;
  last_link_up = false;
  link_errors = 0;
  last_link = 0;
  session_lease_mode = true;
  session_lease_valid = false;
  session = nothing;
  using_cached_lease = false;
}

abbrev good : Answers
good = record { link = some true; added = true; dhcp = true; now = 100 }

abbrev no_dhcp : Answers
no_dhcp = record { link = none; added = true; dhcp = false; now = 100 }

abbrev failing : Bool → Poll
failing true = record { now = 700; link = none; received = pos 0 }
failing false = record { now = 1300; link = none; received = pos 0 }

abbrev last_failing : Poll
last_failing = record { now = 4294967200; link = none; received = pos 0 }

-- An interface with its DHCP client.
abbrev running : Net
running = record fresh {
  initialized = true;
  active = true;
  netif_in_list = true;
  has_dhcp = true;
  last_link_up = true;
  last_link = 100;
}

abbrev title : List Op
title =
    starts true no_dhcp
    ∷ starts true good
    ∷ polls (failing true)
    ∷ looks (offered lease)
    ∷ stops
    ∷ starts true good
    ∷ switches (pos 0)
    ∷ starts true good
    ∷ []

run-Follows_example : Follows fresh (run title fresh)
run-Follows_example = run-Follows title fresh tt

abbrev between : List Op
between = polls (failing true) ∷ stops ∷ starts true good ∷ switches (pos 0) ∷ []

between_ends : (run (looks (offered lease) ∷ between) running).net.active ≡ false
unfolding look_up_address poll is_due stop start setup_netif setup_address started remove_left
    abandon_title forget note_link follow_link give_up
between_ends = refl

run-restores_example :
    AllRespect lease (run (looks (offered lease) ∷ between) running).calls
    × (((start true good (run (looks (offered lease) ∷ between) running).net).result ≡ pos 0)
        × (last_addr
              (start true good (run (looks (offered lease) ∷ between) running).net).calls
              none
            ≡ some lease))
run-restores_example =
    run-restores lease between running good refl refl refl (λ e. absurd (omega arith)) tt
      between_ends refl

lost-Reports_example :
    Reports
      (three_fail (checked (failing true ∷ failing false ∷ last_failing ∷ []) 100))
      (lost (failing true ∷ failing false ∷ last_failing ∷ []) running)
lost-Reports_example =
    lost-Reports (failing true ∷ failing false ∷ last_failing ∷ []) running refl refl
      (refl, (refl, (refl, tt)))

-- Three starts in one title.
abbrev recoveries : List Op
recoveries = starts true good ∷ stops ∷ starts true good ∷ stops ∷ starts true good ∷ []

run-beats_example : beats (run recoveries fresh).calls 0 ≡ 0 + successes recoveries fresh
run-beats_example = run-beats recoveries fresh 0 tt

beats-recoveries : beats (run recoveries fresh).calls 0 ≡ 3
unfolding start stop stop_netif setup_netif setup_address started remove_left
beats-recoveries = refl

loss_is_seen : three_fail (checked (failing true ∷ failing false ∷ last_failing ∷ []) 100) ≡ true
unfolding is_due
loss_is_seen = refl
