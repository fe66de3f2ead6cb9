-- ===== src/Module/Worker/Tests.antt =====
-- The worker at concrete inputs.
use ax88179_aroma_driver.Base.{
  ℕ, refl, arith, true, false, none, some, inr, [], pos, negsuc, leb, ◌==◌, ◌*◌,
}
use ax88179_aroma_driver.Net.Session.{Net, Answers, Poll, Address}
use ax88179_aroma_driver.Module.Run.{Ends}
use ax88179_aroma_driver.Module.Worker.{Config, Worker, Look, Attempt, Round, World}
use ax88179_aroma_driver.Module.Worker.Main.{run_network}
use ax88179_aroma_driver.Module.Worker.Orderly.{IsOrderly, IsIdle}
use ax88179_aroma_driver.Module.Worker.Ending.{run_network-Orderly}
use ax88179_aroma_driver.Module.Worker.Returns.{run_network-Returns}

abbrev settings : Config
settings = record {
  keep_first = true;
  shim_trace = 0;
  system_dns = false;
  force_native = false;
  nssl_bridge = false;
  ftp_handoff = true;
  wiiload_proxy = true;
}

abbrev net_off : Net
net_off = record {
  initialized = false;
  active = false;
  netif_in_list = false;
  has_dhcp = false;
  last_link_up = false;
  link_errors = 0;
  last_link = 0;
  session_lease_mode = false;
  session_lease_valid = false;
  session = record { ip = 0; netmask = 0; gateway = 0 };
  using_cached_lease = false;
}

abbrev fresh_worker : Worker
fresh_worker = record {
  net = net_off;
  has_ax = false;
  ftp_handoff_pending = false;
  ftp_handoff_next = 0;
  ftp_handoff_deadline = 0;
  previous_ip = none;
  calls = [];
}

abbrev link_start : Answers
link_start = record { link = some true; added = true; dhcp = true; now = 0 }

-- A look at the link each second fails from the first round of the main loop on.
abbrev poll_at : ℕ → Poll
poll_at j = record { now = 1000 * j; link = none; received = pos 0 }

abbrev address : Address
address = record {
  link_up = true;
  lease = record { ip = 7; netmask = 0; gateway = 0 };
  from_dhcp = true;
}

abbrev look_at : ℕ → Look
look_at k = record {
  stopping = false;
  now = 35000 * k;
  poll = record { now = 0; link = none; received = pos 0 };
  address = address;
  later = 100;
}

-- The adapter comes back at the second attempt.
abbrev attempt_at : ℕ → Attempt
attempt_at i = record {
  stopping = leb 3 i;
  opens = i == 1;
  start = link_start;
  begun = 0;
  looks = look_at;
}

abbrev round_at : ℕ → Round
round_at j = record {
  stopping = leb 5 j;
  poll = poll_at j;
  attempts = attempt_at;
  now = 300 * j;
  handoff = negsuc 0;
  address = address;
  exits = false;
}

abbrev world : World
world = record {
  stopping = λ j. false;
  opens = true;
  start = link_start;
  begun = 0;
  dhcp = look_at;
  installs = true;
  handoff = pos 0;
  now = 0;
  rounds = round_at;
  shutdown = pos 0;
  title_ending = true;
}

run_network-Orderly_example :
    Ends
      (IsOrderly net_off)
      (λ _. IsIdle net_off)
      (run_network settings (λ ms. ms) 8 world fresh_worker)
run_network-Orderly_example = run_network-Orderly settings (λ ms. ms) 8 world fresh_worker refl refl

run_network-Returns_example :
    Ends (λ _. ⊥) (λ _. IsIdle net_off) (run_network settings (λ ms. ms) 8 world fresh_worker)
run_network-Returns_example =
    run_network-Returns settings (λ ms. ms) 8 world fresh_worker refl refl
      (1, omega arith, omega arith) (5, omega arith, refl)
      (λ i. ((3, omega arith, refl), λ k. (1, omega arith, inr (omega arith))))
