-- ===== src/Shim/Tests.antt =====
-- Runs of the socket calls at concrete inputs, and the theorems at inputs that meet their hypotheses.
use ax88179_aroma_driver.Base.{
  ℕ, ◌≡◌, refl, true, false, Option, none, some, List, [], ◌∷◌, arith, length, ℤ, pos, negsuc,
}
use ax88179_aroma_driver.Base.Outcome.{Sound, fault}
use ax88179_aroma_driver.Shim.Multi.{Sockaddr, SendBuffers, sendto_multi_ex}
use ax88179_aroma_driver.Shim.Multi.Send.{IsBacked as IsSendBacked, sendto_multi_ex-KeepsSize}
use ax88179_aroma_driver.Shim.Multi.Overflow.{sendto_multi_ex-past_lens}
use ax88179_aroma_driver.Shim.Multi.Receive.{Timeval, Round, ReceiveBuffers, wait, recvfrom_multi}
use ax88179_aroma_driver.Shim.Multi.Receive.Safe.{
  IsBacked as IsReceiveBacked, Received, recvfrom_multi-Received,
}
use ax88179_aroma_driver.Shim.Multi.Receive.Overflow.{recvfrom_multi-overflow}
use ax88179_aroma_driver.Shim.Sockets.{
  held, relayed, fresh_compat, Shim, Answers, socket, socket_on, place, native_open, native_close,
  lwip_open, track_fd, untrack_fd,
}
use ax88179_aroma_driver.Shim.Sockets.Calls.{bind, Address, BindAnswers, drain}
use ax88179_aroma_driver.Shim.Sockets.Titles.{
  release_fd, Peer, Bridge, relay, bridge_on, bridge_listener, bridge_ax_socket_to_nssl,
  nssl_create_connection, relay_close,
}
use ax88179_aroma_driver.Shim.Sockets.Owned.Steps.{Holds}
use ax88179_aroma_driver.Shim.Sockets.Owned.Closing.{empty-IsOwned, drain-closes_all}
use ax88179_aroma_driver.Shim.Sockets.Owned.Reach.{
  Reach, here, next, call_socket, call_bind, call_nssl, relay_ends, Reach-IsOwned,
}

abbrev target : Sockaddr
target = record { family = 2; port = 9; addr = 1 }

-- Sixteen lengths; the first is `first`, the others 0.
abbrev lens_of : ℕ → List ℤ
lens_of first =
    pos first
    ∷ pos 0
    ∷ pos 0
    ∷ pos 0
    ∷ pos 0
    ∷ pos 0
    ∷ pos 0
    ∷ pos 0
    ∷ pos 0
    ∷ pos 0
    ∷ pos 0
    ∷ pos 0
    ∷ pos 0
    ∷ pos 0
    ∷ pos 0
    ∷ pos 0
    ∷ []

-- Arrays for 16 lengths, 4 addresses and 16 results, and 64 bytes of data.
abbrev buffers : ℕ → SendBuffers
buffers first = record {
  self = 64;
  buffer = 128;
  bufferlen = 64;
  lens_at = 192;
  lens = lens_of first;
  datagram_lens_len = 64;
  dests_at = 256;
  dests = target ∷ target ∷ target ∷ target ∷ [];
  destslen = 64;
  results_at = 320;
  results = lens_of 0;
  resultslen = 64;
}

buffers-IsBacked : (first : ℕ) → IsSendBacked (buffers first)
buffers-IsBacked first = record { lens_size = refl; dests_size = refl; results_size = refl }

sendto_multi_ex-KeepsSize_example :
    Sound
      (λ d. length d.results ≡ length (buffers 10).results)
      (sendto_multi_ex (λ i at len d. pos len) (buffers 10) (pos 2))
sendto_multi_ex-KeepsSize_example =
    sendto_multi_ex-KeepsSize (λ i at len d. pos len) (buffers 10) 2 (buffers-IsBacked 10)
      (omega arith) (omega arith) (omega arith)

sendto_multi_ex-past_lens_example :
    sendto_multi_ex (λ i at len d. pos len) (buffers 10) (pos 17) ≡ fault
sendto_multi_ex-past_lens_example =
    sendto_multi_ex-past_lens (λ i at len d. pos len) (buffers 10) 16 refl tt (omega arith)
      (omega arith)

abbrev receive_buffers : ReceiveBuffers
receive_buffers = record {
  self = 64;
  buffer = 128;
  bufferlen = 64;
  froms_at = 256;
  froms = target ∷ target ∷ target ∷ target ∷ [];
  fromslen = 64;
  results_at = 320;
  results = lens_of 0;
  resultslen = 64;
}

receive_buffers-IsBacked : IsReceiveBacked receive_buffers
receive_buffers-IsBacked = record { froms_size = refl; results_size = refl }

-- Every round has a datagram of 20 bytes.
abbrev rounds : ℕ → Round
rounds i = record {
  expired = false;
  ready = pos 1;
  rc = pos 20;
  would_block = false;
  from = target;
}

abbrev second : Option Timeval
second = some (record { sec = pos 1; usec = pos 0 })

recvfrom_multi-Received_example :
    Sound (Received rounds 3) (recvfrom_multi rounds second receive_buffers (pos 20) (pos 3))
recvfrom_multi-Received_example =
    recvfrom_multi-Received rounds second receive_buffers 20 3 receive_buffers-IsBacked
      (omega arith) (omega arith)

recvfrom_multi-overflow_example :
    recvfrom_multi rounds none receive_buffers (pos 2147483647) (pos 2) ≡ fault
unfolding wait
recvfrom_multi-overflow_example =
    recvfrom_multi-overflow rounds none receive_buffers 2147483647 1 refl refl refl
      receive_buffers-IsBacked (omega arith) (omega arith) (omega arith) (omega arith) (omega arith)
      (omega arith)

-- A title that has no socket yet.
abbrev start : Shim
start = record {
  open_mask = λ _. false;
  mapped_fd = λ _. none;
  accepting_sockets = true;
  force_native = false;
  stack_ready = true;
  compat_sock = λ _. fresh_compat;
  ftp_restart_mask = λ _. false;
  ftp_native_bind_ip = 0;
  ftp_ax_redirect_active = false;
  nssl_public_mask = λ _. false;
  nssl_connection_by_fd = λ _. negsuc 0;
  ax_activity_pending = 0;
  native = λ _. false;
  lwip = λ _. false;
  fate = λ _. held;
  options = λ _. record { rcvbuf = none; sndbuf = none; broadcast = none };
}

start-Holds : Holds start
start-Holds = empty-IsOwned _ _ _ _ _ _ (λ _. refl) (λ x p q. absurd (ground arith))

-- The first descriptor of both stacks.
abbrev first_socket : Answers
first_socket = record {
  lwip_socket = pos 7;
  lwip_retry = negsuc 0;
  real_socket = pos 3;
  lwip_close = pos 0;
  real_close = pos 0;
}

abbrev opened : Shim
opened = (socket first_socket 2 1 start).2

-- The port of Wiiload goes to the native stack; the close of lwIP's socket fails.
abbrev bind_answers : BindAnswers
bind_answers = record {
  lwip_close = negsuc 0;
  lwip_bind = pos 0;
  real_bind = pos 0;
  stream = true;
  ax_ip = 5;
}

abbrev wiiload : Address
wiiload = record { given = true; len = 16; family = 2; port = 4299; ip = 0 }

abbrev bound : Shim
bound = (bind bind_answers 3 wiiload opened).2

-- `socket` gives out descriptor 3, for lwIP's socket 7, and `bind` to Wiiload's port gives it up.
socket_runs : (opened.open_mask 3 ≡ true) × (opened.mapped_fd 3 ≡ some 7)
unfolding socket socket_on place native_open lwip_open track_fd
socket_runs = (refl, refl)

opened-Reach : Reach start opened
opened-Reach = next here (call_socket first_socket 2 1 refl refl)

bound-Reach : Reach start bound
bound-Reach = next opened-Reach (call_bind bind_answers 3 wiiload)

-- The bridge of a connection of NSSL: its listener is 4 and the relay's native socket 5.
abbrev bridge : Bridge
bridge = record {
  getpeername = pos 0;
  family = 2;
  has_slot = true;
  listener = pos 4;
  inet_pton = pos 1;
  real_bind = pos 0;
  real_listen = pos 0;
  real_getsockname = pos 0;
  real_connect = pos 0;
  native_error = 0;
  accepted = pos 5;
  real_close = pos 0;
}

abbrev peer : Peer
peer = record {
  getpeername = pos 0;
  family = 2;
  real_connect = pos 0;
  native_error = 0;
  lwip_close = pos 0;
}

abbrev bridged : Shim
bridged = (nssl_create_connection true bridge peer 3 opened).1

-- The bridge gives descriptor 3 up and leaves lwIP's socket 7 to the relay.
bridge_runs :
    (bridged.open_mask 3 ≡ false)
    × (bridged.lwip 7 ≡ true)
    × (bridged.fate 7 ≡ relayed)
    × (opened.native 4 ≡ false)
    × (bridged.open_mask 5 ≡ false)
unfolding socket socket_on place native_open native_close lwip_open track_fd nssl_create_connection
    bridge_ax_socket_to_nssl bridge_listener bridge_on relay release_fd untrack_fd
bridge_runs = (refl, refl, refl, refl, refl)

opened_free : opened.native 4 ≡ false
opened_free = let (a, b, c, d, e) = bridge_runs in d

relayed_socket : bridged.fate 7 ≡ relayed
relayed_socket = let (a, b, c, d, e) = bridge_runs in c

relay_free : bridged.open_mask 5 ≡ false
relay_free = let (a, b, c, d, e) = bridge_runs in e

-- The relay ends, and its close of lwIP's socket fails.
abbrev relay_over : Shim
relay_over = relay_close (pos 0) (negsuc 0) 5 7 bridged

relay_over-Reach : Reach start relay_over
relay_over-Reach =
    next (next opened-Reach (call_nssl true bridge peer 3 opened_free))
      (relay_ends (pos 0) (negsuc 0) 5 7 relayed_socket (λ acc. relay_free))

bound-Holds : Holds bound
bound-Holds = Reach-IsOwned bound-Reach start-Holds

Reach-IsOwned_example : Holds relay_over
Reach-IsOwned_example = Reach-IsOwned relay_over-Reach start-Holds

opened-Holds : Holds opened
opened-Holds = Reach-IsOwned opened-Reach start-Holds

drain-closes_all_example :
    ((fd : ℕ) → (drain (λ _. pos 0) opened).open_mask fd ≡ false)
    × ((x : ℕ)
        → (drain (λ _. pos 0) opened).fate x ≡ held
        → (drain (λ _. pos 0) opened).lwip x ≡ false)
drain-closes_all_example = drain-closes_all (λ _. pos 0) opened opened-Holds
