-- ===== src/Net/Tests.antt =====
-- Runs of the network interface at concrete inputs, and the theorems at inputs that meet their
-- hypotheses.
use ax88179_aroma_driver.Base.{
  pos, ℕ, ◌+◌, ◌<◌, ◌≡◌, refl, inl, inr, Bool, true, false, Option, none, some, Bytes, List, [],
  ◌∷◌, ◌++◌, length, length-replicate, replicate, ltb, lt→ltb, if◌then◌else◌, Bool-cases,
}
use ax88179_aroma_driver.Net.Input.{Stats, Answer, poll_rx}
use ax88179_aroma_driver.Net.Input.Accounts.{Accounts, poll_rx-Accounts}
use ax88179_aroma_driver.Net.Queue.{Message, MessageQueue}
use ax88179_aroma_driver.Net.Tx.{
  tx_slots, idle, copied, find_slot, Tx, claim_at, claim, copy, posted, post, err_ok,
}
use ax88179_aroma_driver.Net.Tx.Slots.{count}
use ax88179_aroma_driver.Net.Tx.Valid.{IsValid, slot_of, waiting}
use ax88179_aroma_driver.Net.Tx.Fifo.{
  silent, accepts, Fifos, frames, Run, here, next, claims, copies, posts, Run-Fifos, Run-post,
}

abbrev list_send : Message → List Message → Bool × List Message
list_send m q = if ltb (length q) tx_slots then (true, q ++ (m ∷ [])) else (false, q)

abbrev list_receive : List Message → Option (Message × List Message)
list_receive [] = none
list_receive (m ∷ q) = some (m, q)

list_send_room : (m : Message) (q : List Message) → length q < tx_slots → (list_send m q).0 ≡ true
list_send_room m q h = rw (lt→ltb (length q) tx_slots h) refl

list_send_contents :
    (m : Message) (q : List Message) → (list_send m q).0 ≡ true → (list_send m q).1 ≡ q ++ (m ∷ [])
list_send_contents m q h = elim (Bool-cases (ltb (length q) tx_slots)) [
  | inl e ↦ rw e refl
  | inr e ↦ let gone : false ≡ true = rw e at h in absurd cc
]

list_send_full :
    (m : Message) (q : List Message) → (list_send m q).0 ≡ false → (list_send m q).1 ≡ q
list_send_full m q h = elim (Bool-cases (ltb (length q) tx_slots)) [
  | inl e ↦ let gone : true ≡ false = rw e at h in absurd cc
  | inr e ↦ rw e refl
]

list_receive-none : (q : List Message) → list_receive q ≡ none → q ≡ []
list_receive-none [] h = refl
list_receive-none (m ∷ q) h = absurd cc

list_receive-some :
    (q : List Message) (m : Message) (q' : List Message)
    → list_receive q ≡ some (m, q')
    → q ≡ m ∷ q'
list_receive-some [] m q' h = absurd cc
list_receive-some (n ∷ q) m q' h = cc

-- A queue of messages as a list.
abbrev list_queue : MessageQueue tx_slots
list_queue = record {
  Q = List Message;
  contents = λ q. q;
  send = list_send;
  receive = list_receive;
  send_room = list_send_room;
  send_contents = list_send_contents;
  send_full = list_send_full;
  receive_none = list_receive-none;
  receive_some = list_receive-some;
}

blank : Bytes
blank = replicate 1600 0

abbrev initial : Tx list_queue
initial = record {
  used = λ _. false;
  pool = λ _. blank;
  queue = [];
  producer = idle;
  consumer = none;
}

initial-IsValid : IsValid initial
unfolding blank
initial-IsValid = record {
  owned = tt;
  counted = refl;
  within = λ i h. absurd cc;
  sized = λ i. length-replicate {A = ℕ} 1600 0;
  has_copy = tt;
}

abbrev ping : Bytes
ping = 1 ∷ 2 ∷ 3 ∷ []

abbrev claimed_tx : Tx list_queue
claimed_tx = (claim ping initial).1

abbrev copied_tx : Tx list_queue
copied_tx = (copy true 0 ping claimed_tx).1

abbrev posted_tx : Tx list_queue
posted_tx = (post 0 ping copied_tx).1

copied_tx-Run : Run initial (silent ∷ silent ∷ []) copied_tx
unfolding claim claim_at find_slot copy
copied_tx-Run = next (next here (claims ping refl)) (copies true 0 ping refl)

posted_tx-Run : Run initial (accepts ping ∷ silent ∷ silent ∷ []) posted_tx
unfolding claim claim_at find_slot copy post posted
posted_tx-Run = next copied_tx-Run (posts 0 ping refl)

Run-Fifos_example : Fifos (frames initial) (accepts ping ∷ silent ∷ silent ∷ []) (frames posted_tx)
Run-Fifos_example = Run-Fifos posted_tx-Run initial-IsValid

Run-post_example :
    ((i : ℕ) (p : Bytes) → copied_tx.producer ≡ copied i p → (post i p copied_tx).0 ≡ err_ok)
    × (count tx_slots copied_tx.used
        ≡ length (slot_of copied_tx.producer) + length (waiting copied_tx))
Run-post_example = Run-post copied_tx-Run initial-IsValid

abbrev no_frames : Stats
no_frames = record { rx_ok = 0; rx_err = 0; rx_idle = 0; in_ok = 0; in_drop = 0 }

abbrev fine : Answer
fine = record { alloc = true; take = true; input = true }

abbrev refused_input : Answer
refused_input = record { alloc = true; take = true; input = false }

poll_rx-Accounts_example :
    Accounts (poll_rx (pos 60) fine ((pos 1514, refused_input) ∷ (pos 0, fine) ∷ []) no_frames)
poll_rx-Accounts_example =
    poll_rx-Accounts (pos 60) fine ((pos 1514, refused_input) ∷ (pos 0, fine) ∷ []) no_frames refl
