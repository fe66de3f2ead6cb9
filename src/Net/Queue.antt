-- ===== src/Net/Queue.antt =====
-- coreinit's message queue as net/ax_net.c uses it: `OSInitMessageQueue`, and `OSSendMessage` and
-- `OSReceiveMessage` without blocking.
use ax88179_aroma_driver.Base.{
  ℕ, ◌<◌, ◌≡◌, Bool, true, false, Option, none, some, List, [], ◌∷◌, ◌++◌, length,
}

-- What a message says: the slot of the frame and its length.
pub record Message : Type 0 where
  pub slot : ℕ
  pub len : ℕ

-- A queue keeps the order of the messages, takes one unless it is full, and gives the first one.
pub record MessageQueue (capacity : ℕ) : Type 1 where
  pub Q : Type 0
  pub contents : Q → List Message
  pub send : Message → Q → Bool × Q
  pub receive : Q → Option (Message × Q)
  pub send_room : (m : Message) (q : Q) → length (contents q) < capacity → (send m q).0 ≡ true
  pub send_contents :
      (m : Message) (q : Q) → (send m q).0 ≡ true → contents (send m q).1 ≡ contents q ++ (m ∷ [])
  pub send_full : (m : Message) (q : Q) → (send m q).0 ≡ false → contents (send m q).1 ≡ contents q
  pub receive_none : (q : Q) → receive q ≡ none → contents q ≡ []
  pub receive_some :
      (q : Q) (m : Message) (q' : Q) → receive q ≡ some (m, q') → contents q ≡ m ∷ contents q'
