-- ===== src/Net/Tx.antt =====
-- net/ax_net.c: the transmit slots, `send_frame` on lwIP's thread and `drain_tx` on the worker. Each
-- access to the slots, to the queue and to the driver is a step of its own, but for the search for a free
-- slot, which is one. lwIP's core lock lets one `send_frame` run at a time.
pub mod Slots
pub mod Valid
pub mod Fifo
use ax88179_aroma_driver.Base.{
  ℕ, zero, suc, ◌+◌, ◌≤◌, ◌<◌, ◌≡◌, Bool, true, false, Option, none, some, Bytes, List, [], ◌∷◌,
  ◌++◌, length, map, ltb, ◌==◌, if◌then◌else◌, overwrite, take,
}
use ax88179_aroma_driver.Net.Queue.{Message, MessageQueue}

abbrev pub tx_slots : ℕ
tx_slots = 32

abbrev pub frame_max : ℕ
frame_max = 1600

-- Where `send_frame` stands: it has claimed a slot for a frame, or copied it as well.
pub data Producer : Type 0 where
  idle : Producer
  claimed : ℕ → Bytes → Producer
  copied : ℕ → Bytes → Producer

abbrev pub update {ℓ} : {A : Type ℓ} → (ℕ → A) → ℕ → A → ℕ → A
update f i a j = if i == j then a else f j

-- The loop over the slots: the first that is not in use, from slot `i` on with `n` to go.
unfoldable pub find_slot : ℕ → ℕ → (ℕ → Bool) → Option ℕ
find_slot zero i used = none
find_slot (suc n) i used = let rest = find_slot n (suc i) used in if used i then rest else some i

-- The result of `send_frame`, once it is there.
pub data Sent : Type 0 where
  not_yet : Sent
  err_ok : Sent
  err_buf : Sent
  err_mem : Sent

abbrev pub message : ℕ → Bytes → Message
message i p = record { slot = i; len = length p }

-- The frame that `ax88179_send` gets for a message.
abbrev pub frame : (ℕ → Bytes) → Message → Bytes
frame pool m = take m.len (pool m.slot)

module _ (mq : MessageQueue tx_slots) where
  -- `tx_in_use`, `tx_pool` and `tx_queue`, with what the two threads hold.
  pub record Tx : Type 0 where
    pub used : ℕ → Bool
    pub pool : ℕ → Bytes
    pub queue : mq.Q
    pub producer : Producer
    pub consumer : Option Message

module _ {mq : MessageQueue tx_slots} where
  abbrev pub free : ℕ → Tx mq → Tx mq
  free i s = record s { used = update s.used i false; producer = idle }

  unfoldable pub claim_at : Bytes → Option ℕ → Tx mq → Sent × Tx mq
  claim_at p none s = (err_mem, s)
  claim_at p (some i) s =
      (not_yet, record s { used = update s.used i true; producer = claimed i p })

  -- `send_frame` up to a claimed slot, for a frame of these bytes.
  unfoldable pub claim : Bytes → Tx mq → Sent × Tx mq
  unfolding claim_at
  claim p s =
      if ltb frame_max (length p) then (err_buf, s) else claim_at p (find_slot tx_slots 0 s.used) s

  -- `pbuf_copy_partial`; `whole` says that it copies as many bytes as are asked for.
  unfoldable pub copy : Bool → ℕ → Bytes → Tx mq → Sent × Tx mq
  copy false i p s = (err_buf, free i s)
  copy true i p s =
      (not_yet, record s { pool = update s.pool i (overwrite p (s.pool i)); producer = copied i p })

  unfoldable pub posted : ℕ → Bool × mq.Q → Tx mq → Sent × Tx mq
  posted i (true, q) s = (err_ok, record s { queue = q; producer = idle })
  posted i (false, q) s = (err_mem, record (free i s) { queue = q })

  -- `OSSendMessage`, and the end of `send_frame`.
  unfoldable pub post : ℕ → Bytes → Tx mq → Sent × Tx mq
  unfolding posted
  post i p s = posted i (mq.send (message i p) s.queue) s

  unfoldable pub taken : Option (Message × mq.Q) → Tx mq → Tx mq
  taken none s = s
  taken (some (m, q)) s = record s { queue = q; consumer = some m }

  -- `OSReceiveMessage` in `drain_tx`.
  unfoldable pub receive : Tx mq → Tx mq
  unfolding taken
  receive s = taken (mq.receive s.queue) s

  -- The slot of a message is free again, sent or not.
  unfoldable pub release : Message → Tx mq → Tx mq
  release m s = record s { used = update s.used m.slot false; consumer = none }
